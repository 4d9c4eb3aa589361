-- ===== src/World.antt =====
-- The state that the runner's operations share, and the monad that threads it. A thrown exception
-- leaves the state as it was when it was thrown.
pub mod Keeps
pub mod Returns
pub mod Yields
pub mod Isolation
use amp_cucumber_cpp_runner.Prelude.{
  ℕ, suc, ◌≡◌, refl, ◌⊎◌, inl, inr, String, ◌+◌, Bool, true, false, Option, none, some, List, [],
  ◌∷◌, ◌++◌,
}
use amp_cucumber_cpp_runner.Messages.{Envelope}
use amp_cucumber_cpp_runner.Context.{Context, enter, leave}
use amp_cucumber_cpp_runner.Platform.{Platform}

pub record World (P : Platform) : Type 0 where
  -- what `Broadcaster::BroadcastEvent` has sent to the listeners, oldest first
  pub events : List Envelope
  -- how many ids the generator has issued, and how many measurements the stopwatch has made
  pub issued : ℕ
  pub measured : ℕ
  -- the innermost context that is alive
  pub context : Context P.Value
  pub user : P.User

-- The exceptions that reach the runner's own code. Undefined behaviour is no exception, and no
-- handler catches it.
pub data Error : Type 0 where
  invalid_argument global_hook_error expression_error : String → Error
  tag_expression_error out_of_range bad_optional_access undefined_behaviour : Error

pub data Result {ℓ} (A : Type ℓ) : Type ℓ where
  ok : A → Result A
  err : Error → Result A

pub Result-cases {ℓ} :
    {A : Type ℓ} (r : Result A) → ((a : A) × (r ≡ ok a)) ⊎ ((e : Error) × (r ≡ err e))
Result-cases (ok a) = inl (a, refl)
Result-cases (err e) = inr (e, refl)

pub ok-injective {ℓ} : {A : Type ℓ} {a b : A} → ok a ≡ ok b → a ≡ b
ok-injective h = cc h

abbrev pub M : Platform → Type 0 → Type 0
M P A = World P → Result A × World P

abbrev pub caught_as : {P : Platform} {A : Type 0} → A → Result A → World P → Result A × World P
caught_as handler (ok a) w = (ok a, w)
caught_as handler (err undefined_behaviour) w = (err undefined_behaviour, w)
caught_as handler (err _) w = (ok handler, w)

module _ {P : Platform} {A : Type 0} where
  pub pure : A → M P A
  pure a w = (ok a, w)

  pub throw : Error → M P A
  throw e w = (err e, w)

  -- `try { m } catch (...) { handler }`
  pub catch_all : M P A → A → M P A
  catch_all m handler w = let (r, w') = m w in caught_as handler r w'

  -- `std::map::at`
  pub at : Option A → M P A
  unfolding throw pure
  at none = throw out_of_range
  at (some a) = pure a

  -- `std::optional::value`
  pub value : Option A → M P A
  unfolding throw pure
  value none = throw bad_optional_access
  value (some a) = pure a

  -- The dereference of an optional, of an iterator, or `front()`.
  pub deref : Option A → M P A
  unfolding throw pure
  deref none = throw undefined_behaviour
  deref (some a) = pure a

abbrev pub and_then : {P : Platform} {A B : Type 0} → Result A → (A → M P B) → M P B
and_then (ok a) f w = f a w
and_then (err e) f w = (err e, w)

infixl 5 ◌>>=◌ ◌>>◌
-- To open this is to open the monad.
unfoldable pub ◌>>=◌ : {P : Platform} {A B : Type 0} → M P A → (A → M P B) → M P B
unfolding pure throw catch_all at value deref
◌>>=◌ m f w = let (r, w') = m w in and_then r f w'

abbrev pub ◌>>◌ : {P : Platform} {A B : Type 0} → M P A → M P B → M P B
m >> k = m >>= λ _. k

-- `Broadcaster::BroadcastEvent`: every listener is given the envelope.
unfoldable pub broadcast : {P : Platform} → Envelope → M P (Unit {0})
broadcast e w = (ok tt, record w { events = w.events ++ (e ∷ []) })

-- `IdGenerator::NextId`
unfoldable pub next_id : {P : Platform} → M P String
next_id {P} w = (ok (P.id_of w.issued), record w { issued = w.issued + 1 })

-- `Context inner{ &outer };` for the rest of a block, whose end destroys it however it is left.
unfoldable pub with_context : {P : Platform} {A : Type 0} → M P A → M P A
with_context m w =
    let (r, w') = m (record w { context = enter w.context }) in
    (r, record w' { context = leave w'.context })
