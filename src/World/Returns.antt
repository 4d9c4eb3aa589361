-- ===== src/World/Returns.antt =====
-- Total correctness: an operation returns, without an exception, and what it returns and leaves
-- meets a condition. There is a rule for each way to build an operation.
use amp_cucumber_cpp_runner.Prelude.{◌≡◌, refl, Bool, true, false, Option, some, if◌then◌else◌}
use amp_cucumber_cpp_runner.Platform.{Platform}
use amp_cucumber_cpp_runner.Messages.{Envelope}
use amp_cucumber_cpp_runner.World.{
  broadcast, next_id, World, Result, ok, err, M, pure, at, value, deref, and_then, ◌>>=◌,
}
use amp_cucumber_cpp_runner.World.Keeps.{Keeps}

module _ {P : Platform} {A : Type 0} where
  abbrev pub Returns : (A → World P → Type 0) → Result A × World P → Type 0
  Returns Q (ok a, v) = Q a v
  Returns Q (err e, v) = ⊥

  -- From any state, the operation returns.
  pub record Succeeds (m : M P A) : Type 0 where
    pub from : (w : World P) → Returns (λ a v. Unit) (m w)

  pub pure-Returns :
      (Q : A → World P → Type 0) (a : A) (w : World P) → Q a w → Returns Q (pure {P = P} a w)
  unfolding pure
  pure-Returns Q a w q = q

  pub if-Returns :
      (Q : A → World P → Type 0) (b : Bool) (m k : M P A) (w : World P)
      → Returns Q (m w)
      → Returns Q (k w)
      → Returns Q ((if b then m else k) w)
  if-Returns Q true m k w hm hk = hm
  if-Returns Q false m k w hm hk = hk

  pub pure-Succeeds : (a : A) → Succeeds (pure {P = P} a)
  unfolding pure
  pure-Succeeds a = record { from = λ w. tt }

  pub at-Succeeds : (o : Option A) (a : A) → o ≡ some a → Succeeds (at {P = P} o)
  unfolding at
  at-Succeeds o a h = rw h (record { from = λ w. tt })

  pub value-Succeeds : (o : Option A) (a : A) → o ≡ some a → Succeeds (value {P = P} o)
  unfolding value
  value-Succeeds o a h = rw h (record { from = λ w. tt })

  pub deref-Succeeds : (o : Option A) (a : A) → o ≡ some a → Succeeds (deref {P = P} o)
  unfolding deref
  deref-Succeeds o a h = rw h (record { from = λ w. tt })

  pub if-Succeeds :
      (b : Bool) (m k : M P A) → Succeeds m → Succeeds k → Succeeds (if b then m else k)
  if-Succeeds true m k hm hk = hm
  if-Succeeds false m k hm hk = hk

  both :
      (R : World P → World P → Type 0) (w : World P) (r : Result A) (v : World P)
      → R w v
      → Returns (λ a u. Unit) (r, v)
      → Returns (λ a u. R w u) (r, v)
  both R w (ok a) v h s = h
  both R w (err e) v h s = s

  -- An operation that returns, and that keeps a relation, returns to a related state.
  pub Returns-Keeps :
      {R : World P → World P → Type 0} (m : M P A) (w : World P)
      → Keeps R m
      → Succeeds m
      → Returns (λ a v. R w v) (m w)
  Returns-Keeps {R} m w k s = both R w (m w).0 (m w).1 (k.from w) (s.from w)

  pub Returns-mono :
      (Q S : A → World P → Type 0) (r : Result A) (w : World P)
      → Returns Q (r, w)
      → ((a : A) (v : World P) → Q a v → S a v)
      → Returns S (r, w)
  Returns-mono Q S (ok a) w h f = f a w h
  Returns-mono Q S (err e) w h f = h

  pub Keeps→Returns :
      {R : World P → World P → Type 0} (Q : A → World P → Type 0) (m : M P A) (w : World P)
      → Keeps R m
      → Succeeds m
      → ((a : A) (v : World P) → R w v → Q a v)
      → Returns Q (m w)
  Keeps→Returns {R} Q m w k s f =
      Returns-mono (λ a v. R w v) Q (m w).0 (m w).1 (Returns-Keeps m w k s) f

module _ {P : Platform} {A B : Type 0} where
  and_then-Returns :
      (Q : A → World P → Type 0) (S : B → World P → Type 0) (r : Result A) (v : World P)
      (f : A → M P B)
      → Returns Q (r, v)
      → ((a : A) (u : World P) → Q a u → Returns S (f a u))
      → Returns S (and_then r f v)
  and_then-Returns Q S (ok a) v f h k = k a v h
  and_then-Returns Q S (err e) v f h k = absurd h

  pub >>=-Returns :
      (Q : A → World P → Type 0) (S : B → World P → Type 0) (m : M P A) (f : A → M P B)
      (w : World P)
      → Returns Q (m w)
      → ((a : A) (u : World P) → Q a u → Returns S (f a u))
      → Returns S ((m >>= f) w)
  unfolding ◌>>=◌
  >>=-Returns Q S m f w h k = and_then-Returns Q S (m w).0 (m w).1 f h k

  pub >>=-Succeeds :
      (m : M P A) (f : A → M P B) → Succeeds m → ((a : A) → Succeeds (f a)) → Succeeds (m >>= f)
  >>=-Succeeds m f hm hf = record {
    from = λ w. >>=-Returns (λ a v. Unit) (λ b v. Unit) m f w (hm.from w) (λ a u t. (hf a).from u);
  }

  -- The rest of a block may use which value a look-up yields.
  pub at->>=-Succeeds :
      (o : Option A) (a : A) (f : A → M P B) → o ≡ some a → Succeeds (f a) → Succeeds (at o >>= f)
  unfolding ◌>>=◌
  at->>=-Succeeds o a f h s = rw h (record { from = s.from })

  pub value->>=-Succeeds :
      (o : Option A) (a : A) (f : A → M P B)
      → o ≡ some a
      → Succeeds (f a)
      → Succeeds (value o >>= f)
  unfolding ◌>>=◌
  value->>=-Succeeds o a f h s = rw h (record { from = s.from })

  pub deref->>=-Succeeds :
      (o : Option A) (a : A) (f : A → M P B)
      → o ≡ some a
      → Succeeds (f a)
      → Succeeds (deref o >>= f)
  unfolding ◌>>=◌
  deref->>=-Succeeds o a f h s = rw h (record { from = s.from })

  pub deref->>=-Returns :
      (Q : B → World P → Type 0) (o : Option A) (a : A) (f : A → M P B) (w : World P)
      → o ≡ some a
      → Returns Q (f a w)
      → Returns Q ((deref o >>= f) w)
  unfolding ◌>>=◌
  deref->>=-Returns Q o a f w h r = rw h r

module _ {P : Platform} {A : Type 0} where
  -- What an operation returns meets two conditions if it meets each.
  pub Returns-both :
      (Q S : A → World P → Type 0) (r : Result A) (v : World P)
      → Returns Q (r, v)
      → Returns S (r, v)
      → Returns (λ a u. Q a u × S a u) (r, v)
  Returns-both Q S (ok a) v q s = (q, s)
  Returns-both Q S (err e) v q s = q

  pub Returns-weaken :
      (Q S : A → World P → Type 0) (m : M P A) (w : World P)
      → Returns Q (m w)
      → ((a : A) (v : World P) → Q a v → S a v)
      → Returns S (m w)
  Returns-weaken Q S m w h f = Returns-mono Q S (m w).0 (m w).1 h f

module _ {P : Platform} where
  pub broadcast-Succeeds : (e : Envelope) → Succeeds (broadcast {P = P} e)
  unfolding broadcast
  broadcast-Succeeds e = record { from = λ w. tt }

  pub next_id-Succeeds : Succeeds (next_id {P = P})
  unfolding next_id
  next_id-Succeeds = record { from = λ w. tt }

module _ {P : Platform} {A : Type 0} where
  -- What an operation returns, as an equation
  pub Returns→ok :
      (Q : A → World P → Type 0) (r : Result A) (v : World P)
      → Returns Q (r, v)
      → (a : A) × (r ≡ ok a) × Q a v
  Returns→ok Q (ok a) v h = (a, refl, h)
  Returns→ok Q (err e) v h = absurd h
