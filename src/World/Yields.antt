-- ===== src/World/Yields.antt =====
-- Operations that respect a relation on worlds, and whose answer, where there is one, meets a
-- condition.
use amp_cucumber_cpp_runner.Prelude.{Bool, true, false, if◌then◌else◌}
use amp_cucumber_cpp_runner.Platform.{Platform}
use amp_cucumber_cpp_runner.World.{World, Error, Result, ok, err, M, pure, throw, and_then, ◌>>=◌}
use amp_cucumber_cpp_runner.World.Keeps.{IsPreorder, Keeps}

abbrev pub OnOk : {A : Type 0} → (A → Type 0) → Result A → Type 0
OnOk Q (ok a) = Q a
OnOk Q (err e) = Unit

pub record Yields {P : Platform} {A : Type 0} (R : World P → World P → Type 0) (Q : A → Type 0)
    (m : M P A) : Type 0 where
  pub from : (w : World P) → R w (m w).1 × OnOk Q (m w).0

always : {A : Type 0} (r : Result A) → OnOk (λ a. Unit) r
always (ok a) = tt
always (err e) = tt

module _ {P : Platform} {R : World P → World P → Type 0} {A : Type 0} where
  -- An operation yields what every answer meets.
  pub Keeps→Yields : (m : M P A) → Keeps R m → Yields R (λ a. Unit) m
  Keeps→Yields m h = record { from = λ w. (h.from w, always (m w).0) }

  pub Yields→Keeps : (Q : A → Type 0) (m : M P A) → Yields R Q m → Keeps R m
  Yields→Keeps Q m h = record { from = λ w. (h.from w).0 }

  pub if-Yields :
      (Q : A → Type 0) (b : Bool) (m k : M P A)
      → Yields R Q m
      → Yields R Q k
      → Yields R Q (if b then m else k)
  if-Yields Q true m k hm hk = hm
  if-Yields Q false m k hm hk = hk

  pub pure-Yields : IsPreorder R → (Q : A → Type 0) (a : A) → Q a → Yields R Q (pure {P = P} a)
  unfolding pure
  pure-Yields pre Q a q = record { from = λ w. (pre.same w, q) }

  pub throw-Yields : IsPreorder R → (Q : A → Type 0) (e : Error) → Yields R Q (throw {P = P} e)
  unfolding throw
  throw-Yields pre Q e = record { from = λ w. (pre.same w, tt) }

module _ {P : Platform} {R : World P → World P → Type 0} (pre : IsPreorder R) {A B : Type 0} where
  and_then-Yields :
      (Q : A → Type 0) (S : B → Type 0) (w : World P) (r : Result A) (v : World P) (f : A → M P B)
      → R w v
      → OnOk Q r
      → ((a : A) → Q a → Yields R S (f a))
      → R w (and_then r f v).1 × OnOk S (and_then r f v).0
  and_then-Yields Q S w (ok a) v f h q k =
      (pre.trans w v _ h ((k a q).from v).0, ((k a q).from v).1)
  and_then-Yields Q S w (err e) v f h q k = (h, tt)

  pub >>=-Yields :
      (Q : A → Type 0) (S : B → Type 0) (m : M P A) (f : A → M P B)
      → Yields R Q m
      → ((a : A) → Q a → Yields R S (f a))
      → Yields R S (m >>= f)
  unfolding ◌>>=◌
  >>=-Yields Q S m f hm hf = record {
    from = λ w. and_then-Yields Q S w (m w).0 (m w).1 f (hm.from w).0 (hm.from w).1 hf;
  }

  -- After an operation about whose answer nothing need be known.
  pub >>-Yields :
      (S : B → Type 0) (m : M P A) (f : A → M P B)
      → Keeps R m
      → ((a : A) → Yields R S (f a))
      → Yields R S (m >>= f)
  >>-Yields S m f hm hf = >>=-Yields (λ a. Unit) S m f (Keeps→Yields m hm) λ a t. hf a
