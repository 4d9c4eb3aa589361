-- ===== src/World/Keeps.antt =====
-- A logic for what operations leave alone: a preorder on worlds that every step of an operation
-- respects is respected by the operation. There is a rule for each way to build one.
use amp_cucumber_cpp_runner.Prelude.{Bool, true, false, Option, none, some, if◌then◌else◌}
use amp_cucumber_cpp_runner.Platform.{Platform}
use amp_cucumber_cpp_runner.World.{
  World, Error, Result, ok, err, M, pure, throw, at, value, deref, and_then, ◌>>=◌, catch_all,
  caught_as, undefined_behaviour,
}

pub record IsPreorder {P : Platform} (R : World P → World P → Type 0) : Type 0 where
  pub same : (w : World P) → R w w
  pub trans : (u v w : World P) → R u v → R v w → R u w

-- From any state, whether it returns or throws, the operation leaves a related state.
pub record Keeps {P : Platform} {A : Type 0} (R : World P → World P → Type 0) (m : M P A)
    : Type 0 where
  pub from : (w : World P) → R w (m w).1

module _ {P : Platform} {R : World P → World P → Type 0} (pre : IsPreorder R) {A : Type 0} where
  pub pure-Keeps : (a : A) → Keeps R (pure {P = P} a)
  unfolding pure
  pure-Keeps a = record { from = pre.same }

  pub throw-Keeps : (e : Error) → Keeps R (throw {P = P} {A = A} e)
  unfolding throw
  throw-Keeps e = record { from = pre.same }

  pub at-Keeps : (o : Option A) → Keeps R (at {P = P} o)
  unfolding at
  at-Keeps none = record { from = pre.same }
  at-Keeps (some a) = record { from = pre.same }

  pub value-Keeps : (o : Option A) → Keeps R (value {P = P} o)
  unfolding value
  value-Keeps none = record { from = pre.same }
  value-Keeps (some a) = record { from = pre.same }

  pub deref-Keeps : (o : Option A) → Keeps R (deref {P = P} o)
  unfolding deref
  deref-Keeps none = record { from = pre.same }
  deref-Keeps (some a) = record { from = pre.same }

  pub if-Keeps : (b : Bool) (m k : M P A) → Keeps R m → Keeps R k → Keeps R (if b then m else k)
  if-Keeps true m k hm hk = hm
  if-Keeps false m k hm hk = hk

  pub elim_Option-Keeps :
      {C : Type 0} (o : Option C) (m : M P A) (f : C → M P A)
      → Keeps R m
      → ((c : C) → Keeps R (f c))
      → Keeps R (elim o [ none ↦ m | some c ↦ f c ])
  elim_Option-Keeps none m f hm hf = hm
  elim_Option-Keeps (some c) m f hm hf = hf c

  caught_as-Keeps : (a : A) (r : Result A) (w v : World P) → R w v → R w (caught_as a r v).1
  caught_as-Keeps a (ok b) w v h = h
  caught_as-Keeps a (err undefined_behaviour) w v h = h
  caught_as-Keeps a (err _) w v h = h

  pub catch_all-Keeps : (m : M P A) (a : A) → Keeps R m → Keeps R (catch_all m a)
  unfolding catch_all
  catch_all-Keeps m a h = record { from = λ w. caught_as-Keeps a (m w).0 w (m w).1 (h.from w) }

module _ {P : Platform} {R : World P → World P → Type 0} (pre : IsPreorder R) {A B : Type 0} where
  and_then-Keeps :
      (w : World P) (r : Result A) (v : World P) (f : A → M P B)
      → R w v
      → ((a : A) → Keeps R (f a))
      → R w (and_then r f v).1
  and_then-Keeps w (ok a) v f h k = pre.trans w v (f a v).1 h ((k a).from v)
  and_then-Keeps w (err e) v f h k = h

  pub >>=-Keeps :
      (m : M P A) (f : A → M P B) → Keeps R m → ((a : A) → Keeps R (f a)) → Keeps R (m >>= f)
  unfolding ◌>>=◌
  >>=-Keeps m f hm hf = record { from = λ w. and_then-Keeps w (m w).0 (m w).1 f (hm.from w) hf }

pub ruleset keeps_rules = (
  pure-Keeps, throw-Keeps, at-Keeps, value-Keeps, deref-Keeps, if-Keeps, elim_Option-Keeps,
  catch_all-Keeps, >>=-Keeps,
)
