-- ===== src/Support/ParameterMap/Sorting.antt =====
-- The order of a parameter map's keys.
use Prim.Native.String.{len}
use mathlib.Core.List.Perm
use mathlib.Core.List.{Perm}
use amp_cucumber_cpp_runner.Prelude.{
  ◌≤◌, String, List, [], ◌∷◌, All, All-mono, Bool-cases, inl, inr, ltb, ltb→lt, ltb-false→le, arith,
}
use amp_cucumber_cpp_runner.Support.ParameterMap.{insert_key, sort_keys}

-- No key is longer than one in front of it.
abbrev pub LongestFirst : List String → Type 0
LongestFirst [] = Unit
LongestFirst (k ∷ keys) = All (λ j. len j ≤ len k) keys × LongestFirst keys

insert_key-Perm : (key : String) (keys : List String) → Perm (insert_key key keys) (key ∷ keys)
unfolding insert_key
insert_key-Perm key [] = Perm.refl _
insert_key-Perm key (k ∷ keys) = elim (Bool-cases (ltb (len key) (len k))) [
  | inl shorter ↦
      rw shorter (Perm.trans (Perm.cons k (insert_key-Perm key keys)) (Perm.swap key k keys))
  | inr other ↦ rw other (Perm.refl _)
]

All-insert_key :
    (Q : String → Type 0) (key : String) (keys : List String)
    → Q key
    → All Q keys
    → All Q (insert_key key keys)
unfolding insert_key
All-insert_key Q key [] h hs = (h, tt)
All-insert_key Q key (k ∷ keys) h (q, qs) = elim (Bool-cases (ltb (len key) (len k))) [
  | inl shorter ↦ rw shorter (q, All-insert_key Q key keys h qs)
  | inr other ↦ rw other (h, (q, qs))
]

insert_key-LongestFirst :
    (key : String) (keys : List String) → LongestFirst keys → LongestFirst (insert_key key keys)
unfolding insert_key
insert_key-LongestFirst key [] h = (tt, tt)
insert_key-LongestFirst key (k ∷ keys) (below, rest) = elim (Bool-cases (ltb (len key) (len k))) [
  | inl shorter ↦
      let less = ltb→lt _ _ shorter in
      rw shorter (
        All-insert_key (λ j. len j ≤ len k) key keys (omega (arith, less)) below,
        insert_key-LongestFirst key keys rest,
      )
  | inr other ↦
      let more = ltb-false→le _ _ other in
      rw other ((more, All-mono _ _ keys (λ j h. omega (arith, h, more)) below), (below, rest))
]

-- The sorted keys are the given ones, longer keys in front of shorter ones.
pub sort_keys-LongestFirst :
    (keys : List String) → Perm (sort_keys keys) keys × LongestFirst (sort_keys keys)
unfolding sort_keys
sort_keys-LongestFirst [] = (Perm.refl _, tt)
sort_keys-LongestFirst (k ∷ keys) =
    let (perm, order) = sort_keys-LongestFirst keys in
    (
      Perm.trans (insert_key-Perm k (sort_keys keys)) (Perm.cons k perm),
      insert_key-LongestFirst k (sort_keys keys) order,
    )
