-- ===== src/Context/Layers.antt =====
-- What a context promises: a stack of functions from keys to values (cucumber_cpp/library/Context.hpp).
use amp_cucumber_cpp_runner.Prelude.{
  String, ◌≡◌, refl, ◌∙◌, ap, true, false, Option, none, some, List, [], ◌∷◌, arith, str_eq,
  if◌then◌else◌,
}
use mathlib.Core.Path.{fun_ext}
use amp_cucumber_cpp_runner.Context.{
  Entries, Context, root, child, find, erase_if, contains, get, erase, assign, enter, leave,
}
use amp_cucumber_cpp_runner.Context.Laws.{find-erase_if, contains-eq-get}

-- What a client does with a context: `enter` and `leave` are the life of an inner one.
pub data Call {ℓ} (V : Type ℓ) : Type ℓ where
  assign_key : String → V → Call V
  erase_key : String → Call V
  enter_inner leave_inner : Call V

-- The innermost layer, and those above it
abbrev pub Layers {ℓ} : Type ℓ → Type ℓ
Layers V = (String → Option V) × List (String → Option V)

module _ {ℓ} {V : Type ℓ} where
  unfoldable pub run_calls : List (Call V) → Context V → Context V
  run_calls [] c = c
  run_calls (assign_key key v ∷ calls) c = run_calls calls (assign key v c)
  run_calls (erase_key key ∷ calls) c = run_calls calls (erase key c)
  run_calls (enter_inner ∷ calls) c = run_calls calls (enter c)
  run_calls (leave_inner ∷ calls) c = run_calls calls (leave c)

  -- A function, changed at one key
  abbrev pub update : String → Option V → (String → Option V) → String → Option V
  update key v layer k = if str_eq key k then v else layer k

  abbrev pub leave_layer : Layers V → Layers V
  leave_layer (f, []) = (f, [])
  leave_layer (f, g ∷ rest) = (g, rest)

  -- The same calls, on the layers
  unfoldable pub replay : List (Call V) → Layers V → Layers V
  replay [] l = l
  replay (assign_key key v ∷ calls) l = replay calls (update key (some v) l.0, l.1)
  replay (erase_key key ∷ calls) l = replay calls (update key none l.0, l.1)
  replay (enter_inner ∷ calls) l = replay calls ((λ k. none), l.0 ∷ l.1)
  replay (leave_inner ∷ calls) l = replay calls (leave_layer l)

  -- The value of the innermost layer that has one
  unfoldable pub first_value : String → List (String → Option V) → Option V
  first_value key [] = none
  first_value key (layer ∷ layers) = elim (layer key) [
    | some v ↦ some v
    | none ↦ first_value key layers
  ]

  abbrev pub entries_layer : Entries V → String → Option V
  entries_layer entries key = find key entries

  abbrev pub own_layer : Context V → String → Option V
  own_layer (root entries) = entries_layer entries
  own_layer (child entries parent) = entries_layer entries

  -- The layers that a context represents
  abbrev pub outer_layers : Context V → List (String → Option V)
  outer_layers (root entries) = []
  outer_layers (child entries parent) = own_layer parent ∷ outer_layers parent

  abbrev pub layers_of : Context V → Layers V
  layers_of c = (own_layer c, outer_layers c)

  abbrev pub lookup_layers : String → Layers V → Option V
  lookup_layers key l = first_value key (l.0 ∷ l.1)

  layer-erase :
      (key : String) (entries : Entries V)
      → entries_layer (erase_if key entries) ≡ update key none (entries_layer entries)
  layer-erase key entries = fun_ext λ k. find-erase_if key k entries

  layer-assign :
      (key : String) (v : V) (entries : Entries V)
      → entries_layer ((key, v) ∷ erase_if key entries)
        ≡ update key (some v) (entries_layer entries)
  unfolding find
  layer-assign key v entries = fun_ext λ k. ground (arith, find-erase_if key k entries)

  layers-assign :
      (key : String) (v : V) (c : Context V)
      → layers_of (assign key v c) ≡ (update key (some v) (own_layer c), outer_layers c)
  unfolding assign
  layers-assign key v (root entries) = ap (λ f. (f, [])) (layer-assign key v entries)
  layers-assign key v (child entries parent) =
      ap (λ f. (f, outer_layers (child entries parent))) (layer-assign key v entries)

  layers-erase :
      (key : String) (c : Context V)
      → layers_of (erase key c) ≡ (update key none (own_layer c), outer_layers c)
  unfolding erase
  layers-erase key (root entries) = ap (λ f. (f, [])) (layer-erase key entries)
  layers-erase key (child entries parent) =
      ap (λ f. (f, outer_layers (child entries parent))) (layer-erase key entries)

  layers-leave : (c : Context V) → layers_of (leave c) ≡ leave_layer (layers_of c)
  layers-leave (root entries) = refl
  layers-leave (child entries parent) = refl

  layers-enter : (c : Context V) → layers_of (enter c) ≡ ((λ k. none), own_layer c ∷ outer_layers c)
  unfolding find
  layers-enter c = refl

  layers-run :
      (calls : List (Call V)) (c : Context V)
      → layers_of (run_calls calls c) ≡ replay calls (layers_of c)
  unfolding run_calls replay
  layers-run [] c = refl
  layers-run (assign_key key v ∷ calls) c =
      layers-run calls (assign key v c) ∙ ap (replay calls) (layers-assign key v c)
  layers-run (erase_key key ∷ calls) c =
      layers-run calls (erase key c) ∙ ap (replay calls) (layers-erase key c)
  layers-run (enter_inner ∷ calls) c =
      layers-run calls (enter c) ∙ ap (replay calls) (layers-enter c)
  layers-run (leave_inner ∷ calls) c =
      layers-run calls (leave c) ∙ ap (replay calls) (layers-leave c)

  get-layers :
      (key : String) (c : Context V) → get key c ≡ first_value key (own_layer c ∷ outer_layers c)
  unfolding get first_value
  get-layers key (root entries) = ground arith
  get-layers key (child entries parent) = ground (arith, get-layers key parent)

  -- After any sequence of calls, inner contexts that come and go among them, a context yields at
  -- each key what the same calls leave in a stack of functions: the value of the innermost one that
  -- has a value there, and it throws `KeyNotFound` if none has. `Contains` answers whether it yields
  -- one.
  pub get-run_calls :
      (calls : List (Call V)) (c : Context V) (key : String)
      → (get key (run_calls calls c) ≡ lookup_layers key (replay calls (layers_of c)))
        × (contains key (run_calls calls c)
            ≡ elim (lookup_layers key (replay calls (layers_of c))) [
              | some _ ↦ true
              | none ↦ false
            ])
  get-run_calls calls c key =
      let answer : get key (run_calls calls c) ≡ lookup_layers key (replay calls (layers_of c)) =
        get-layers key (run_calls calls c) ∙ ap (lookup_layers key) (layers-run calls c) in
      (
        answer,
        contains-eq-get key (run_calls calls c)
            ∙ ap (λ v. elim v [ some _ ↦ true | none ↦ false ]) answer,
      )
