-- ===== src/Application/Laws.antt =====
-- The files that are run, and the exit code.
use Prim.Native.Nat as Nat
use mathlib.Core.Path.{subst}
use amp_cucumber_cpp_runner.Prelude.{
  ℕ, ◌≡◌, ◌↔◌, refl, sym, String, Bool, true, false, List, [], ◌∷◌, All, Bool-cases, inl, inr,
  eq_iff, ◌&&◌, arith, if◌then◌else◌,
}
use amp_cucumber_cpp_runner.Platform.{Platform}
use amp_cucumber_cpp_runner.World.{
  World, Result, ok, err, invalid_argument, global_hook_error, expression_error,
  tag_expression_error, out_of_range, bad_optional_access, undefined_behaviour, M, pure, and_then,
  caught_as, catch_all, ◌>>=◌,
}
use amp_cucumber_cpp_runner.Support.DefinitionRegistration.{DefinitionRegistration}
use amp_cucumber_cpp_runner.Plugin.ParameterLoader.{ParameterLibrary}
use amp_cucumber_cpp_runner.Api.RunCucumber.{Libraries}
use amp_cucumber_cpp_runner.Application.{
  FileSystem, Options, is_feature_file, add_file, add_feature_files, collect_files,
  get_feature_files, exit_code, run_passed, run_features, run_application,
}

module _ (files : FileSystem) where
  abbrev pub IsFeature : String → Type 0
  IsFeature path = (files.is_regular_file path ≡ true) × (files.extension path ≡ ".feature")

  is_feature_file-IsFeature : (path : String) → is_feature_file files path ≡ true → IsFeature path
  is_feature_file-IsFeature path h =
      let (regular, extension) = both _ _ h in
      (regular, (eq_iff (files.extension path) ".feature").0 extension)
    where
      both : (a b : Bool) → (a && b) ≡ true → (a ≡ true) × (b ≡ true)
      both a b e = (ground (arith, e), ground (arith, e))

  add_file-All :
      (path : String) (found : List String)
      → IsFeature path
      → All IsFeature found
      → All IsFeature (add_file files path found)
  unfolding add_file
  add_file-All path [] h hs = (h, tt)
  add_file-All path (file ∷ found) h (g, gs) =
      elim (files.compare_paths path file)
        as (λ o. All IsFeature (elim o [
          | Nat.Ordering.lt ↦ path ∷ file ∷ found
          | Nat.Ordering.eq ↦ file ∷ found
          | Nat.Ordering.gt ↦ file ∷ add_file files path found
        ])) [
          | Nat.Ordering.lt ↦ (h, (g, gs))
          | Nat.Ordering.eq ↦ (g, gs)
          | Nat.Ordering.gt ↦ (g, add_file-All path found h gs)
        ]

  add_feature_files-All :
      (paths found : List String)
      → All IsFeature found
      → All IsFeature (add_feature_files files paths found)
  unfolding add_feature_files
  add_feature_files-All [] found hs = hs
  add_feature_files-All (path ∷ paths) found hs = elim (Bool-cases (is_feature_file files path)) [
    | inl feature ↦ rw feature (
        add_feature_files-All paths _
          (add_file-All path found (is_feature_file-IsFeature path feature) hs))
    | inr other ↦ rw other (add_feature_files-All paths found hs)
  ]

  collect_files-All :
      (options : Options) (paths found : List String)
      → All IsFeature found
      → All IsFeature (collect_files files options paths found)
  unfolding collect_files
  collect_files-All options [] found hs = hs
  collect_files-All options (path ∷ paths) found hs = elim (Bool-cases (files.is_directory path)) [
    | inl folder ↦ rw folder (
        collect_files-All options paths _ (
          add_feature_files-All
            (if options.recursive then files.recursive_entries path else files.entries path) found
            hs))
    | inr file ↦
        rw file (collect_files-All options paths _ (add_feature_files-All (path ∷ []) found hs))
  ]

module _ (files : FileSystem) where
  -- Every file that `GetFeatureFiles` finds is a regular file with the extension `.feature`.
  pub get_feature_files-All :
      (options : Options) → All (IsFeature files) (get_feature_files files options)
  unfolding get_feature_files
  get_feature_files-All options = collect_files-All files options options.paths [] tt

catch-if :
    {P : Platform} (b : Bool) (m k : M P ℕ) (w : World P)
    → b ≡ false
    → catch_all (if b then m else k) 1 w ≡ catch_all k 1 w
catch-if b m k w h = rw h refl

exit-cases :
    {P : Platform} (r : Result Bool) (v : World P)
    → let (s, u) = and_then r (λ passed. pure (exit_code passed)) v in
      ((caught_as 1 s u).0 ≡ ok 0) ↔ (r ≡ ok true)
unfolding ◌>>=◌
exit-cases (ok true) v = (λ e. refl, λ e. refl)
exit-cases (ok false) v = (λ e. ground (arith, e), λ e. cc e)
exit-cases (err undefined_behaviour) v = (λ e. cc e, λ e. cc e)
exit-cases (err (invalid_argument text)) v = (λ e. ground (arith, e), λ e. cc e)
exit-cases (err (global_hook_error text)) v = (λ e. ground (arith, e), λ e. cc e)
exit-cases (err (expression_error text)) v = (λ e. ground (arith, e), λ e. cc e)
exit-cases (err tag_expression_error) v = (λ e. ground (arith, e), λ e. cc e)
exit-cases (err out_of_range) v = (λ e. ground (arith, e), λ e. cc e)
exit-cases (err bad_optional_access) v = (λ e. ground (arith, e), λ e. cc e)

module _ {P : Platform} (files : FileSystem) (L : Libraries) (depth : ℕ)
    (parameters : ParameterLibrary) (registration : DefinitionRegistration P) where
  -- Without `--list-scenarios` the exit code is that of success exactly if the run has passed: a
  -- run that fails, and one that ends by an exception, exit otherwise.
  pub run_application-passed :
      (options : Options) (w : World P)
      → options.list_scenarios ≡ false
      → ((run_application files L depth parameters registration options w).0 ≡ ok 0)
        ↔ ((run_passed files L depth parameters registration options w).0 ≡ ok true)
  unfolding run_application run_features ◌>>=◌
  run_application-passed options w h =
      let (r, v) = run_passed files L depth parameters registration options w in
      subst
        (λ p.
          (p.0 ≡ ok 0) ↔ ((run_passed files L depth parameters registration options w).0 ≡ ok true))
        (sym (catch-if options.list_scenarios _ _ w h)) (exit-cases r v)
