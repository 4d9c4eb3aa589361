-- ===== src/Plugin/Register.antt =====
-- `ccr_register` (cucumber_cpp/library/plugin/PluginRegister.cpp), which the host calls in a plugin
-- that it has opened.
use amp_cucumber_cpp_runner.Prelude.{
  ℕ, String, Bool, true, false, Option, none, some, List, [], ◌∷◌, ◌++◌, ◌==◌, ltb, if◌then◌else◌,
}
use amp_cucumber_cpp_runner.Platform.{Platform}
use amp_cucumber_cpp_runner.Support.DefinitionRegistration.{register_plugin}
use amp_cucumber_cpp_runner.Plugin.Process.{Expressions, Image, Process, Redirection, plugin_of}

-- `PluginHostContext`: an address of an object of the host's, or none for a null pointer
pub record PluginHostContext : Type 0 where
  pub abi_version : ℕ
  pub struct_size : ℕ
  pub registration : Option ℕ
  pub stopwatch : Option ℕ
  pub timestamp_generator : Option ℕ
  pub converter_map : Option ℕ

-- The plugin's converters, put into the host's map, where they overwrite none
unfoldable pub migrate : (E : Expressions) → List (String × ℕ) → E.Converters → E.Converters
migrate E [] map = map
migrate E ((name, converter) ∷ others) map =
    migrate E others (E.emplace_converter name converter map)

abbrev pub is_some : Option ℕ → Bool
is_some none = false
is_some (some address) = true

module _ {P : Platform} {E : Expressions} where
  abbrev pub redirect : Redirection → Process P E → Process P E
  redirect redirection s = record s { redirections = s.redirections ++ (redirection ∷ []) }

  -- `SetInstance` of the plugin's stopwatch
  abbrev pub redirect_stopwatch : Image P → Option ℕ → Process P E → Process P E
  redirect_stopwatch image none s = s
  redirect_stopwatch image (some host) s = redirect (Redirection.stopwatch image.handle host) s

  -- `SetInstance` of the plugin's timestamp generator
  abbrev pub redirect_timestamps : Image P → Option ℕ → Process P E → Process P E
  redirect_timestamps image none s = s
  redirect_timestamps image (some host) s =
      redirect (Redirection.timestamp_generator image.handle host) s

  unfoldable pub share_converters : Image P → Option ℕ → Process P E → Process P E
  unfolding migrate
  share_converters image none s = s
  share_converters image (some host) s =
      if image.converter_map == host
      then s
      else redirect (Redirection.converter_map image.handle host)
          (record s { converters = migrate E image.converters s.converters })

  -- What is done with the objects of a context that is accepted
  unfoldable pub share : Image P → PluginHostContext → Process P E → Process P E
  unfolding register_plugin plugin_of share_converters
  share image context s = share_converters image context.converter_map (
      redirect_timestamps image context.timestamp_generator (
        redirect_stopwatch image context.stopwatch
          (record s { registration = register_plugin (plugin_of E image) s.registration })))

  -- `ccr_register`
  unfoldable pub ccr_register : Image P → Option PluginHostContext → Process P E → Process P E
  unfolding share
  ccr_register image none s = s
  ccr_register image (some context) s =
      if context.abi_version == image.abi_version
      then if ltb context.struct_size image.struct_size
        then s
        else if is_some context.registration
        then share image context s
        else s
      else s
