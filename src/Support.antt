-- ===== src/Support.antt =====
-- cucumber_cpp/library/support
pub mod HookRegistry
pub mod StepRegistry
pub mod MatchStepDefinitions
pub mod ParameterMap
pub mod DefinitionRegistration
pub mod LoadHooks
use amp_cucumber_cpp_runner.Platform.{Platform}

-- `SupportCodeLibrary`
pub record SupportCodeLibrary (P : Platform) : Type 0 where
  pub hook_registry : HookRegistry.HookRegistry P
  pub step_registry : StepRegistry.StepRegistry P
