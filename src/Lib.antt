-- ===== src/Lib.antt =====
-- A model of the runtime of amp-cucumber-cpp-runner, and its laws.
--
-- `Application` finds the feature files that its options name, and hands them to `RunCucumber` or to
-- `ListScenarios`. Both load pickles (scenarios that a Gherkin parser has compiled), filter them by
-- their tags, and give each a name of its own; `RunCucumber` also filters them by their names, puts
-- them in order, and loads the hooks and steps that have been registered. The runtime assembles test
-- cases of the pickles from the registered hooks and steps, runs these, and broadcasts messages about all that it
-- does. `MakeRuntime` issues the id of the run and makes a `Coordinator`, which broadcasts the start
-- and the end of the run; between them `SerialRuntimeAdapter` runs the global hooks and, by a
-- `Worker`, every suite; the worker runs the hooks of the feature and makes a `TestCaseRunner` for
-- each test case, which makes its attempts. The bodies of hooks and steps are executed by
-- `ConstructAndExecute`, which turns what they throw into a result.
--
-- The files, and the code under cucumber_cpp/library that they model:
--   Platform               what comes from outside the repository, as parameters: expressions, tag
--                          expressions, ids, the clock, fmt, base64, the file system
--   Messages               the fields of the generated message types that the code reads or writes
--   World                  the state that all operations share (messages broadcast so far, ids issued,
--                          contexts, the state of the user's own code) and the monad over it; its
--                          children are logics for what operations keep, return and yield
--   Context                Context.hpp: `ContextStorageImpl` and its parents
--   Context.ThreadSafe, Context.Typed
--                          Context.hpp: `ThreadSafeContextStorage`, and the templates of `Context`
--   Context.Layers         what a context promises: a stack of functions
--   Util.TestStepResultStatus, Util.TestStepResult
--                          util/TestStepResult.hpp, util/TransformTestStepResult.cpp and others
--   Util.Duration          util/Duration.cpp
--   Util.Worst             util/GetWorstTestStepResult.cpp
--   Util.Broadcaster       util/Broadcaster.cpp
--   Util.Body              util/Body.cpp, util/ExecuteAndCatchExceptions.hpp
--   Engine.Attachment      engine/ExecutionContext.cpp: attachments
--   Engine.ExecutionContext
--                          engine/ExecutionContext.cpp: what a body calls; engine/Step.cpp
--   Util.Table             util/TransformTable.cpp, util/Table.hpp
--   Formatter.Registry     api/Formatters.cpp
--   Support.HookRegistry   support/HookRegistry.cpp
--   Support.StepRegistry   support/StepRegistry.cpp
--   Support.DefinitionRegistration, Support.DefinitionRegistration.Entries
--                          support/DefinitionRegistration.cpp, support/SupportCodeLibrary.hpp
--   Support.DefinitionRegistration.Parameters, Support.DefinitionRegistration.Initialisers
--                          support/DefinitionRegistration.hpp, .cpp: custom parameters, and the
--                          registrations of a program or a plugin
--   Plugin.ParameterLoader plugin/ParameterLoader.cpp
--   Plugin.Process         plugin/DynamicLibrary.cpp, and the state that plugins act on
--   Plugin.Register        plugin/PluginRegister.cpp
--   Plugin.Manager         plugin/DynamicLibraryManager.cpp
--   Plugin.Session         Application.cpp: `PluginSession`
--   Plugin.Books           what loading keeps, for the theorems on sessions
--   Application.Program    Application.cpp: `Application::Run` with its plugins
--   Support.LoadHooks      support/HookRegistry.cpp: `LoadHooks`; plugin/HookLoader.cpp
--   Support.ParameterMap   support/ParameterMap.cpp, ParameterMap.hpp
--   Support.MatchStepDefinitions
--                          support/MatchStepDefinitions.cpp, util/TransformArgument.cpp
--   Assemble               assemble/AssembleTestSuites.cpp
--   Runtime.NestedTestCaseRunner
--                          runtime/NestedTestCaseRunner.cpp
--   Runtime.TestCaseRunner, Runtime.TestCaseRunner.Attempts
--                          runtime/TestCaseRunner.cpp: steps and hooks; attempts and `Run`
--   Runtime.TestCaseRunner.Trace, .Total, .Retries, .Severity, .Retained, .Skip, .Isolation, .Keeps
--                          its laws
--   Runtime.Worker         runtime/Worker.cpp
--   Runtime.Run            runtime/SerialRuntimeAdapter.cpp, runtime/Coordinator.cpp,
--                          runtime/MakeRuntime.cpp
--   Api.Gherkin            api/Gherkin.cpp
--   Api.LoadPickles        api/LoadPickles.cpp
--   Api.TestNames          util/GetHierarchicalTestName.cpp, util/Trim.hpp,
--                          api/MakeUniqueTestNames.cpp
--   Api.ListScenarios      api/ListScenarios.cpp
--   Api.SupportCodeMessages, Api.RunCucumber
--                          api/RunCucumber.cpp, util/TransformHookData.cpp
--   Application            Application.cpp
--   Formatter.Junit, Formatter.Junit.Document
--                          formatter/JunitXmlFormatter.cpp
--   Formatter.Usage, Formatter.Usage.Report, Formatter.Usage.Columns
--                          formatter/UsageFormatter.cpp
--   Formatter.Usage.Table  formatter/UsageFormatter.cpp and .hpp, formatter/helper/Theme.cpp and .hpp
--   Tests                  runs on small data, and the theorems at concrete inputs
-- A function has the name of the source's in this spelling: `RunTestSuite` is `run_test_suite`. Where
-- a function of the source has several parts, each is a definition, and its comment says which part.
-- Theorems stand in the children of the module that they are about.
--
-- How code becomes definitions. An operation takes the state and answers a result and the next state;
-- an exception that reaches the runner's own code is an error value, and undefined behaviour (an empty
-- optional that is dereferenced) is another, which no handler catches. The user's code is a tree of the
-- calls that it makes on the library, with its continuation behind each call and, where a call can
-- throw, behind the exception. The context of a block is entered and left by `with_context`. A measured
-- time is an answer of the platform, and each execution of a body takes one, so that the number of
-- measurements counts the executions.
--
-- Bounds. The attempts of a test case are a loop on the number of attempts left, which begins with all
-- that are allowed. Nested steps run on a bound of their depth, `depth`, in place of the program's
-- stack, and may be any number: a call that is deeper throws `stack_exhausted`, a failure that no
-- handler of the source makes. The number of attempts is reduced modulo 2^64. The search for a test
-- name that is not taken tries one candidate more than there are names, all of them different.
--
-- Listeners. A listener that lives during a block receives what is broadcast meanwhile: `listening`
-- answers these envelopes with the result of the block. The query that names test cases is a function
-- of the envelopes that it has received.
--
-- Not modelled: the parsing of Gherkin and of expressions, and the parser of the command line, which
-- are libraries; the dynamic loader, which is a parameter; the other formatters, and
-- how the libraries of output write what is put into documents and pad what is put into tables; the
-- registration of user code by macros; that a matcher depends on the parameters that are registered;
-- timestamps; what is printed, but for the
-- table of usages; the colours and icons of the themes; and the text of the error of a global hook.
pub mod Prelude
pub mod Messages
pub mod Util
pub mod Platform
pub mod Context
pub mod World
pub mod Engine
pub mod Support
pub mod Runtime
pub mod Api
pub mod Application
pub mod Plugin
pub mod Formatter
pub mod Assemble
mod Tests
