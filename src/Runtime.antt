-- ===== src/Runtime.antt =====
-- cucumber_cpp/library/runtime
pub mod NestedTestCaseRunner
pub mod TestCaseRunner
pub mod Worker
pub mod Run
