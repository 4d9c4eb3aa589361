-- ===== src/Api.antt =====
-- cucumber_cpp/library/api
pub mod TestNames
pub mod Gherkin
pub mod LoadPickles
pub mod SupportCodeMessages
pub mod RunCucumber
pub mod ListScenarios
