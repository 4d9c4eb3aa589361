-- ===== src/Plugin.antt =====
-- cucumber_cpp/library/plugin
pub mod ParameterLoader
pub mod Process
pub mod Register
pub mod Manager
pub mod Books
pub mod Session
