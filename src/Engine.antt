-- ===== src/Engine.antt =====
-- cucumber_cpp/library/engine
pub mod Attachment
pub mod ExecutionContext
