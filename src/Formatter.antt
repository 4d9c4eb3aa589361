-- ===== src/Formatter.antt =====
-- cucumber_cpp/library/formatter
pub mod Junit
pub mod Usage
pub mod Registry
