-- ===== src/Util.antt =====
-- cucumber_cpp/library/util
pub mod TestStepResultStatus
pub mod Duration
pub mod Worst
pub mod TestStepResult
pub mod Body
pub mod Broadcaster
pub mod Table
