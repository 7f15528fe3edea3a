-- ===== src/Core/Privacy.antt =====
-- crates/zanei-core/src/privacy: the capture-time filter.
pub mod Matcher
pub mod Hosts
pub mod Routes
pub mod CapturePolicy
pub mod Redactor
pub mod Filter
