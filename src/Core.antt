-- ===== src/Core.antt =====
-- crates/zanei-core/src: the platform-neutral core.
pub mod Capability
pub mod TextDelta
pub mod Schema
pub mod Limits
pub mod TimeExpression
pub mod Normalizer
pub mod Config
pub mod Privacy
pub mod Timeline
