-- ===== src/Macos.antt =====
-- crates/zanei-macos/src: the parts of the macOS collectors that hold no interface of the system.
pub mod EventTap
pub mod ContentSnapshot
pub mod CapturePolicy
pub mod Quarantine
pub mod Routing
