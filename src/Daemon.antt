-- ===== src/Daemon.antt =====
-- crates/zanei-cli/src/daemon: the recorder daemon, its collectors and their supervision.
pub mod Restart
pub mod Relay
pub mod Handle
pub mod Managed
pub mod Supervision
pub mod CollectorSet
