-- ===== src/Examples.antt =====
-- The theorems at concrete inputs, and runs of the definitions.
mod Supervisor
mod Texts
mod Events
mod Hosts
mod Redaction
mod Filtering
mod Coalescing
mod Policies
mod Times
mod Timelines
mod Taps
mod Snapshots
mod Bodies
