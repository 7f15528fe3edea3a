-- ===== src/Macos/ContentSnapshot/Draining.antt =====
-- crates/zanei-macos/src/content_snapshot/scheduler.rs: how often `take_due` takes at one time.
use zanei.Prelude.{ℕ, zero, suc, ◌+◌, Option, none, some, leb, if◌then◌else◌, length}
use zanei.Macos.ContentSnapshot.Scheduler.{CurrentWindow, SnapshotScheduler}
use zanei.Macos.ContentSnapshot.Due.{take_due}

-- What can still be taken at a time: the queue, a retry, a settle and a refresh that is due.
abbrev one_if_some {ℓ} : {A : Type ℓ} → Option A → ℕ
one_if_some none = 0
one_if_some (some a) = 1

abbrev window_weight : Option CurrentWindow → ℕ → ℕ
window_weight none now = 0
window_weight (some c) now =
    one_if_some c.retry + one_if_some c.settle_due + (if leb c.refresh_due now then 1 else 0)

abbrev weight : SnapshotScheduler → ℕ → ℕ
weight s now = length s.focus_out + window_weight s.current now

-- The worker's loop over `take_due`, at one time and for so many rounds.
unfoldable pub take_all : ℕ → SnapshotScheduler → ℕ → SnapshotScheduler
take_all zero s now = s
take_all (suc rounds) s now = take_all rounds (take_due s now).0 now
