-- ===== src/Daemon/Handle.antt =====
-- crates/zanei-cli/src/daemon/collectors/relay.rs: `Relay`, the owner's end of the forwarding
-- thread. The thread itself is the standard library's: whether it has finished and what joining it
-- gives are fields of `Thread`.
use zanei.Prelude.{ℕ, Bool, true, Option, none, some, Text, text}
use zanei.Daemon.Relay.{RelayExit, source_closed, pipeline_closed, stopped}

-- `DaemonError::ThreadTerminated`, the only error that these operations return.
pub data DaemonError : Type 0 where
  thread_terminated : Text → DaemonError

pub data Result (A : Type 0) : Type 0 where
  ok : A → Result A
  err : DaemonError → Result A

-- `result` is what the join gives when the stop flag is down or up; `none` is a panic.
pub record Thread : Type 0 where
  pub is_finished : Bool
  pub result : Bool → Option RelayExit

pub record Relay : Type 0 where
  pub handle : Option Thread
  pub stop_flag : Bool

-- `JoinHandle::is_finished`, and true when there is no handle left.
unfoldable pub is_finished : Relay → Bool
is_finished r = elim r.handle [ none ↦ true | some t ↦ t.is_finished ]

abbrev terminated : DaemonError
terminated = thread_terminated (text "collector relay")

abbrev join_thread : Option Thread → Bool → Result RelayExit
join_thread none flag = err terminated
join_thread (some t) flag = elim (t.result flag) [ none ↦ err terminated | some e ↦ ok e ]

unfoldable pub join_handle : Relay → Relay × Result RelayExit
join_handle r = (record r { handle = none }, join_thread r.handle r.stop_flag)

unfoldable pub join : Relay → Relay × Result RelayExit
unfolding join_handle
join r = join_handle r

abbrev dropped_by : Result RelayExit → Result ℕ
dropped_by (ok (stopped dropped)) = ok dropped
dropped_by (ok source_closed) = ok 0
dropped_by (ok pipeline_closed) = ok 0
dropped_by (err e) = err e

unfoldable pub stop : Relay → Relay × Result ℕ
unfolding join_handle
stop r = let (r', exit) = join_handle (record r { stop_flag = true }) in (r', dropped_by exit)
