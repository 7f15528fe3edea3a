-- ===== src/Daemon/Managed.antt =====
-- crates/zanei-cli/src/daemon/supervisor.rs: one collector under supervision, its start, its stop
-- and the periodic check. The map of start errors and the collector are passed along.
pub mod Invariant
use zanei.Prelude.{
  ℕ, ◌-◌, Bool, true, false, not, ◌&&◌, ◌||◌, Option, none, some, List, [], ◌∷◌, Text, text, leb,
  if◌then◌else◌, saturating_add, is_empty, any,
}
use zanei.Prelude.Maps.{TextMap, insert, remove}
use zanei.Core.Capability.{Capability, DaemonCapabilities, capabilities_available, ready_for}
use zanei.Daemon.Relay.{RelayExit, source_closed, pipeline_closed, stopped}
use zanei.Daemon.Restart.{
  RestartState, new, start_failed, exited_unexpectedly, ready, started, stable,
  restart_stable_after,
}
use zanei.Daemon.Handle.{
  DaemonError, thread_terminated, Result, ok, err, Thread, Relay, is_finished, join, stop,
}

-- trait `ManagedCollector`. `start_worker` gives the error's text, or `none`.
pub record ManagedCollector (C : Type 0) : Type 0 where
  pub worker_name : C → Text
  pub worker_capabilities : C → List Capability
  pub start_worker : C → C × Option Text
  pub stop_worker : C → C

-- What `thread::Builder::spawn` gives to `Relay::spawn`.
pub data Spawn : Type 0 where
  spawned : Thread → Spawn
  spawn_failed : Text → Spawn

pub record Managed (C : Type 0) : Type 0 where
  pub collector : C
  pub running : Bool
  pub relay : Option Relay
  pub restart : RestartState
  pub started_at : Option ℕ
  pub relay_dropped : ℕ

abbrev pub Errors : Type 0
Errors = TextMap Text

pub data StopMode : Type 0 where
  drain discard : StopMode

unfoldable pub new_managed : {C : Type 0} → C → Managed C
unfolding new
new_managed c = record {
  collector = c;
  running = false;
  relay = none;
  restart = new;
  started_at = none;
  relay_dropped = 0;
}

module _ {C : Type 0} (w : ManagedCollector C) where
  -- The result of `start_worker`, with the collector as it left it. On an error the new relay is
  -- stopped and dropped, and what that gives is ignored.
  unfoldable pub finish_start :
      Text → Managed C → Relay → Option Text → Errors → ℕ → Bool → Managed C × Errors
  unfolding started start_failed
  finish_start name m relay none errors now permissions_granted = (
    record m {
      running = true;
      relay = some relay;
      started_at = some now;
      restart = started m.restart;
    },
    remove name errors,
  )
  finish_start name m relay (some error) errors now permissions_granted = (
    record m { restart = start_failed m.restart now permissions_granted },
    insert name error errors,
  )

  unfoldable pub spawn_and_start : Managed C → Spawn → Errors → ℕ → Bool → Managed C × Errors
  unfolding finish_start start_failed
  spawn_and_start m (spawn_failed error) errors now permissions_granted = (
    record m { restart = start_failed m.restart now permissions_granted },
    insert (w.worker_name m.collector) error errors,
  )
  spawn_and_start m (spawned thread) errors now permissions_granted =
      let (c, error) = w.start_worker m.collector in
      finish_start (w.worker_name m.collector) (record m { collector = c })
        (record { handle = some thread; stop_flag = false }) error errors now permissions_granted

  unfoldable pub start_managed : Managed C → Spawn → Errors → ℕ → Bool → Managed C × Errors
  unfolding spawn_and_start
  start_managed m spawn errors now permissions_granted =
      if m.running then (m, errors) else spawn_and_start m spawn errors now permissions_granted

  unfoldable pub start_collector :
      Option (Managed C) → Spawn → Errors → ℕ → Option (Managed C) × Errors
  unfolding start_managed
  start_collector none spawn errors now = (none, errors)
  start_collector (some m) spawn errors now =
      let (m', errors') = start_managed m spawn errors now true in (some m', errors')

  -- `gate` is `EventTapStartGate::allows_start`.
  unfoldable pub start_collector_if_allowed :
      Option (Managed C) → Spawn → Errors → ℕ → Bool → Option (Managed C) × Errors
  unfolding start_collector
  start_collector_if_allowed m spawn errors now gate =
      if gate then start_collector m spawn errors now else (m, errors)

  unfoldable pub stop_running : Managed C → Managed C
  stop_running m =
      if m.running then record m { collector = w.stop_worker m.collector; running = false } else m

  abbrev pub drained : Relay × Result RelayExit → Result ℕ
  drained (r, ok exit) = ok 0
  drained (r, err e) = err e

  unfoldable pub dropped_at_stop : StopMode → Relay → Result ℕ
  unfolding join stop
  dropped_at_stop drain r = drained (join r)
  dropped_at_stop discard r = (stop r).1

  abbrev pub count_dropped : Managed C → Result ℕ → Managed C
  count_dropped m (ok n) = record m { relay_dropped = saturating_add m.relay_dropped n }
  count_dropped m (err e) = m

  unfoldable pub take_relay : Managed C → StopMode → Managed C
  unfolding dropped_at_stop saturating_add
  take_relay m mode = elim m.relay [
    | none ↦ m
    | some r ↦ count_dropped (record m { relay = none }) (dropped_at_stop mode r)
  ]

  unfoldable pub stop_managed : Managed C → StopMode → Managed C
  unfolding stop_running take_relay
  stop_managed m mode = record (take_relay (stop_running m) mode) { started_at = none }

  unfoldable pub stop_collector : Option (Managed C) → StopMode → Option (Managed C)
  unfolding stop_managed
  stop_collector none mode = none
  stop_collector (some m) mode = some (stop_managed m mode)
