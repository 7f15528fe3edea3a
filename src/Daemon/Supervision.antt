-- ===== src/Daemon/Supervision.antt =====
-- crates/zanei-cli/src/daemon/supervisor.rs: the periodic check of one supervised collector.
pub mod Invariant
pub mod Policy
use zanei.Prelude.{
  ℕ, ◌-◌, Bool, true, false, not, ◌&&◌, ◌||◌, Option, none, some, List, [], ◌∷◌, Text, text, leb,
  if◌then◌else◌, saturating_add, is_empty, any,
}
use zanei.Prelude.Maps.{TextMap, insert, remove}
use zanei.Core.Capability.{Capability, DaemonCapabilities, capabilities_available, ready_for}
use zanei.Daemon.Relay.{RelayExit, source_closed, pipeline_closed, stopped}
use zanei.Daemon.Restart.{
  RestartState, new, start_failed, exited_unexpectedly, ready, started, stable,
  restart_stable_after,
}
use zanei.Daemon.Handle.{
  DaemonError, thread_terminated, Result, ok, err, Thread, Relay, is_finished, join, stop,
}
use zanei.Daemon.Managed.{ManagedCollector, Spawn, Managed, Errors, start_managed}

abbrev pub exit_reason : RelayExit → Text
exit_reason source_closed = text "collector worker terminated unexpectedly"
exit_reason pipeline_closed = text "collector relay lost the pipeline"
exit_reason (stopped dropped) = text "collector relay stopped unexpectedly"

abbrev pub exit_dropped : RelayExit → ℕ
exit_dropped (stopped dropped) = dropped
exit_dropped _ = 0

-- `started_at.is_some_and(|started_at| now.duration_since(started_at) >= RESTART_STABLE_AFTER)`;
-- `duration_since` is zero for a later instant.
abbrev pub has_settled : Option ℕ → ℕ → Bool
has_settled none now = false
has_settled (some at) now = leb restart_stable_after (now - at)

abbrev pub no_permissions : Option DaemonCapabilities → Bool
no_permissions none = true
no_permissions (some d) = false

abbrev is_ready : Option Bool → Bool
is_ready none = false
is_ready (some r) = r

module _ {C : Type 0} (w : ManagedCollector C) where
  -- The worker was stopped and its relay joined: on a panic of the relay the error is returned at
  -- once, with the relay's handle gone.
  unfoldable pub after_join :
      Managed C → Relay × Result RelayExit → ℕ → Bool → Managed C × Option DaemonError
  unfolding exited_unexpectedly saturating_add
  after_join m (r, err e) now restart_allowed = (record m { relay = some r }, some e)
  after_join m (r, ok exit) now restart_allowed = (
    record m {
      relay = none;
      relay_dropped = saturating_add m.relay_dropped (exit_dropped exit);
      restart = exited_unexpectedly m.restart now restart_allowed (exit_reason exit);
    },
    none,
  )

  unfoldable pub worker_stopped : Managed C → Managed C
  worker_stopped m = record m {
    collector = w.stop_worker m.collector;
    running = false;
    started_at = none;
  }

  -- The first block of `supervise_collector_inner`: a relay that has ended while the worker runs.
  unfoldable pub reap : Managed C → Option Relay → ℕ → Bool → Managed C × Option DaemonError
  unfolding is_finished join after_join worker_stopped
  reap m none now restart_allowed = (m, none)
  reap m (some r) now restart_allowed =
      if m.running && is_finished r
      then after_join (worker_stopped m) (join r) now restart_allowed
      else (m, none)

  unfoldable pub settle : Managed C → ℕ → Managed C
  unfolding stable
  settle m now =
      if has_settled m.started_at now
      then record m { restart = stable m.restart; started_at = none }
      else m

  unfoldable pub start_if_ready : Managed C → Spawn → Errors → ℕ → Bool → Managed C × Errors
  unfolding ready start_managed
  start_if_ready m spawn errors now restart_allowed =
      if ready m.restart now restart_allowed
      then start_managed w m spawn errors now restart_allowed
      else (m, errors)

  -- The rest of `supervise_collector_inner`. `required` was read before the first block.
  unfoldable pub settle_or_start :
      Managed C
      → Spawn
      → Option DaemonCapabilities
      → List Capability
      → Errors
      → ℕ
      → Bool
      → Managed C × Errors
  unfolding settle start_if_ready
  settle_or_start m spawn permissions required errors now restart_allowed =
      if m.running
      then (settle m now, errors)
      else if no_permissions permissions && not (is_empty required)
      then (m, errors)
      else start_if_ready m spawn errors now restart_allowed

  unfoldable pub after_reap :
      Managed C × Option DaemonError
      → Spawn
      → Option DaemonCapabilities
      → List Capability
      → Errors
      → ℕ
      → Bool
      → (Managed C × Errors) × Option DaemonError
  unfolding settle_or_start
  after_reap (m, some e) spawn permissions required errors now restart_allowed =
      ((m, errors), some e)
  after_reap (m, none) spawn permissions required errors now restart_allowed =
      (settle_or_start m spawn permissions required errors now restart_allowed, none)

  unfoldable pub supervise_managed :
      Managed C
      → Spawn
      → Option DaemonCapabilities
      → Errors
      → ℕ
      → Bool
      → (Managed C × Errors) × Option DaemonError
  unfolding reap after_reap
  supervise_managed m spawn permissions errors now restart_allowed =
      after_reap (reap m m.relay now restart_allowed) spawn permissions
        (w.worker_capabilities m.collector) errors now restart_allowed

  -- `supervise_collector`: a restart needs every required capability to be available.
  unfoldable pub restart_allowed : Managed C → Option DaemonCapabilities → Bool
  unfolding capabilities_available
  restart_allowed m permissions = elim permissions [
    | none ↦ is_empty (w.worker_capabilities m.collector)
    | some d ↦ capabilities_available (w.worker_capabilities m.collector) d
  ]

  unfoldable pub supervise_collector :
      Managed C
      → Spawn
      → Option DaemonCapabilities
      → Errors
      → ℕ
      → (Managed C × Errors) × Option DaemonError
  unfolding supervise_managed restart_allowed
  supervise_collector m spawn permissions errors now =
      supervise_managed m spawn permissions errors now (restart_allowed m permissions)

  -- `supervise_browser_collector`: a restart needs one of the target browsers to be ready.
  unfoldable pub browser_restart_allowed : List Capability → Option DaemonCapabilities → Bool
  unfolding ready_for
  browser_restart_allowed targets permissions = elim permissions [
    | none ↦ false
    | some d ↦ any (λ target. is_ready (ready_for d (target ∷ []))) targets
  ]

  unfoldable pub supervise_browser_collector :
      Managed C
      → List Capability
      → Spawn
      → Option DaemonCapabilities
      → Errors
      → ℕ
      → (Managed C × Errors) × Option DaemonError
  unfolding supervise_managed browser_restart_allowed
  supervise_browser_collector m targets spawn permissions errors now =
      supervise_managed m spawn permissions errors now (browser_restart_allowed targets permissions)
