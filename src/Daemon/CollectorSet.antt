-- ===== src/Daemon/CollectorSet.antt =====
-- crates/zanei-cli/src/daemon/supervisor.rs and collectors.rs: the five collectors of the daemon,
-- their start, stop and check. The five types of collectors are one type here, with the worker of
-- each kind in `workers`; what spawning the relay's thread gives is an argument for each kind.
pub mod Safety
use zanei.Prelude.{
  ℕ, Bool, true, false, not, ◌&&◌, ◌||◌, Option, none, some, List, [], ◌∷◌, Text, if◌then◌else◌,
  any,
}
use zanei.Core.Capability.{Capability, DaemonCapabilities}
use zanei.Daemon.Handle.{DaemonError}
use zanei.Daemon.Managed.{
  ManagedCollector, Managed, Spawn, Errors, StopMode, start_collector, start_collector_if_allowed,
  stop_collector,
}
use zanei.Daemon.Supervision.{supervise_collector, supervise_browser_collector}

pub data CollectorKind : Type 0 where
  content_snapshot ax chrome workspace eventtap : CollectorKind

pub data ProducerFailureOrigin : Type 0 where
  secure_input_start workspace_main_thread event_tap_main_thread : ProducerFailureOrigin
  content_snapshot_filter : ProducerFailureOrigin

abbrev pub origin_eq : ProducerFailureOrigin → ProducerFailureOrigin → Bool
origin_eq secure_input_start secure_input_start = true
origin_eq workspace_main_thread workspace_main_thread = true
origin_eq event_tap_main_thread event_tap_main_thread = true
origin_eq content_snapshot_filter content_snapshot_filter = true
origin_eq _ _ = false

abbrev pub ProducerFailures : Type 0
ProducerFailures = List (ProducerFailureOrigin × Text)

unfoldable pub has_failure : ProducerFailures → ProducerFailureOrigin → Bool
has_failure reasons origin = any (λ reason. origin_eq reason.0 origin) reasons

unfoldable pub clear_failure : ProducerFailures → ProducerFailureOrigin → ProducerFailures
clear_failure [] origin = []
clear_failure ((o, t) ∷ reasons) origin =
    let rest = clear_failure reasons origin in if origin_eq o origin then rest else (o, t) ∷ rest

pub record CollectorSet (C : Type 0) : Type 0 where
  pub workspace_slot : Option (Managed C)
  pub ax_slot : Option (Managed C)
  pub content_snapshot_slot : Option (Managed C)
  pub eventtap_slot : Option (Managed C)
  pub chrome_slot : Option (Managed C)
  pub browser_targets : List Capability
  pub producer_failures : ProducerFailures
  pub start_errors : Errors
  pub eventtap_start_gate : Bool

abbrev pub slot_runs : {C : Type 0} → Option (Managed C) → Bool
slot_runs none = false
slot_runs (some m) = m.running

module _ {C : Type 0} where
  unfoldable pub clear_content_filter_failure_after_start : CollectorSet C → CollectorSet C
  clear_content_filter_failure_after_start s =
      if slot_runs s.content_snapshot_slot
      then record s {
        producer_failures = clear_failure s.producer_failures content_snapshot_filter;
      }
      else s

  -- `if !was_running { … }`.
  abbrev pub cleared_unless : Bool → CollectorSet C → CollectorSet C
  cleared_unless true s = s
  cleared_unless false s = clear_content_filter_failure_after_start s

  module _ (workers : CollectorKind → ManagedCollector C) (spawns : CollectorKind → Spawn)
      (now : ℕ) where
    unfoldable pub start_content_snapshot : CollectorSet C → CollectorSet C
    start_content_snapshot s =
        let (m, errors) =
          start_collector (workers content_snapshot) s.content_snapshot_slot
            (spawns content_snapshot) s.start_errors now in
        cleared_unless (slot_runs s.content_snapshot_slot)
          (record s { content_snapshot_slot = m; start_errors = errors })

    unfoldable pub start_ax : CollectorSet C → CollectorSet C
    start_ax s =
        let (m, errors) = start_collector (workers ax) s.ax_slot (spawns ax) s.start_errors now in
        record s { ax_slot = m; start_errors = errors }

    unfoldable pub start_chrome : CollectorSet C → CollectorSet C
    start_chrome s =
        let (m, errors) =
          start_collector (workers chrome) s.chrome_slot (spawns chrome) s.start_errors now in
        record s { chrome_slot = m; start_errors = errors }

    unfoldable pub start_workspace : CollectorSet C → CollectorSet C
    start_workspace s =
        let (m, errors) =
          start_collector (workers workspace) s.workspace_slot (spawns workspace) s.start_errors
            now in
        if has_failure s.producer_failures workspace_main_thread
        then s
        else record s { workspace_slot = m; start_errors = errors }

    unfoldable pub start_eventtap : CollectorSet C → CollectorSet C
    start_eventtap s =
        let (m, errors) =
          start_collector_if_allowed (workers eventtap) s.eventtap_slot (spawns eventtap)
            s.start_errors now s.eventtap_start_gate in
        if has_failure s.producer_failures event_tap_main_thread
        then s
        else record s { eventtap_slot = m; start_errors = errors }

    -- In `START_ORDER`.
    unfoldable pub start : CollectorSet C → CollectorSet C
    start s = start_eventtap (start_workspace (start_chrome (start_ax (start_content_snapshot s))))

  module _ (workers : CollectorKind → ManagedCollector C) where
    -- In `STOP_ORDER`; the stops do not touch one another's state.
    unfoldable pub stop_in_order : StopMode → CollectorSet C → CollectorSet C
    stop_in_order mode s = record s {
      workspace_slot = stop_collector (workers workspace) s.workspace_slot mode;
      chrome_slot = stop_collector (workers chrome) s.chrome_slot mode;
      ax_slot = stop_collector (workers ax) s.ax_slot mode;
      content_snapshot_slot =
          stop_collector (workers content_snapshot) s.content_snapshot_slot StopMode.discard;
      eventtap_slot = stop_collector (workers eventtap) s.eventtap_slot mode;
    }

    unfoldable pub stop_all : CollectorSet C → CollectorSet C
    stop_all s = stop_in_order StopMode.drain s

    unfoldable pub suspend : CollectorSet C → CollectorSet C
    suspend s = stop_in_order StopMode.discard s
