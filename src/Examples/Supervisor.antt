-- ===== src/Examples/Supervisor.antt =====
-- One collector of supervisor.rs, its relay and its restart state at concrete inputs.
use zanei.Prelude.{
  saturating_add, ℕ, ◌+◌, ◌*◌, ◌^◌, ◌<◌, ◌≡◌, ◌≢◌, refl, min, true, false, none, some, List, [],
  ◌∷◌, text, leb, arith,
}
use zanei.Core.Capability.{read_accessibility_tree, available, DaemonCapabilities}
use zanei.Daemon.Relay.{source_closed, full, Forwarding, forward_iteration}
use zanei.Daemon.Relay.Delivery.{Accounts, spawned, send, Run-Accounts}
use zanei.Daemon.Restart.{new, delay_at, from_secs, ready}
use zanei.Daemon.Restart.Backoff.{
  Report, failed_start, unexpected_exit, apply, apply_all, failures, granted_failure,
  not_ready_before_delay,
}
use zanei.Daemon.Handle.{Thread, Relay, is_finished, join}
use zanei.Daemon.Managed.{ManagedCollector, Managed, Spawn, new_managed, start_managed}
use zanei.Daemon.Managed.Invariant.{IsValid}
use zanei.Daemon.CollectorSet.{CollectorKind, CollectorSet}
use zanei.Daemon.Supervision.{supervise_managed}
use zanei.Daemon.Supervision.Invariant.{Step, Reach, Reach-IsValid}
use zanei.Daemon.Supervision.Policy.{restart_after_delay}

-- A worker that counts its starts.
abbrev worker : ManagedCollector ℕ
worker = record {
  worker_name = λ c. text "ax";
  worker_capabilities = λ c. read_accessibility_tree ∷ [];
  start_worker = λ c. (c + 1, none);
  stop_worker = λ c. c;
}

abbrev live : Thread
live = record { is_finished = false; result = λ flag. some source_closed }

abbrev ended : Thread
ended = record { is_finished = true; result = λ flag. some source_closed }

abbrev ended_relay : Relay
ended_relay = record { handle = some ended; stop_flag = false }

abbrev crashed : Managed ℕ
crashed = record {
  collector = 1;
  running = true;
  relay = some ended_relay;
  restart = new;
  started_at = some 0;
  relay_dropped = 0;
}

abbrev granted : DaemonCapabilities
granted = record {
  required = read_accessibility_tree ∷ [];
  read_accessibility_tree_state = available;
  observe_input_state = available;
  automate_browser_state = available;
  automate_safari_state = none;
  capture_screen_state = none;
}

restart_after_delay_example :
    (supervise_managed worker
      (supervise_managed worker crashed (Spawn.spawned live) (some granted) [] 100 true).0.0
      (Spawn.spawned live)
      (some granted)
      []
      (from_secs 6)
      true).0.0.running
    ≡ leb (100 + delay_at 0) (from_secs 6)
unfolding new is_finished join
restart_after_delay_example =
    restart_after_delay worker crashed ended_relay source_closed 100 refl refl refl refl
      (Spawn.spawned live) (some granted) [] live granted (from_secs 6) refl

abbrev workers : CollectorKind → ManagedCollector ℕ
workers kind = worker

abbrev deferred_set : CollectorSet ℕ
deferred_set = record {
  workspace_slot = none;
  ax_slot = some crashed;
  content_snapshot_slot = some (new_managed 0);
  eventtap_slot = some (new_managed 5);
  chrome_slot = none;
  browser_targets = [];
  producer_failures = [];
  start_errors = [];
  eventtap_start_gate = false;
}

other_name : text "chrome" ≢ text "ax"
other_name e = cc

abbrev started_worker : Managed ℕ
started_worker = (start_managed worker (new_managed 0) (Spawn.spawned live) [] 3 true).0

Reach-IsValid_example : IsValid started_worker
Reach-IsValid_example =
    Reach-IsValid worker
      (Reach.next Reach.fresh (Step.start (new_managed 0) (Spawn.spawned live) [] 3 true))

-- One event sent, and a turn of the loop in which the pipeline is full.
abbrev sent_one : Forwarding ℕ
sent_one = record { pending = none; queue = 7 ∷ []; source_open = true; delivered = [] }

Run-Accounts_example : Accounts sent_one (7 ∷ []) (forward_iteration false full sent_one)
Run-Accounts_example = Run-Accounts false full (send 7 spawned refl)

abbrev two_failures : List Report
two_failures =
    unexpected_exit 10 true (text "gone") ∷ failed_start 20 false ∷ failed_start 30 true ∷ []

soon : from_secs 12 < 0 + min (from_secs 5 * 2 ^ failures 0 two_failures) (from_secs 60)
unfolding failures saturating_add
soon = omega arith

not_ready_before_delay_example :
    ready (apply (apply_all new two_failures) (failed_start 0 true)) (from_secs 12) true ≡ false
unfolding granted_failure
not_ready_before_delay_example =
    not_ready_before_delay two_failures (failed_start 0 true) 0 (from_secs 12) true refl soon
