-- ===== src/Daemon/Supervision/Policy.antt =====
-- When the supervisor of supervisor.rs starts a collector, and what it records.
use zanei.Prelude.{
  ℕ, ◌+◌, ◌≡◌, ◌≢◌, refl, Bool, true, false, Option, none, some, List, ◌∷◌, Text, leb, arith,
  text_eq_refl, text_eq_sound, saturating_add, ◌&&◌, ap, ◌∙◌,
}
use zanei.Prelude.Maps.{lookup, lookup-insert, lookup-remove}
use zanei.Core.Capability.{Capability, DaemonCapabilities}
use zanei.Daemon.Relay.{RelayExit}
use zanei.Daemon.Restart.{ready, delay_at, exited_unexpectedly}
use zanei.Daemon.Restart.Backoff.{delay_at_pos, ready-schedule}
use zanei.Daemon.Handle.{Relay, Thread, ok, join, is_finished, DaemonError}
use zanei.Daemon.Managed.{ManagedCollector, Managed, Spawn, spawned, Errors, start_managed}
use zanei.Daemon.Supervision.{
  after_join, reap, worker_stopped, start_if_ready, settle_or_start, after_reap, supervise_managed,
  supervise_collector, exit_reason, exit_dropped,
}

abbrev pub is_absent : Option Text → Bool
is_absent none = true
is_absent (some e) = false

module _ {C : Type 0} (w : ManagedCollector C) where
  -- Starting a collector that does not run clears the error of its name when it then runs, records
  -- one when it does not, and leaves the errors of other names alone.
  pub start_managed-errors :
      (m : Managed C) (spawn : Spawn) (errors : Errors) (now : ℕ) (granted : Bool) (k : Text)
      → m.running ≡ false
      → k ≢ w.worker_name m.collector
      → (is_absent
            (lookup (w.worker_name m.collector) (start_managed w m spawn errors now granted).1)
          ≡ (start_managed w m spawn errors now granted).0.running)
        × (lookup k (start_managed w m spawn errors now granted).1 ≡ lookup k errors)
  unfolding start_managed
  start_managed-errors m spawn errors now granted k idle other = grind (
    arith,
    lookup-insert,
    lookup-remove,
    text_eq_refl,
    text_eq_sound (w.worker_name m.collector) k,
  )

  -- Without a snapshot of the permissions, no collector that requires a capability is started.
  pub supervise_without_permissions :
      (m : Managed C) (spawn : Spawn) (errors : Errors) (now : ℕ) (c : Capability)
      (cs : List Capability)
      → w.worker_capabilities m.collector ≡ c ∷ cs
      → (supervise_collector w m spawn none errors now).0.0.running ≡ true
      → m.running ≡ true
  unfolding supervise_collector
  supervise_without_permissions m spawn errors now c cs e h = ground arith

  -- The collector as the supervisor leaves it when its relay has ended with `exit`.
  abbrev pub crash : Managed C → RelayExit → ℕ → Managed C
  crash m exit now = record (worker_stopped w m) {
    relay = none;
    relay_dropped = saturating_add m.relay_dropped (exit_dropped exit);
    restart = exited_unexpectedly m.restart now true (exit_reason exit);
  }

  ready-crash :
      (m : Managed C) (exit : RelayExit) (now later : ℕ) (allowed : Bool)
      → ready (exited_unexpectedly m.restart now true (exit_reason exit)) later allowed
        ≡ (allowed && leb (now + delay_at m.restart.delay_index) later)
  unfolding exited_unexpectedly
  ready-crash m exit now later allowed =
      ready-schedule (record m.restart { unexpected_exit_reason = some (exit_reason exit) }) now
        later true allowed

  reap-crash :
      (m : Managed C) (r : Relay) (exit : RelayExit) (now : ℕ)
      → m.running ≡ true
      → is_finished r ≡ true
      → (join r).1 ≡ ok exit
      → reap w m (some r) now true ≡ (crash m exit now, none)
  unfolding reap after_join worker_stopped
  reap-crash m r exit now busy ended joined = rw (busy, ended) (ground arith)

  rest :
      (m : Managed C) (spawn : Spawn) (permissions : Option DaemonCapabilities)
      (required : List Capability) (errors : Errors) (now : ℕ) (allowed : Bool)
      → m.running ≡ false
      → ready m.restart now allowed ≡ false
      → settle_or_start w m spawn permissions required errors now allowed ≡ (m, errors)
  unfolding settle_or_start start_if_ready
  rest m spawn permissions required errors now allowed idle waits = ground arith

  start_spawned :
      (m : Managed C) (thread : Thread) (errors : Errors) (now : ℕ) (granted : Bool)
      → m.running ≡ false
      → (w.start_worker m.collector).1 ≡ none
      → (start_managed w m (spawned thread) errors now granted).0.running ≡ true
  unfolding start_managed
  start_spawned m thread errors now granted idle started_ok = ground arith

  restarted :
      (m : Managed C) (thread : Thread) (d : DaemonCapabilities) (errors : Errors) (later : ℕ)
      → m.running ≡ false
      → m.relay ≡ none
      → (w.start_worker m.collector).1 ≡ none
      → (supervise_managed w m (spawned thread) (some d) errors later true).0.0.running
        ≡ ready m.restart later true
  unfolding supervise_managed start_if_ready
  restarted m thread d errors later idle relay starts =
      ground (arith, start_spawned m thread errors later true)

  module _ (m : Managed C) (r : Relay) (exit : RelayExit) (now : ℕ) (busy : m.running ≡ true)
      (relay : m.relay ≡ some r) (ended : is_finished r ≡ true)
      (joined : (join r).1 ≡ ok exit) where
    crash-waits :
        (spawn : Spawn) (permissions : Option DaemonCapabilities) (required : List Capability)
        (errors : Errors)
        → after_reap w (crash m exit now, none) spawn permissions required errors now true
          ≡ ((crash m exit now, errors), none)
    unfolding after_reap worker_stopped
    crash-waits spawn permissions required errors =
        let waits : ready (crash m exit now).restart now true ≡ false =
          ground (arith, ready-crash m exit now now true, delay_at_pos m.restart.delay_index) in
        ap (λ (s : Managed C × Errors). (s, none))
          (rest (crash m exit now) spawn permissions required errors now true refl waits)

    -- When the relay of a running collector has ended without a panic and its permissions are
    -- available, the supervisor stops the worker, drops the relay, counts the lost events,
    -- schedules a restart and reports no error, and does not start the collector in the same
    -- turn.
    pub supervise-crash :
        (spawn : Spawn) (permissions : Option DaemonCapabilities) (errors : Errors)
        → supervise_managed w m spawn permissions errors now true
          ≡ ((crash m exit now, errors), none)
    unfolding supervise_managed
    supervise-crash spawn permissions errors =
        ap
          (λ (s : Managed C × Option DaemonError).
            after_reap w s spawn permissions (w.worker_capabilities m.collector) errors now true)
          reaped
        ∙ crash-waits spawn permissions (w.worker_capabilities m.collector) errors
      where
        reaped : reap w m m.relay now true ≡ (crash m exit now, none)
        reaped = ap (λ o. reap w m o now true) relay ∙ reap-crash m r exit now busy ended joined

    -- When the relay of a running collector has ended without a panic and its permissions are
    -- available, a later turn with the permissions available has the collector running again
    -- exactly when the delay of its restart state has passed, if the thread is spawned and the
    -- worker starts.
    pub restart_after_delay :
        (spawn : Spawn) (permissions : Option DaemonCapabilities) (errors : Errors)
        (thread : Thread) (d : DaemonCapabilities) (later : ℕ)
        → (w.start_worker (w.stop_worker m.collector)).1 ≡ none
        → (supervise_managed w
            (supervise_managed w m spawn permissions errors now true).0.0
            (spawned thread)
            (some d)
            errors
            later
            true).0.0.running
          ≡ leb (now + delay_at m.restart.delay_index) later
    unfolding worker_stopped
    restart_after_delay spawn permissions errors thread d later starts =
        rw (supervise-crash spawn permissions errors) (
          restarted (crash m exit now) thread d errors later refl refl starts
          ∙ ready-crash m exit now later true)
