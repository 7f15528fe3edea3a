-- ===== src/Daemon/Supervision/Invariant.antt =====
-- What the periodic check, with the starts and stops of supervisor.rs, keeps true of a collector.
use zanei.Prelude.{
  ℕ, ◌≡◌, refl, Bool, false, ◌&&◌, not, is_empty, Option, none, some, List, arith, if_rule,
}
use zanei.Core.Capability.{Capability, DaemonCapabilities}
use zanei.Daemon.Relay.{RelayExit}
use zanei.Daemon.Restart.{ready}
use zanei.Daemon.Handle.{Relay, Thread, Result, ok, err, join, is_finished, DaemonError}
use zanei.Daemon.Managed.{
  ManagedCollector, Managed, Spawn, Errors, StopMode, new_managed, start_managed, stop_managed,
}
use zanei.Daemon.Managed.Invariant.{
  HasThread, IsValid, new_managed-IsValid, start_managed-IsValid, stop_managed-IsValid,
}
use zanei.Daemon.Supervision.{
  after_join, reap, worker_stopped, start_if_ready, no_permissions, settle, settle_or_start,
  after_reap, supervise_managed,
}

module _ {C : Type 0} (w : ManagedCollector C) where
  after_join-IsValid :
      (m : Managed C) (joined : Relay × Result RelayExit) (now : ℕ) (allowed : Bool)
      → m.running ≡ false
      → m.started_at ≡ none
      → IsValid m
      → IsValid (after_join w m joined now allowed).0
  unfolding after_join
  after_join-IsValid m (r, err e) now allowed idle untimed v = record {
    relayed = λ h. cc;
    timed = λ h. untimed;
    counted = v.counted;
  }
  after_join-IsValid m (r, ok exit) now allowed idle untimed v = record {
    relayed = λ h. cc;
    timed = λ h. untimed;
    counted = omega arith;
  }

  worker_stopped-IsValid : (m : Managed C) → IsValid m → IsValid (worker_stopped w m)
  unfolding worker_stopped
  worker_stopped-IsValid m v = record {
    relayed = λ h. absurd (cc);
    timed = λ h. refl;
    counted = v.counted;
  }

  reap-IsValid :
      (m : Managed C) (relay : Option Relay) (now : ℕ) (allowed : Bool)
      → IsValid m
      → IsValid (reap w m relay now allowed).0
  unfolding reap worker_stopped
  reap-IsValid m none now allowed v = v
  reap-IsValid m (some r) now allowed v =
      if_rule (λ (r : Managed C × Option DaemonError). IsValid r.0) (m.running && is_finished r)
        (after_join w (worker_stopped w m) (join r) now allowed) (m, none)
        (λ _.
          after_join-IsValid (worker_stopped w m) (join r) now allowed refl refl
            (worker_stopped-IsValid m v))
        (λ _. v)

  settle-IsValid : (m : Managed C) (now : ℕ) → IsValid m → IsValid (settle w m now)
  unfolding settle
  settle-IsValid m now v = record {
    relayed = ground arith;
    timed = ground arith;
    counted = ground arith;
  }

  start_if_ready-IsValid :
      (m : Managed C) (spawn : Spawn) (errors : Errors) (now : ℕ) (allowed : Bool)
      → IsValid m
      → IsValid (start_if_ready w m spawn errors now allowed).0
  unfolding start_if_ready
  start_if_ready-IsValid m spawn errors now allowed v =
      if_rule (λ (r : Managed C × Errors). IsValid r.0) (ready m.restart now allowed)
        (start_managed w m spawn errors now allowed) (m, errors)
        (λ _. start_managed-IsValid w m spawn errors now allowed v) (λ _. v)

  settle_or_start-IsValid :
      (m : Managed C) (spawn : Spawn) (permissions : Option DaemonCapabilities)
      (required : List Capability) (errors : Errors) (now : ℕ) (allowed : Bool)
      → IsValid m
      → IsValid (settle_or_start w m spawn permissions required errors now allowed).0
  unfolding settle_or_start
  settle_or_start-IsValid m spawn permissions required errors now allowed v =
      if_rule Valid m.running (settle w m now, errors) _ (λ _. settle-IsValid m now v)
        (λ _.
          if_rule Valid (no_permissions permissions && not (is_empty required)) (m, errors)
            (start_if_ready w m spawn errors now allowed) (λ _. v)
            (λ _. start_if_ready-IsValid m spawn errors now allowed v))
    where
      Valid : Managed C × Errors → Type 0
      Valid r = IsValid r.0

  after_reap-IsValid :
      (r : Managed C × Option DaemonError) (spawn : Spawn) (permissions : Option DaemonCapabilities)
      (required : List Capability) (errors : Errors) (now : ℕ) (allowed : Bool)
      → IsValid r.0
      → IsValid (after_reap w r spawn permissions required errors now allowed).0.0
  unfolding after_reap
  after_reap-IsValid (m, some e) spawn permissions required errors now allowed v = v
  after_reap-IsValid (m, none) spawn permissions required errors now allowed v =
      settle_or_start-IsValid m spawn permissions required errors now allowed v

  supervise_managed-IsValid :
      (m : Managed C) (spawn : Spawn) (permissions : Option DaemonCapabilities) (errors : Errors)
      (now : ℕ) (allowed : Bool)
      → IsValid m
      → IsValid (supervise_managed w m spawn permissions errors now allowed).0.0
  unfolding supervise_managed
  supervise_managed-IsValid m spawn permissions errors now allowed v =
      after_reap-IsValid _ spawn permissions (w.worker_capabilities m.collector) errors now allowed
        (reap-IsValid m m.relay now allowed v)

  -- What the daemon does to one collector, and what happens to its relay's thread meanwhile: the
  -- thread may end, and its result is then what it is.
  pub data Step : Managed C → Managed C → Type 0 where
    start :
        (m : Managed C) (spawn : Spawn) (errors : Errors) (now : ℕ) (granted : Bool)
        → Step m (start_managed w m spawn errors now granted).0
    stop : (m : Managed C) (mode : StopMode) → Step m (stop_managed w m mode)
    supervise :
        (m : Managed C) (spawn : Spawn) (permissions : Option DaemonCapabilities) (errors : Errors)
        (now : ℕ) (allowed : Bool)
        → Step m (supervise_managed w m spawn permissions errors now allowed).0.0
    thread_changes :
        (m : Managed C) (flag : Bool) (before after : Thread)
        → m.relay ≡ some (record { handle = some before; stop_flag = flag })
        → Step m (record m { relay = some (record { handle = some after; stop_flag = flag }) })

  pub data Reach (c : C) : Managed C → Type 0 where
    fresh : Reach c (new_managed c)
    next : {m n : Managed C} → Reach c m → Step m n → Reach c n

  Step-IsValid : {m n : Managed C} → Step m n → IsValid m → IsValid n
  unfolding HasThread
  Step-IsValid (start m spawn errors now granted) v =
      start_managed-IsValid w m spawn errors now granted v
  Step-IsValid (stop m mode) v = stop_managed-IsValid w m mode v
  Step-IsValid (supervise m spawn permissions errors now allowed) v =
      supervise_managed-IsValid m spawn permissions errors now allowed v
  Step-IsValid (thread_changes m flag before after e) v = record {
    relayed = λ h. (after, refl);
    timed = v.timed;
    counted = v.counted;
  }

  -- However a collector is started, stopped and supervised, and whatever its worker, its threads
  -- and the permissions do, a running worker has a relay that can be joined, no start time is kept
  -- of one that does not run, and the count of dropped events fits in 64 bits.
  pub Reach-IsValid : {c : C} {m : Managed C} → Reach c m → IsValid m
  Reach-IsValid {c} fresh = new_managed-IsValid w c
  Reach-IsValid (next run step) = Step-IsValid step (Reach-IsValid run)
