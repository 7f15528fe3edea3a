-- ===== src/Daemon/Managed/Invariant.antt =====
-- What every operation of supervisor.rs keeps true of a supervised collector.
use zanei.Prelude.{
  ℕ, ◌≤◌, ◌≡◌, refl, Bool, true, false, Option, none, some, Text, arith, u64_max, saturating_add_le,
  if_rule,
}
use zanei.Daemon.Handle.{Relay, Thread}
use zanei.Daemon.Managed.{
  ManagedCollector, Managed, Spawn, spawned, spawn_failed, Errors, StopMode, new_managed,
  finish_start, spawn_and_start, start_managed, stop_running, take_relay, stop_managed,
}

-- A relay whose thread can still be joined.
unfoldable pub HasThread : Option Relay → Type 0
HasThread none = ⊥
HasThread (some r) = (t : Thread) × (r.handle ≡ some t)

-- A running worker has a relay with a thread, only a running worker has a start time, and the
-- count of dropped events fits in 64 bits.
pub record IsValid {C : Type 0} (m : Managed C) : Type 0 where
  pub relayed : m.running ≡ true → HasThread m.relay
  pub timed : m.running ≡ false → m.started_at ≡ none
  pub counted : m.relay_dropped ≤ u64_max

module _ {C : Type 0} (w : ManagedCollector C) where
  pub new_managed-IsValid : (c : C) → IsValid (new_managed c)
  unfolding new_managed
  new_managed-IsValid c = record {
    relayed = λ h. absurd (cc);
    timed = λ h. refl;
    counted = omega arith;
  }

  finish_start-IsValid :
      (name : Text) (m : Managed C) (thread : Thread) (error : Option Text) (errors : Errors)
      (now : ℕ) (granted : Bool)
      → IsValid m
      → IsValid
          (finish_start w name m
            (record { handle = some thread; stop_flag = false })
            error
            errors
            now
            granted).0
  unfolding finish_start HasThread
  finish_start-IsValid name m thread none errors now granted v = record {
    relayed = λ h. (thread, refl);
    timed = λ h. cc;
    counted = v.counted;
  }
  finish_start-IsValid name m thread (some e) errors now granted v = record {
    relayed = v.relayed;
    timed = v.timed;
    counted = v.counted;
  }

  spawn_and_start-IsValid :
      (m : Managed C) (spawn : Spawn) (errors : Errors) (now : ℕ) (granted : Bool)
      → IsValid m
      → IsValid (spawn_and_start w m spawn errors now granted).0
  unfolding spawn_and_start
  spawn_and_start-IsValid m (spawned thread) errors now granted v =
      let (c, error) = w.start_worker m.collector in
      finish_start-IsValid (w.worker_name m.collector) (record m { collector = c }) thread error
        errors now granted (record { relayed = v.relayed; timed = v.timed; counted = v.counted })
  spawn_and_start-IsValid m (spawn_failed e) errors now granted v = record {
    relayed = v.relayed;
    timed = v.timed;
    counted = v.counted;
  }

  pub start_managed-IsValid :
      (m : Managed C) (spawn : Spawn) (errors : Errors) (now : ℕ) (granted : Bool)
      → IsValid m
      → IsValid (start_managed w m spawn errors now granted).0
  unfolding start_managed
  start_managed-IsValid m spawn errors now granted v =
      if_rule (λ (r : Managed C × Errors). IsValid r.0) m.running (m, errors) _ (λ _. v)
        (λ _. spawn_and_start-IsValid m spawn errors now granted v)

  stop_running-IsValid : (m : Managed C) → (stop_running w m).running ≡ false
  unfolding stop_running
  stop_running-IsValid m = ground arith

  take_relay-counted :
      (m : Managed C) (mode : StopMode)
      → m.relay_dropped ≤ u64_max
      → (take_relay w m mode).relay_dropped ≤ u64_max
  unfolding take_relay
  take_relay-counted m mode h = ground (arith, λ (n : ℕ). saturating_add_le m.relay_dropped n)

  -- A stopped collector has neither worker nor relay nor start time, whatever it was before.
  pub stop_managed_cleared :
      (m : Managed C) (mode : StopMode)
      → ((stop_managed w m mode).running ≡ false)
        × ((stop_managed w m mode).relay ≡ none)
        × ((stop_managed w m mode).started_at ≡ none)
  unfolding stop_managed
  stop_managed_cleared m mode = (ground arith, ground arith, refl)

  pub stop_managed-IsValid :
      (m : Managed C) (mode : StopMode) → IsValid m → IsValid (stop_managed w m mode)
  stop_managed-IsValid m mode v =
      let cleared = stop_managed_cleared m mode in
      record {
        relayed = λ h. ground (arith, cleared);
        timed = λ h. cleared.2;
        counted = unfold stop_managed in ground (arith, take_relay-counted m mode);
      }
