-- ===== src/Examples/Taps.antt =====
-- The event tap's driver with a system whose answers are given.
use zanei.Prelude.{ℕ, ◌*◌, ◌≡◌, refl, Bool, true, false, none, some, List, [], ◌∷◌, saturating_add}
use zanei.Macos.EventTap.{
  RecreateCause, TapState, Effect, EventTapApi, Driver, run_loop, driver_start, driver_watchdog,
  driver_retry, after, apply, drive, new, perform, retry_if_due, transition,
}
use zanei.Macos.EventTap.Recovery.{IsResting, run_loop-none}
use zanei.Macos.EventTap.Runs.{Reach, Reach-IsResting, driver_watchdog-enabled}

-- A tap that only a recreation turns on, and what the next ones give.
record Tap : Type 0 where
  on : Bool
  repairs : List Bool

abbrev repair : List Bool → Tap × Bool
repair [] = (record { on = false; repairs = [] }, false)
repair (r ∷ rs) = (record { on = r; repairs = rs }, r)

abbrev system : EventTapApi Tap
system = record {
  enable = λ t. t;
  is_enabled = λ t. t.on;
  recreate = λ t. repair t.repairs;
  secure_input_enabled = λ t. false;
}

abbrev seconds : ℕ → ℕ
seconds n = n * 1000000000

-- The first recreation fails and the second one does not.
abbrev failed_start : Driver Tap
failed_start = driver_start system (record { on = false; repairs = false ∷ true ∷ [] }) (seconds 5)

failed_start_state :
    failed_start.lifecycle.state ≡ TapState.degraded RecreateCause.startup (seconds 35)
unfolding driver_start run_loop perform new drive transition after
failed_start_state = refl

one_entry : failed_start.degraded_entries ≡ 1
unfolding driver_start run_loop perform new drive transition saturating_add
one_entry = refl

too_early : (driver_retry system failed_start (seconds 34)).api.repairs ≡ true ∷ []
unfolding driver_retry apply run_loop drive transition retry_if_due driver_start perform new after
too_early = refl

retried : (driver_retry system failed_start (seconds 35)).lifecycle.state ≡ TapState.enabled
unfolding driver_retry apply run_loop drive transition retry_if_due driver_start perform new after
retried = refl

Reach-IsResting_example : IsResting (driver_retry system failed_start (seconds 35)).lifecycle.state
Reach-IsResting_example = Reach-IsResting system (
    Reach.retried (seconds 35)
      (Reach.started (record { on = false; repairs = false ∷ true ∷ [] }) (seconds 5)))

-- A driver that says enabled while the system has turned the tap off.
abbrev turned_off : Driver Tap
turned_off = record {
  lifecycle = record { state = TapState.enabled; secure_input = false };
  api = record { on = false; repairs = true ∷ [] };
  degraded_entries = 0;
}

noticed : (driver_watchdog system turned_off (seconds 10)).lifecycle.state ≡ TapState.enabled
unfolding driver_watchdog apply run_loop drive transition perform
noticed = refl

driver_watchdog-enabled_example :
    system.is_enabled (driver_watchdog system turned_off (seconds 10)).api ≡ true
driver_watchdog-enabled_example = driver_watchdog-enabled system turned_off (seconds 10) tt noticed

run_loop-none_example : (run_loop system 2 (turned_off, some Effect.enable) (seconds 1)).1 ≡ none
run_loop-none_example = run_loop-none system turned_off Effect.enable (seconds 1)
