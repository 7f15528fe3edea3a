-- ===== src/Macos/EventTap.antt =====
-- crates/zanei-macos/src/eventtap/state.rs: the life cycle of the event tap and its driver.
-- The trait `EventTapApi` is a record of operations on the state `A` of what implements it; a time
-- is a number of nanoseconds.
pub mod Recovery
pub mod Runs
use zanei.Prelude.{
  ℕ, suc, zero, ◌+◌, ◌*◌, min, Bool, true, false, not, ◌&&◌, ◌||◌, Option, none, some, ltb,
  if◌then◌else◌, saturating_add,
}

abbrev pub watchdog_interval : ℕ
watchdog_interval = 10 * 1000000000

abbrev pub retry_backoff : ℕ
retry_backoff = 30 * 1000000000

-- `Duration::MAX`.
abbrev pub duration_max : ℕ
duration_max = 18446744073709551615 * 1000000000 + 999999999

unfoldable pub after : ℕ → ℕ → ℕ
after time delay = min (time + delay) duration_max

pub data DisableReason : Type 0 where
  timeout user_input watchdog : DisableReason

pub data RecreateCause : Type 0 where
  startup wake retry : RecreateCause
  disabled_by : DisableReason → RecreateCause

pub data TapState : Type 0 where
  enabled : TapState
  disabled : DisableReason → TapState
  recreating : RecreateCause → TapState
  degraded : RecreateCause → ℕ → TapState

pub data Effect : Type 0 where
  enable recreate : Effect

pub data Input : Type 0 where
  tap_disabled : DisableReason → Input
  watchdog_tick : Bool → Bool → ℕ → Input
  woken : Input
  enable_finished : Bool → Input
  recreate_finished : Bool → ℕ → Input
  retry_due : ℕ → Input

pub record Lifecycle : Type 0 where
  pub state : TapState
  pub secure_input : Bool

abbrev pub in_state : Lifecycle → TapState → Lifecycle
in_state l s = record l { state = s }

unfoldable pub new : Lifecycle × Effect
new = (
  record { state = TapState.recreating RecreateCause.startup; secure_input = false },
  Effect.recreate,
)

abbrev pub retry_state : Lifecycle → TapState → ℕ → Lifecycle × Option Effect
retry_state l (TapState.degraded cause retry_at) now =
    if ltb now retry_at
    then (l, none)
    else (in_state l (TapState.recreating RecreateCause.retry), some Effect.recreate)
retry_state l _ now = (l, none)

unfoldable pub retry_if_due : Lifecycle → ℕ → Lifecycle × Option Effect
retry_if_due l now = retry_state l l.state now

abbrev pub on_disabled : Lifecycle → TapState → DisableReason → Lifecycle × Option Effect
on_disabled l TapState.enabled reason = (in_state l (TapState.disabled reason), some Effect.enable)
on_disabled l _ reason = (l, none)

abbrev pub is_enabled_state : TapState → Bool
is_enabled_state TapState.enabled = true
is_enabled_state _ = false

abbrev pub on_watchdog : Lifecycle → Bool → ℕ → Lifecycle × Option Effect
on_watchdog l tap_enabled now =
    if tap_enabled || not (is_enabled_state l.state)
    then retry_if_due l now
    else (in_state l (TapState.disabled DisableReason.watchdog), some Effect.enable)

abbrev pub on_enable_finished : Lifecycle → TapState → Bool → Lifecycle × Option Effect
on_enable_finished l (TapState.disabled reason) done =
    if done
    then (in_state l TapState.enabled, none)
    else (in_state l (TapState.recreating (RecreateCause.disabled_by reason)), some Effect.recreate)
on_enable_finished l _ done = (l, none)

abbrev pub on_recreate_finished : Lifecycle → TapState → Bool → ℕ → Lifecycle × Option Effect
on_recreate_finished l (TapState.recreating cause) done now = (
  in_state l (if done then TapState.enabled else TapState.degraded cause (after now retry_backoff)),
  none,
)
on_recreate_finished l _ done now = (l, none)

unfoldable pub transition : Lifecycle → Input → Lifecycle × Option Effect
transition l (Input.tap_disabled reason) = on_disabled l l.state reason
transition l (Input.watchdog_tick tap_enabled secure now) =
    on_watchdog (record l { secure_input = secure }) tap_enabled now
transition l Input.woken =
    (in_state l (TapState.recreating RecreateCause.wake), some Effect.recreate)
transition l (Input.enable_finished done) = on_enable_finished l l.state done
transition l (Input.recreate_finished done now) = on_recreate_finished l l.state done now
transition l (Input.retry_due now) = retry_if_due l now

abbrev pub is_degraded_state : TapState → Bool
is_degraded_state (TapState.degraded cause retry_at) = true
is_degraded_state _ = false

-- `EventTapApi`.
pub record EventTapApi (A : Type 0) : Type 0 where
  pub enable : A → A
  pub is_enabled : A → Bool
  pub recreate : A → A × Bool
  pub secure_input_enabled : A → Bool

pub record Driver (A : Type 0) : Type 0 where
  pub lifecycle : Lifecycle
  pub api : A
  pub degraded_entries : ℕ

unfoldable pub is_degraded : {A : Type 0} → Driver A → Bool
is_degraded d = is_degraded_state d.lifecycle.state

module _ {A : Type 0} (ops : EventTapApi A) where
  -- `Driver::transition`, which counts the entries into the degraded state.
  unfoldable pub drive : Driver A → Input → Driver A × Option Effect
  drive d input =
      let (l, effect) = transition d.lifecycle input in
      let entered = not (is_degraded_state d.lifecycle.state) && is_degraded_state l.state in
      (
        record d {
          lifecycle = l;
          degraded_entries =
              if entered then saturating_add d.degraded_entries 1 else d.degraded_entries;
        },
        effect,
      )

  unfoldable pub perform : Driver A → Effect → ℕ → Driver A × Option Effect
  perform d Effect.enable now =
      let api = ops.enable d.api in
      drive (record d { api = api }) (Input.enable_finished (ops.is_enabled api))
  perform d Effect.recreate now =
      let (api, done) = ops.recreate d.api in
      drive (record d { api = api }) (Input.recreate_finished (done && ops.is_enabled api) now)

  -- The loop of `run_effect`, with the effect that is next. It takes two rounds at most.
  unfoldable pub run_loop : ℕ → Driver A × Option Effect → ℕ → Driver A × Option Effect
  run_loop fuel (d, none) now = (d, none)
  run_loop zero (d, some effect) now = (d, some effect)
  run_loop (suc fuel) (d, some effect) now = run_loop fuel (perform d effect now) now

  abbrev pub run_effect : Driver A → Option Effect → ℕ → Driver A
  run_effect d effect now = (run_loop 2 (d, effect) now).0

  unfoldable pub apply : Driver A → Input → ℕ → Driver A
  apply d input now = let (d', effect) = drive d input in run_effect d' effect now

  unfoldable pub driver_start : A → ℕ → Driver A
  driver_start api now =
      let (lifecycle, effect) = new in
      run_effect (record { lifecycle = lifecycle; api = api; degraded_entries = 0 }) (some effect)
        now

  unfoldable pub driver_disabled : Driver A → DisableReason → ℕ → Driver A
  driver_disabled d reason now = apply d (Input.tap_disabled reason) now

  unfoldable pub driver_watchdog : Driver A → ℕ → Driver A
  driver_watchdog d now =
      apply d (Input.watchdog_tick (ops.is_enabled d.api) (ops.secure_input_enabled d.api) now) now

  unfoldable pub driver_wake : Driver A → ℕ → Driver A
  driver_wake d now = apply d Input.woken now

  unfoldable pub driver_retry : Driver A → ℕ → Driver A
  driver_retry d now = apply d (Input.retry_due now) now
