-- ===== src/Macos/EventTap/Runs.antt =====
-- crates/zanei-macos/src/eventtap/state.rs: what the driver keeps over its calls.
use zanei.Prelude.{
  if_rule, ℕ, ◌≡◌, refl, sym, ap, ◌∙◌, subst, ◌⊎◌, inl, inr, Bool, true, false, not, ◌||◌, Option,
  none, some, arith, ltb, Bool-cases,
}
use zanei.Macos.EventTap.{
  retry_state, on_disabled, is_enabled_state, DisableReason, RecreateCause, TapState, Effect, Input,
  Lifecycle, EventTapApi, Driver, new, retry_if_due, transition, drive, run_loop, run_effect, apply,
  driver_start, driver_disabled, driver_watchdog, driver_wake, driver_retry, retry_backoff, after,
}
use zanei.Macos.EventTap.Recovery.{IsResting, Recovered, Asks, run_effect-Recovered}

-- What a call of the driver tells the life cycle.
abbrev pub IsCall : Input → Type 0
IsCall (Input.enable_finished done) = ⊥
IsCall (Input.recreate_finished done now) = ⊥
IsCall _ = Unit

-- Either nothing is to be done and the tap rests, or the state asks for the effect.
abbrev Answers : Lifecycle × Option Effect → Type 0
Answers (l, none) = IsResting l.state
Answers (l, some effect) = Asks l.state effect

at_rest : (l : Lifecycle) (s : TapState) → l.state ≡ s → IsResting s → IsResting l.state
at_rest l s e h = subst IsResting (sym e) h

retry_state-Answers :
    (l : Lifecycle) (s : TapState) (now : ℕ)
    → l.state ≡ s
    → IsResting s
    → Answers (retry_state l s now)
retry_state-Answers l TapState.enabled now e h = at_rest l TapState.enabled e tt
retry_state-Answers l (TapState.degraded cause t) now e h =
    if_rule Answers (ltb now t) (l, none)
      (record l { state = TapState.recreating RecreateCause.retry }, some Effect.recreate)
      (λ _. at_rest l (TapState.degraded cause t) e tt) (λ _. (RecreateCause.retry, refl))
retry_state-Answers l (TapState.disabled reason) now e h = absurd h
retry_state-Answers l (TapState.recreating cause) now e h = absurd h

on_disabled-Answers :
    (l : Lifecycle) (s : TapState) (reason : DisableReason)
    → l.state ≡ s
    → IsResting s
    → Answers (on_disabled l s reason)
on_disabled-Answers l TapState.enabled reason e h = (reason, refl)
on_disabled-Answers l (TapState.degraded cause t) reason e h =
    at_rest l (TapState.degraded cause t) e tt
on_disabled-Answers l (TapState.disabled r) reason e h = absurd h
on_disabled-Answers l (TapState.recreating cause) reason e h = absurd h

transition-Answers :
    (l : Lifecycle) (input : Input)
    → IsCall input
    → IsResting l.state
    → Answers (transition l input)
unfolding transition retry_if_due
transition-Answers l (Input.tap_disabled reason) c h = on_disabled-Answers l l.state reason refl h
transition-Answers l (Input.watchdog_tick tap_enabled secure now) c h =
    let l' = record l { secure_input = secure } in
    if_rule Answers (tap_enabled || not (is_enabled_state l.state)) (retry_state l' l.state now)
      (record l' { state = TapState.disabled DisableReason.watchdog }, some Effect.enable)
      (λ _. retry_state-Answers l' l.state now refl h) (λ _. (DisableReason.watchdog, refl))
transition-Answers l Input.woken c h = (RecreateCause.wake, refl)
transition-Answers l (Input.retry_due now) c h = retry_state-Answers l l.state now refl h
transition-Answers l (Input.enable_finished done) c h = absurd c
transition-Answers l (Input.recreate_finished done now) c h = absurd c

module _ {A : Type 0} (ops : EventTapApi A) where
  -- A call leaves the tap as it is, but for what it notes of the secure input, or recovers it.
  abbrev Outcome : Driver A → Driver A → ℕ → Type 0
  Outcome d d' now = (IsResting d'.lifecycle.state × (d'.api ≡ d.api)) ⊎ Recovered ops d' now

  drive-state :
      (d : Driver A) (input : Input)
      → ((drive ops d input).0.lifecycle ≡ (transition d.lifecycle input).0)
        × ((drive ops d input).1 ≡ (transition d.lifecycle input).1)
        × ((drive ops d input).0.api ≡ d.api)
  unfolding drive
  drive-state d input = (refl, refl, refl)

  finish-Outcome :
      (d d' : Driver A) (effect : Option Effect) (now : ℕ)
      → d'.api ≡ d.api
      → Answers (d'.lifecycle, effect)
      → Outcome d (run_effect ops d' effect now) now
  unfolding run_loop
  finish-Outcome d d' none now e h = inl (h, e)
  finish-Outcome d d' (some effect) now e h = inr (run_effect-Recovered ops d' effect now h)

  apply-Outcome :
      (d : Driver A) (input : Input) (now : ℕ)
      → IsCall input
      → IsResting d.lifecycle.state
      → Outcome d (apply ops d input now) now
  unfolding apply drive
  apply-Outcome d input now c h =
      finish-Outcome d (drive ops d input).0 (drive ops d input).1 now refl
        (transition-Answers d.lifecycle input c h)

  Recovered-IsResting : (d : Driver A) (now : ℕ) → Recovered ops d now → IsResting d.lifecycle.state
  Recovered-IsResting d now (inl (e, k)) = at_rest d.lifecycle TapState.enabled e tt
  Recovered-IsResting d now (inr (cause, e)) =
      at_rest d.lifecycle (TapState.degraded cause (after now retry_backoff)) e tt

  apply-IsResting :
      (d : Driver A) (input : Input) (now : ℕ)
      → IsCall input
      → IsResting d.lifecycle.state
      → IsResting (apply ops d input now).lifecycle.state
  apply-IsResting d input now c h = elim (apply-Outcome d input now c h) [
    | inl (rests, same) ↦ rests
    | inr r ↦ Recovered-IsResting (apply ops d input now) now r
  ]

  -- What can happen to a driver: its calls, and a change of the tap from outside.
  pub data Reach : Driver A → Type 0 where
    started : (api : A) (now : ℕ) → Reach (driver_start ops api now)
    disabled :
        {d : Driver A} (reason : DisableReason) (now : ℕ)
        → Reach d
        → Reach (driver_disabled ops d reason now)
    watched : {d : Driver A} (now : ℕ) → Reach d → Reach (driver_watchdog ops d now)
    woken : {d : Driver A} (now : ℕ) → Reach d → Reach (driver_wake ops d now)
    retried : {d : Driver A} (now : ℕ) → Reach d → Reach (driver_retry ops d now)
    outside : {d : Driver A} (api : A) → Reach d → Reach (record d { api = api })

  -- Between two calls a driver is never in the middle of a recovery: it is enabled, or degraded with
  -- a time for the retry, whatever the system answered.
  pub Reach-IsResting : {d : Driver A} → Reach d → IsResting d.lifecycle.state
  unfolding driver_start driver_disabled driver_watchdog driver_wake driver_retry new
  Reach-IsResting (started api now) = Recovered-IsResting (driver_start ops api now) now (
      run_effect-Recovered ops
        (record {
          lifecycle = record {
            state = TapState.recreating RecreateCause.startup;
            secure_input = false;
          };
          api = api;
          degraded_entries = 0;
        })
        Effect.recreate now (RecreateCause.startup, refl))
  Reach-IsResting (disabled {d} reason now r) =
      apply-IsResting d (Input.tap_disabled reason) now tt (Reach-IsResting r)
  Reach-IsResting (watched {d} now r) = apply-IsResting d _ now tt (Reach-IsResting r)
  Reach-IsResting (woken {d} now r) = apply-IsResting d Input.woken now tt (Reach-IsResting r)
  Reach-IsResting (retried {d} now r) =
      apply-IsResting d (Input.retry_due now) now tt (Reach-IsResting r)
  Reach-IsResting (outside api r) = Reach-IsResting r

  -- When the system says that the tap is off, the check acts unless the driver is degraded.
  abbrev Notices : Lifecycle × Option Effect → Type 0
  Notices (l, none) = is_enabled_state l.state ≡ false
  Notices (l, some effect) = Asks l.state effect

  retry_state-Notices :
      (l : Lifecycle) (s : TapState) (now : ℕ)
      → l.state ≡ s
      → IsResting s
      → is_enabled_state s ≡ false
      → Notices (retry_state l s now)
  retry_state-Notices l (TapState.degraded cause t) now e h k =
      if_rule Notices (ltb now t) (l, none)
        (record l { state = TapState.recreating RecreateCause.retry }, some Effect.recreate)
        (λ _. ap is_enabled_state e) (λ _. (RecreateCause.retry, refl))
  retry_state-Notices l TapState.enabled now e h k = cc
  retry_state-Notices l (TapState.disabled reason) now e h k = absurd h
  retry_state-Notices l (TapState.recreating cause) now e h k = absurd h

  watchdog-Notices :
      (l : Lifecycle) (secure : Bool) (now : ℕ)
      → IsResting l.state
      → Notices (transition l (Input.watchdog_tick false secure now))
  unfolding transition retry_if_due
  watchdog-Notices l secure now h =
      let l' = record l { secure_input = secure } in
      if_rule Notices (not (is_enabled_state l.state)) (retry_state l' l.state now)
        (record l' { state = TapState.disabled DisableReason.watchdog }, some Effect.enable)
        (λ e. retry_state-Notices l' l.state now refl h (ground (arith, e)))
        (λ _. (DisableReason.watchdog, refl))

  finish-Notices :
      (d : Driver A) (effect : Option Effect) (now : ℕ)
      → Notices (d.lifecycle, effect)
      → (is_enabled_state (run_effect ops d effect now).lifecycle.state ≡ false)
        ⊎ Recovered ops (run_effect ops d effect now) now
  unfolding run_loop
  finish-Notices d none now h = inl h
  finish-Notices d (some effect) now h = inr (run_effect-Recovered ops d effect now h)

  Recovered-enabled :
      (d : Driver A) (now : ℕ)
      → Recovered ops d now
      → d.lifecycle.state ≡ TapState.enabled
      → ops.is_enabled d.api ≡ true
  Recovered-enabled d now (inl (e, k)) h = k
  Recovered-enabled d now (inr (cause, e)) h = cc

  -- After a check of the watchdog a driver that was at rest says that the tap is enabled only if the
  -- system says so too.
  pub driver_watchdog-enabled :
      (d : Driver A) (now : ℕ)
      → IsResting d.lifecycle.state
      → (driver_watchdog ops d now).lifecycle.state ≡ TapState.enabled
      → ops.is_enabled (driver_watchdog ops d now).api ≡ true
  unfolding driver_watchdog apply drive
  driver_watchdog-enabled d now rests h = elim (Bool-cases (ops.is_enabled d.api)) [
    | inl on ↦
        elim (apply-Outcome d
          (Input.watchdog_tick (ops.is_enabled d.api) (ops.secure_input_enabled d.api) now) now tt
          rests) [
            | inl (_, same) ↦ ap ops.is_enabled same ∙ on
            | inr r ↦ Recovered-enabled (driver_watchdog ops d now) now r h
          ]
    | inr off ↦ elim (off_outcome off) [
      | inl e ↦ cc (ap is_enabled_state h)
      | inr r ↦ Recovered-enabled (driver_watchdog ops d now) now r h
    ]
  ]
    where
      off_outcome :
          ops.is_enabled d.api ≡ false
          → (is_enabled_state (driver_watchdog ops d now).lifecycle.state ≡ false)
            ⊎ Recovered ops (driver_watchdog ops d now) now
      off_outcome off =
          let input =
            Input.watchdog_tick (ops.is_enabled d.api) (ops.secure_input_enabled d.api) now in
          finish-Notices (drive ops d input).0 (drive ops d input).1 now (
            subst
              (λ b. Notices (
                transition d.lifecycle
                  (Input.watchdog_tick b (ops.secure_input_enabled d.api) now)))
              (sym off) (watchdog-Notices d.lifecycle (ops.secure_input_enabled d.api) now rests))
