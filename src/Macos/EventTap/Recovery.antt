-- ===== src/Macos/EventTap/Recovery.antt =====
-- crates/zanei-macos/src/eventtap/state.rs: how the driver recovers a tap.
use zanei.Prelude.{
  ℕ, suc, ◌≡◌, refl, sym, ap, ◌∙◌, subst, ◌⊎◌, inl, inr, Bool, true, false, ◌&&◌, Option, none,
  some, Bool-cases,
}
use zanei.Macos.EventTap.{
  DisableReason, RecreateCause, TapState, Effect, Lifecycle, EventTapApi, Driver, transition,
  on_recreate_finished, on_enable_finished, drive, perform, run_loop, run_effect, retry_backoff,
  after,
}

-- A tap that no recovery is under way for.
abbrev pub IsResting : TapState → Type 0
IsResting TapState.enabled = Unit
IsResting (TapState.degraded cause retry_at) = Unit
IsResting _ = ⊥

-- An effect together with the state that asks for it.
abbrev pub Asks : TapState → Effect → Type 0
Asks s Effect.enable = (reason : DisableReason) × (s ≡ TapState.disabled reason)
Asks s Effect.recreate = (cause : RecreateCause) × (s ≡ TapState.recreating cause)

and_right : (a b : Bool) → (a && b) ≡ true → b ≡ true
and_right true b h = h
and_right false b h = cc

module _ {A : Type 0} (ops : EventTapApi A) where
  -- Where a recovery ends: enabled, with the tap enabled in the system, or degraded until the time
  -- of the retry.
  abbrev pub Recovered : Driver A → ℕ → Type 0
  Recovered d now =
      ((d.lifecycle.state ≡ TapState.enabled) × (ops.is_enabled d.api ≡ true))
      ⊎ ((cause : RecreateCause) × (d.lifecycle.state
            ≡ TapState.degraded cause (after now retry_backoff)))

  abbrev Step : Type 0
  Step = Driver A × Option Effect

  run_loop-rest : (fuel : ℕ) (p : Step) (now : ℕ) → p.1 ≡ none → run_loop ops fuel p now ≡ p
  unfolding run_loop
  run_loop-rest fuel (d, none) now h = refl
  run_loop-rest fuel (d, some effect) now h = cc

  run_loop-suc :
      (fuel : ℕ) (d : Driver A) (effect : Effect) (now : ℕ)
      → run_loop ops (suc fuel) (d, some effect) now
        ≡ run_loop ops fuel (perform ops d effect now) now
  unfolding run_loop
  run_loop-suc fuel d effect now = refl

  perform_recreate-none : (d : Driver A) (now : ℕ) → (perform ops d Effect.recreate now).1 ≡ none
  unfolding perform drive transition
  perform_recreate-none d now =
      let (api, done) = ops.recreate d.api in
      last_step d.lifecycle d.lifecycle.state (done && ops.is_enabled api)
    where
      last_step :
          (l : Lifecycle) (s : TapState) (done : Bool)
          → (on_recreate_finished l s done now).1 ≡ none
      last_step l TapState.enabled done = refl
      last_step l (TapState.disabled reason) done = refl
      last_step l (TapState.recreating cause) done = refl
      last_step l (TapState.degraded cause retry_at) done = refl

  perform_enable-next :
      (d : Driver A) (now : ℕ)
      → ((perform ops d Effect.enable now).1 ≡ none)
        ⊎ ((perform ops d Effect.enable now).1 ≡ some Effect.recreate)
  unfolding perform drive transition
  perform_enable-next d now =
      next_step d.lifecycle d.lifecycle.state (ops.is_enabled (ops.enable d.api))
    where
      next_step :
          (l : Lifecycle) (s : TapState) (done : Bool)
          → ((on_enable_finished l s done).1 ≡ none)
            ⊎ ((on_enable_finished l s done).1 ≡ some Effect.recreate)
      next_step l (TapState.disabled reason) true = inl refl
      next_step l (TapState.disabled reason) false = inr refl
      next_step l TapState.enabled done = inl refl
      next_step l (TapState.recreating cause) done = inl refl
      next_step l (TapState.degraded cause retry_at) done = inl refl

  run_loop-recreate :
      (fuel : ℕ) (d : Driver A) (now : ℕ)
      → run_loop ops (suc fuel) (d, some Effect.recreate) now ≡ perform ops d Effect.recreate now
  run_loop-recreate fuel d now =
      run_loop-suc fuel d Effect.recreate now
      ∙ run_loop-rest fuel (perform ops d Effect.recreate now) now (perform_recreate-none d now)

  -- A step whose effect is to recreate the tap is the last but one.
  run_loop-next :
      (fuel : ℕ) (p : Step) (now : ℕ)
      → p.1 ≡ some Effect.recreate
      → run_loop ops (suc fuel) p now ≡ perform ops p.0 Effect.recreate now
  run_loop-next fuel (d, effect) now h =
      ap (λ e. run_loop ops (suc fuel) (d, e) now) h ∙ run_loop-recreate fuel d now

  -- Whatever the state of the driver and the answers of the system, the loop of `run_effect` has no
  -- effect left after two rounds.
  pub run_loop-none :
      (d : Driver A) (effect : Effect) (now : ℕ) → (run_loop ops 2 (d, some effect) now).1 ≡ none
  run_loop-none d Effect.recreate now =
      ap (λ p. p.1) (run_loop-recreate 1 d now) ∙ perform_recreate-none d now
  run_loop-none d Effect.enable now =
      let first = perform ops d Effect.enable now in
      ap (λ p. p.1) (run_loop-suc 1 d Effect.enable now) ∙ (elim (perform_enable-next d now) [
        | inl h ↦ ap (λ p. p.1) (run_loop-rest 1 first now h) ∙ h
        | inr h ↦ ap (λ p. p.1) (run_loop-next 0 first now h) ∙ perform_recreate-none first.0 now
      ])

  perform_recreate-Recovered :
      (d : Driver A) (cause : RecreateCause) (now : ℕ)
      → d.lifecycle.state ≡ TapState.recreating cause
      → Recovered (perform ops d Effect.recreate now).0 now
  unfolding perform drive transition
  perform_recreate-Recovered d cause now h =
      let (api, done) = ops.recreate d.api in
      elim (Bool-cases (done && ops.is_enabled api)) [
        | inl e ↦ rw h (rw e (inl (refl, and_right done (ops.is_enabled api) e)))
        | inr e ↦ rw h (rw e (inr (cause, refl)))
      ]

  enabled_at_once :
      (d : Driver A) (reason : DisableReason) (now : ℕ)
      → d.lifecycle.state ≡ TapState.disabled reason
      → ops.is_enabled (ops.enable d.api) ≡ true
      → ((perform ops d Effect.enable now).1 ≡ none)
        × ((perform ops d Effect.enable now).0.lifecycle.state ≡ TapState.enabled)
        × (ops.is_enabled (perform ops d Effect.enable now).0.api ≡ true)
  unfolding perform drive transition
  enabled_at_once d reason now h e = rw h (rw e (refl, refl, refl))

  still_disabled :
      (d : Driver A) (reason : DisableReason) (now : ℕ)
      → d.lifecycle.state ≡ TapState.disabled reason
      → ops.is_enabled (ops.enable d.api) ≡ false
      → ((perform ops d Effect.enable now).1 ≡ some Effect.recreate)
        × ((perform ops d Effect.enable now).0.lifecycle.state
            ≡ TapState.recreating (RecreateCause.disabled_by reason))
  unfolding perform drive transition
  still_disabled d reason now h e = rw h (rw e (refl, refl))

  perform_enable-Recovered :
      (d : Driver A) (reason : DisableReason) (now : ℕ)
      → d.lifecycle.state ≡ TapState.disabled reason
      → Recovered (run_loop ops 1 (perform ops d Effect.enable now) now).0 now
  perform_enable-Recovered d reason now h =
      let first = perform ops d Effect.enable now in
      elim (Bool-cases (ops.is_enabled (ops.enable d.api))) [
        | inl e ↦
            let (next, state, api) = enabled_at_once d reason now h e in
            subst (λ p. Recovered p.0 now) (sym (run_loop-rest 1 first now next)) (inl (state, api))
        | inr e ↦
            let (next, state) = still_disabled d reason now h e in
            subst (λ p. Recovered p.0 now) (sym (run_loop-next 0 first now next))
              (perform_recreate-Recovered first.0 (RecreateCause.disabled_by reason) now state)
      ]

  pub run_effect-Recovered :
      (d : Driver A) (effect : Effect) (now : ℕ)
      → Asks d.lifecycle.state effect
      → Recovered (run_effect ops d (some effect) now) now
  run_effect-Recovered d Effect.enable now (reason, h) =
      subst (λ p. Recovered p.0 now) (sym (run_loop-suc 1 d Effect.enable now))
        (perform_enable-Recovered d reason now h)
  run_effect-Recovered d Effect.recreate now (cause, h) =
      subst (λ p. Recovered p.0 now) (sym (run_loop-recreate 1 d now))
        (perform_recreate-Recovered d cause now h)
