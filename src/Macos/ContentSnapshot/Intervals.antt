-- ===== src/Macos/ContentSnapshot/Intervals.antt =====
-- crates/zanei-macos/src/content_snapshot/state.rs: any calls of the state, and the time between saves.
use zanei.Prelude.{
  ℕ, ◌+◌, ◌≤◌, ◌<◌, ◌≡◌, ◌≢◌, refl, ap, ◌∙◌, Bool, not, ltb, saturating_add, Option, none, some,
  List, [], ◌∷◌, arith, All, if_rule, subst,
}
use zanei.Macos.ContentSnapshot.Trigger.{SnapshotWindowKey}
use zanei.Macos.ContentSnapshot.Scheduler.{global_save_interval}
use zanei.Macos.ContentSnapshot.Due.{global_interval_allows}
use zanei.Macos.ContentSnapshot.State.{
  SnapshotOrigin, SaveBlock, SavedWindow, SnapshotState, saved_window, is_saved,
  daily_text_budget_bytes, roll_daily_window, daily_budget_allows, evaluate_save, reserve,
  change_saved, record_hash, record_recognized_image, record_failure, clear_backoff,
  record_scan_success, forget_pid,
}
use zanei.Macos.ContentSnapshot.Saves.{evaluate_save-interval}

-- The calls that change the state.
pub data StateCall : Type 0 where
  budget_call : ℕ → StateCall
  evaluate_call : SnapshotWindowKey → SnapshotOrigin → ℕ → ℕ → ℕ → StateCall
  reserve_call : SnapshotWindowKey → ℕ → ℕ → StateCall
  hash_call : SnapshotWindowKey → SnapshotOrigin → ℕ → StateCall
  image_call : SnapshotWindowKey → ℕ → StateCall
  failure_call : ℕ → ℕ → Bool → StateCall
  clear_call success_call terminate_call : ℕ → StateCall

-- One call; none is a panic.
unfoldable pub perform_call : SnapshotState → StateCall → Option SnapshotState
perform_call s (budget_call now) = some (daily_budget_allows s now).0
perform_call s (evaluate_call key origin hash bytes now) =
    some (evaluate_save s key origin hash bytes now).0
perform_call s (reserve_call key bytes now) = some (reserve s key bytes now)
perform_call s (hash_call key origin hash) = record_hash s key origin hash
perform_call s (image_call key image) = record_recognized_image s key image
perform_call s (failure_call pid now timed_out) = some (record_failure s pid now timed_out)
perform_call s (clear_call pid) = some (clear_backoff s pid)
perform_call s (success_call pid) = some (record_scan_success s pid)
perform_call s (terminate_call pid) = some (forget_pid s pid)

abbrev and_then :
    Option SnapshotState → (SnapshotState → Option SnapshotState) → Option SnapshotState
and_then none f = none
and_then (some s) f = f s

unfoldable pub perform_calls : SnapshotState → List StateCall → Option SnapshotState
perform_calls s [] = some s
perform_calls s (c ∷ cs) = and_then (perform_call s c) (λ s'. perform_calls s' cs)

-- The call reserves no earlier than at a time.
abbrev pub IsSince : ℕ → StateCall → Type 0
IsSince now (reserve_call key bytes at) = now ≤ at
IsSince now _ = Unit

-- The last save is no earlier than a time.
abbrev SavedSince : ℕ → SnapshotState → Type 0
SavedSince now s = (at : ℕ) × (s.global_saved_at ≡ some at) × (now ≤ at)

abbrev SavedIf : ℕ → Option SnapshotState → Type 0
SavedIf now none = Unit
SavedIf now (some s) = SavedSince now s

abbrev SavedAfter : ℕ → SnapshotState × Option SaveBlock → Type 0
SavedAfter now (s, block) = SavedSince now s

roll_daily_window-SavedSince :
    (now : ℕ) (s : SnapshotState) (next : ℕ)
    → SavedSince now s
    → SavedSince now (roll_daily_window s next)
unfolding roll_daily_window
roll_daily_window-SavedSince now s next h = if_rule (SavedSince now) _ _ s (λ _. h) (λ _. h)

change_saved-SavedIf :
    (now : ℕ) (s : SnapshotState) (key : SnapshotWindowKey) (f : SavedWindow → SavedWindow)
    (o : Option SavedWindow)
    → SavedSince now s
    → SavedIf now (change_saved s key f o)
change_saved-SavedIf now s key f none h = tt
change_saved-SavedIf now s key f (some w) h = h

evaluate_save-SavedSince :
    (now : ℕ) (s : SnapshotState) (key : SnapshotWindowKey) (origin : SnapshotOrigin)
    (hash bytes next : ℕ)
    → SavedSince now s
    → SavedAfter now (evaluate_save s key origin hash bytes next)
unfolding evaluate_save
evaluate_save-SavedSince now s key origin hash bytes next h =
    let s' = roll_daily_window s next in
    let rolled = roll_daily_window-SavedSince now s next h in
    if_rule (SavedAfter now) (is_saved origin hash (saved_window s' key)) _ _ (λ _. rolled)
      (λ _.
        if_rule (SavedAfter now) (not (global_interval_allows s'.global_saved_at next)) _ _
          (λ _. rolled)
          (λ _.
            if_rule (SavedAfter now)
              (ltb daily_text_budget_bytes (saturating_add s'.daily_bytes bytes)) _ _ (λ _. rolled)
              (λ _. rolled)))

perform_call-SavedIf :
    (now : ℕ) (s : SnapshotState) (c : StateCall)
    → IsSince now c
    → SavedSince now s
    → SavedIf now (perform_call s c)
unfolding perform_call daily_budget_allows reserve record_hash record_recognized_image
    record_failure clear_backoff record_scan_success forget_pid
perform_call-SavedIf now s (budget_call next) c h = roll_daily_window-SavedSince now s next h
perform_call-SavedIf now s (evaluate_call key origin hash bytes next) c h =
    evaluate_save-SavedSince now s key origin hash bytes next h
perform_call-SavedIf now s (reserve_call key bytes at) c h = (at, refl, c)
perform_call-SavedIf now s (hash_call key origin hash) c h =
    change_saved-SavedIf now s key _ (saved_window s key) h
perform_call-SavedIf now s (image_call key image) c h =
    change_saved-SavedIf now s key _ (saved_window s key) h
perform_call-SavedIf now s (failure_call pid next timed_out) c h = h
perform_call-SavedIf now s (clear_call pid) c h = h
perform_call-SavedIf now s (success_call pid) c h = h
perform_call-SavedIf now s (terminate_call pid) c h = h

perform_calls-SavedIf :
    (now : ℕ) (s : SnapshotState) (cs : List StateCall)
    → All (IsSince now) cs
    → SavedSince now s
    → SavedIf now (perform_calls s cs)
unfolding perform_calls
perform_calls-SavedIf now s [] a h = h
perform_calls-SavedIf now s (c ∷ cs) a h =
    next (perform_call s c) (perform_call-SavedIf now s c a.0 h)
      (λ s'. perform_calls-SavedIf now s' cs a.1)
  where
    next :
        (o : Option SnapshotState)
        → SavedIf now o
        → ((s' : SnapshotState) → SavedSince now s' → SavedIf now (perform_calls s' cs))
        → SavedIf now (and_then o (λ s'. perform_calls s' cs))
    next none k f = tt
    next (some s') k f = f s' k

-- After a body has been saved at a time, and then any calls that do not save at an earlier one, no
-- body is saved until five seconds have passed since that time, whatever its window, its origin, its
-- hash and its size.
pub reserve-interval :
    (s s' : SnapshotState) (key other : SnapshotWindowKey) (origin : SnapshotOrigin)
    (bytes hash size now next : ℕ) (cs : List StateCall)
    → All (IsSince now) cs
    → perform_calls (reserve s key bytes now) cs ≡ some s'
    → next < now + global_save_interval
    → (evaluate_save s' other origin hash size next).1 ≢ none
unfolding reserve global_interval_allows
reserve-interval s s' key other origin bytes hash size now next cs a e h =
    let (at, saved, since) =
      subst (SavedIf now) e
        (perform_calls-SavedIf now (reserve s key bytes now) cs a (now, refl, omega arith)) in
    evaluate_save-interval s' other origin hash size next
      (ap (λ o. global_interval_allows o next) saved ∙ ground arith)
