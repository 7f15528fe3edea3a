-- ===== src/Macos/ContentSnapshot/Deadlines.antt =====
-- crates/zanei-macos/src/content_snapshot/scheduler.rs: `take_due` against `next_deadline`.
use zanei.Prelude.{
  ℕ, ◌≡◌, refl, sym, ap, ◌∙◌, inl, inr, Bool, true, false, ◌||◌, Option, none, some, List, [], ◌∷◌,
  arith, leb, if◌then◌else◌, Bool-cases,
}
use zanei.Macos.ContentSnapshot.Scheduler.{
  ScheduledSnapshot, CurrentWindow, FocusOut, SnapshotScheduler,
}
use zanei.Macos.ContentSnapshot.Due.{
  earlier, retry_due, window_deadline, front_due, next_deadline, is_due, candidate_of, take_window,
  take_current, take_queued, take_due,
}

abbrev pub is_taken : Option ScheduledSnapshot → Bool
is_taken none = false
is_taken (some candidate) = true

is_due-earlier :
    (now : ℕ) (a b : Option ℕ) → is_due now (earlier a b) ≡ (is_due now a || is_due now b)
is_due-earlier now none b = refl
is_due-earlier now (some a) none = ground arith
is_due-earlier now (some a) (some b) = ground arith

candidate_of-due :
    (now : ℕ) (r : Option (ℕ × ScheduledSnapshot))
    → is_due now (retry_due r) ≡ true
    → is_taken (candidate_of r) ≡ true
candidate_of-due now none h = cc
candidate_of-due now (some (due, candidate)) h = refl

-- The window gives a snapshot when one of its times has come, and is left as it is otherwise.
pub take_window-taken :
    (c : CurrentWindow) (now : ℕ)
    → is_taken (take_window c now).1
      ≡ (is_due now (retry_due c.retry) || (is_due now c.settle_due || leb c.refresh_due now))
unfolding take_window
take_window-taken c now = elim (Bool-cases (is_due now (retry_due c.retry))) [
  | inl e ↦ rw e (candidate_of-due now c.retry e)
  | inr e ↦ elim (Bool-cases (is_due now c.settle_due)) [
    | inl k ↦ rw (e, k) refl
    | inr k ↦ elim (Bool-cases (leb c.refresh_due now)) [
      | inl l ↦ rw (e, k, l) refl
      | inr l ↦ rw (e, k, l) refl
    ]
  ]
]

take_current-taken :
    (s : SnapshotScheduler) (o : Option CurrentWindow) (now : ℕ)
    → is_taken (take_current s o now).1 ≡ is_due now (window_deadline o)
take_current-taken s none now = refl
take_current-taken s (some c) now =
    take_window-taken c now
    ∙ sym (
        is_due-earlier now (retry_due c.retry) (earlier c.settle_due (some c.refresh_due))
        ∙ ap (◌||◌ (is_due now (retry_due c.retry)))
            (is_due-earlier now c.settle_due (some c.refresh_due)))

take_queued-taken :
    (s : SnapshotScheduler) (fs : List FocusOut) (now : ℕ)
    → is_taken (take_queued s fs now).1
      ≡ is_due now (earlier (front_due fs) (window_deadline s.current))
take_queued-taken s [] now = take_current-taken s s.current now
take_queued-taken s (f ∷ fs) now =
    let same = is_due-earlier now (some f.due) (window_deadline s.current) in
    elim (Bool-cases (leb f.due now)) [
      | inl e ↦ rw e (sym (same ∙ ap (λ b. b || is_due now (window_deadline s.current)) e))
      | inr e ↦ rw e (
          take_current-taken s s.current now
          ∙ sym (same ∙ ap (λ b. b || is_due now (window_deadline s.current)) e))
    ]

-- A snapshot is taken at a time exactly when the next deadline has come by then.
pub take_due-next_deadline :
    (s : SnapshotScheduler) (now : ℕ) → is_taken (take_due s now).1 ≡ is_due now (next_deadline s)
unfolding take_due next_deadline
take_due-next_deadline s now = when_active s.active
  where
    when_active :
        (b : Bool)
        → is_taken (if b then take_queued s s.focus_out now else (s, none)).1
          ≡ is_due now
              (if b then earlier (front_due s.focus_out) (window_deadline s.current) else none)
    when_active true = take_queued-taken s s.focus_out now
    when_active false = refl
