-- ===== src/Macos/ContentSnapshot/Runs.antt =====
-- crates/zanei-macos/src/content_snapshot/scheduler.rs: what runs of the scheduler's calls keep.
use zanei.Prelude.{
  ℕ, ◌≡◌, refl, ap, Bool, true, false, not, ◌||◌, Option, none, some, List, [], ◌∷◌, arith, leb,
  ◌==◌, if_rule,
}
use zanei.Macos.ContentSnapshot.Trigger.{SnapshotTrigger, SnapshotTriggerMessage}
use zanei.Macos.ContentSnapshot.Scheduler.{
  ScheduledSnapshot, CurrentWindow, FocusOut, SnapshotScheduler, default, retain, unless_window,
  seed, observe_message, same_window,
}
use zanei.Macos.ContentSnapshot.Due.{
  is_focus_out, take_due, take_queued, take_current, defer, defer_window, terminate_pid, clear,
  did_wake, replace_filter, replace_window, pause, stop,
}
use zanei.Macos.ContentSnapshot.Sound.{IsSoundWindow, filtered_window-IsSound, take_window-IsSound}
use zanei.Macos.ContentSnapshot.Queue.{
  IsOrdered, IsOrdered-tail, insert_focus_out-IsOrdered, retain-IsOrdered,
}
use zanei.Macos.ContentSnapshot.Invariant.{
  IsValid, active-IsValid, default-IsValid, seed-IsValid, observe_message-IsValid,
  unless_window-IsSound,
}

abbrev IsValidTaken : SnapshotScheduler × Option ScheduledSnapshot → Type 0
IsValidTaken (s, taken) = IsValid s

take_current-IsValid :
    (s : SnapshotScheduler) (o : Option CurrentWindow) (now : ℕ)
    → s.active ≡ true
    → IsSoundWindow o
    → IsValid s
    → IsValidTaken (take_current s o now)
take_current-IsValid s none now a h v = v
take_current-IsValid s (some c) now a h v =
    active-IsValid _ a (take_window-IsSound c now h) v.ordered

take_queued-IsValid :
    (s : SnapshotScheduler) (fs : List FocusOut) (now : ℕ)
    → s.active ≡ true
    → IsOrdered fs
    → IsValid s
    → IsValidTaken (take_queued s fs now)
take_queued-IsValid s [] now a h v = take_current-IsValid s s.current now a v.window v
take_queued-IsValid s (f ∷ fs) now a h v =
    if_rule IsValidTaken (leb f.due now) _ _
      (λ _. active-IsValid _ a v.window (IsOrdered-tail f fs h))
      (λ _. take_current-IsValid s s.current now a v.window v)

take_due-IsValid : (s : SnapshotScheduler) (now : ℕ) → IsValid s → IsValidTaken (take_due s now)
unfolding take_due
take_due-IsValid s now v =
    if_rule IsValidTaken s.active _ (s, none)
      (λ a. take_queued-IsValid s s.focus_out now a v.ordered v) (λ _. v)

abbrev IsValidDeferred : SnapshotScheduler × Bool → Type 0
IsValidDeferred (s, kept) = IsValid s

defer_window-IsValid :
    (s : SnapshotScheduler) (o : Option CurrentWindow) (candidate : ScheduledSnapshot) (due : ℕ)
    → s.active ≡ true
    → IsSoundWindow o
    → IsValid s
    → IsValidDeferred (defer_window s o candidate due)
defer_window-IsValid s none candidate due a h v = v
defer_window-IsValid s (some c) candidate due a h v =
    if_rule IsValidDeferred (same_window c.target candidate.target) _ (s, false)
      (λ _.
        active-IsValid _ a
          (record {
            in_order = h.in_order;
            settle = h.settle;
            index = h.index;
            refresh = h.refresh;
            retry = refl;
          })
          v.ordered)
      (λ _. v)

defer-IsValid :
    (s : SnapshotScheduler) (candidate : ScheduledSnapshot) (due : ℕ)
    → IsValid s
    → IsValidDeferred (defer s candidate due)
unfolding defer
defer-IsValid s candidate due v =
    if_rule IsValidDeferred (not s.active || candidate.deferred) (s, false) _ (λ _. v)
      (λ e.
        let a : s.active ≡ true = ground arith in
        if_rule IsValidDeferred (is_focus_out candidate.trigger) _ _
          (λ _. active-IsValid _ a v.window (insert_focus_out-IsOrdered _ s.focus_out v.ordered))
          (λ _. defer_window-IsValid s s.current candidate due a v.window v))

terminate_pid-IsValid :
    (s : SnapshotScheduler) (pid : ℕ) → IsValid s → IsValid (terminate_pid s pid)
unfolding terminate_pid retain
terminate_pid-IsValid s pid v = record {
  window = unless_window-IsSound _ s.current v.window;
  ordered = retain-IsOrdered _ s.focus_out v.ordered;
  paused = λ e. (
    ap (unless_window (λ c. c.target.app.pid == pid)) (v.paused e).0,
    ap (retain (λ f. not (f.target.app.pid == pid))) (v.paused e).1,
  );
}

clear-IsValid : (s : SnapshotScheduler) → IsValid (clear s)
unfolding clear
clear-IsValid s = record { window = tt; ordered = tt; paused = λ e. (refl, refl) }

replace_window-IsValid :
    (s : SnapshotScheduler) (o : Option CurrentWindow) (now : ℕ)
    → s.current ≡ o
    → IsValid s
    → IsValid (replace_window s o now).0
replace_window-IsValid s none now e v = v
replace_window-IsValid s (some c) now e v = record {
  window = filtered_window-IsSound c now;
  ordered = v.ordered;
  paused = λ a. cc ((v.paused a).0);
}

-- The calls of the scheduler, and what a run of them leaves.
pub data Call : Type 0 where
  message : SnapshotTriggerMessage → Call
  seeding : SnapshotTrigger → Call
  taking : ℕ → Call
  deferring : ScheduledSnapshot → ℕ → Call
  terminating : ℕ → Call
  waking pausing stopping : Call
  filtering : ℕ → Call

unfoldable pub step : SnapshotScheduler → Call → SnapshotScheduler
step s (message m) = observe_message s m
step s (seeding t) = seed s t
step s (taking now) = (take_due s now).0
step s (deferring candidate due) = (defer s candidate due).0
step s (terminating pid) = terminate_pid s pid
step s waking = did_wake s
step s pausing = pause s
step s stopping = stop s
step s (filtering now) = (replace_filter s now).0

unfoldable pub run : SnapshotScheduler → List Call → SnapshotScheduler
run s [] = s
run s (c ∷ cs) = run (step s c) cs

step-IsValid : (s : SnapshotScheduler) (c : Call) → IsValid s → IsValid (step s c)
unfolding step did_wake pause stop replace_filter
step-IsValid s (message m) v = observe_message-IsValid s m v
step-IsValid s (seeding t) v = seed-IsValid s t v
step-IsValid s (taking now) v = take_due-IsValid s now v
step-IsValid s (deferring candidate due) v = defer-IsValid s candidate due v
step-IsValid s (terminating pid) v = terminate_pid-IsValid s pid v
step-IsValid s waking v = clear-IsValid s
step-IsValid s pausing v = clear-IsValid (record s { active = false })
step-IsValid s stopping v = clear-IsValid (record s { active = false })
step-IsValid s (filtering now) v = replace_window-IsValid s s.current now refl v

run_from-IsValid : (s : SnapshotScheduler) (cs : List Call) → IsValid s → IsValid (run s cs)
unfolding run
run_from-IsValid s [] v = v
run_from-IsValid s (c ∷ cs) v = run_from-IsValid (step s c) cs (step-IsValid s c v)

-- After any calls the scheduler is sound: the settle of its window comes at most 10 seconds after the
-- first change and 2 after the last one, the refresh 30 seconds or more after the last change, its
-- index names an interval, a retry is marked as one; the windows that lost the focus stand in the
-- order of their times; and a paused scheduler holds nothing.
pub run-IsValid : (cs : List Call) → IsValid (run default cs)
run-IsValid cs = run_from-IsValid default cs default-IsValid
