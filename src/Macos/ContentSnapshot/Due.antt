-- ===== src/Macos/ContentSnapshot/Due.antt =====
-- crates/zanei-macos/src/content_snapshot/scheduler.rs: what is due, and the other calls of the
-- scheduler.
use zanei.Prelude.{
  ℕ, ◌+◌, ◌-◌, min, Bool, true, false, not, ◌&&◌, ◌||◌, Option, none, some, List, [], ◌∷◌, leb,
  ◌==◌, if◌then◌else◌,
}
use zanei.Core.Schema.{ContentSnapshotTrigger}
use zanei.Macos.ContentSnapshot.Scheduler.{
  ScheduledSnapshot, CurrentWindow, FocusOut, SnapshotScheduler, refresh_interval,
  focus_out_min_interval, global_save_interval, settle_quiet_interval, same_window, push_focus_out,
  retain, unless_window,
}

-- The earlier one of two optional times.
abbrev pub earlier : Option ℕ → Option ℕ → Option ℕ
earlier none b = b
earlier (some a) none = some a
earlier (some a) (some b) = some (min a b)

abbrev pub retry_due : Option (ℕ × ScheduledSnapshot) → Option ℕ
retry_due none = none
retry_due (some (due, candidate)) = some due

abbrev pub window_deadline : Option CurrentWindow → Option ℕ
window_deadline none = none
window_deadline (some c) = earlier (retry_due c.retry) (earlier c.settle_due (some c.refresh_due))

abbrev pub front_due : List FocusOut → Option ℕ
front_due [] = none
front_due (f ∷ fs) = some f.due

unfoldable pub next_deadline : SnapshotScheduler → Option ℕ
next_deadline s =
    if s.active then earlier (front_due s.focus_out) (window_deadline s.current) else none

-- `is_some_and(|deadline| deadline <= now)`.
abbrev pub is_due : ℕ → Option ℕ → Bool
is_due now none = false
is_due now (some due) = leb due now

abbrev pub candidate_of : Option (ℕ × ScheduledSnapshot) → Option ScheduledSnapshot
candidate_of none = none
candidate_of (some (due, candidate)) = some candidate

-- `(refresh_index + 1).min(REFRESH_INTERVALS.len() - 1)`.
abbrev pub next_index : ℕ → ℕ
next_index index = min (index + 1) 4

unfoldable pub take_window : CurrentWindow → ℕ → CurrentWindow × Option ScheduledSnapshot
take_window c now =
    if is_due now (retry_due c.retry)
    then (record c { retry = none }, candidate_of c.retry)
    else if is_due now c.settle_due
    then (
      record c { settle_due = none; retry = none },
      some (record {
        target = c.target;
        trigger = ContentSnapshotTrigger.settle;
        activity_window = none;
        deferred = false;
      }),
    )
    else if leb c.refresh_due now
    then (
      record c {
        refresh_index = next_index c.refresh_index;
        refresh_due = now + refresh_interval (next_index c.refresh_index);
        retry = none;
      },
      some (record {
        target = c.target;
        trigger = ContentSnapshotTrigger.refresh;
        activity_window = some (refresh_interval c.refresh_index);
        deferred = false;
      }),
    )
    else (c, none)

abbrev pub take_current :
    SnapshotScheduler → Option CurrentWindow → ℕ → SnapshotScheduler × Option ScheduledSnapshot
take_current s none now = (s, none)
take_current s (some c) now =
    let (c', taken) = take_window c now in (record s { current = some c' }, taken)

abbrev pub focus_out_snapshot : FocusOut → ScheduledSnapshot
focus_out_snapshot f = record {
  target = f.target;
  trigger = ContentSnapshotTrigger.focus_out;
  activity_window = none;
  deferred = f.deferred;
}

abbrev pub take_queued :
    SnapshotScheduler → List FocusOut → ℕ → SnapshotScheduler × Option ScheduledSnapshot
take_queued s [] now = take_current s s.current now
take_queued s (f ∷ fs) now =
    if leb f.due now
    then (record s { focus_out = fs }, some (focus_out_snapshot f))
    else take_current s s.current now

unfoldable pub take_due : SnapshotScheduler → ℕ → SnapshotScheduler × Option ScheduledSnapshot
take_due s now = if s.active then take_queued s s.focus_out now else (s, none)

abbrev pub is_focus_out : ContentSnapshotTrigger → Bool
is_focus_out ContentSnapshotTrigger.focus_out = true
is_focus_out _ = false

abbrev pub defer_window :
    SnapshotScheduler → Option CurrentWindow → ScheduledSnapshot → ℕ → SnapshotScheduler × Bool
defer_window s none candidate due = (s, false)
defer_window s (some c) candidate due =
    if same_window c.target candidate.target
    then (
      record s {
        current = some (record c { retry = some (due, record candidate { deferred = true }) });
      },
      true,
    )
    else (s, false)

unfoldable pub defer : SnapshotScheduler → ScheduledSnapshot → ℕ → SnapshotScheduler × Bool
defer s candidate due =
    if not s.active || candidate.deferred
    then (s, false)
    else if is_focus_out candidate.trigger
    then (push_focus_out s (record { target = candidate.target; due = due; deferred = true }), true)
    else defer_window s s.current candidate due

unfoldable pub terminate_pid : SnapshotScheduler → ℕ → SnapshotScheduler
terminate_pid s pid = record s {
  current = unless_window (λ c. c.target.app.pid == pid) s.current;
  focus_out = retain (λ f. not (f.target.app.pid == pid)) s.focus_out;
}

unfoldable pub clear : SnapshotScheduler → SnapshotScheduler
clear s = record s { current = none; focus_out = [] }

unfoldable pub did_wake : SnapshotScheduler → SnapshotScheduler
did_wake s = clear s

abbrev pub filtered_window : CurrentWindow → ℕ → CurrentWindow
filtered_window c now = record c {
  first_change = now;
  last_change = now;
  settle_due = some (now + settle_quiet_interval);
  refresh_index = 0;
  refresh_due = now + refresh_interval 0;
  retry = none;
}

abbrev pub replace_window :
    SnapshotScheduler → Option CurrentWindow → ℕ → SnapshotScheduler × Option ℕ
replace_window s none now = (s, none)
replace_window s (some c) now =
    (record s { current = some (filtered_window c now) }, some c.target.app.pid)

unfoldable pub replace_filter : SnapshotScheduler → ℕ → SnapshotScheduler × Option ℕ
replace_filter s now = replace_window s s.current now

unfoldable pub pause : SnapshotScheduler → SnapshotScheduler
pause s = clear (record s { active = false })

unfoldable pub stop : SnapshotScheduler → SnapshotScheduler
stop s = pause s

-- At least the interval has passed since the last save, if there was one.
abbrev passed : ℕ → Option ℕ → ℕ → Bool
passed interval none now = true
passed interval (some saved_at) now = leb saved_at now && leb interval (now - saved_at)

unfoldable pub focus_out_allows : Option ℕ → ℕ → Bool
focus_out_allows last_saved_at now = passed focus_out_min_interval last_saved_at now

unfoldable pub global_interval_allows : Option ℕ → ℕ → Bool
global_interval_allows last_saved_at now = passed global_save_interval last_saved_at now
