-- ===== src/Examples/Snapshots.antt =====
-- The scheduler of snapshots and the state of their saves, at concrete triggers.
use zanei.Prelude.{
  List, true, ℕ, ◌≡◌, ◌≢◌, refl, Option, none, some, [], ◌∷◌, arith, text, saturating_add,
}
use zanei.Macos.ContentSnapshot.Trigger.{
  regular, SnapshotTrigger, SnapshotTriggerKind, SnapshotWindowKey, trigger,
}
use zanei.Macos.ContentSnapshot.Scheduler.{
  SnapshotScheduler, default, seconds, observe, observe_input, arm_settle, input_window,
  new_current, refresh_interval, retain,
}
use zanei.Macos.ContentSnapshot.Due.{next_deadline, take_due, is_due, global_interval_allows}
use zanei.Macos.ContentSnapshot.Invariant.{IsValid}
use zanei.Macos.ContentSnapshot.Runs.{run, run-IsValid, message, taking}
use zanei.Macos.ContentSnapshot.Deadlines.{is_taken, take_due-next_deadline}
use zanei.Macos.ContentSnapshot.State.{
  SnapshotState, SnapshotOrigin, empty, reserve, record_hash, evaluate_save, failure_delay, get,
  put, roll_daily_window, saved_window,
}
use zanei.Macos.ContentSnapshot.Intervals.{
  hash_call, failure_call, terminate_call, perform_calls, StateCall, reserve-interval, perform_call,
}

abbrev focused : SnapshotTriggerKind → ℕ → SnapshotTrigger
focused kind at_ns = record {
  app = record { name = text "Notes"; bundle_id = none; pid = 7; activation_policy = regular };
  window = record { title = none; id = some 3 };
  kind = kind;
  observed_at = at_ns;
}

abbrev one_window : SnapshotScheduler
one_window = observe default (focused SnapshotTriggerKind.focus (seconds 100))

settle_first : next_deadline one_window ≡ some (seconds 102)
unfolding next_deadline observe retain new_current refresh_interval
settle_first = refl

-- Input puts the settle off, and ten seconds after the first change it comes all the same.
abbrev typed : ℕ → SnapshotScheduler → SnapshotScheduler
typed at_s s = observe_input s (record { pid = 7; window_id = 3 }) (seconds at_s)

put_off : next_deadline (typed 101 one_window) ≡ some (seconds 103)
unfolding next_deadline observe_input observe retain new_current input_window arm_settle
    refresh_interval
put_off = refl

forced : next_deadline (typed 109 (typed 107 (typed 105 one_window))) ≡ some (seconds 110)
unfolding next_deadline observe_input observe retain new_current input_window arm_settle
    refresh_interval
forced = refl

run-IsValid_example :
    IsValid (run default (message (trigger (focused SnapshotTriggerKind.focus 5)) ∷ taking 9 ∷ []))
run-IsValid_example =
    run-IsValid (message (trigger (focused SnapshotTriggerKind.focus 5)) ∷ taking 9 ∷ [])

take_due-next_deadline_example :
    is_taken (take_due one_window (seconds 102)).1 ≡ is_due (seconds 102) (next_deadline one_window)
take_due-next_deadline_example = take_due-next_deadline one_window (seconds 102)

abbrev window : SnapshotWindowKey
window = record { pid = 7; window_id = 3 }

abbrev fresh : SnapshotState
fresh = empty (seconds 1)

abbrev orelse : Option SnapshotState → SnapshotState
orelse none = fresh
orelse (some s) = s

abbrev from_ax : SnapshotState
from_ax = orelse (record_hash (reserve fresh window 10 (seconds 20)) window SnapshotOrigin.ax 5)

abbrev from_both : SnapshotState
from_both = orelse (record_hash from_ax window SnapshotOrigin.ocr 6)

recorded_ax :
    record_hash (reserve fresh window 10 (seconds 20)) window SnapshotOrigin.ax 5 ≡ some from_ax
unfolding record_hash saved_window get reserve put empty
recorded_ax = refl

recorded_both : record_hash from_ax window SnapshotOrigin.ocr 6 ≡ some from_both
unfolding record_hash saved_window get reserve put empty
recorded_both = refl

allowed : (evaluate_save fresh window SnapshotOrigin.ax 5 40 (seconds 90)).1 ≡ none
unfolding evaluate_save saved_window get roll_daily_window empty global_interval_allows
    saturating_add
allowed = refl

third_timeout : failure_delay 3 ≡ seconds 120
unfolding failure_delay
third_timeout = refl

-- The calls between two saves.
abbrev between : List StateCall
between =
    hash_call window SnapshotOrigin.ax 5 ∷ failure_call 8 (seconds 21) true ∷ terminate_call 7 ∷ []

saves_between :
    perform_calls (reserve fresh window 10 (seconds 20)) between
    ≡ some (orelse (perform_calls (reserve fresh window 10 (seconds 20)) between))
unfolding perform_calls perform_call record_hash saved_window get reserve put empty
saves_between = refl

reserve-interval_example :
    (evaluate_save
      (orelse (perform_calls (reserve fresh window 10 (seconds 20)) between))
      window
      SnapshotOrigin.ocr
      5
      30
      (seconds 24)).1
    ≢ none
reserve-interval_example =
    reserve-interval fresh (orelse (perform_calls (reserve fresh window 10 (seconds 20)) between))
      window window SnapshotOrigin.ocr 10 5 30 (seconds 20) (seconds 24) between
      (tt, (tt, (tt, tt))) saves_between (omega arith)
