-- ===== src/Macos/ContentSnapshot/Sound.antt =====
-- crates/zanei-macos/src/content_snapshot/scheduler.rs: the state of the current window.
use zanei.Prelude.{
  ℕ, zero, suc, ◌+◌, ◌≤◌, ◌<◌, ◌≡◌, max, true, false, Option, none, some, arith, leb, leb→le,
  if_rule,
}
use zanei.Macos.ContentSnapshot.Trigger.{SnapshotTrigger}
use zanei.Macos.ContentSnapshot.Scheduler.{
  ScheduledSnapshot, CurrentWindow, seconds, settle_quiet_interval, settle_max_interval,
  refresh_interval, arm_settle, new_current, update_window, input_window, is_none,
}
use zanei.Macos.ContentSnapshot.Due.{take_window, filtered_window, next_index, is_due, retry_due}

-- A settle comes at most 10 seconds after the first change and 2 seconds after the last one.
abbrev pub IsPrompt : ℕ → ℕ → Option ℕ → Type 0
IsPrompt first last none = Unit
IsPrompt first last (some due) =
    (due ≤ first + settle_max_interval) × (due ≤ last + settle_quiet_interval)

-- A retry is marked as one, so that it is not put off again.
abbrev pub IsMarked : Option (ℕ × ScheduledSnapshot) → Type 0
IsMarked none = Unit
IsMarked (some (due, candidate)) = candidate.deferred ≡ true

pub record IsSound (c : CurrentWindow) : Type 0 where
  pub in_order : c.first_change ≤ c.last_change
  pub settle : IsPrompt c.first_change c.last_change c.settle_due
  pub index : c.refresh_index < 5
  pub refresh : c.last_change + seconds 30 ≤ c.refresh_due
  pub retry : IsMarked c.retry

abbrev pub IsSoundWindow : Option CurrentWindow → Type 0
IsSoundWindow none = Unit
IsSoundWindow (some c) = IsSound c

pub refresh_interval_ge : (index : ℕ) → index < 5 → seconds 30 ≤ refresh_interval index
unfolding refresh_interval
refresh_interval_ge zero h = omega arith
refresh_interval_ge (suc zero) h = omega arith
refresh_interval_ge (suc (suc zero)) h = omega arith
refresh_interval_ge (suc (suc (suc zero))) h = omega arith
refresh_interval_ge (suc (suc (suc (suc zero)))) h = omega arith
refresh_interval_ge (suc (suc (suc (suc (suc index))))) h = absurd (omega arith)

pub new_current-IsSound : (t : SnapshotTrigger) → IsSound (new_current t)
unfolding new_current refresh_interval
new_current-IsSound t = record {
  in_order = omega arith;
  settle = (omega arith, omega arith);
  index = omega arith;
  refresh = omega arith;
  retry = tt;
}

arm_settle-in_order :
    (c : CurrentWindow) (t : ℕ)
    → c.first_change ≤ c.last_change
    → (arm_settle c t).first_change ≤ (arm_settle c t).last_change
unfolding arm_settle
arm_settle-in_order c t h =
    if_rule (λ first. first ≤ max c.last_change t) (is_none c.settle_due) t c.first_change
      (λ _. omega arith) (λ _. omega arith)

arm_settle-IsPrompt :
    (c : CurrentWindow) (t : ℕ)
    → IsPrompt
        (arm_settle c t).first_change
        (arm_settle c t).last_change
        (arm_settle c t).settle_due
unfolding arm_settle
arm_settle-IsPrompt c t = (omega arith, omega arith)

pub input_window-IsSound : (c : CurrentWindow) (t : ℕ) → IsSound c → IsSound (input_window c t)
unfolding input_window arm_settle
input_window-IsSound c t h =
    let armed = record c { seeded = false } in
    record {
      in_order = arm_settle-in_order armed t h.in_order;
      settle = arm_settle-IsPrompt armed t;
      index = h.index;
      refresh = omega (arith, refresh_interval_ge c.refresh_index h.index);
      retry = tt;
    }

pub update_window-IsSound :
    (c : CurrentWindow) (t : SnapshotTrigger) → IsSound c → IsSound (update_window c t)
unfolding update_window arm_settle refresh_interval
update_window-IsSound c t h =
    let armed = record c { target = t } in
    record {
      in_order = arm_settle-in_order armed t.observed_at h.in_order;
      settle = arm_settle-IsPrompt armed t.observed_at;
      index = omega arith;
      refresh = omega arith;
      retry = tt;
    }

pub filtered_window-IsSound : (c : CurrentWindow) (now : ℕ) → IsSound (filtered_window c now)
unfolding refresh_interval
filtered_window-IsSound c now = record {
  in_order = omega arith;
  settle = (omega arith, omega arith);
  index = omega arith;
  refresh = omega arith;
  retry = tt;
}

abbrev pub IsSoundTaken : CurrentWindow × Option ScheduledSnapshot → Type 0
IsSoundTaken (c, taken) = IsSound c

pub take_window-IsSound : (c : CurrentWindow) (now : ℕ) → IsSound c → IsSound (take_window c now).0
unfolding take_window
take_window-IsSound c now h =
    if_rule IsSoundTaken (is_due now (retry_due c.retry)) _ _
      (λ _. record {
        in_order = h.in_order;
        settle = h.settle;
        index = h.index;
        refresh = h.refresh;
        retry = tt;
      })
      (λ _.
        if_rule IsSoundTaken (is_due now c.settle_due) _ _
          (λ _. record {
            in_order = h.in_order;
            settle = tt;
            index = h.index;
            refresh = h.refresh;
            retry = tt;
          })
          (λ _.
            if_rule IsSoundTaken (leb c.refresh_due now) _ _
              (λ e. record {
                in_order = h.in_order;
                settle = h.settle;
                index = omega (arith, h.index);
                refresh = omega (
                  arith,
                  h.refresh,
                  leb→le c.refresh_due now e,
                  refresh_interval_ge (next_index c.refresh_index) (omega arith),
                );
                retry = tt;
              })
              (λ _. h)))
