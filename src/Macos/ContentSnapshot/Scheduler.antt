-- ===== src/Macos/ContentSnapshot/Scheduler.antt =====
-- crates/zanei-macos/src/content_snapshot/scheduler.rs: the state machine that says which window's
-- snapshot is due.
use zanei.Prelude.{
  ℕ, ◌+◌, ◌*◌, min, max, Bool, true, false, not, ◌&&◌, ◌||◌, Option, none, some, List, [], ◌∷◌, leb,
  ◌==◌, if◌then◌else◌, get_or,
}
use zanei.Core.Schema.{ContentSnapshotTrigger}
use zanei.Macos.ContentSnapshot.Trigger.{
  NativeWindow, FocusSnapshot, FocusTransition, SnapshotWindowKey, SnapshotTriggerKind,
  SnapshotTrigger, SnapshotTriggerMessage, trigger, focus_transition, input,
}

abbrev pub seconds : ℕ → ℕ
seconds n = n * 1000000000

abbrev pub settle_quiet_interval : ℕ
settle_quiet_interval = seconds 2

abbrev pub settle_max_interval : ℕ
settle_max_interval = seconds 10

abbrev pub focus_out_min_interval : ℕ
focus_out_min_interval = seconds 3

abbrev pub global_save_interval : ℕ
global_save_interval = seconds 5

abbrev pub refresh_intervals : List ℕ
refresh_intervals = seconds 30 ∷ seconds 60 ∷ seconds 120 ∷ seconds 240 ∷ seconds 600 ∷ []

-- `REFRESH_INTERVALS[index]`, whose index is below 5.
unfoldable pub refresh_interval : ℕ → ℕ
refresh_interval index = get_or refresh_intervals index 0

pub record ScheduledSnapshot : Type 0 where
  pub target : SnapshotTrigger
  pub trigger : ContentSnapshotTrigger
  pub activity_window : Option ℕ
  pub deferred : Bool

abbrev key_of : ℕ → Option ℕ → Option SnapshotWindowKey
key_of pid none = none
key_of pid (some id) = some (record { pid = pid; window_id = id })

unfoldable pub snapshot_key : ScheduledSnapshot → Option SnapshotWindowKey
snapshot_key s = key_of s.target.app.pid s.target.window.id

pub record CurrentWindow : Type 0 where
  pub target : SnapshotTrigger
  pub first_change : ℕ
  pub last_change : ℕ
  pub settle_due : Option ℕ
  pub refresh_due : ℕ
  pub refresh_index : ℕ
  pub retry : Option (ℕ × ScheduledSnapshot)
  pub seeded : Bool

pub record FocusOut : Type 0 where
  pub target : SnapshotTrigger
  pub due : ℕ
  pub deferred : Bool

pub record SnapshotScheduler : Type 0 where
  pub current : Option CurrentWindow
  pub focus_out : List FocusOut
  pub active : Bool

abbrev pub default : SnapshotScheduler
default = record { current = none; focus_out = []; active = true }

abbrev pub opt_eq : Option ℕ → Option ℕ → Bool
opt_eq none none = true
opt_eq (some a) (some b) = a == b
opt_eq _ _ = false

-- The window of a trigger, by its process and its number.
abbrev pub is_window : SnapshotTrigger → ℕ → Option ℕ → Bool
is_window t pid id = t.app.pid == pid && opt_eq t.window.id id

abbrev pub same_window : SnapshotTrigger → SnapshotTrigger → Bool
same_window a b = is_window a b.app.pid b.window.id

abbrev pub is_none : Option ℕ → Bool
is_none none = true
is_none (some a) = false

unfoldable pub arm_settle : CurrentWindow → ℕ → CurrentWindow
arm_settle c changed_at =
    let first = if is_none c.settle_due then changed_at else c.first_change in
    let last = max c.last_change changed_at in
    record c {
      first_change = first;
      last_change = last;
      settle_due = some (min (last + settle_quiet_interval) (first + settle_max_interval));
      retry = none;
    }

unfoldable pub new_current : SnapshotTrigger → CurrentWindow
new_current t = record {
  target = t;
  first_change = t.observed_at;
  last_change = t.observed_at;
  settle_due = some (t.observed_at + settle_quiet_interval);
  refresh_due = t.observed_at + refresh_interval 0;
  refresh_index = 0;
  retry = none;
  seeded = false;
}

unfoldable pub update_window : CurrentWindow → SnapshotTrigger → CurrentWindow
update_window c t =
    let armed = arm_settle (record c { target = t }) t.observed_at in
    record armed { refresh_index = 0; refresh_due = armed.last_change + refresh_interval 0 }

unfoldable pub input_window : CurrentWindow → ℕ → CurrentWindow
input_window c observed_at =
    let armed = arm_settle (record c { seeded = false }) observed_at in
    record armed {
      refresh_due =
          max armed.refresh_due (armed.last_change + refresh_interval armed.refresh_index);
    }

-- What the current window's `filter` lets through is changed, and nothing else.
abbrev pub change_window :
    (CurrentWindow → Bool)
    → (CurrentWindow → CurrentWindow)
    → Option CurrentWindow
    → Option CurrentWindow
change_window p f none = none
change_window p f (some c) = some (if p c then f c else c)

unfoldable pub observe_input : SnapshotScheduler → SnapshotWindowKey → ℕ → SnapshotScheduler
observe_input s window observed_at =
    if s.active
    then record s {
      current =
          change_window (λ c. is_window c.target window.pid (some window.window_id))
            (λ c. input_window c observed_at) s.current;
    }
    else s

-- `partition_point` and `insert`: behind what is due no later.
unfoldable pub insert_focus_out : FocusOut → List FocusOut → List FocusOut
insert_focus_out f [] = f ∷ []
insert_focus_out f (g ∷ gs) =
    let rest = insert_focus_out f gs in if leb g.due f.due then g ∷ rest else f ∷ g ∷ gs

unfoldable pub retain : (FocusOut → Bool) → List FocusOut → List FocusOut
retain p [] = []
retain p (f ∷ fs) = let rest = retain p fs in if p f then f ∷ rest else rest

abbrev pub push_focus_out : SnapshotScheduler → FocusOut → SnapshotScheduler
push_focus_out s f = record s { focus_out = insert_focus_out f s.focus_out }

-- The current window, unless it has the property.
abbrev pub unless_window : (CurrentWindow → Bool) → Option CurrentWindow → Option CurrentWindow
unless_window p none = none
unless_window p (some c) = if p c then none else some c

abbrev pub observe_focus_out : SnapshotScheduler → SnapshotTrigger → SnapshotScheduler
observe_focus_out s t =
    push_focus_out (record s { current = unless_window (λ c. same_window c.target t) s.current })
      (record { target = t; due = t.observed_at; deferred = false })

abbrev pub observe_window : Option CurrentWindow → SnapshotTrigger → CurrentWindow
observe_window none t = new_current t
observe_window (some c) t =
    if not c.seeded && same_window c.target t then update_window c t else new_current t

abbrev pub observe_kind :
    SnapshotScheduler → SnapshotTrigger → SnapshotTriggerKind → SnapshotScheduler
observe_kind s t SnapshotTriggerKind.focus_out = observe_focus_out s t
observe_kind s t _ = record s { current = some (observe_window s.current t) }

unfoldable pub observe : SnapshotScheduler → SnapshotTrigger → SnapshotScheduler
observe s t =
    if not s.active || is_none t.window.id
    then s
    else observe_kind
        (record s {
          focus_out = retain (λ f. not f.deferred || not (same_window f.target t)) s.focus_out;
        })
        t t.kind

abbrev pub seeded_window : Option CurrentWindow → Option CurrentWindow
seeded_window none = none
seeded_window (some c) = some (record c { seeded = true })

unfoldable pub seed : SnapshotScheduler → SnapshotTrigger → SnapshotScheduler
seed s t = let s' = observe s t in record s' { current = seeded_window s'.current }

abbrev window_id : Option NativeWindow → Option ℕ
window_id none = none
window_id (some w) = w.id

abbrev pub same_focus : Option FocusSnapshot → Option FocusSnapshot → Bool
same_focus (some a) (some b) =
    a.app.pid == b.app.pid && opt_eq (window_id a.window) (window_id b.window)
same_focus _ _ = false

abbrev pub observe_at :
    SnapshotScheduler
    → FocusSnapshot
    → Option NativeWindow
    → SnapshotTriggerKind
    → ℕ
    → SnapshotScheduler
observe_at s f none kind observed_at = s
observe_at s f (some w) kind observed_at =
    observe s (record { app = f.app; window = w; kind = kind; observed_at = observed_at })

abbrev pub observe_some :
    SnapshotScheduler → Option FocusSnapshot → SnapshotTriggerKind → ℕ → SnapshotScheduler
observe_some s none kind observed_at = s
observe_some s (some f) kind observed_at = observe_at s f f.window kind observed_at

unfoldable pub observe_focus_transition :
    SnapshotScheduler → FocusTransition → ℕ → SnapshotScheduler
observe_focus_transition s t observed_at =
    let same = same_focus t.previous t.current in
    let left =
      if same then s else observe_some s t.previous SnapshotTriggerKind.focus_out observed_at in
    observe_some left t.current
      (if same && not t.resynced then SnapshotTriggerKind.title else SnapshotTriggerKind.focus)
      observed_at

unfoldable pub observe_message : SnapshotScheduler → SnapshotTriggerMessage → SnapshotScheduler
observe_message s (trigger t) = observe s t
observe_message s (focus_transition t observed_at) = observe_focus_transition s t observed_at
observe_message s (input window observed_at) = observe_input s window observed_at
