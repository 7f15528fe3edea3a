-- ===== src/Macos/ContentSnapshot/Invariant.antt =====
-- crates/zanei-macos/src/content_snapshot/scheduler.rs: what every call of the scheduler keeps.
use zanei.Prelude.{
  ℕ, ◌≡◌, ap, Bool, true, false, not, ◌&&◌, ◌||◌, Option, none, some, [], arith, if_rule,
}
use zanei.Macos.ContentSnapshot.Trigger.{
  NativeWindow, FocusSnapshot, FocusTransition, SnapshotWindowKey, SnapshotTriggerKind,
  SnapshotTrigger, SnapshotTriggerMessage, trigger, focus_transition, input,
}
use zanei.Macos.ContentSnapshot.Scheduler.{
  CurrentWindow, SnapshotScheduler, default, new_current, update_window, input_window,
  change_window, observe_input, unless_window, observe_window, observe_kind, observe, seeded_window,
  seed, observe_some, observe_at, observe_focus_transition, observe_message, is_none, same_window,
  same_focus,
}
use zanei.Macos.ContentSnapshot.Sound.{
  IsSound, IsSoundWindow, new_current-IsSound, input_window-IsSound, update_window-IsSound,
}
use zanei.Macos.ContentSnapshot.Queue.{IsOrdered, insert_focus_out-IsOrdered, retain-IsOrdered}

pub record IsValid (s : SnapshotScheduler) : Type 0 where
  pub window : IsSoundWindow s.current
  pub ordered : IsOrdered s.focus_out
  pub paused : s.active ≡ false → (s.current ≡ none) × (s.focus_out ≡ [])

change_window-IsSound :
    (p : CurrentWindow → Bool) (f : CurrentWindow → CurrentWindow) (o : Option CurrentWindow)
    → ((c : CurrentWindow) → IsSound c → IsSound (f c))
    → IsSoundWindow o
    → IsSoundWindow (change_window p f o)
change_window-IsSound p f none k h = tt
change_window-IsSound p f (some c) k h = if_rule IsSound (p c) (f c) c (λ _. k c h) (λ _. h)

pub unless_window-IsSound :
    (p : CurrentWindow → Bool) (o : Option CurrentWindow)
    → IsSoundWindow o
    → IsSoundWindow (unless_window p o)
unless_window-IsSound p none h = tt
unless_window-IsSound p (some c) h = if_rule IsSoundWindow (p c) none (some c) (λ _. tt) (λ _. h)

observe_window-IsSound :
    (o : Option CurrentWindow) (t : SnapshotTrigger)
    → IsSoundWindow o
    → IsSound (observe_window o t)
observe_window-IsSound none t h = new_current-IsSound t
observe_window-IsSound (some c) t h =
    if_rule IsSound (not c.seeded && same_window c.target t) (update_window c t) (new_current t)
      (λ _. update_window-IsSound c t h) (λ _. new_current-IsSound t)

seeded_window-IsSound :
    (o : Option CurrentWindow) → IsSoundWindow o → IsSoundWindow (seeded_window o)
seeded_window-IsSound none h = tt
seeded_window-IsSound (some c) h = record {
  in_order = h.in_order;
  settle = h.settle;
  index = h.index;
  refresh = h.refresh;
  retry = h.retry;
}

-- An active scheduler is valid if its parts are.
pub active-IsValid :
    (s : SnapshotScheduler)
    → s.active ≡ true
    → IsSoundWindow s.current
    → IsOrdered s.focus_out
    → IsValid s
active-IsValid s a w o = record { window = w; ordered = o; paused = λ e. cc }

pub default-IsValid : IsValid default
default-IsValid = record { window = tt; ordered = tt; paused = λ e. cc }

observe_input-IsValid :
    (s : SnapshotScheduler) (key : SnapshotWindowKey) (t : ℕ)
    → IsValid s
    → IsValid (observe_input s key t)
unfolding observe_input
observe_input-IsValid s key t v =
    if_rule IsValid s.active _ s
      (λ a.
        active-IsValid _ a
          (change_window-IsSound _ (λ c. input_window c t) s.current
            (λ c h. input_window-IsSound c t h) v.window)
          v.ordered)
      (λ _. v)

observe_kind-IsValid :
    (s : SnapshotScheduler) (t : SnapshotTrigger) (kind : SnapshotTriggerKind)
    → s.active ≡ true
    → IsValid s
    → IsValid (observe_kind s t kind)
observe_kind-IsValid s t SnapshotTriggerKind.focus_out a v =
    active-IsValid _ a (unless_window-IsSound (λ c. same_window c.target t) s.current v.window)
      (insert_focus_out-IsOrdered _ s.focus_out v.ordered)
observe_kind-IsValid s t SnapshotTriggerKind.focus a v =
    active-IsValid _ a (observe_window-IsSound s.current t v.window) v.ordered
observe_kind-IsValid s t SnapshotTriggerKind.title a v =
    active-IsValid _ a (observe_window-IsSound s.current t v.window) v.ordered

observe-IsValid : (s : SnapshotScheduler) (t : SnapshotTrigger) → IsValid s → IsValid (observe s t)
unfolding observe
observe-IsValid s t v =
    if_rule IsValid (not s.active || is_none t.window.id) s _ (λ _. v)
      (λ e.
        let a : s.active ≡ true = ground arith in
        observe_kind-IsValid _ t t.kind a
          (active-IsValid _ a v.window (retain-IsOrdered _ s.focus_out v.ordered)))

pub seed-IsValid : (s : SnapshotScheduler) (t : SnapshotTrigger) → IsValid s → IsValid (seed s t)
unfolding seed
seed-IsValid s t v =
    let v' = observe-IsValid s t v in
    record {
      window = seeded_window-IsSound (observe s t).current v'.window;
      ordered = v'.ordered;
      paused = λ e. (ap seeded_window (v'.paused e).0, (v'.paused e).1);
    }

observe_some-IsValid :
    (s : SnapshotScheduler) (f : Option FocusSnapshot) (kind : SnapshotTriggerKind) (t : ℕ)
    → IsValid s
    → IsValid (observe_some s f kind t)
observe_some-IsValid s none kind t v = v
observe_some-IsValid s (some f) kind t v = at_window f.window
  where
    at_window : (w : Option NativeWindow) → IsValid (observe_at s f w kind t)
    at_window none = v
    at_window (some w) = observe-IsValid s _ v

observe_focus_transition-IsValid :
    (s : SnapshotScheduler) (f : FocusTransition) (t : ℕ)
    → IsValid s
    → IsValid (observe_focus_transition s f t)
unfolding observe_focus_transition
observe_focus_transition-IsValid s f t v = observe_some-IsValid _ f.current _ t (
    if_rule IsValid (same_focus f.previous f.current) s _ (λ _. v)
      (λ _. observe_some-IsValid s f.previous SnapshotTriggerKind.focus_out t v))

pub observe_message-IsValid :
    (s : SnapshotScheduler) (m : SnapshotTriggerMessage) → IsValid s → IsValid (observe_message s m)
unfolding observe_message
observe_message-IsValid s (trigger t) v = observe-IsValid s t v
observe_message-IsValid s (focus_transition f t) v = observe_focus_transition-IsValid s f t v
observe_message-IsValid s (input key t) v = observe_input-IsValid s key t v
