-- ===== src/Macos/ContentSnapshot/Queue.antt =====
-- crates/zanei-macos/src/content_snapshot/scheduler.rs: the queue of windows that lost the focus.
use zanei.Prelude.{ℕ, ◌≤◌, Bool, List, [], ◌∷◌, arith, leb, leb→le, not_leb→lt, if_rule}
use zanei.Macos.ContentSnapshot.Scheduler.{FocusOut, insert_focus_out, retain}

-- The queue stands in the order of its times.
abbrev pub IsOrdered : List FocusOut → Type 0
IsOrdered [] = Unit
IsOrdered (f ∷ []) = Unit
IsOrdered (f ∷ g ∷ fs) = (f.due ≤ g.due) × IsOrdered (g ∷ fs)

pub IsOrdered-tail : (f : FocusOut) (fs : List FocusOut) → IsOrdered (f ∷ fs) → IsOrdered fs
IsOrdered-tail f [] h = tt
IsOrdered-tail f (g ∷ gs) h = h.1

-- The front of a list is due no earlier.
abbrev pub Follows : ℕ → List FocusOut → Type 0
Follows due [] = Unit
Follows due (f ∷ fs) = due ≤ f.due

IsOrdered-cons :
    (f : FocusOut) (fs : List FocusOut) → Follows f.due fs → IsOrdered fs → IsOrdered (f ∷ fs)
IsOrdered-cons f [] b h = tt
IsOrdered-cons f (g ∷ gs) b h = (b, h)

pub IsOrdered-Follows : (f : FocusOut) (fs : List FocusOut) → IsOrdered (f ∷ fs) → Follows f.due fs
IsOrdered-Follows f [] h = tt
IsOrdered-Follows f (g ∷ gs) h = h.0

Follows-insert :
    (due : ℕ) (f : FocusOut) (fs : List FocusOut)
    → due ≤ f.due
    → Follows due fs
    → Follows due (insert_focus_out f fs)
unfolding insert_focus_out
Follows-insert due f [] h k = h
Follows-insert due f (g ∷ gs) h k =
    if_rule (Follows due) (leb g.due f.due) (g ∷ insert_focus_out f gs) (f ∷ g ∷ gs) (λ _. k)
      (λ _. h)

pub insert_focus_out-IsOrdered :
    (f : FocusOut) (fs : List FocusOut) → IsOrdered fs → IsOrdered (insert_focus_out f fs)
unfolding insert_focus_out
insert_focus_out-IsOrdered f [] h = tt
insert_focus_out-IsOrdered f (g ∷ gs) h =
    if_rule IsOrdered (leb g.due f.due) (g ∷ insert_focus_out f gs) (f ∷ g ∷ gs)
      (λ e.
        IsOrdered-cons g (insert_focus_out f gs)
          (Follows-insert g.due f gs (leb→le g.due f.due e) (IsOrdered-Follows g gs h))
          (insert_focus_out-IsOrdered f gs (IsOrdered-tail g gs h)))
      (λ e. (omega (arith, not_leb→lt g.due f.due e), h))

Follows-trans : (a b : ℕ) (fs : List FocusOut) → a ≤ b → Follows b fs → Follows a fs
Follows-trans a b [] h k = tt
Follows-trans a b (f ∷ fs) h k = omega (arith, h, k)

retain-Follows :
    (p : FocusOut → Bool) (due : ℕ) (fs : List FocusOut)
    → IsOrdered fs
    → Follows due fs
    → Follows due (retain p fs)
unfolding retain
retain-Follows p due [] h k = tt
retain-Follows p due (f ∷ fs) h k =
    if_rule (Follows due) (p f) (f ∷ retain p fs) (retain p fs) (λ _. k)
      (λ _.
        retain-Follows p due fs (IsOrdered-tail f fs h)
          (Follows-trans due f.due fs k (IsOrdered-Follows f fs h)))

pub retain-IsOrdered :
    (p : FocusOut → Bool) (fs : List FocusOut) → IsOrdered fs → IsOrdered (retain p fs)
unfolding retain
retain-IsOrdered p [] h = tt
retain-IsOrdered p (f ∷ fs) h =
    let rest = retain-IsOrdered p fs (IsOrdered-tail f fs h) in
    if_rule IsOrdered (p f) (f ∷ retain p fs) (retain p fs)
      (λ _.
        IsOrdered-cons f (retain p fs)
          (retain-Follows p f.due fs (IsOrdered-tail f fs h) (IsOrdered-Follows f fs h)) rest)
      (λ _. rest)
