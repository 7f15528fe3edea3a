-- ===== src/Core/Timeline/Merging.antt =====
-- crates/zanei-core/src/timeline/builder.rs: what `merge_adjacent_same_app` keeps and leaves.
use mathlib.Core.List.{append_assoc}
use zanei.Prelude.{
  ◌+◌, ◌≤◌, ◌≡◌, ◌⊎◌, Option, none, some, refl, sym, ap, ◌∙◌, subst, inl, inr, Bool, true, false,
  List, [], ◌∷◌, ◌++◌, Text, text_eq, text_eq_sound, arith, Bool-cases, saturating_add, u64_max,
}
use zanei.Core.Timeline.Model.{TimedEvent, MetadataSpan, RawSession}
use zanei.Core.Timeline.Sessions.{
  primary_app_key, merged, merge_from, merge_adjacent_same_app, merge_metadata_spans,
}
use zanei.Core.Timeline.Splitting.{events_of}
use zanei.Core.Timeline.Bounces.{snapshots_of}

abbrev same_app : RawSession → RawSession → Bool
same_app s t = text_eq (primary_app_key s) (primary_app_key t)

merge_from_same :
    (p s : RawSession) (ss : List RawSession)
    → same_app p s ≡ true
    → merge_from p (s ∷ ss) ≡ merge_from (merged p s) ss
unfolding merge_from
merge_from_same p s ss h = rw (h, merge_from) refl

merge_from_other :
    (p s : RawSession) (ss : List RawSession)
    → same_app p s ≡ false
    → merge_from p (s ∷ ss) ≡ p ∷ merge_from s ss
unfolding merge_from
merge_from_other p s ss h = rw (h, merge_from) refl

merge_from_last : (p : RawSession) → merge_from p [] ≡ p ∷ []
unfolding merge_from
merge_from_last p = refl

merge_from-events :
    (p : RawSession) (ss : List RawSession) → events_of (merge_from p ss) ≡ p.events ++ events_of ss
unfolding events_of merged
merge_from-events p [] = ap events_of (merge_from_last p)
merge_from-events p (s ∷ ss) = elim (Bool-cases (same_app p s)) [
  | inl h ↦
      ap events_of (merge_from_same p s ss h)
      ∙ merge_from-events (merged p s) ss
      ∙ append_assoc p.events s.events (events_of ss)
  | inr h ↦ ap events_of (merge_from_other p s ss h) ∙ ap (◌++◌ p.events) (merge_from-events s ss)
]

-- No event is lost, repeated or moved by the merge.
pub merge_adjacent_same_app-events :
    (ss : List RawSession) → events_of (merge_adjacent_same_app ss) ≡ events_of ss
unfolding merge_adjacent_same_app events_of
merge_adjacent_same_app-events [] = refl
merge_adjacent_same_app-events (s ∷ ss) = merge_from-events s ss

merge_from-snapshots :
    (p : RawSession) (ss : List RawSession)
    → p.content_snapshots + snapshots_of ss ≤ u64_max
    → snapshots_of (merge_from p ss) ≡ p.content_snapshots + snapshots_of ss
unfolding snapshots_of merged saturating_add
merge_from-snapshots p [] le = ap snapshots_of (merge_from_last p)
merge_from-snapshots p (s ∷ ss) le = elim (Bool-cases (same_app p s)) [
  | inl h ↦
      ap snapshots_of (merge_from_same p s ss h)
      ∙ omega (arith, merge_from-snapshots (merged p s) ss (omega arith))
  | inr h ↦
      ap snapshots_of (merge_from_other p s ss h)
      ∙ omega (arith, merge_from-snapshots s ss (omega arith))
]

pub merge_adjacent_same_app-snapshots :
    (ss : List RawSession)
    → snapshots_of ss ≤ u64_max
    → snapshots_of (merge_adjacent_same_app ss) ≡ snapshots_of ss
unfolding merge_adjacent_same_app snapshots_of
merge_adjacent_same_app-snapshots [] le = refl
merge_adjacent_same_app-snapshots (s ∷ ss) le = merge_from-snapshots s ss le

-- Two sessions together have the app of one of them.
merged-key :
    (p s : RawSession)
    → (primary_app_key (merged p s) ≡ primary_app_key p)
      ⊎ (primary_app_key (merged p s) ≡ primary_app_key s)
unfolding primary_app_key merged merge_metadata_spans
merged-key p s = merged_key p.events s.events p.metadata_span s.metadata_span
  where
    key_of : List TimedEvent → Option MetadataSpan → Text
    key_of events span =
        primary_app_key (record { events = events; content_snapshots = 0; metadata_span = span })

    merged_key :
        (es fs : List TimedEvent) (m n : Option MetadataSpan)
        → (key_of (es ++ fs) (merge_metadata_spans m n) ≡ key_of es m)
          ⊎ (key_of (es ++ fs) (merge_metadata_spans m n) ≡ key_of fs n)
    merged_key (e ∷ es) fs m n = inl refl
    merged_key [] (f ∷ fs) m n = inr refl
    merged_key [] [] none n = inr refl
    merged_key [] [] (some m) none = inl refl
    merged_key [] [] (some m) (some n) = inl refl

merged-same_app :
    (p s : RawSession) → same_app p s ≡ true → primary_app_key (merged p s) ≡ primary_app_key p
merged-same_app p s h = elim (merged-key p s) [
  | inl e ↦ e
  | inr e ↦ e ∙ sym (text_eq_sound (primary_app_key p) (primary_app_key s) h)
]

-- The first session of the output has the app of the session that the loop holds.
abbrev OpensWith : Text → List RawSession → Type 0
OpensWith key [] = Unit
OpensWith key (s ∷ ss) = primary_app_key s ≡ key

merge_from_opens :
    (p : RawSession) (ss : List RawSession) → OpensWith (primary_app_key p) (merge_from p ss)
merge_from_opens p [] = subst (OpensWith (primary_app_key p)) (sym (merge_from_last p)) refl
merge_from_opens p (s ∷ ss) = elim (Bool-cases (same_app p s)) [
  | inl h ↦
      subst (λ out. OpensWith (primary_app_key p) out) (sym (merge_from_same p s ss h))
        (subst (λ key. OpensWith key (merge_from (merged p s) ss)) (merged-same_app p s h)
          (merge_from_opens (merged p s) ss))
  | inr h ↦ subst (OpensWith (primary_app_key p)) (sym (merge_from_other p s ss h)) refl
]

-- No two neighbours are of one app.
abbrev Alternating : List RawSession → Type 0
Alternating [] = Unit
Alternating (s ∷ []) = Unit
Alternating (s ∷ t ∷ ss) = (same_app s t ≡ false) × Alternating (t ∷ ss)

Alternating-cons :
    (p s : RawSession) (out : List RawSession)
    → same_app p s ≡ false
    → OpensWith (primary_app_key s) out
    → Alternating out
    → Alternating (p ∷ out)
Alternating-cons p s [] h o a = tt
Alternating-cons p s (t ∷ ts) h o a = (ap (λ key. text_eq (primary_app_key p) key) o ∙ h, a)

merge_from-Alternating : (p : RawSession) (ss : List RawSession) → Alternating (merge_from p ss)
merge_from-Alternating p [] = subst Alternating (sym (merge_from_last p)) tt
merge_from-Alternating p (s ∷ ss) = elim (Bool-cases (same_app p s)) [
  | inl h ↦
      subst Alternating (sym (merge_from_same p s ss h)) (merge_from-Alternating (merged p s) ss)
  | inr h ↦ subst Alternating (sym (merge_from_other p s ss h)) (
      Alternating-cons p s (merge_from s ss) h (merge_from_opens s ss)
        (merge_from-Alternating s ss))
]

Alternating-append :
    (xs : List RawSession) (s t : RawSession) (ys : List RawSession)
    → Alternating (xs ++ s ∷ t ∷ ys)
    → same_app s t ≡ false
Alternating-append [] s t ys h = h.0
Alternating-append (x ∷ []) s t ys h = h.1.0
Alternating-append (x ∷ y ∷ xs) s t ys h = Alternating-append (y ∷ xs) s t ys h.1

merge_adjacent_same_app-Alternating :
    (ss : List RawSession) → Alternating (merge_adjacent_same_app ss)
unfolding merge_adjacent_same_app
merge_adjacent_same_app-Alternating [] = tt
merge_adjacent_same_app-Alternating (s ∷ ss) = merge_from-Alternating s ss

-- Two sessions that follow one another after the merge are of two apps.
pub merge_adjacent_same_app-differ :
    (ss before after : List RawSession) (s t : RawSession)
    → merge_adjacent_same_app ss ≡ before ++ s ∷ t ∷ after
    → text_eq (primary_app_key s) (primary_app_key t) ≡ false
merge_adjacent_same_app-differ ss before after s t e =
    Alternating-append before s t after
      (subst Alternating e (merge_adjacent_same_app-Alternating ss))
