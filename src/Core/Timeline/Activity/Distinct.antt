-- ===== src/Core/Timeline/Activity/Distinct.antt =====
-- crates/zanei-core/src/timeline/activity.rs: what `summarize` lists.
use zanei.Prelude.{
  ℕ, zero, suc, ◌≤◌, ◌≡◌, refl, sym, ap, ◌∙◌, subst, inl, inr, Bool, true, false, ◌||◌, List, [],
  ◌∷◌, ◌++◌, Text, text, text_eq, text_eq_refl, text_eq_sound, arith, any, take, length,
  length-take, is_empty, Bool-cases, if_rule,
}
use zanei.Core.Schema.{Event}
use zanei.Core.Timeline.Activity.{
  retain_new, deduplicate, all_activities, summarize, max_activities,
}

abbrev pub holds : Text → List Text → Bool
holds t ts = any (λ s. text_eq s t) ts

-- No text stands twice.
abbrev pub IsDistinct : List Text → Type 0
IsDistinct [] = Unit
IsDistinct (t ∷ ts) = (holds t ts ≡ false) × IsDistinct ts

retain_new_seen :
    (seen : List Text) (t : Text) (ts : List Text)
    → holds t seen ≡ true
    → retain_new seen (t ∷ ts) ≡ retain_new seen ts
unfolding retain_new
retain_new_seen seen t ts h = rw (h, retain_new) refl

retain_new_fresh :
    (seen : List Text) (t : Text) (ts : List Text)
    → holds t seen ≡ false
    → retain_new seen (t ∷ ts) ≡ t ∷ retain_new (t ∷ seen) ts
unfolding retain_new
retain_new_fresh seen t ts h = rw (h, retain_new) refl

retain_new_none : (seen : List Text) → retain_new seen [] ≡ []
unfolding retain_new
retain_new_none seen = refl

differ :
    (t x : Text) (seen : List Text)
    → holds x seen ≡ true
    → holds t seen ≡ false
    → text_eq t x ≡ false
differ t x seen h k = elim (Bool-cases (text_eq t x)) [
  | inl e ↦ cc (ap (λ y. holds y seen) (text_eq_sound t x e))
  | inr e ↦ e
]

retain_new-seen :
    (seen ts : List Text) (x : Text) → holds x seen ≡ true → holds x (retain_new seen ts) ≡ false
retain_new-seen seen [] x h = ap (holds x) (retain_new_none seen)
retain_new-seen seen (t ∷ ts) x h = elim (Bool-cases (holds t seen)) [
  | inl k ↦ ap (holds x) (retain_new_seen seen t ts k) ∙ retain_new-seen seen ts x h
  | inr k ↦
      let later = retain_new-seen (t ∷ seen) ts x (ground (arith, h)) in
      ap (holds x) (retain_new_fresh seen t ts k) ∙ rw (differ t x seen h k) later
]

retain_new-IsDistinct : (seen ts : List Text) → IsDistinct (retain_new seen ts)
retain_new-IsDistinct seen [] = subst IsDistinct (sym (retain_new_none seen)) tt
retain_new-IsDistinct seen (t ∷ ts) = elim (Bool-cases (holds t seen)) [
  | inl k ↦ subst IsDistinct (sym (retain_new_seen seen t ts k)) (retain_new-IsDistinct seen ts)
  | inr k ↦ subst IsDistinct (sym (retain_new_fresh seen t ts k)) (
    retain_new-seen (t ∷ seen) ts t (ap (λ b. b || holds t seen) (text_eq_refl t)),
    retain_new-IsDistinct (t ∷ seen) ts,
  )
]

take-holds : (n : ℕ) (t : Text) (ts : List Text) → holds t ts ≡ false → holds t (take n ts) ≡ false
take-holds zero t ts h = refl
take-holds (suc n) t [] h = refl
take-holds (suc n) t (s ∷ ts) h = ground (arith, take-holds n t ts)

take-IsDistinct : (n : ℕ) (ts : List Text) → IsDistinct ts → IsDistinct (take n ts)
take-IsDistinct zero ts h = tt
take-IsDistinct (suc n) [] h = tt
take-IsDistinct (suc n) (t ∷ ts) h = (take-holds n t ts h.0, take-IsDistinct n ts h.1)

-- A list that a session shows: one to five activities, none twice.
pub record IsSummary (ts : List Text) : Type 0 where
  pub filled : 1 ≤ length ts
  pub short : length ts ≤ 5
  pub distinct : IsDistinct ts

take-IsSummary :
    (ts : List Text) → 1 ≤ length ts → IsDistinct ts → IsSummary (take max_activities ts)
take-IsSummary ts h d = record {
  filled = omega (arith, length-take max_activities ts);
  short = omega (arith, length-take max_activities ts);
  distinct = take-IsDistinct max_activities ts d;
}

filled_length : (ts : List Text) → is_empty ts ≡ false → 1 ≤ length ts
filled_length [] h = cc
filled_length (t ∷ ts) h = omega arith

-- Whatever its events are, a session that has some shows one to five activities, none of them twice.
pub summarize-IsSummary : (events : List Event) (app : Text) → IsSummary (summarize events app)
unfolding summarize deduplicate
summarize-IsSummary events app =
    let activities = retain_new [] (all_activities events) in
    if_rule (λ ts. IsSummary (take max_activities ts)) (is_empty activities)
      ((text "Used " ++ app) ∷ []) activities
      (λ _. take-IsSummary ((text "Used " ++ app) ∷ []) (omega arith) (refl, tt))
      (λ h.
        take-IsSummary activities (filled_length activities h)
          (retain_new-IsDistinct [] (all_activities events)))
