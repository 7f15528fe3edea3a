-- ===== src/Core/Normalizer/Conservation.antt =====
-- No key press and no scroll step is lost or counted twice when `push_at` of
-- normalize.rs puts an event to the pending ones.
use zanei.Prelude.{
  subst, ◌≤◌, ℕ, ◌+◌, ◌≡◌, refl, sym, ap, ◌∙◌, Bool, true, false, Option, none, some, List, [], ◌∷◌,
  Text, arith, All, Bool-cases, inl, inr, checked_add,
}
use zanei.Core.Schema.{
  Event, EventData, ContentSnapshotLine, InputKeyData, InputScrollData, is_truncated,
}
use zanei.Core.Normalizer.Keys.{PendingKind, key, scroll, window_title_change, kind_eq}
use zanei.Core.Normalizer.{merged, merge_keys, merge_scrolls, merge_payloads, merge, coalesce}
use zanei.Core.Normalizer.State.{
  NormalizedEvent, Pending, NormalizeError, with_payload, append_text,
}
use zanei.Core.Normalizer.Counts.{
  count_of, pending_total, Matches, variant, payload_variant, kind_eq-variant,
  enforce_size_limits-count, enforce_size_limits-variant,
}

module _ (lowercase : Text → Text) (add_f64 : ℕ → ℕ → ℕ) (is_finite : ℕ → Bool)
    (json_bytes : Event → Option ℕ) (lines_bytes : List ContentSnapshotLine → ℕ) where
  variant_le : (k : PendingKind) → variant k ≤ 2
  variant_le (key _ _ _ _ _ _) = omega arith
  variant_le (scroll _ _ _ _ _) = omega arith
  variant_le (window_title_change _ _ _) = omega arith

  -- What a merge that succeeds must give: the counts of both, and the kind as it was.
  record Joins (p : Pending) (count : ℕ) (q : Pending) : Type 0 where
    counted : count_of q.event.event.payload ≡ count
    matches : Matches q
    kept : q.kind ≡ p.kind

  merged-Joins :
      (p q r : Pending) (mono count : ℕ)
      → r.kind ≡ p.kind
      → Matches r
      → count_of r.event.event.payload ≡ count
      → merged lowercase add_f64 is_finite json_bytes lines_bytes r mono ≡ (q, none)
      → Joins p count q
  merged-Joins p q r mono count k m c h =
      subst (Joins p count) (ap (λ (x : Pending × Option NormalizeError). x.0) h) (record {
        counted = enforce_size_limits-count lines_bytes r.event.event ∙ c;
        matches = enforce_size_limits-variant lines_bytes r.event.event ∙ m;
        kept = k;
      })

  checked_sum : (a b c : ℕ) → checked_add a b ≡ some c → c ≡ a + b
  unfolding checked_add
  checked_sum a b c h = ground arith

  merge_keys-Joins :
      (p q : Pending) (mono : ℕ) (current next : InputKeyData) (sum : Option ℕ)
      → variant p.kind ≡ 0
      → checked_add current.count next.count ≡ sum
      → merge_keys lowercase add_f64 is_finite json_bytes lines_bytes p mono current next sum
        ≡ (q, none)
      → Joins p (current.count + next.count) q
  unfolding merge_keys
  merge_keys-Joins p q mono current next none v s h = absurd (cc)
  merge_keys-Joins p q mono current next (some count) v s h =
      merged-Joins p q
        (with_payload p (
          EventData.input_key (record current {
            count = count;
            text = append_text (is_truncated p.event.event) current.text next.text;
          })))
        mono (current.count + next.count) refl (sym v)
        (checked_sum current.count next.count count s) h

  merge_scrolls-Joins :
      (p q : Pending) (mono : ℕ) (current next : InputScrollData) (sum : Option ℕ)
      → variant p.kind ≡ 1
      → checked_add current.count next.count ≡ sum
      → merge_scrolls lowercase add_f64 is_finite json_bytes lines_bytes p mono current next sum
        ≡ (q, none)
      → Joins p (current.count + next.count) q
  unfolding merge_scrolls
  merge_scrolls-Joins p q mono current next none v s h = absurd (cc)
  merge_scrolls-Joins p q mono current next (some count) v s h =
      elim (Bool-cases (is_finite (add_f64 current.amount next.amount))) [
        | inl finite ↦
            merged-Joins p q
              (with_payload p (
                EventData.input_scroll
                  (record current { count = count; amount = add_f64 current.amount next.amount })))
              mono (current.count + next.count) refl (sym v)
              (checked_sum current.count next.count count s) (ground (arith, finite))
        | inr infinite ↦ absurd (ground (arith, infinite))
      ]

  merge_payloads-Joins :
      (p q : Pending) (e : NormalizedEvent) (d f : EventData)
      → payload_variant d ≡ variant p.kind
      → payload_variant f ≡ variant p.kind
      → e.event.payload ≡ f
      → p.event.event.payload ≡ d
      → merge_payloads lowercase add_f64 is_finite json_bytes lines_bytes p e d f ≡ (q, none)
      → Joins p (count_of d + count_of f) q
  unfolding merge_payloads
  merge_payloads-Joins p q e (EventData.input_key d) (EventData.input_key f) v w g i h =
      merge_keys-Joins p q e.event.mono_ns d f _ (sym v) refl h
  merge_payloads-Joins p q e (EventData.input_scroll d) (EventData.input_scroll f) v w g i h =
      merge_scrolls-Joins p q e.event.mono_ns d f _ (sym v) refl h
  merge_payloads-Joins p q e (EventData.window_title d) (EventData.window_title f) v w g i h =
      merged-Joins p q (record p { event = e }) e.event.mono_ns 0 refl (ap payload_variant g ∙ w)
        (ap count_of g) h
  merge_payloads-Joins p q e d f v w g i h = absurd (omega (arith, v, w, variant_le p.kind))

  merge-Joins :
      (p q : Pending) (e : NormalizedEvent)
      → Matches p
      → payload_variant e.event.payload ≡ variant p.kind
      → merge lowercase add_f64 is_finite json_bytes lines_bytes p e ≡ (q, none)
      → Joins p (count_of p.event.event.payload + count_of e.event.payload) q
  unfolding merge
  merge-Joins p q e m w h =
      merge_payloads-Joins p q e p.event.event.payload e.event.payload m w refl refl h

  coalesce_here :
      (p : Pending) (ps : List Pending) (e : NormalizedEvent) (kind : PendingKind)
      → kind_eq p.kind kind ≡ true
      → coalesce lowercase add_f64 is_finite json_bytes lines_bytes (p ∷ ps) e kind ≡ (
        (merge lowercase add_f64 is_finite json_bytes lines_bytes p e).0 ∷ ps,
        (merge lowercase add_f64 is_finite json_bytes lines_bytes p e).1,
      )
  unfolding coalesce
  coalesce_here p ps e kind h = rw (h, coalesce) refl

  coalesce_later :
      (p : Pending) (ps : List Pending) (e : NormalizedEvent) (kind : PendingKind)
      → kind_eq p.kind kind ≡ false
      → coalesce lowercase add_f64 is_finite json_bytes lines_bytes (p ∷ ps) e kind ≡ (
        p ∷ (coalesce lowercase add_f64 is_finite json_bytes lines_bytes ps e kind).0,
        (coalesce lowercase add_f64 is_finite json_bytes lines_bytes ps e kind).1,
      )
  unfolding coalesce
  coalesce_later p ps e kind h = rw (h, coalesce) refl

  -- What coalescing must give: all counts, and pending events that match their kinds.
  abbrev pub Coalesced : List Pending → NormalizedEvent → List Pending → Type 0
  Coalesced ps e qs =
      (pending_total qs ≡ pending_total ps + count_of e.event.payload) × All Matches qs

  pub coalesce-Coalesced :
      (ps : List Pending) (e : NormalizedEvent) (kind : PendingKind)
      → All Matches ps
      → payload_variant e.event.payload ≡ variant kind
      → (coalesce lowercase add_f64 is_finite json_bytes lines_bytes ps e kind).1 ≡ none
      → Coalesced ps e (coalesce lowercase add_f64 is_finite json_bytes lines_bytes ps e kind).0
  unfolding coalesce
  coalesce-Coalesced [] e kind a w h = (omega arith, (w, tt))
  coalesce-Coalesced (p ∷ ps) e kind a w h = elim (Bool-cases (kind_eq p.kind kind)) [
    | inl same ↦
        let here = coalesce_here p ps e kind same in
        let joins =
          merge-Joins p (merge lowercase add_f64 is_finite json_bytes lines_bytes p e).0 e a.0
            (w ∙ sym (kind_eq-variant p.kind kind same))
            (ap
              (λ (o : Option NormalizeError).
                ((merge lowercase add_f64 is_finite json_bytes lines_bytes p e).0, o))
              (sym (ap (λ (x : List Pending × Option NormalizeError). x.1) here) ∙ h)) in
        subst (Coalesced (p ∷ ps) e)
          (sym (ap (λ (x : List Pending × Option NormalizeError). x.0) here))
          (omega (arith, joins.counted), (joins.matches, a.1))
    | inr other ↦
        let later = coalesce_later p ps e kind other in
        let rest =
          coalesce-Coalesced ps e kind a.1 w
            (sym (ap (λ (x : List Pending × Option NormalizeError). x.1) later) ∙ h) in
        subst (Coalesced (p ∷ ps) e)
          (sym (ap (λ (x : List Pending × Option NormalizeError). x.0) later))
          (omega (arith, rest.0), (a.0, rest.1))
  ]
