-- ===== src/Core/Limits/Truncation.antt =====
-- How normalize/limits.rs marks the events that it cuts.
use zanei.Prelude.{
  ℕ, ◌≡◌, refl, ◌⊎◌, inl, inr, true, false, Option, none, some, List, ◌∷◌, Text, text_eq_refl,
  arith, Bool-cases, if_rule,
}
use zanei.Core.Schema.{
  Event, Window, Element, EventData, ContentSnapshotLine, ContentSnapshotShape, is_truncated,
  mark_truncated, size_limit_rule, has_rule,
}
use zanei.Core.Limits.{
  limit_fields, exceeds_limits, drop_oversized, drop_oversized_lines, limit_window, limit_element,
  limit_payload, enforce_size_limits, text_field_max_bytes, content_snapshot_safety_max_bytes,
  url_title_field_max_bytes,
}

module _ (lines_bytes : List ContentSnapshotLine → ℕ) where
  drop_oversized-unmarked :
      (o : Option Text) (max : ℕ) → (drop_oversized o max).1 ≡ false → (drop_oversized o max).0 ≡ o
  unfolding drop_oversized
  drop_oversized-unmarked o max h = ground arith

  limit_window-unmarked :
      (w : Option Window)
      → (limit_window lines_bytes w).1 ≡ false
      → (limit_window lines_bytes w).0 ≡ w
  unfolding limit_window
  limit_window-unmarked none h = refl
  limit_window-unmarked (some w) h =
      ground (arith, drop_oversized-unmarked w.title url_title_field_max_bytes)

  limit_element-unmarked :
      (e : Option Element)
      → (limit_element lines_bytes e).1 ≡ false
      → (limit_element lines_bytes e).0 ≡ e
  unfolding limit_element
  limit_element-unmarked none h = refl
  limit_element-unmarked (some e) h = ground (
    arith,
    drop_oversized-unmarked e.title url_title_field_max_bytes,
    drop_oversized-unmarked e.value text_field_max_bytes,
  )

  drop_oversized_lines-unmarked :
      (s : ContentSnapshotShape)
      → (drop_oversized_lines lines_bytes s).1 ≡ false
      → (drop_oversized_lines lines_bytes s).0 ≡ s
  unfolding drop_oversized_lines
  drop_oversized_lines-unmarked s h = ground arith

  limit_payload-unmarked :
      (d : EventData)
      → (limit_payload lines_bytes d).1 ≡ false
      → (limit_payload lines_bytes d).0 ≡ d
  unfolding limit_payload
  limit_payload-unmarked (EventData.window_title d) h =
      ground (arith, drop_oversized-unmarked d.prev_title url_title_field_max_bytes)
  limit_payload-unmarked (EventData.ui_value d) h =
      ground (arith, drop_oversized-unmarked d.text text_field_max_bytes)
  limit_payload-unmarked (EventData.input_key d) h =
      ground (arith, drop_oversized-unmarked d.text text_field_max_bytes)
  limit_payload-unmarked (EventData.browser_navigate d) h = ground (
    arith,
    drop_oversized-unmarked d.url url_title_field_max_bytes,
    drop_oversized-unmarked d.tab_title url_title_field_max_bytes,
  )
  limit_payload-unmarked (EventData.clipboard_copy d) h =
      ground (arith, drop_oversized-unmarked d.text text_field_max_bytes)
  limit_payload-unmarked (EventData.clipboard_paste d) h =
      ground (arith, drop_oversized-unmarked d.text text_field_max_bytes)
  limit_payload-unmarked (EventData.content_snapshot d) h = ground (
    arith,
    drop_oversized-unmarked d.text content_snapshot_safety_max_bytes,
    drop_oversized_lines-unmarked d.shape,
  )
  limit_payload-unmarked _ h = refl

  is_truncated-mark_truncated : (e : Event) → is_truncated (mark_truncated e) ≡ true
  unfolding is_truncated mark_truncated
  is_truncated-mark_truncated e =
      if_rule (λ (rules : List Text). has_rule size_limit_rule rules ≡ true) (is_truncated e)
        e.redaction.rules (size_limit_rule ∷ e.redaction.rules) (λ h. h)
        (λ _. rw (text_eq_refl size_limit_rule))

  limit_fields-unmarked :
      (e : Event) → exceeds_limits lines_bytes e ≡ false → limit_fields lines_bytes e ≡ e
  unfolding exceeds_limits limit_fields
  limit_fields-unmarked e h = ground (
    arith,
    limit_window-unmarked e.window,
    limit_element-unmarked e.element,
    limit_payload-unmarked e.payload,
  )

  -- The limits either leave an event as it is, marks included, or mark it as truncated and
  -- redacted.
  pub enforce_size_limits_marks :
      (e : Event)
      → (enforce_size_limits lines_bytes e ≡ e)
        ⊎ ((is_truncated (enforce_size_limits lines_bytes e) ≡ true)
            × ((enforce_size_limits lines_bytes e).redaction.applied ≡ true))
  unfolding enforce_size_limits
  enforce_size_limits_marks e = elim (Bool-cases (exceeds_limits lines_bytes e)) [
    | inl cut ↦ inr (
        rw (cut, enforce_size_limits)
          (is_truncated-mark_truncated (limit_fields lines_bytes e), unfold mark_truncated in refl))
    | inr within ↦ inl (rw (within, enforce_size_limits) (limit_fields-unmarked e within))
  ]
