-- ===== src/Core/Limits/Bounds.antt =====
-- What normalize/limits.rs guarantees of every event that it has passed.
use zanei.Prelude.{
  ℕ, ◌≤◌, ◌≡◌, refl, Bool, true, false, Option, none, some, List, Text, len, arith, ltb, if_rule,
  not_ltb→le,
}
use zanei.Core.Schema.{
  Event, Window, Element, EventData, ContentSnapshotLine, ContentSnapshotShape, mark_truncated,
}
use zanei.Core.Limits.{
  limit_fields, exceeds_limits, drop_oversized, drop_oversized_lines, limit_window, limit_element,
  limit_payload, enforce_size_limits, text_field_max_bytes, content_snapshot_safety_max_bytes,
  url_title_field_max_bytes,
}

-- A field that is absent or at most `max` bytes long.
abbrev pub Within : ℕ → Option Text → Type 0
Within max none = Unit
Within max (some t) = len t ≤ max

module _ (lines_bytes : List ContentSnapshotLine → ℕ) where
  abbrev pub WithinLines : ContentSnapshotShape → Type 0
  WithinLines (ContentSnapshotShape.recognized cutoff (some lines)) =
      lines_bytes lines ≤ content_snapshot_safety_max_bytes
  WithinLines s = Unit

  abbrev pub WithinWindow : Option Window → Type 0
  WithinWindow none = Unit
  WithinWindow (some w) = Within url_title_field_max_bytes w.title

  abbrev pub WithinElement : Option Element → Type 0
  WithinElement none = Unit
  WithinElement (some e) =
      Within url_title_field_max_bytes e.title × Within text_field_max_bytes e.value

  abbrev pub WithinPayload : EventData → Type 0
  WithinPayload (EventData.window_title d) = Within url_title_field_max_bytes d.prev_title
  WithinPayload (EventData.ui_value d) = Within text_field_max_bytes d.text
  WithinPayload (EventData.input_key d) = Within text_field_max_bytes d.text
  WithinPayload (EventData.browser_navigate d) =
      Within url_title_field_max_bytes d.url × Within url_title_field_max_bytes d.tab_title
  WithinPayload (EventData.clipboard_copy d) = Within text_field_max_bytes d.text
  WithinPayload (EventData.clipboard_paste d) = Within text_field_max_bytes d.text
  WithinPayload (EventData.content_snapshot d) =
      Within content_snapshot_safety_max_bytes d.text × WithinLines d.shape
  WithinPayload d = Unit

  pub record IsBounded (e : Event) : Type 0 where
    pub window : WithinWindow e.window
    pub element : WithinElement e.element
    pub payload : WithinPayload e.payload

  drop_oversized-Within : (o : Option Text) (max : ℕ) → Within max (drop_oversized o max).0
  unfolding drop_oversized
  drop_oversized-Within none max = tt
  drop_oversized-Within (some t) max =
      if_rule (λ (r : Option Text × Bool). Within max r.0) (ltb max (len t)) (none, true)
        (some t, false) (λ _. tt) (λ h. not_ltb→le max (len t) h)

  pub drop_oversized-keeps :
      (o : Option Text) (max : ℕ) → Within max o → drop_oversized o max ≡ (o, false)
  unfolding drop_oversized
  drop_oversized-keeps none max h = refl
  drop_oversized-keeps (some t) max h = ground arith

  limit_window-Within : (w : Option Window) → WithinWindow (limit_window lines_bytes w).0
  unfolding limit_window
  limit_window-Within none = tt
  limit_window-Within (some w) = drop_oversized-Within w.title url_title_field_max_bytes

  drop_oversized_lines-Within :
      (s : ContentSnapshotShape) → WithinLines (drop_oversized_lines lines_bytes s).0
  unfolding drop_oversized_lines
  drop_oversized_lines-Within (ContentSnapshotShape.legacy complete) = tt
  drop_oversized_lines-Within (ContentSnapshotShape.current cutoff) = tt
  drop_oversized_lines-Within (ContentSnapshotShape.recognized cutoff none) = tt
  drop_oversized_lines-Within (ContentSnapshotShape.recognized cutoff (some lines)) =
      if_rule (λ (r : ContentSnapshotShape × Bool). WithinLines r.0)
        (ltb content_snapshot_safety_max_bytes (lines_bytes lines))
        (ContentSnapshotShape.recognized cutoff none, true)
        (ContentSnapshotShape.recognized cutoff (some lines), false) (λ _. tt)
        (λ h. not_ltb→le content_snapshot_safety_max_bytes (lines_bytes lines) h)

  limit_element-Within : (e : Option Element) → WithinElement (limit_element lines_bytes e).0
  unfolding limit_element
  limit_element-Within none = tt
  limit_element-Within (some e) = (
    drop_oversized-Within e.title url_title_field_max_bytes,
    drop_oversized-Within e.value text_field_max_bytes,
  )

  limit_payload-Within : (d : EventData) → WithinPayload (limit_payload lines_bytes d).0
  unfolding limit_payload
  limit_payload-Within (EventData.window_title d) =
      drop_oversized-Within d.prev_title url_title_field_max_bytes
  limit_payload-Within (EventData.ui_value d) = drop_oversized-Within d.text text_field_max_bytes
  limit_payload-Within (EventData.input_key d) = drop_oversized-Within d.text text_field_max_bytes
  limit_payload-Within (EventData.browser_navigate d) = (
    drop_oversized-Within d.url url_title_field_max_bytes,
    drop_oversized-Within d.tab_title url_title_field_max_bytes,
  )
  limit_payload-Within (EventData.clipboard_copy d) =
      drop_oversized-Within d.text text_field_max_bytes
  limit_payload-Within (EventData.clipboard_paste d) =
      drop_oversized-Within d.text text_field_max_bytes
  limit_payload-Within (EventData.content_snapshot d) = (
    drop_oversized-Within d.text content_snapshot_safety_max_bytes,
    drop_oversized_lines-Within d.shape,
  )
  limit_payload-Within _ = tt

  -- After the limits every text field of the event is absent or within its limit.
  pub enforce_size_limits-IsBounded : (e : Event) → IsBounded (enforce_size_limits lines_bytes e)
  unfolding enforce_size_limits limit_fields mark_truncated
  enforce_size_limits-IsBounded e =
      if_rule IsBounded (exceeds_limits lines_bytes e) (mark_truncated (limit_fields lines_bytes e))
        (limit_fields lines_bytes e) (λ _. record { window = w; element = el; payload = p })
        (λ _. record { window = w; element = el; payload = p })
    where
      w : WithinWindow (limit_window lines_bytes e.window).0
      w = limit_window-Within e.window

      el : WithinElement (limit_element lines_bytes e.element).0
      el = limit_element-Within e.element

      p : WithinPayload (limit_payload lines_bytes e.payload).0
      p = limit_payload-Within e.payload

  limit_window-keeps :
      (w : Option Window) → WithinWindow w → limit_window lines_bytes w ≡ (w, false)
  unfolding limit_window
  limit_window-keeps none h = refl
  limit_window-keeps (some w) h =
      ground (arith, drop_oversized-keeps w.title url_title_field_max_bytes h)

  limit_element-keeps :
      (e : Option Element) → WithinElement e → limit_element lines_bytes e ≡ (e, false)
  unfolding limit_element
  limit_element-keeps none h = refl
  limit_element-keeps (some e) h = ground (
    arith,
    drop_oversized-keeps e.title url_title_field_max_bytes h.0,
    drop_oversized-keeps e.value text_field_max_bytes h.1,
  )

  drop_oversized_lines-keeps :
      (s : ContentSnapshotShape) → WithinLines s → drop_oversized_lines lines_bytes s ≡ (s, false)
  unfolding drop_oversized_lines
  drop_oversized_lines-keeps (ContentSnapshotShape.recognized cutoff (some lines)) h = ground arith
  drop_oversized_lines-keeps (ContentSnapshotShape.recognized cutoff none) h = refl
  drop_oversized_lines-keeps (ContentSnapshotShape.legacy complete) h = refl
  drop_oversized_lines-keeps (ContentSnapshotShape.current cutoff) h = refl

  limit_payload-keeps : (d : EventData) → WithinPayload d → limit_payload lines_bytes d ≡ (d, false)
  unfolding limit_payload
  limit_payload-keeps (EventData.window_title d) h =
      ground (arith, drop_oversized-keeps d.prev_title url_title_field_max_bytes h)
  limit_payload-keeps (EventData.ui_value d) h =
      ground (arith, drop_oversized-keeps d.text text_field_max_bytes h)
  limit_payload-keeps (EventData.input_key d) h =
      ground (arith, drop_oversized-keeps d.text text_field_max_bytes h)
  limit_payload-keeps (EventData.browser_navigate d) h = ground (
    arith,
    drop_oversized-keeps d.url url_title_field_max_bytes h.0,
    drop_oversized-keeps d.tab_title url_title_field_max_bytes h.1,
  )
  limit_payload-keeps (EventData.clipboard_copy d) h =
      ground (arith, drop_oversized-keeps d.text text_field_max_bytes h)
  limit_payload-keeps (EventData.clipboard_paste d) h =
      ground (arith, drop_oversized-keeps d.text text_field_max_bytes h)
  limit_payload-keeps (EventData.content_snapshot d) h = ground (
    arith,
    drop_oversized-keeps d.text content_snapshot_safety_max_bytes h.0,
    drop_oversized_lines-keeps d.shape h.1,
  )
  limit_payload-keeps _ h = refl

  -- An event whose fields are within the limits passes unchanged, its marks included.
  pub enforce_size_limits_keeps : (e : Event) → IsBounded e → enforce_size_limits lines_bytes e ≡ e
  unfolding enforce_size_limits limit_fields exceeds_limits
  enforce_size_limits_keeps e h = cc (
    limit_window-keeps e.window h.window,
    limit_element-keeps e.element h.element,
    limit_payload-keeps e.payload h.payload,
  )
