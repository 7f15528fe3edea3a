-- ===== src/Core/Limits.antt =====
-- crates/zanei-core/src/normalize/limits.rs: the size limits of the fields of an event.
-- The size of a snapshot's lines as JSON is serde's: `lines_bytes` is a parameter.
pub mod Bounds
pub mod Truncation
use zanei.Prelude.{
  ℕ, ◌*◌, Bool, true, false, ◌||◌, Option, none, some, List, Text, len, ltb, if◌then◌else◌,
}
use zanei.Core.Schema.{
  Event, Window, Element, EventData, mark_truncated, ContentSnapshotLine, ContentSnapshotShape,
  ContentSnapshotData,
}

abbrev pub text_field_max_bytes : ℕ
text_field_max_bytes = 64 * 1024

abbrev pub content_snapshot_safety_max_bytes : ℕ
content_snapshot_safety_max_bytes = 64 * 1024

abbrev pub url_title_field_max_bytes : ℕ
url_title_field_max_bytes = 4 * 1024

-- `drop_oversized` gives what stays of the field and whether it was dropped.
abbrev pub oversized : Option Text → ℕ → Bool
oversized none max_bytes = false
oversized (some value) max_bytes = ltb max_bytes (len value)

unfoldable pub drop_oversized : Option Text → ℕ → Option Text × Bool
drop_oversized value max_bytes = if oversized value max_bytes then (none, true) else (value, false)

module _ (lines_bytes : List ContentSnapshotLine → ℕ) where
  abbrev pub oversized_lines : Option (List ContentSnapshotLine) → Bool
  oversized_lines none = false
  oversized_lines (some lines) = ltb content_snapshot_safety_max_bytes (lines_bytes lines)

  unfoldable pub drop_oversized_lines : ContentSnapshotShape → ContentSnapshotShape × Bool
  drop_oversized_lines (ContentSnapshotShape.legacy complete) =
      (ContentSnapshotShape.legacy complete, false)
  drop_oversized_lines (ContentSnapshotShape.current cutoff) =
      (ContentSnapshotShape.current cutoff, false)
  drop_oversized_lines (ContentSnapshotShape.recognized cutoff lines) =
      if oversized_lines lines
      then (ContentSnapshotShape.recognized cutoff none, true)
      else (ContentSnapshotShape.recognized cutoff lines, false)

  unfoldable pub limit_window : Option Window → Option Window × Bool
  unfolding drop_oversized
  limit_window none = (none, false)
  limit_window (some w) =
      let (title, dropped) = drop_oversized w.title url_title_field_max_bytes in
      (some (record w { title = title }), dropped)

  unfoldable pub limit_element : Option Element → Option Element × Bool
  unfolding drop_oversized
  limit_element none = (none, false)
  limit_element (some e) =
      let (title, title_dropped) = drop_oversized e.title url_title_field_max_bytes in
      let (value, value_dropped) = drop_oversized e.value text_field_max_bytes in
      (some (record e { title = title; value = value }), title_dropped || value_dropped)

  unfoldable pub limit_payload : EventData → EventData × Bool
  unfolding drop_oversized drop_oversized_lines
  limit_payload (EventData.window_title d) =
      let (t, dropped) = drop_oversized d.prev_title url_title_field_max_bytes in
      (EventData.window_title (record d { prev_title = t }), dropped)
  limit_payload (EventData.ui_value d) =
      let (t, dropped) = drop_oversized d.text text_field_max_bytes in
      (EventData.ui_value (record d { text = t }), dropped)
  limit_payload (EventData.input_key d) =
      let (t, dropped) = drop_oversized d.text text_field_max_bytes in
      (EventData.input_key (record d { text = t }), dropped)
  limit_payload (EventData.browser_navigate d) =
      let (u, url_dropped) = drop_oversized d.url url_title_field_max_bytes in
      let (t, title_dropped) = drop_oversized d.tab_title url_title_field_max_bytes in
      (
        EventData.browser_navigate (record d { url = u; tab_title = t }),
        url_dropped || title_dropped,
      )
  limit_payload (EventData.clipboard_copy d) =
      let (t, dropped) = drop_oversized d.text text_field_max_bytes in
      (EventData.clipboard_copy (record d { text = t }), dropped)
  limit_payload (EventData.clipboard_paste d) =
      let (t, dropped) = drop_oversized d.text text_field_max_bytes in
      (EventData.clipboard_paste (record d { text = t }), dropped)
  limit_payload (EventData.content_snapshot d) =
      let (t, text_dropped) = drop_oversized d.text content_snapshot_safety_max_bytes in
      let (s, lines_dropped) = drop_oversized_lines d.shape in
      (EventData.content_snapshot (record d { text = t; shape = s }), text_dropped || lines_dropped)
  limit_payload EventData.app_activate = (EventData.app_activate, false)
  limit_payload EventData.app_launch = (EventData.app_launch, false)
  limit_payload EventData.app_terminate = (EventData.app_terminate, false)
  limit_payload EventData.window_focus = (EventData.window_focus, false)
  limit_payload (EventData.ui_focus d) = (EventData.ui_focus d, false)
  limit_payload (EventData.ui_click d) = (EventData.ui_click d, false)
  limit_payload (EventData.input_scroll d) = (EventData.input_scroll d, false)

  -- The event with its oversized fields dropped, and whether there were any.
  unfoldable pub limit_fields : Event → Event
  unfolding limit_window limit_element limit_payload
  limit_fields event = record event {
    window = (limit_window event.window).0;
    element = (limit_element event.element).0;
    payload = (limit_payload event.payload).0;
  }

  unfoldable pub exceeds_limits : Event → Bool
  unfolding limit_window limit_element limit_payload
  exceeds_limits event =
      (limit_window event.window).1
      || (limit_element event.element).1
      || (limit_payload event.payload).1

  unfoldable pub enforce_size_limits : Event → Event
  unfolding limit_fields exceeds_limits mark_truncated
  enforce_size_limits event =
      if exceeds_limits event then mark_truncated (limit_fields event) else limit_fields event
