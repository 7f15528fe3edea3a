-- ===== src/Core/Normalizer/Keys.antt =====
-- crates/zanei-core/src/normalize.rs: which events may be coalesced, and from schema/model.rs the
-- version of an event type.
use zanei.Prelude.{
  ℕ, Bool, true, false, ◌&&◌, Option, none, some, List, [], ◌∷◌, Text, text, text_eq, opt_text_eq,
  ◌==◌, if◌then◌else◌, any,
}
use zanei.Core.Schema.{
  Window, Event, EventData, FieldKind, InputKeyKind, ScrollDirection, CaptureContext,
  CaptureSurface, is_truncated,
}
use zanei.Core.Privacy.Matcher.{app_key}
use zanei.Core.Privacy.Filter.{PolicySelectors}

abbrev pub key_gap_ns : ℕ
key_gap_ns = 2_000_000_000

abbrev pub scroll_gap_ns : ℕ
scroll_gap_ns = 1_000_000_000

abbrev pub window_title_debounce_ns : ℕ
window_title_debounce_ns = 500_000_000

pub data WindowKey : Type 0 where
  id : ℕ → WindowKey
  title : Option Text → WindowKey

pub data PendingKind : Type 0 where
  key :
      Text
      → WindowKey
      → CaptureContext
      → PolicySelectors
      → Option FieldKind
      → InputKeyKind
      → PendingKind
  scroll : Text → WindowKey → CaptureContext → PolicySelectors → ScrollDirection → PendingKind
  window_title_change : Text → WindowKey → CaptureContext → PendingKind

unfoldable pub window_ns : PendingKind → ℕ
window_ns (key app window context selectors field kind) = key_gap_ns
window_ns (scroll app window context selectors direction) = scroll_gap_ns
window_ns (window_title_change app window context) = window_title_debounce_ns

-- The derived equality of `PendingKind`.
abbrev opt_eq : Option ℕ → Option ℕ → Bool
opt_eq none none = true
opt_eq (some a) (some b) = a == b
opt_eq _ _ = false

abbrev field_code : FieldKind → ℕ
field_code FieldKind.text_field = 0
field_code FieldKind.search = 1
field_code FieldKind.url = 2
field_code FieldKind.email = 3
field_code FieldKind.number = 4
field_code FieldKind.other_field = 5

abbrev field_eq : Option FieldKind → Option FieldKind → Bool
field_eq none none = true
field_eq (some a) (some b) = field_code a == field_code b
field_eq _ _ = false

abbrev key_code : InputKeyKind → ℕ
key_code InputKeyKind.text_key = 0
key_code InputKeyKind.shortcut = 1
key_code InputKeyKind.navigation = 2
key_code InputKeyKind.delete = 3
key_code InputKeyKind.other_key = 4

abbrev direction_code : ScrollDirection → ℕ
direction_code ScrollDirection.up = 0
direction_code ScrollDirection.down = 1
direction_code ScrollDirection.left = 2
direction_code ScrollDirection.right = 3

abbrev window_key_eq : WindowKey → WindowKey → Bool
window_key_eq (id a) (id b) = a == b
window_key_eq (title a) (title b) = opt_text_eq a b
window_key_eq _ _ = false

abbrev surface_eq : Option CaptureSurface → Option CaptureSurface → Bool
surface_eq none none = true
surface_eq (some a) (some b) =
    opt_eq a.cg_window_id b.cg_window_id
    && opt_text_eq a.applescript_window_id b.applescript_window_id
    && opt_text_eq a.tab_id b.tab_id
surface_eq _ _ = false

abbrev context_eq : CaptureContext → CaptureContext → Bool
context_eq a b = opt_text_eq a.url b.url && surface_eq a.surface b.surface

abbrev selectors_eq : PolicySelectors → PolicySelectors → Bool
selectors_eq a b =
    text_eq a.app.name b.app.name
    && opt_text_eq a.app.bundle_id b.app.bundle_id
    && opt_eq a.app.pid b.app.pid
    && opt_text_eq a.title b.title
    && opt_text_eq a.url b.url

unfoldable pub kind_eq : PendingKind → PendingKind → Bool
kind_eq (key a w c s f k) (key a' w' c' s' f' k') =
    text_eq a a'
    && window_key_eq w w'
    && context_eq c c'
    && selectors_eq s s'
    && field_eq f f'
    && (key_code k == key_code k')
kind_eq (scroll a w c s d) (scroll a' w' c' s' d') =
    text_eq a a'
    && window_key_eq w w'
    && context_eq c c'
    && selectors_eq s s'
    && (direction_code d == direction_code d')
kind_eq (window_title_change a w c) (window_title_change a' w' c') =
    text_eq a a' && window_key_eq w w' && context_eq c c'
kind_eq _ _ = false

abbrev id_or_title : Option ℕ → Option Text → WindowKey
id_or_title none t = title t
id_or_title (some i) t = id i

unfoldable pub window_key : Option Window → WindowKey
window_key none = title none
window_key (some w) = id_or_title w.id w.title

abbrev coalesces : InputKeyKind → Bool
coalesces InputKeyKind.text_key = true
coalesces InputKeyKind.navigation = true
coalesces InputKeyKind.delete = true
coalesces _ = false

abbrev is_some : Option Window → Bool
is_some none = false
is_some (some w) = true

module _ (lowercase : Text → Text) where
  unfoldable pub payload_kind :
      Event → CaptureContext → PolicySelectors → EventData → Option PendingKind
  payload_kind e context selectors (EventData.input_key d) =
      if coalesces d.kind
      then some (
          key (lowercase (app_key e.app)) (window_key e.window) context selectors d.field_kind
            d.kind)
      else none
  payload_kind e context selectors (EventData.input_scroll d) =
      some (scroll (lowercase (app_key e.app)) (window_key e.window) context selectors d.direction)
  payload_kind e context selectors (EventData.window_title d) =
      if is_some e.window
      then some (window_title_change (lowercase (app_key e.app)) (window_key e.window) context)
      else none
  payload_kind e context selectors _ = none

  unfoldable pub pending_kind : Event → CaptureContext → PolicySelectors → Option PendingKind
  pending_kind e context selectors =
      if is_truncated e then none else payload_kind e context selectors e.payload

abbrev legacy_event_schema_version : ℕ
legacy_event_schema_version = 1

abbrev content_snapshot_schema_version : ℕ
content_snapshot_schema_version = 4

abbrev pub legacy_types : List Text
legacy_types =
    text "app.activate"
    ∷ text "app.launch"
    ∷ text "app.terminate"
    ∷ text "window.focus"
    ∷ text "window.title"
    ∷ text "ui.focus"
    ∷ text "ui.click"
    ∷ text "ui.value"
    ∷ text "input.key"
    ∷ text "input.scroll"
    ∷ text "browser.navigate"
    ∷ text "clipboard.copy"
    ∷ text "clipboard.paste"
    ∷ []

unfoldable pub event_schema_version : Text → Option ℕ
event_schema_version event_type =
    if any (λ t. text_eq event_type t) legacy_types
    then some legacy_event_schema_version
    else if text_eq event_type (text "content.snapshot")
    then some content_snapshot_schema_version
    else none
