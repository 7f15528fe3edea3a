-- ===== src/Core/Schema.antt =====
-- crates/zanei-core/src/schema: the event, its payloads and its truncation mark.
-- An `i64` and an `f64` stand by their bit patterns: the program compares the first and adds the
-- second. `u64` counts are numbers whose bound is stated where the program checks it.
pub mod Payload
pub use Payload.{
  FieldKind, Modifier, ClickButton, InputKeyKind, ScrollDirection, BrowserMode, BrowserTransition,
  ContentKind, ClipboardOrigin, WindowTitleData, UiFocusData, UiClickData, UiValueData,
  InputKeyData, InputScrollData, BrowserNavigateData, ClipboardCopyData, ClipboardPasteData,
  ContentSnapshotTrigger, ContentSnapshotCutoff, ContentSnapshotLine, ContentSnapshotShape,
  ContentSnapshotData, EventData,
}
use zanei.Prelude.{
  ℕ, Bool, true, false, Option, none, some, List, [], ◌∷◌, Text, text, text_eq, any, if◌then◌else◌,
}

pub record App : Type 0 where
  pub name : Text
  pub bundle_id : Option Text
  pub pid : Option ℕ

pub record Window : Type 0 where
  pub title : Option Text
  pub id : Option ℕ

pub record Element : Type 0 where
  pub role : Option Text
  pub title : Option Text
  pub value : Option Text

pub record Redaction : Type 0 where
  pub applied : Bool
  pub rules : List Text

pub record Event : Type 0 where
  pub version : ℕ
  pub id : Text
  pub ts : Text
  pub mono_ns : ℕ
  pub source : Text
  pub event_type : Text
  pub app : App
  pub window : Option Window
  pub element : Option Element
  pub payload : EventData
  pub redaction : Redaction

abbrev pub size_limit_rule : Text
size_limit_rule = text "size_limit"

unfoldable pub has_rule : Text → List Text → Bool
has_rule name rules = any (λ rule. text_eq rule name) rules

unfoldable pub is_truncated : Event → Bool
unfolding has_rule
is_truncated e = has_rule size_limit_rule e.redaction.rules

unfoldable pub mark_truncated : Event → Event
unfolding is_truncated
mark_truncated e = record e {
  redaction = record {
    applied = true;
    rules = if is_truncated e then e.redaction.rules else size_limit_rule ∷ e.redaction.rules;
  };
}

-- capture_context.rs
pub record CaptureSurface : Type 0 where
  pub cg_window_id : Option ℕ
  pub applescript_window_id : Option Text
  pub tab_id : Option Text

pub record CaptureContext : Type 0 where
  pub url : Option Text
  pub surface : Option CaptureSurface
