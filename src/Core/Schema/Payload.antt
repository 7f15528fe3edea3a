-- ===== src/Core/Schema/Payload.antt =====
-- crates/zanei-core/src/schema/payload.rs and content_snapshot.rs: the payload of an event.
use zanei.Prelude.{ℕ, Bool, Option, List, Text}

pub data FieldKind : Type 0 where
  text_field search url email number other_field : FieldKind

pub data Modifier : Type 0 where
  cmd shift opt ctrl fn_key : Modifier

pub data ClickButton : Type 0 where
  left_button right_button other_button : ClickButton

pub data InputKeyKind : Type 0 where
  text_key shortcut navigation delete other_key : InputKeyKind

pub data ScrollDirection : Type 0 where
  up down left right : ScrollDirection

pub data BrowserMode : Type 0 where
  normal unknown_mode : BrowserMode

pub data BrowserTransition : Type 0 where
  navigate tab_switch : BrowserTransition

pub data ContentKind : Type 0 where
  text_content image file other_content : ContentKind

pub data ClipboardOrigin : Type 0 where
  copy_shortcut unknown_origin : ClipboardOrigin

pub record WindowTitleData : Type 0 where
  pub prev_title : Option Text

pub record UiFocusData : Type 0 where
  pub field_kind : Option FieldKind

pub record UiClickData : Type 0 where
  pub button : ClickButton
  pub click_count : ℕ

pub record UiValueData : Type 0 where
  pub field_kind : Option FieldKind
  pub value_len : Option ℕ
  pub text : Option Text

pub record InputKeyData : Type 0 where
  pub kind : InputKeyKind
  pub modifiers : List Modifier
  pub count : ℕ
  pub combo : Option Text
  pub text : Option Text
  pub field_kind : Option FieldKind

pub record InputScrollData : Type 0 where
  pub direction : ScrollDirection
  pub amount : ℕ
  pub count : ℕ

pub record BrowserNavigateData : Type 0 where
  pub url : Option Text
  pub tab_title : Option Text
  pub mode : BrowserMode
  pub transition : Option BrowserTransition

pub record ClipboardCopyData : Type 0 where
  pub origin : ClipboardOrigin
  pub content_kind : ContentKind
  pub size_bytes : Option ℕ
  pub text : Option Text

pub record ClipboardPasteData : Type 0 where
  pub content_kind : ContentKind
  pub size_bytes : Option ℕ
  pub text : Option Text
  pub field_kind : Option FieldKind

pub data ContentSnapshotTrigger : Type 0 where
  settle refresh focus_out : ContentSnapshotTrigger

pub data ContentSnapshotCutoff : Type 0 where
  time nodes bytes stopped : ContentSnapshotCutoff

-- A `WindowFraction` is its number of ten-thousandths, an `RgbColor` its 24 bits.
pub record ContentSnapshotLine : Type 0 where
  pub text : Text
  pub x : ℕ
  pub y : ℕ
  pub w : ℕ
  pub h : ℕ
  pub bg : ℕ
  pub ink : Option ℕ

pub data ContentSnapshotShape : Type 0 where
  legacy : Bool → ContentSnapshotShape
  current : Option ContentSnapshotCutoff → ContentSnapshotShape
  recognized :
      Option ContentSnapshotCutoff → Option (List ContentSnapshotLine) → ContentSnapshotShape

pub record ContentSnapshotData : Type 0 where
  pub text : Option Text
  pub chars : ℕ
  pub trigger : ContentSnapshotTrigger
  pub shape : ContentSnapshotShape

-- The payloads of `AppActivate` to `WindowFocus` are empty.
pub data EventData : Type 0 where
  app_activate app_launch app_terminate window_focus : EventData
  window_title : WindowTitleData → EventData
  ui_focus : UiFocusData → EventData
  ui_click : UiClickData → EventData
  ui_value : UiValueData → EventData
  input_key : InputKeyData → EventData
  input_scroll : InputScrollData → EventData
  browser_navigate : BrowserNavigateData → EventData
  clipboard_copy : ClipboardCopyData → EventData
  clipboard_paste : ClipboardPasteData → EventData
  content_snapshot : ContentSnapshotData → EventData
