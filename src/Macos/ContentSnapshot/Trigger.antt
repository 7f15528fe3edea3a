-- ===== src/Macos/ContentSnapshot/Trigger.antt =====
-- crates/zanei-macos/src: the messages to the scheduler of snapshots, in content_snapshot/trigger.rs,
-- and what they are made of, in workspace.rs, focus_context.rs, focused_field.rs and
-- ffi/window_list.rs. An `i64` stands by its bit pattern, an instant is a number of nanoseconds.
use zanei.Prelude.{ℕ, Bool, Option, Text}
use zanei.Core.Schema.{FieldKind}

pub data ApplicationActivationPolicy : Type 0 where
  regular accessory prohibited : ApplicationActivationPolicy

pub record ApplicationInfo : Type 0 where
  pub name : Text
  pub bundle_id : Option Text
  pub pid : ℕ
  pub activation_policy : ApplicationActivationPolicy

pub record NativeWindow : Type 0 where
  pub title : Option Text
  pub id : Option ℕ

pub data FieldClass : Type 0 where
  secure_text known_safe_non_text unknown : FieldClass
  known_text : FieldKind → FieldClass

pub record FocusedField : Type 0 where
  pub generation : ℕ
  pub class : FieldClass

pub record FocusSnapshot : Type 0 where
  pub app : ApplicationInfo
  pub window : Option NativeWindow
  pub generation : ℕ
  pub focused_field : Option FocusedField
  pub field_generation : ℕ

pub record FocusTransition : Type 0 where
  pub previous : Option FocusSnapshot
  pub current : Option FocusSnapshot
  pub resynced : Bool

pub record SnapshotWindowKey : Type 0 where
  pub pid : ℕ
  pub window_id : ℕ

pub data SnapshotTriggerKind : Type 0 where
  focus focus_out title : SnapshotTriggerKind

pub record SnapshotTrigger : Type 0 where
  pub app : ApplicationInfo
  pub window : NativeWindow
  pub kind : SnapshotTriggerKind
  pub observed_at : ℕ

pub data SnapshotTriggerMessage : Type 0 where
  trigger : SnapshotTrigger → SnapshotTriggerMessage
  focus_transition : FocusTransition → ℕ → SnapshotTriggerMessage
  input : SnapshotWindowKey → ℕ → SnapshotTriggerMessage
