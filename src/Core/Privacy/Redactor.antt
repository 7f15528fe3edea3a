-- ===== src/Core/Privacy/Redactor.antt =====
-- crates/zanei-core/src/privacy/redactor.rs: the redactors over the fields of an event. A field is
-- given back with whether it was changed.
pub mod Patterns
pub mod Tokens
pub mod Bounds
pub mod Found
pub mod Merged
pub mod Replaced
use zanei.Prelude.{
  ℕ, suc, ◌+◌, ◌-◌, min, max, Bool, true, false, not, ◌&&◌, ◌||◌, Option, none, some, List, [], ◌∷◌,
  ◌++◌, Text, text, text_eq, ltb, if◌then◌else◌, any, is_empty, length,
}
use zanei.Core.Config.{RedactorKind, email, credit_card, token}
use zanei.Core.Schema.{
  Event, Redaction, App, Window, Element, EventData, ContentSnapshotLine, ContentSnapshotShape,
  has_rule,
}
use zanei.Core.Privacy.Redactor.Patterns.{Range}
use zanei.Core.Privacy.Redactor.Tokens.{ranges, replace_ranges}

unfoldable pub rule_name : RedactorKind → Text
rule_name email = text "email"
rule_name credit_card = text "credit_card"
rule_name token = text "token"

unfoldable pub rule_marker : RedactorKind → Text
rule_marker email = text "[REDACTED:email]"
rule_marker credit_card = text "[REDACTED:credit_card]"
rule_marker token = text "[REDACTED:token]"

unfoldable pub redact_text : Text → RedactorKind → Text
redact_text value rule = replace_ranges value (ranges value rule) (rule_marker rule)

unfoldable pub redact_required : Text → RedactorKind → Text × Bool
redact_required value rule =
    if text_eq (redact_text value rule) value
    then (value, false)
    else (redact_text value rule, true)

unfoldable pub redact_optional : Option Text → RedactorKind → Option Text × Bool
redact_optional none rule = (none, false)
redact_optional (some value) rule =
    let (redacted, changed) = redact_required value rule in (some redacted, changed)

-- `join("\n")` of the lines' texts.
unfoldable pub joined : List ContentSnapshotLine → Text
joined [] = []
joined (line ∷ []) = line.text
joined (line ∷ next ∷ lines) = line.text ++ (10 ∷ joined (next ∷ lines))

-- The parts of the matches that lie in the line from `start` to `end`, counted from its start.
unfoldable pub local_ranges : ℕ → ℕ → List Range → List Range
local_ranges start end [] = []
local_ranges start end ((s, e) ∷ rs) =
    let rest = local_ranges start end rs in
    if ltb s end && ltb start e then (max s start - start, min e end - start) ∷ rest else rest

unfoldable pub redact_line :
    ContentSnapshotLine → List Range → RedactorKind → ContentSnapshotLine × Bool
redact_line line local rule =
    if is_empty local
    then (line, false)
    else (record line { text = replace_ranges line.text local (rule_marker rule) }, true)

-- The loop over the lines, the next of which starts at `start` of the joined text.
unfoldable pub redact_lines_from :
    ℕ → List Range → RedactorKind → List ContentSnapshotLine → List ContentSnapshotLine × Bool
redact_lines_from start matches rule [] = ([], false)
redact_lines_from start matches rule (line ∷ lines) =
    let end = start + length line.text in
    let (line', changed) = redact_line line (local_ranges start end matches) rule in
    let (lines', rest_changed) = redact_lines_from (suc end) matches rule lines in
    (line' ∷ lines', changed || rest_changed)

unfoldable pub redact_lines :
    List ContentSnapshotLine → RedactorKind → List ContentSnapshotLine × Bool
redact_lines lines rule = redact_lines_from 0 (ranges (joined lines) rule) rule lines

unfoldable pub redact_shape : ContentSnapshotShape → RedactorKind → ContentSnapshotShape × Bool
redact_shape (ContentSnapshotShape.recognized cutoff (some lines)) rule =
    let (lines', changed) = redact_lines lines rule in
    (ContentSnapshotShape.recognized cutoff (some lines'), changed)
redact_shape (ContentSnapshotShape.recognized cutoff none) rule =
    (ContentSnapshotShape.recognized cutoff none, false)
redact_shape (ContentSnapshotShape.legacy complete) rule =
    (ContentSnapshotShape.legacy complete, false)
redact_shape (ContentSnapshotShape.current cutoff) rule =
    (ContentSnapshotShape.current cutoff, false)

unfoldable pub redact_payload : EventData → RedactorKind → EventData × Bool
redact_payload (EventData.window_title d) rule =
    let (t, changed) = redact_optional d.prev_title rule in
    (EventData.window_title (record d { prev_title = t }), changed)
redact_payload (EventData.ui_value d) rule =
    let (t, changed) = redact_optional d.text rule in
    (EventData.ui_value (record d { text = t }), changed)
redact_payload (EventData.input_key d) rule =
    let (t, changed) = redact_optional d.text rule in
    (EventData.input_key (record d { text = t }), changed)
redact_payload (EventData.clipboard_copy d) rule =
    let (t, changed) = redact_optional d.text rule in
    (EventData.clipboard_copy (record d { text = t }), changed)
redact_payload (EventData.clipboard_paste d) rule =
    let (t, changed) = redact_optional d.text rule in
    (EventData.clipboard_paste (record d { text = t }), changed)
redact_payload (EventData.content_snapshot d) rule =
    let (t, text_changed) = redact_optional d.text rule in
    let (s, lines_changed) = redact_shape d.shape rule in
    (EventData.content_snapshot (record d { text = t; shape = s }), text_changed || lines_changed)
redact_payload (EventData.browser_navigate d) rule =
    let (u, url_changed) = redact_optional d.url rule in
    let (t, title_changed) = redact_optional d.tab_title rule in
    (EventData.browser_navigate (record d { url = u; tab_title = t }), url_changed || title_changed)
redact_payload EventData.app_activate rule = (EventData.app_activate, false)
redact_payload EventData.app_launch rule = (EventData.app_launch, false)
redact_payload EventData.app_terminate rule = (EventData.app_terminate, false)
redact_payload EventData.window_focus rule = (EventData.window_focus, false)
redact_payload (EventData.ui_focus d) rule = (EventData.ui_focus d, false)
redact_payload (EventData.ui_click d) rule = (EventData.ui_click d, false)
redact_payload (EventData.input_scroll d) rule = (EventData.input_scroll d, false)

unfoldable pub redact_window : Option Window → RedactorKind → Option Window × Bool
redact_window none rule = (none, false)
redact_window (some w) rule =
    let (t, changed) = redact_optional w.title rule in (some (record w { title = t }), changed)

unfoldable pub redact_element : Option Element → RedactorKind → Option Element × Bool
redact_element none rule = (none, false)
redact_element (some e) rule =
    let (t, title_changed) = redact_optional e.title rule in
    let (v, value_changed) = redact_optional e.value rule in
    (some (record e { title = t; value = v }), title_changed || value_changed)

unfoldable pub apply_rule_to_event : Event → RedactorKind → Event × Bool
apply_rule_to_event event rule = (
  record event {
    app = record event.app { name = (redact_required event.app.name rule).0 };
    window = (redact_window event.window rule).0;
    element = (redact_element event.element rule).0;
    payload = (redact_payload event.payload rule).0;
  },
  (redact_required event.app.name rule).1
      || (redact_window event.window rule).1
      || (redact_element event.element rule).1
      || (redact_payload event.payload rule).1,
)

abbrev pub kind_eq : RedactorKind → RedactorKind → Bool
kind_eq email email = true
kind_eq credit_card credit_card = true
kind_eq token token = true
kind_eq _ _ = false

abbrev pub note_fired : RedactorKind → Bool → List Text → List Text
note_fired rule changed fired =
    if changed && not (has_rule (rule_name rule) fired)
    then fired ++ (rule_name rule ∷ [])
    else fired

-- The loop over the configured rules: `seen` are the rules that were applied, `fired` their names.
unfoldable pub redact_with :
    Event → List RedactorKind → List Text → List RedactorKind → Event × List Text
redact_with event seen fired [] = (event, fired)
redact_with event seen fired (rule ∷ rules) = elim (any (kind_eq rule) seen) [
  | true ↦ redact_with event seen fired rules
  | false ↦
      let (event', changed) = apply_rule_to_event event rule in
      redact_with event' (rule ∷ seen) (note_fired rule changed fired) rules
]

unfoldable pub redact_event : Event → List RedactorKind → Event
redact_event event configured_rules =
    let (event', fired) = redact_with event [] event.redaction.rules configured_rules in
    record event' {
      redaction = record {
        applied = event.redaction.applied || not (is_empty fired);
        rules = fired;
      };
    }
