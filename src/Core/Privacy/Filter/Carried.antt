-- ===== src/Core/Privacy/Filter/Carried.antt =====
-- What the redactors and the size limits, which the filter applies to an event that it admits,
-- leave alone: the type of the event, and the absence of text.
use zanei.Prelude.{
  ℕ, ◌≡◌, refl, Option, none, some, List, [], ◌∷◌, Text, Bool-cases, inl, inr, any, if_rule,
}
use zanei.Core.Config.{RedactorKind}
use zanei.Core.Schema.{Event, Redaction, Element, EventData, ContentSnapshotLine, mark_truncated}
use zanei.Core.Limits.{
  enforce_size_limits, limit_fields, exceeds_limits, limit_element, limit_payload, drop_oversized,
}
use zanei.Core.Privacy.Redactor.{
  apply_rule_to_event, redact_element, redact_payload, redact_optional, redact_with, redact_event,
  kind_eq, note_fired,
}
use zanei.Core.Privacy.Filter.{suppress_text_content, suppress_element, suppress_payload}

-- A property of events that neither one redactor nor a new redaction mark breaks.
pub record IsCarried (P : Event → Type 0) : Type 0 where
  pub by_rule : (e : Event) (rule : RedactorKind) → P e → P (apply_rule_to_event e rule).0
  pub by_mark : (e : Event) (r : Redaction) → P e → P (record e { redaction = r })

redact_with-IsCarried :
    {P : Event → Type 0} (c : IsCarried P) (e : Event) (seen : List RedactorKind)
    (fired : List Text) (rules : List RedactorKind)
    → P e
    → P (redact_with e seen fired rules).0
unfolding redact_with
redact_with-IsCarried c e seen fired [] h = h
redact_with-IsCarried {P} c e seen fired (rule ∷ rules) h =
    elim (Bool-cases (any (kind_eq rule) seen)) [
      | inl old ↦ rw (old, redact_with) (redact_with-IsCarried c e seen fired rules h)
      | inr new ↦
          rw (new, redact_with)
            (redact_with-IsCarried {P = P} c (apply_rule_to_event e rule).0 (rule ∷ seen)
              (note_fired rule (apply_rule_to_event e rule).1 fired) rules (c.by_rule e rule h))
    ]

-- The redactors keep what they carry.
pub redact_event-IsCarried :
    {P : Event → Type 0} (c : IsCarried P) (e : Event) (rules : List RedactorKind)
    → P e
    → P (redact_event e rules)
unfolding redact_event
redact_event-IsCarried c e rules h =
    c.by_mark _ _ (redact_with-IsCarried c e [] e.redaction.rules rules h)

abbrev pub HasType : Text → Event → Type 0
HasType t e = e.event_type ≡ t

pub HasType-IsCarried : (t : Text) → IsCarried (HasType t)
unfolding apply_rule_to_event
HasType-IsCarried t = record { by_rule = λ e rule h. h; by_mark = λ e r h. h }

-- No text body: of typed, entered, copied or pasted text, or of the element's value.
abbrev pub NoElementValue : Option Element → Type 0
NoElementValue none = Unit
NoElementValue (some e) = e.value ≡ none

abbrev pub NoPayloadText : EventData → Type 0
NoPayloadText (EventData.input_key d) = d.text ≡ none
NoPayloadText (EventData.ui_value d) = d.text ≡ none
NoPayloadText (EventData.clipboard_copy d) = (d.text ≡ none) × (d.size_bytes ≡ none)
NoPayloadText (EventData.clipboard_paste d) = (d.text ≡ none) × (d.size_bytes ≡ none)
NoPayloadText d = Unit

pub record NoText (e : Event) : Type 0 where
  pub element : NoElementValue e.element
  pub payload : NoPayloadText e.payload

redact_none : (o : Option Text) (rule : RedactorKind) → o ≡ none → (redact_optional o rule).0 ≡ none
unfolding redact_optional
redact_none none rule h = refl
redact_none (some t) rule h = cc

redact_element-NoElementValue :
    (e : Option Element) (rule : RedactorKind)
    → NoElementValue e
    → NoElementValue (redact_element e rule).0
unfolding redact_element
redact_element-NoElementValue none rule h = tt
redact_element-NoElementValue (some e) rule h = redact_none e.value rule h

redact_payload-NoPayloadText :
    (d : EventData) (rule : RedactorKind)
    → NoPayloadText d
    → NoPayloadText (redact_payload d rule).0
unfolding redact_payload
redact_payload-NoPayloadText (EventData.input_key d) rule h = redact_none d.text rule h
redact_payload-NoPayloadText (EventData.ui_value d) rule h = redact_none d.text rule h
redact_payload-NoPayloadText (EventData.clipboard_copy d) rule h =
    (redact_none d.text rule h.0, h.1)
redact_payload-NoPayloadText (EventData.clipboard_paste d) rule h =
    (redact_none d.text rule h.0, h.1)
redact_payload-NoPayloadText _ rule h = tt

pub NoText-IsCarried : IsCarried NoText
unfolding apply_rule_to_event
NoText-IsCarried = record {
  by_rule = λ e rule h. record {
    element = redact_element-NoElementValue e.element rule h.element;
    payload = redact_payload-NoPayloadText e.payload rule h.payload;
  };
  by_mark = λ e r h. record { element = h.element; payload = h.payload };
}

module _ (lines_bytes : List ContentSnapshotLine → ℕ) where
  drop_none : (o : Option Text) (n : ℕ) → o ≡ none → (drop_oversized o n).0 ≡ none
  unfolding drop_oversized
  drop_none none n h = refl
  drop_none (some t) n h = cc

  limit_element-NoElementValue :
      (e : Option Element) → NoElementValue e → NoElementValue (limit_element lines_bytes e).0
  unfolding limit_element
  limit_element-NoElementValue none h = tt
  limit_element-NoElementValue (some e) h = drop_none e.value _ h

  limit_payload-NoPayloadText :
      (d : EventData) → NoPayloadText d → NoPayloadText (limit_payload lines_bytes d).0
  unfolding limit_payload
  limit_payload-NoPayloadText (EventData.input_key d) h = drop_none d.text _ h
  limit_payload-NoPayloadText (EventData.ui_value d) h = drop_none d.text _ h
  limit_payload-NoPayloadText (EventData.clipboard_copy d) h = (drop_none d.text _ h.0, h.1)
  limit_payload-NoPayloadText (EventData.clipboard_paste d) h = (drop_none d.text _ h.0, h.1)
  limit_payload-NoPayloadText _ h = tt

  pub enforce_size_limits-NoText :
      (e : Event) → NoText e → NoText (enforce_size_limits lines_bytes e)
  unfolding enforce_size_limits limit_fields mark_truncated
  enforce_size_limits-NoText e h =
      if_rule NoText (exceeds_limits lines_bytes e) (mark_truncated (limit_fields lines_bytes e))
        (limit_fields lines_bytes e) (λ _. record { element = el; payload = p })
        (λ _. record { element = el; payload = p })
    where
      el : NoElementValue (limit_element lines_bytes e.element).0
      el = limit_element-NoElementValue e.element h.element

      p : NoPayloadText (limit_payload lines_bytes e.payload).0
      p = limit_payload-NoPayloadText e.payload h.payload

  pub enforce_size_limits-HasType :
      (t : Text) (e : Event) → HasType t e → HasType t (enforce_size_limits lines_bytes e)
  unfolding enforce_size_limits limit_fields mark_truncated
  enforce_size_limits-HasType t e h =
      if_rule (HasType t) (exceeds_limits lines_bytes e)
        (mark_truncated (limit_fields lines_bytes e)) (limit_fields lines_bytes e) (λ _. h) (λ _. h)

pub suppress_element-NoElementValue : (e : Option Element) → NoElementValue (suppress_element e)
unfolding suppress_element
suppress_element-NoElementValue none = tt
suppress_element-NoElementValue (some e) = refl

pub suppress_payload-NoPayloadText : (d : EventData) → NoPayloadText (suppress_payload d)
unfolding suppress_payload
suppress_payload-NoPayloadText (EventData.input_key d) = refl
suppress_payload-NoPayloadText (EventData.ui_value d) = refl
suppress_payload-NoPayloadText (EventData.clipboard_copy d) = (refl, refl)
suppress_payload-NoPayloadText (EventData.clipboard_paste d) = (refl, refl)
suppress_payload-NoPayloadText _ = tt

pub suppress_text_content-NoText : (e : Event) → NoText (suppress_text_content e)
unfolding suppress_text_content
suppress_text_content-NoText e = record {
  element = suppress_element-NoElementValue e.element;
  payload = suppress_payload-NoPayloadText e.payload;
}
