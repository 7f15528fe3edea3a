-- ===== src/Examples/Coalescing.antt =====
-- The normalizer at concrete events.
use zanei.Prelude.{
  ℕ, ◌+◌, ◌*◌, ◌≡◌, refl, Bool, true, Option, none, some, List, [], Text, text, text_eq, len,
  length, to_ascii_lowercase, saturating_add,
}
use zanei.Core.Schema.{
  Event, EventData, ContentSnapshotLine, InputKeyKind, is_truncated, has_rule, mark_truncated,
}
use zanei.Core.Normalizer.{
  push_at, normalize, push_event, new, pending_bytes, pending_size, coalesce,
}
use zanei.Core.Normalizer.State.{
  Normalizer, RawEvent, Stamp, NormalizedEvent, Result, ok, over_limits, finish_push,
  retained_bytes, surface_bytes, sort_events, expired, retained, drained, is_expired, insert_event,
}
use zanei.Core.Normalizer.Keys.{
  event_schema_version, pending_kind, payload_kind, window_key, kind_eq, window_ns,
}
use zanei.Core.Privacy.Filter.{selectors_of}
use zanei.Core.Privacy.Matcher.{app_key}
use zanei.Core.Limits.{
  enforce_size_limits, drop_oversized, drop_oversized_lines, exceeds_limits, limit_element,
  limit_fields, limit_payload, limit_window,
}
use zanei.Core.Normalizer.Counts.{count_of, pending_total, total}
use zanei.Core.Normalizer.Runs.{Settled, push_at-Settled, Fed, Fed-total}

abbrev bytes : List ContentSnapshotLine → ℕ
bytes lines = 2 + 60 * length lines

abbrev json : Event → Option ℕ
json e = some 300

abbrev add : ℕ → ℕ → ℕ
add a b = a + b

abbrev finite : ℕ → Bool
finite a = true

abbrev push : Normalizer → RawEvent → ℕ → Normalizer × Result (List NormalizedEvent)
push n raw mono_ns =
    push_at to_ascii_lowercase add finite json bytes n raw
      (record { in_range = true; id = text "01"; ts = text "t" }) mono_ns

abbrev stamp : Stamp
stamp = record { in_range = true; id = text "01"; ts = text "t" }

abbrev keys : ℕ → Text → RawEvent
keys count typed = record {
  observed_at = none;
  source = text "macos.eventtap";
  event_type = text "input.key";
  app = record { name = text "Notes"; bundle_id = none; pid = none };
  window = none;
  element = none;
  payload = EventData.input_key (record {
    kind = InputKeyKind.text_key;
    modifiers = [];
    count = count;
    combo = none;
    text = some typed;
    field_kind = none;
  });
  capture_context = record { url = none; surface = none };
}

abbrev empty : Normalizer
empty = record { last_seen_mono_ns = none; pending = [] }

abbrev one : Normalizer
one = (push empty (keys 2 (text "he")) 10).0

push_at-Settled_example : Settled (push one (keys 3 (text "llo")) 20)
push_at-Settled_example =
    push_at-Settled to_ascii_lowercase add finite json bytes one (keys 3 (text "llo")) stamp 20

pushed_one : push empty (keys 2 (text "he")) 10 ≡ (one, ok [])
unfolding push_at normalize event_schema_version text_eq push_event pending_kind is_truncated
    has_rule new enforce_size_limits len payload_kind over_limits drop_oversized
    drop_oversized_lines exceeds_limits limit_element limit_fields limit_payload limit_window
    saturating_add finish_push pending_bytes pending_size retained_bytes surface_bytes coalesce
    sort_events expired retained drained mark_truncated app_key window_key selectors_of
    to_ascii_lowercase kind_eq window_ns is_expired insert_event
pushed_one = refl

Fed-total_example : (0 + 0) + pending_total one.pending ≡ 0 + count_of (keys 2 (text "he")).payload
unfolding push_at total
Fed-total_example =
    Fed-total to_ascii_lowercase add finite json bytes
      (Fed.push (keys 2 (text "he")) stamp 10 Fed.fresh pushed_one)
