-- ===== src/Core/Timeline/Sessions.antt =====
-- crates/zanei-core/src/timeline/builder.rs: how events become sessions, and sessions fewer ones.
use zanei.Prelude.{
  ℕ, ◌-◌, min, Bool, true, false, not, ◌&&◌, ◌||◌, Option, none, some, List, [], ◌∷◌, ◌++◌, reverse,
  Text, text, text_eq, to_ascii_lowercase, ltb, leb, ◌==◌, if◌then◌else◌, is_empty, first?, last?,
  saturating_add,
}
use zanei.Core.Schema.{Event}
use zanei.Core.Timeline.Model.{
  Granularity, fine, coarse, EventMetadata, MetadataSpan, TimedEvent, RawSession, idle_gap, bounce,
}

unfoldable pub app_key : Event → Text
app_key e = to_ascii_lowercase (elim e.app.bundle_id [ none ↦ e.app.name | some id ↦ id ])

-- `sort_by_key(|item| (item.at, item.event.mono_ns))`, which keeps the order of equal keys.
unfoldable pub key_le : TimedEvent → TimedEvent → Bool
key_le a b = ltb a.time b.time || (a.time == b.time && leb a.event.mono_ns b.event.mono_ns)

unfoldable pub insert_timed : TimedEvent → List TimedEvent → List TimedEvent
insert_timed e [] = e ∷ []
insert_timed e (f ∷ fs) =
    let rest = insert_timed e fs in if key_le e f then e ∷ f ∷ fs else f ∷ rest

unfoldable pub sort_timed : List TimedEvent → List TimedEvent
sort_timed [] = []
sort_timed (e ∷ es) = insert_timed e (sort_timed es)

-- `split_for_idle || split_for_activation`, between two events that follow one another.
unfoldable pub splits : TimedEvent → TimedEvent → Bool
splits previous item =
    ltb idle_gap (item.time - previous.time)
    || (text_eq item.event.event_type (text "app.activate")
        && not (text_eq (app_key previous.event) (app_key item.event)))

abbrev pub splits_after : Option TimedEvent → TimedEvent → Bool
splits_after none item = false
splits_after (some previous) item = splits previous item

abbrev pub raw_session : List TimedEvent → RawSession
raw_session events = record { events = events; content_snapshots = 0; metadata_span = none }

-- The loop of `split_sessions`, with the events of `current`.
unfoldable pub split_from : List TimedEvent → List TimedEvent → List RawSession
split_from current [] = if is_empty current then [] else raw_session current ∷ []
split_from current (item ∷ items) = elim (splits_after (last? current) item) [
  | true ↦ raw_session current ∷ split_from (item ∷ []) items
  | false ↦ split_from (current ++ (item ∷ [])) items
]

unfoldable pub split_sessions : List TimedEvent → List RawSession
split_sessions events = split_from [] events

-- The methods of `RawSession`.
unfoldable pub from_snapshot : EventMetadata → ℕ → RawSession
from_snapshot metadata at_ns = record {
  events = [];
  content_snapshots = 1;
  metadata_span = some (record {
    app_name = metadata.app_name;
    bundle_id = metadata.bundle_id;
    start = metadata.ts;
    start_at = at_ns;
    end = metadata.ts;
    end_at = at_ns;
  });
}

abbrev pub start_of : Option TimedEvent → Option MetadataSpan → Option ℕ
start_of (some e) (some span) = some (min e.time span.start_at)
start_of (some e) none = some e.time
start_of none (some span) = some span.start_at
start_of none none = none

unfoldable pub start_at : RawSession → Option ℕ
start_at s = start_of (first? s.events) s.metadata_span

abbrev span_bundle : Option MetadataSpan → Option Text
span_bundle none = none
span_bundle (some span) = span.bundle_id

abbrev span_app : Option MetadataSpan → Option Text
span_app none = none
span_app (some span) = some span.app_name

unfoldable pub app_name : RawSession → Option Text
app_name s = elim (first? s.events) [
  | none ↦ span_app s.metadata_span
  | some e ↦ some e.event.app.name
]

unfoldable pub bundle_id : RawSession → Option Text
bundle_id s = elim (first? s.events) [
  | none ↦ span_bundle s.metadata_span
  | some e ↦ e.event.app.bundle_id
]

abbrev span_key : Option MetadataSpan → Text
span_key none = []
span_key (some span) =
    to_ascii_lowercase (elim span.bundle_id [ none ↦ span.app_name | some id ↦ id ])

unfoldable pub primary_app_key : RawSession → Text
primary_app_key s = elim (first? s.events) [
  | none ↦ span_key s.metadata_span
  | some e ↦ app_key e.event
]

-- `session_residence(session, next)`: two sessions without a start are 0 apart.
abbrev pub between : Option ℕ → Option ℕ → ℕ
between (some start) (some next) = next - start
between _ _ = 0

unfoldable pub session_residence : RawSession → RawSession → ℕ
session_residence session next = between (start_at session) (start_at next)

-- The five reasons to stop in `absorb_bounces`, negated.
unfoldable pub is_bounce : RawSession → RawSession → RawSession → Bool
is_bounce leading middle last = not (
    is_empty leading.events
    || is_empty middle.events
    || is_empty last.events
    || not (text_eq (primary_app_key leading) (primary_app_key last))
    || leb bounce (session_residence middle last))

unfoldable pub absorbed : RawSession → RawSession → RawSession → RawSession
absorbed leading middle last = record {
  events = (leading.events ++ middle.events) ++ last.events;
  content_snapshots =
      saturating_add (saturating_add leading.content_snapshots middle.content_snapshots)
        last.content_snapshots;
  metadata_span = none;
}

-- The inner loop of `absorb_bounces`: the last session, and those before it from the last on.
unfoldable pub collapse : RawSession → List RawSession → List RawSession
collapse last [] = last ∷ []
collapse last (middle ∷ []) = last ∷ middle ∷ []
collapse last (middle ∷ leading ∷ rest) = elim (is_bounce leading middle last) [
  | true ↦ collapse (absorbed leading middle last) rest
  | false ↦ last ∷ middle ∷ leading ∷ rest
]

-- The outer loop, with its output reversed.
unfoldable pub absorb_from : List RawSession → List RawSession → List RawSession
absorb_from output [] = reverse output
absorb_from output (s ∷ ss) = absorb_from (collapse s output) ss

unfoldable pub absorb_bounces : List RawSession → List RawSession
absorb_bounces sessions = absorb_from [] sessions

unfoldable pub sessions_for_granularity : List RawSession → Granularity → List RawSession
sessions_for_granularity sessions fine = sessions
sessions_for_granularity sessions coarse = absorb_bounces sessions

unfoldable pub merge_metadata_spans :
    Option MetadataSpan → Option MetadataSpan → Option MetadataSpan
merge_metadata_spans none right = right
merge_metadata_spans (some left) none = some left
merge_metadata_spans (some left) (some right) =
    let starts = ltb right.start_at left.start_at in
    let ends = ltb left.end_at right.end_at in
    some (record left {
      start = if starts then right.start else left.start;
      start_at = if starts then right.start_at else left.start_at;
      end = if ends then right.end else left.end;
      end_at = if ends then right.end_at else left.end_at;
    })

unfoldable pub merged : RawSession → RawSession → RawSession
merged previous session = record {
  events = previous.events ++ session.events;
  content_snapshots = saturating_add previous.content_snapshots session.content_snapshots;
  metadata_span = merge_metadata_spans previous.metadata_span session.metadata_span;
}

-- The loop of `merge_adjacent_same_app`, with the last session of its output.
unfoldable pub merge_from : RawSession → List RawSession → List RawSession
merge_from previous [] = previous ∷ []
merge_from previous (s ∷ ss) = elim (text_eq (primary_app_key previous) (primary_app_key s)) [
  | true ↦ merge_from (merged previous s) ss
  | false ↦ previous ∷ merge_from s ss
]

unfoldable pub merge_adjacent_same_app : List RawSession → List RawSession
merge_adjacent_same_app [] = []
merge_adjacent_same_app (s ∷ ss) = merge_from s ss
