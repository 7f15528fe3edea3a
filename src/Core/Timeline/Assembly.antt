-- ===== src/Core/Timeline/Assembly.antt =====
-- crates/zanei-core/src/timeline/builder.rs: what a session shows of its events.
use zanei.Prelude.{
  ℕ, ◌+◌, ◌-◌, max, false, Option, none, some, List, [], ◌∷◌, map, Text, text_eq, leb, ltb,
  if◌then◌else◌, is_empty, take, length, first?, last?,
}
use zanei.Prelude.Maps.{TextMap}
use zanei.Prelude.Ordered.{entry_add, max_key}
use zanei.Core.Schema.{Event, EventData}
use zanei.Core.Timeline.Model.{
  Granularity, fine, coarse, TimelineFormat, markdown, json, TimelineOptions, Timeline, Session,
  Interaction, TimedEvent, MetadataSpan, RawSession, max_event_ids,
}
use zanei.Core.Timeline.Sessions.{app_name}
use zanei.Core.Timeline.Activity.{summarize, describe, window_title}

abbrev add : ℕ → ℕ → ℕ
add a b = a + b

-- Each event holds its app until the next one, and for a nanosecond at least.
unfoldable pub app_dwell : TextMap ℕ → List TimedEvent → TextMap ℕ
app_dwell dwell [] = dwell
app_dwell dwell (e ∷ []) = entry_add add e.event.app.name 1 dwell
app_dwell dwell (e ∷ f ∷ es) =
    app_dwell (entry_add add e.event.app.name (max (f.time - e.time) 1) dwell) (f ∷ es)

abbrev or_empty : Option Text → Text
or_empty none = []
or_empty (some t) = t

unfoldable pub dominant_app : RawSession → Text
dominant_app s =
    if is_empty s.events then or_empty (app_name s) else or_empty (max_key (app_dwell [] s.events))

abbrev title_of_data : Event → EventData → Option Text
title_of_data e (EventData.window_title d) = window_title e.window
title_of_data e (EventData.browser_navigate d) = d.tab_title
title_of_data e _ = none

unfoldable pub title_at : Event → Option Text
title_at e = title_of_data e e.payload

abbrev pub Current : Type 0
Current = Option (Text × ℕ)

-- A title that follows itself goes on; another one ends it.
abbrev next_title : Option Text → ℕ → Current → TextMap ℕ → Current × TextMap ℕ
next_title none now current dwell = (current, dwell)
next_title (some title) now none dwell = (some (title, now), dwell)
next_title (some title) now (some (active, since)) dwell =
    if text_eq active title
    then (some (active, since), dwell)
    else (some (title, now), entry_add add active (max (now - since) 1) dwell)

unfoldable pub title_dwell : Current → TextMap ℕ → List TimedEvent → Current × TextMap ℕ
title_dwell current dwell [] = (current, dwell)
title_dwell current dwell (e ∷ es) =
    let (current', dwell') = next_title (title_at e.event) e.time current dwell in
    title_dwell current' dwell' es

abbrev time_or : ℕ → Option TimedEvent → ℕ
time_or t none = t
time_or t (some e) = e.time

abbrev close_title : Option TimedEvent → Current × TextMap ℕ → TextMap ℕ
close_title last (none, dwell) = dwell
close_title last (some (active, since), dwell) =
    entry_add add active (max (time_or since last - since) 1) dwell

unfoldable pub longest_title : RawSession → Option Text
longest_title s = max_key (close_title (last? s.events) (title_dwell none [] s.events))

abbrev start_text : Option TimedEvent → Option MetadataSpan → Text
start_text (some e) (some span) = if leb e.time span.start_at then e.event.ts else span.start
start_text none (some span) = span.start
start_text (some e) none = e.event.ts
start_text none none = []

unfoldable pub start_timestamp : RawSession → Text
start_timestamp s = start_text (first? s.events) s.metadata_span

abbrev end_text : Option TimedEvent → Option MetadataSpan → Text
end_text (some e) (some span) = if leb span.end_at e.time then e.event.ts else span.end
end_text none (some span) = span.end
end_text (some e) none = e.event.ts
end_text none none = []

unfoldable pub end_timestamp : RawSession → Text
end_timestamp s = end_text (last? s.events) s.metadata_span

abbrev when_json : TimelineFormat → List Text → Option (List Text)
when_json json ids = some ids
when_json markdown ids = none

abbrev when_fine : Granularity → List Interaction → Option (List Interaction)
when_fine fine xs = some xs
when_fine coarse xs = none

abbrev interaction : TimedEvent → Interaction
interaction e = record { ts = e.event.ts; activity = describe e.event }

unfoldable pub build_session : Granularity → TimelineFormat → RawSession → Session
build_session granularity format raw =
    let app = dominant_app raw in
    record {
      start = start_timestamp raw;
      end = end_timestamp raw;
      app = app;
      title_summary = longest_title raw;
      activities =
          if is_empty raw.events then [] else summarize (map (λ e. e.event) raw.events) app;
      content_snapshots = raw.content_snapshots;
      event_ids = when_json format (take max_event_ids (map (λ e. e.event.id) raw.events));
      event_ids_truncated = ltb max_event_ids (length raw.events);
      interactions = when_fine granularity (map interaction raw.events);
    }

unfoldable pub assemble : List RawSession → TimelineOptions → Granularity → Timeline
assemble raw_sessions options granularity = record {
  range = options.range;
  token_estimate = 0;
  truncated = false;
  sessions = map (build_session granularity options.format) raw_sessions;
}
