-- ===== src/Core/Normalizer.antt =====
-- crates/zanei-core/src/normalize.rs: the coalescing of raw events.
-- Parameters: `to_lowercase` and the f64 addition of the standard library, the JSON size of an
-- event, which is none when serde refuses the event, and the size of a snapshot's lines.
-- A `Stamp` is what the wall clock and the ulid crate give for an event.
pub mod State
pub mod Keys
pub mod Counts
pub mod Conservation
pub mod Pushes
pub mod Runs
use zanei.Prelude.{
  ℕ, ◌+◌, ◌-◌, ◌*◌, Bool, true, false, not, ◌&&◌, ◌||◌, Option, none, some, List, [], ◌∷◌, ◌++◌,
  map, Text, text, leb, ltb, if◌then◌else◌, length, len, checked_add, saturating_add,
}
use zanei.Core.Schema.{
  App, Window, Element, Redaction, Event, EventData, CaptureContext, CaptureSurface,
  ContentSnapshotLine, InputKeyData, InputScrollData, is_truncated,
}
use zanei.Core.Limits.{enforce_size_limits}
use zanei.Core.Privacy.Filter.{PolicySelectors, selectors_of}
use zanei.Core.Normalizer.Keys.{PendingKind, kind_eq, window_ns, pending_kind, event_schema_version}
use zanei.Core.Normalizer.State.{
  max_pending_events, max_pending_bytes, NormalizeError, NormalizedEvent, RawEvent, Stamp, Pending,
  Normalizer, Result, insert_event, sort_events, is_expired, expired, retained, drained, flush,
  append_text, with_payload, opt_len, surface_bytes, window_title, retained_bytes, goes_back,
  or_zero, over_limits, finish_push, accept, monotonic_regression, count_overflow,
  scroll_amount_overflow, wall_clock_out_of_range, event_contract, ok, err,
}

module _ (lowercase : Text → Text) (add_f64 : ℕ → ℕ → ℕ) (is_finite : ℕ → Bool)
    (json_bytes : Event → Option ℕ) (lines_bytes : List ContentSnapshotLine → ℕ) where
  -- `NormalizedEvent::new`.
  unfoldable pub new : Event → CaptureContext → NormalizedEvent
  new event context = record {
    event = enforce_size_limits lines_bytes event;
    capture_context = context;
    selectors = selectors_of event context;
  }

  abbrev pub stamped : RawEvent → Stamp → ℕ → ℕ → NormalizedEvent
  stamped raw stamp mono_ns version =
      new
        (record {
          version = version;
          id = text "evt_" ++ stamp.id;
          ts = stamp.ts;
          mono_ns = mono_ns;
          source = raw.source;
          event_type = raw.event_type;
          app = raw.app;
          window = raw.window;
          element = raw.element;
          payload = raw.payload;
          redaction = record { applied = false; rules = [] };
        })
        raw.capture_context

  unfoldable pub normalize : RawEvent → Stamp → ℕ → Result NormalizedEvent
  normalize raw stamp mono_ns =
      if not stamp.in_range
      then err wall_clock_out_of_range
      else elim (event_schema_version raw.event_type) [
        | none ↦ err event_contract
        | some version ↦ let e = stamped raw stamp mono_ns version in accept e (json_bytes e.event)
      ]

  -- The end of `merge`: the size limits and the time of the last event.
  abbrev pub merged : Pending → ℕ → Pending × Option NormalizeError
  merged p incoming_mono_ns = (
    record p {
      event = record p.event { event = enforce_size_limits lines_bytes p.event.event };
      last_mono_ns = incoming_mono_ns;
    },
    none,
  )

  unfoldable pub merge_keys :
      Pending → ℕ → InputKeyData → InputKeyData → Option ℕ → Pending × Option NormalizeError
  merge_keys p mono current next none = (p, some count_overflow)
  merge_keys p mono current next (some count) =
      merged
        (with_payload p (
          EventData.input_key (record current {
            count = count;
            text = append_text (is_truncated p.event.event) current.text next.text;
          })))
        mono

  unfoldable pub merge_scrolls :
      Pending → ℕ → InputScrollData → InputScrollData → Option ℕ → Pending × Option NormalizeError
  merge_scrolls p mono current next none = (p, some count_overflow)
  merge_scrolls p mono current next (some count) =
      let amount = add_f64 current.amount next.amount in
      let p' =
        with_payload p
          (EventData.input_scroll (record current { count = count; amount = amount })) in
      if is_finite amount then merged p' mono else (p', some scroll_amount_overflow)

  -- The payloads of one kind are of one variant, so the last clause is never reached.
  unfoldable pub merge_payloads :
      Pending → NormalizedEvent → EventData → EventData → Pending × Option NormalizeError
  merge_payloads p incoming (EventData.input_key current) (EventData.input_key next) =
      merge_keys p incoming.event.mono_ns current next (checked_add current.count next.count)
  merge_payloads p incoming (EventData.input_scroll current) (EventData.input_scroll next) =
      merge_scrolls p incoming.event.mono_ns current next (checked_add current.count next.count)
  merge_payloads p incoming (EventData.window_title current) (EventData.window_title next) =
      merged (record p { event = incoming }) incoming.event.mono_ns
  merge_payloads p incoming current next = (p, none)

  unfoldable pub merge : Pending → NormalizedEvent → Pending × Option NormalizeError
  merge p incoming = merge_payloads p incoming p.event.event.payload incoming.event.payload

  -- The event joins the first pending one of its kind, or is put last.
  unfoldable pub coalesce :
      List Pending → NormalizedEvent → PendingKind → List Pending × Option NormalizeError
  coalesce [] e kind =
      (record { event = e; last_mono_ns = e.event.mono_ns; kind = kind } ∷ [], none)
  coalesce (p ∷ ps) e kind =
      let (ps', error) = coalesce ps e kind in
      let (p', p_error) = merge p e in
      if kind_eq p.kind kind then (p' ∷ ps, p_error) else (p ∷ ps', error)

  unfoldable pub pending_size : Pending → Option ℕ
  pending_size p = elim (json_bytes p.event.event) [
    | none ↦ none
    | some bytes ↦ some (
        bytes
        + 2
          * (opt_len p.event.capture_context.url
              + surface_bytes p.event.capture_context.surface
              + len p.event.event.app.name
              + opt_len p.event.event.app.bundle_id
              + opt_len (window_title p.event.event.window))
        + 2 * retained_bytes p.event.selectors)
  ]

  -- `try_fold` over the pending events.
  unfoldable pub pending_bytes : ℕ → List Pending → Option ℕ
  pending_bytes total [] = some total
  pending_bytes total (p ∷ ps) = elim (pending_size p) [
    | none ↦ none
    | some size ↦ pending_bytes (saturating_add total size) ps
  ]

  abbrev pub coalesced :
      Normalizer
      → List NormalizedEvent
      → List Pending × Option NormalizeError
      → Normalizer × Result (List NormalizedEvent)
  coalesced n emitted (ps, some e) = (record n { pending = ps }, err e)
  coalesced n emitted (ps, none) =
      finish_push (record n { pending = ps }) emitted (pending_bytes 0 ps)

  -- `push_at` from the normalized event on; `n.pending` are the pending events that have not
  -- expired.
  unfoldable pub push_event :
      Normalizer
      → List NormalizedEvent
      → NormalizedEvent
      → Option PendingKind
      → Normalizer × Result (List NormalizedEvent)
  push_event n emitted e none =
      (record n { pending = [] }, ok (sort_events (emitted ++ (drained n.pending ++ (e ∷ [])))))
  push_event n emitted e (some kind) = coalesced n emitted (coalesce n.pending e kind)

  abbrev pub push_normalized :
      Normalizer → ℕ → Result NormalizedEvent → Normalizer × Result (List NormalizedEvent)
  push_normalized n mono_ns (err e) = (n, err e)
  push_normalized n mono_ns (ok e) =
      push_event (record n { pending = retained mono_ns n.pending })
        (sort_events (expired mono_ns n.pending)) e
        (pending_kind lowercase e.event e.capture_context e.selectors)

  unfoldable pub push_at :
      Normalizer → RawEvent → Stamp → ℕ → Normalizer × Result (List NormalizedEvent)
  push_at n raw stamp mono_ns =
      if goes_back n.last_seen_mono_ns mono_ns
      then (n, err (monotonic_regression (or_zero n.last_seen_mono_ns) mono_ns))
      else push_normalized (record n { last_seen_mono_ns = some mono_ns }) mono_ns
          (normalize raw stamp mono_ns)
