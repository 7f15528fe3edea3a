-- ===== src/Examples/Events.antt =====
-- normalize/limits.rs at a concrete event.
use zanei.Prelude.{len, arith, arith, ℕ, ◌+◌, ◌*◌, false, none, some, List, [], text, length}
use zanei.Core.Schema.{Event, EventData, ContentSnapshotLine}
use zanei.Core.Limits.{enforce_size_limits}
use zanei.Core.Limits.Bounds.{IsBounded, enforce_size_limits-IsBounded}

abbrev bytes : List ContentSnapshotLine → ℕ
bytes lines = 2 + 60 * length lines

abbrev pasted : Event
pasted = record {
  version = 1;
  id = text "01";
  ts = text "2026-01-01T00:00:00Z";
  mono_ns = 5;
  source = text "eventtap";
  event_type = text "window.title";
  app = record { name = text "Notes"; bundle_id = none; pid = none };
  window = some (record { title = some (text "Shopping"); id = some 3 });
  element = none;
  payload = EventData.window_title (record { prev_title = none });
  redaction = record { applied = false; rules = [] };
}

pasted-IsBounded : IsBounded bytes pasted
unfolding len
pasted-IsBounded = record { window = omega arith; element = tt; payload = tt }

enforce_size_limits-IsBounded_example : IsBounded bytes (enforce_size_limits bytes pasted)
enforce_size_limits-IsBounded_example = enforce_size_limits-IsBounded bytes pasted
