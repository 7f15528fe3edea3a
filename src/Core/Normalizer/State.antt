-- ===== src/Core/Normalizer/State.antt =====
-- crates/zanei-core/src/normalize.rs: the state of the normalizer, and the lists of its pending
-- and emitted events.
use zanei.Prelude.{
  ℕ, ◌+◌, ◌-◌, ◌*◌, Bool, true, false, ◌||◌, Option, none, some, List, [], ◌∷◌, ◌++◌, map, Text,
  leb, ltb, if◌then◌else◌, length, len,
}
use zanei.Core.Schema.{App, Window, Element, Event, EventData, CaptureContext, CaptureSurface}
use zanei.Core.Privacy.Filter.{PolicySelectors}
use zanei.Core.Normalizer.Keys.{PendingKind, window_ns}

abbrev pub max_pending_events : ℕ
max_pending_events = 512

abbrev pub max_pending_bytes : ℕ
max_pending_bytes = 4 * 1024 * 1024

pub data NormalizeError : Type 0 where
  monotonic_regression : ℕ → ℕ → NormalizeError
  count_overflow scroll_amount_overflow wall_clock_out_of_range event_contract : NormalizeError

pub record NormalizedEvent : Type 0 where
  pub event : Event
  pub capture_context : CaptureContext
  pub selectors : PolicySelectors

pub record RawEvent : Type 0 where
  pub observed_at : Option ℕ
  pub source : Text
  pub event_type : Text
  pub app : App
  pub window : Option Window
  pub element : Option Element
  pub payload : EventData
  pub capture_context : CaptureContext

pub record Stamp : Type 0 where
  pub in_range : Bool
  pub id : Text
  pub ts : Text

pub record Pending : Type 0 where
  pub event : NormalizedEvent
  pub last_mono_ns : ℕ
  pub kind : PendingKind

pub record Normalizer : Type 0 where
  pub last_seen_mono_ns : Option ℕ
  pub pending : List Pending

pub data Result (A : Type 0) : Type 0 where
  ok : A → Result A
  err : NormalizeError → Result A

-- `sort_by_key(|item| item.event.mono_ns)`, which keeps the order of equal keys.
unfoldable pub insert_event : NormalizedEvent → List NormalizedEvent → List NormalizedEvent
insert_event e [] = e ∷ []
insert_event e (f ∷ fs) =
    let rest = insert_event e fs in
    if leb e.event.mono_ns f.event.mono_ns then e ∷ f ∷ fs else f ∷ rest

unfoldable pub sort_events : List NormalizedEvent → List NormalizedEvent
sort_events [] = []
sort_events (e ∷ es) = insert_event e (sort_events es)

unfoldable pub is_expired : ℕ → Pending → Bool
is_expired now p = ltb (window_ns p.kind) (now - p.last_mono_ns)

unfoldable pub expired : ℕ → List Pending → List NormalizedEvent
expired now [] = []
expired now (p ∷ ps) =
    let rest = expired now ps in if is_expired now p then p.event ∷ rest else rest

unfoldable pub retained : ℕ → List Pending → List Pending
retained now [] = []
retained now (p ∷ ps) = let rest = retained now ps in if is_expired now p then rest else p ∷ rest

-- `drain_pending`.
unfoldable pub drained : List Pending → List NormalizedEvent
drained ps = sort_events (map (λ p. p.event) ps)

unfoldable pub flush : Normalizer → Normalizer × List NormalizedEvent
flush n = (record n { pending = [] }, drained n.pending)

abbrev pub append_text : Bool → Option Text → Option Text → Option Text
append_text true current next = current
append_text false current none = current
append_text false none (some next) = some next
append_text false (some current) (some next) = some (current ++ next)

abbrev pub with_payload : Pending → EventData → Pending
with_payload p d = record p {
  event = record p.event { event = record p.event.event { payload = d } };
}

abbrev pub opt_len : Option Text → ℕ
opt_len none = 0
opt_len (some t) = len t

unfoldable pub surface_bytes : Option CaptureSurface → ℕ
surface_bytes none = 0
surface_bytes (some s) = opt_len s.applescript_window_id + opt_len s.tab_id

abbrev pub window_title : Option Window → Option Text
window_title none = none
window_title (some w) = w.title

unfoldable pub retained_bytes : PolicySelectors → ℕ
retained_bytes s = len s.app.name + opt_len s.app.bundle_id + opt_len s.title + opt_len s.url

abbrev pub goes_back : Option ℕ → ℕ → Bool
goes_back none mono_ns = false
goes_back (some previous) mono_ns = ltb mono_ns previous

abbrev pub or_zero : Option ℕ → ℕ
or_zero none = 0
or_zero (some n) = n

unfoldable pub over_limits : List Pending → ℕ → Bool
over_limits ps bytes = leb max_pending_events (length ps) || leb max_pending_bytes bytes

unfoldable pub finish_push :
    Normalizer → List NormalizedEvent → Option ℕ → Normalizer × Result (List NormalizedEvent)
finish_push n emitted none = (n, err event_contract)
finish_push n emitted (some bytes) =
    if over_limits n.pending bytes
    then (record n { pending = [] }, ok (sort_events (emitted ++ drained n.pending)))
    else (n, ok (sort_events emitted))

abbrev pub accept : NormalizedEvent → Option ℕ → Result NormalizedEvent
accept e none = err event_contract
accept e (some n) = ok e
