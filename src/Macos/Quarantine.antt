-- ===== src/Macos/Quarantine.antt =====
-- crates/zanei-macos/src/text_capture/quarantine.rs: the bodies that wait for an observation of
-- their browser window.
-- The observer is the list of the observations that are requested, in their order. An `Instant` is
-- a number of nanoseconds.
pub mod Parts
pub mod Released
pub mod Runs
use zanei.Prelude.{
  ℕ, ◌+◌, ◌*◌, Bool, true, false, not, ◌&&◌, ◌||◌, Option, none, some, List, [], ◌∷◌, ◌++◌, Text,
  ltb, leb, ◌==◌, if◌then◌else◌,
}
use zanei.Core.Schema.{Window}
use zanei.Core.Privacy.CapturePolicy.{Url}
use zanei.Core.Privacy.Filter.{PrivacyScope, suppress_payload, suppress_element}
use zanei.Core.Normalizer.State.{RawEvent, window_title}
use zanei.Macos.CapturePolicy.{CapturePolicy, CaptureDecision, decision}

abbrev pub confirmation_safety_cap : ℕ
confirmation_safety_cap = 2 * 1000000000

pub record ChromeWindowKey : Type 0 where
  pub pid : ℕ
  pub window_id : ℕ

pub data HeldBodyKind : Type 0 where
  text_body : HeldBodyKind
  snapshot_body : ℕ → HeldBodyKind

pub record ReleasedEvent : Type 0 where
  pub event : RawEvent
  pub snapshot_hash : Option (ChromeWindowKey × ℕ)

pub record HeldEvent : Type 0 where
  pub event : RawEvent
  pub key : ChromeWindowKey
  pub version_at_decision : ℕ
  pub held_at : ℕ
  pub expires_at : ℕ
  pub kind : HeldBodyKind

pub record TextQuarantine : Type 0 where
  pub held : List HeldEvent
  pub observer : List ChromeWindowKey

-- `new` with an observer.
abbrev pub new_quarantine : List ChromeWindowKey → TextQuarantine
new_quarantine observer = record { held = []; observer = observer }

unfoldable pub hold_at :
    TextQuarantine → RawEvent → ChromeWindowKey → ℕ → HeldBodyKind → ℕ → TextQuarantine
hold_at q event key version kind held_at = record {
  held =
      q.held
      ++ record {
        event = event;
        key = key;
        version_at_decision = version;
        held_at = held_at;
        expires_at = held_at + confirmation_safety_cap;
        kind = kind;
      }
        ∷ [];
  observer = q.observer ++ key ∷ [];
}

-- The last argument is the time of the call.
unfoldable pub hold_text : TextQuarantine → RawEvent → ChromeWindowKey → ℕ → ℕ → ℕ → TextQuarantine
hold_text q event key version observed_at now =
    hold_at q (record event { observed_at = some observed_at }) key version HeldBodyKind.text_body
      now

unfoldable pub hold_snapshot :
    TextQuarantine → RawEvent → ChromeWindowKey → ℕ → ℕ → ℕ → TextQuarantine
hold_snapshot q event key version hash held_at =
    hold_at q event key version (HeldBodyKind.snapshot_body hash) held_at

abbrev pub is_snapshot : HeldBodyKind → Bool
is_snapshot HeldBodyKind.text_body = false
is_snapshot (HeldBodyKind.snapshot_body hash) = true

unfoldable pub released : HeldEvent → ReleasedEvent
released held = record {
  event = held.event;
  snapshot_hash = elim held.kind [
    | HeldBodyKind.text_body ↦ none
    | HeldBodyKind.snapshot_body hash ↦ some (held.key, hash)
  ];
}

-- `suppress_text_content` on the held event.
unfoldable pub without_text : HeldEvent → HeldEvent
without_text held = record held {
  event = record held.event {
    payload = suppress_payload held.event.payload;
    element = suppress_element held.event.element;
  };
}

unfoldable pub resolve_unresponsive : HeldEvent → Option ReleasedEvent
resolve_unresponsive held =
    if is_snapshot held.kind then none else some (released (without_text held))

abbrev pub scope_of : HeldBodyKind → PrivacyScope
scope_of HeldBodyKind.text_body = PrivacyScope.text_scope
scope_of (HeldBodyKind.snapshot_body hash) = PrivacyScope.snapshot_scope

abbrev pub is_version : Option ℕ → ℕ → Bool
is_version none version = false
is_version (some v) version = v == version

abbrev pub with_released : Option ReleasedEvent → List ReleasedEvent → List ReleasedEvent
with_released none rs = rs
with_released (some r) rs = r ∷ rs

abbrev pub is_after : Option ℕ → ℕ → Bool
is_after none held_at = false
is_after (some observed_at) held_at = ltb held_at observed_at

-- `flush`'s chain over the held events.
unfoldable pub flush_all : List HeldEvent → List ReleasedEvent
flush_all [] = []
flush_all (h ∷ hs) = with_released (resolve_unresponsive h) (flush_all hs)

unfoldable pub flush_held : TextQuarantine → TextQuarantine × List ReleasedEvent
flush_held q = (record q { held = [] }, flush_all q.held)

-- What the loop of `release` has released, kept and asked for.
pub record Turns : Type 0 where
  pub out : List ReleasedEvent
  pub pending : List HeldEvent
  pub asked : List ChromeWindowKey

abbrev pub let_go : Option ReleasedEvent → Turns → Turns
let_go resolved t = record t { out = with_released resolved t.out }

abbrev pub keep : HeldEvent → Turns → Turns
keep h t = record t { pending = h ∷ t.pending; asked = h.key ∷ t.asked }

module _ (lowercase : Text → Text) (is_ipv6 : Text → Bool) (parse_url : Text → Option Url) where
  unfoldable pub decision_of : CapturePolicy → HeldEvent → CaptureDecision
  decision_of policy held =
      decision lowercase is_ipv6 parse_url policy (scope_of held.kind) held.event.app
        (some held.key.window_id) (window_title held.event.window)

  unfoldable pub resolve_confirmed : CapturePolicy → HeldEvent → Option ReleasedEvent
  resolve_confirmed policy held =
      let d = decision_of policy held in
      let unchanged = is_version d.chrome_version held.version_at_decision in
      if not d.allowed && is_snapshot held.kind
      then none
      else if not unchanged && is_snapshot held.kind
      then none
      else some (released (if not d.allowed || not unchanged then without_text held else held))

  -- `tracker.observed_at` lies after the time of the hold.
  unfoldable pub is_confirmed : CapturePolicy → HeldEvent → Bool
  is_confirmed policy held =
      is_after (policy.chrome.observed_at held.key.pid held.key.window_id) held.held_at

  unfoldable pub release_all : CapturePolicy → ℕ → List HeldEvent → Turns
  release_all policy now [] = record { out = []; pending = []; asked = [] }
  release_all policy now (h ∷ hs) =
      let rest = release_all policy now hs in
      if is_confirmed policy h
      then let_go (resolve_confirmed policy h) rest
      else if leb h.expires_at now
      then let_go (resolve_unresponsive h) rest
      else keep h rest

  unfoldable pub release : TextQuarantine → ℕ → CapturePolicy → TextQuarantine × List ReleasedEvent
  release q now policy =
      let turns = release_all policy now q.held in
      (record { held = turns.pending; observer = q.observer ++ turns.asked }, turns.out)
