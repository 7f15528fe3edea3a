-- ===== src/Macos/Quarantine/Parts.antt =====
-- The ways in which `release` of quarantine.rs may part the events that it holds.
use zanei.Prelude.{
  ℕ, ◌≤◌, ◌<◌, ◌≡◌, ◌≢◌, ◌⊎◌, Bool, true, false, Option, none, some, List, [], ◌∷◌, Text,
}
use zanei.Core.Privacy.CapturePolicy.{Url}
use zanei.Core.Privacy.Filter.Carried.{NoPayloadText, NoElementValue}
use zanei.Macos.CapturePolicy.{CapturePolicy}
use zanei.Macos.Quarantine.{HeldEvent, HeldBodyKind, ReleasedEvent, is_snapshot, decision_of}

-- The event of a held one, whole.
pub record IsWhole (h : HeldEvent) (r : ReleasedEvent) : Type 0 where
  pub event : r.event ≡ h.event
  pub no_hash : h.kind ≡ HeldBodyKind.text_body → r.snapshot_hash ≡ none
  pub hash : (n : ℕ) → h.kind ≡ HeldBodyKind.snapshot_body n → r.snapshot_hash ≡ some (h.key, n)

-- The event of a held text, without the text.
pub record IsBare (h : HeldEvent) (r : ReleasedEvent) : Type 0 where
  pub kind : h.kind ≡ HeldBodyKind.text_body
  pub payload : NoPayloadText r.event.payload
  pub element : NoElementValue r.event.element
  pub others : r.event ≡ record h.event { payload = r.event.payload; element = r.event.element }
  pub no_hash : r.snapshot_hash ≡ none

module _ (lowercase : Text → Text) (is_ipv6 : Text → Bool) (parse_url : Text → Option Url)
    (policy : CapturePolicy) where
  -- The window has been observed after the hold.
  abbrev pub IsObserved : HeldEvent → Type 0
  IsObserved h =
      (t : ℕ) × (policy.chrome.observed_at h.key.pid h.key.window_id ≡ some t) × (h.held_at < t)

  pub record IsAuthorized (h : HeldEvent) : Type 0 where
    pub observed : IsObserved h
    pub allowed : (decision_of lowercase is_ipv6 parse_url policy h).allowed ≡ true
    pub version :
        (decision_of lowercase is_ipv6 parse_url policy h).chrome_version
        ≡ some h.version_at_decision

  pub record IsRefused (h : HeldEvent) : Type 0 where
    pub observed : IsObserved h
    pub why :
        ((decision_of lowercase is_ipv6 parse_url policy h).allowed ≡ false)
        ⊎ ((decision_of lowercase is_ipv6 parse_url policy h).chrome_version
            ≢ some h.version_at_decision)

  module _ (now : ℕ) where
    pub record IsUnanswered (h : HeldEvent) : Type 0 where
      pub unobserved : ¬ IsObserved h
      pub late : h.expires_at ≤ now

    abbrev pub IsDenied : HeldEvent → Type 0
    IsDenied h = IsRefused h ⊎ IsUnanswered h

    -- Each held event, in order, stays, is released or is dropped.
    pub data IsPartition : List HeldEvent → List ReleasedEvent → List HeldEvent → Type 0 where
      done : IsPartition [] [] []
      stays :
          {h : HeldEvent} {hs : List HeldEvent} {rs : List ReleasedEvent} {ps : List HeldEvent}
          → ¬ IsObserved h
          → now < h.expires_at
          → IsPartition hs rs ps
          → IsPartition (h ∷ hs) rs (h ∷ ps)
      passes :
          {h : HeldEvent} {r : ReleasedEvent} {hs : List HeldEvent} {rs : List ReleasedEvent}
          {ps : List HeldEvent}
          → IsAuthorized h
          → IsWhole h r
          → IsPartition hs rs ps
          → IsPartition (h ∷ hs) (r ∷ rs) ps
      loses_text :
          {h : HeldEvent} {r : ReleasedEvent} {hs : List HeldEvent} {rs : List ReleasedEvent}
          {ps : List HeldEvent}
          → IsDenied h
          → IsBare h r
          → IsPartition hs rs ps
          → IsPartition (h ∷ hs) (r ∷ rs) ps
      drops :
          {h : HeldEvent} {hs : List HeldEvent} {rs : List ReleasedEvent} {ps : List HeldEvent}
          → IsDenied h
          → is_snapshot h.kind ≡ true
          → IsPartition hs rs ps
          → IsPartition (h ∷ hs) rs ps
