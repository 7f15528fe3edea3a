-- ===== src/Core/Timeline/Model.antt =====
-- crates/zanei-core/src/timeline/model.rs, and the types of timeline/builder.rs and of
-- store/event_metadata.rs that the sessions are made of. An instant is its number of nanoseconds
-- from an origin before the first one that RFC 3339 can write.
use zanei.Prelude.{ℕ, ◌*◌, ◌≡◌, refl, Bool, Option, List, Text}
use zanei.Core.Schema.{Event}

pub data Granularity : Type 0 where
  coarse fine : Granularity

pub data TimelineFormat : Type 0 where
  markdown json : TimelineFormat

pub record TimeRange : Type 0 where
  pub since : Text
  pub until : Text

pub record TimelineOptions : Type 0 where
  pub range : TimeRange
  pub token_budget : ℕ
  pub granularity : Granularity
  pub format : TimelineFormat

pub record Interaction : Type 0 where
  pub ts : Text
  pub activity : Text

pub record Session : Type 0 where
  pub start : Text
  pub end : Text
  pub app : Text
  pub title_summary : Option Text
  pub activities : List Text
  pub content_snapshots : ℕ
  pub event_ids : Option (List Text)
  pub event_ids_truncated : Bool
  pub interactions : Option (List Interaction)

pub record Timeline : Type 0 where
  pub range : TimeRange
  pub token_estimate : ℕ
  pub truncated : Bool
  pub sessions : List Session

pub data TimelineError : Type 0 where
  invalid_timestamp : Text → Text → TimelineError
  token_budget_below_minimum : ℕ → TimelineError
  serialize_failed : TimelineError

pub data Result {ℓ} (T : Type ℓ) : Type ℓ where
  err : TimelineError → Result T
  ok : T → Result T

-- The operator `?`, with what is done with the value.
infixl 5 ◌>>=◌
abbrev pub ◌>>=◌ {ℓ κ} : {T : Type ℓ} {U : Type κ} → Result T → (T → Result U) → Result U
err e >>= next = err e
ok t >>= next = next t

-- A successful chain has a successful first step.
pub >>=-eq-ok {ℓ κ} :
    {T : Type ℓ} {U : Type κ} (first : Result T) (next : T → Result U) {u : U}
    → (first >>= next) ≡ ok u
    → (t : T) × (first ≡ ok t) × (next t ≡ ok u)
>>=-eq-ok (err e) next is = cc
>>=-eq-ok (ok t) next is = (t, refl, is)

pub record EventMetadata : Type 0 where
  pub id : Text
  pub ts : Text
  pub bundle_id : Option Text
  pub app_name : Text
  pub window_id : Option ℕ

pub record MetadataSpan : Type 0 where
  pub app_name : Text
  pub bundle_id : Option Text
  pub start : Text
  pub start_at : ℕ
  pub end : Text
  pub end_at : ℕ

pub record TimedEvent : Type 0 where
  pub event : Event
  pub time : ℕ

pub record RawSession : Type 0 where
  pub events : List TimedEvent
  pub content_snapshots : ℕ
  pub metadata_span : Option MetadataSpan

-- `Duration::minutes(5)` and `Duration::seconds(30)`.
abbrev pub idle_gap : ℕ
idle_gap = 5 * 60 * 1000000000

abbrev pub bounce : ℕ
bounce = 30 * 1000000000

abbrev pub max_event_ids : ℕ
max_event_ids = 100

abbrev pub min_timeline_token_budget_tokens : ℕ
min_timeline_token_budget_tokens = 34
