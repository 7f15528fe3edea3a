-- ===== src/Core/Timeline.antt =====
-- crates/zanei-core/src/timeline/builder.rs: `build`, which summarizes a span of events within a
-- budget of tokens. Parameters: the RFC 3339 parser of the time crate and the encoder of serde_json.
pub mod Model
pub mod Sessions
pub mod Snapshots
pub mod Activity
pub mod Assembly
pub mod Render
pub mod Splitting
pub mod Bounces
pub mod Merging
pub mod Assigned
pub mod Budget
pub mod Outcomes
pub mod Instants
pub mod Stages
pub mod Answers
use zanei.Prelude.{
  ℕ, Bool, true, false, not, ◌&&◌, Option, none, some, List, [], ◌∷◌, map, Text, ltb, leb,
  if◌then◌else◌, all,
}
use zanei.Core.Schema.{Event}
use zanei.Core.Timeline.Model.{
  Granularity, fine, coarse, TimelineFormat, markdown, json, TimelineOptions, Timeline, Session,
  Result, ok, err, ◌>>=◌, invalid_timestamp, token_budget_below_minimum, EventMetadata, TimedEvent,
  RawSession, min_timeline_token_budget_tokens,
}
use zanei.Core.Timeline.Sessions.{
  sort_timed, split_sessions, sessions_for_granularity, merge_adjacent_same_app,
}
use zanei.Core.Timeline.Snapshots.{sort_metadata, assign_all}
use zanei.Core.Timeline.Assembly.{assemble}
use zanei.Core.Timeline.Render.{update_estimate}

abbrev pub strip_ids : Session → Session
strip_ids s = record s { event_ids = none; event_ids_truncated = false }

unfoldable pub without_ids : Timeline → Timeline
without_ids t = record t { sessions = map strip_ids t.sessions }

abbrev pub is_json : TimelineFormat → Bool
is_json json = true
is_json markdown = false

abbrev pub is_fine : Granularity → Bool
is_fine fine = true
is_fine coarse = false

abbrev pub has_no_ids : Session → Bool
has_no_ids s = elim s.event_ids [ none ↦ true | some ids ↦ false ]

-- What `build` keeps in its local variables.
pub record Build : Type 0 where
  pub granularity : Granularity
  pub raw_sessions : List RawSession
  pub timeline : Timeline

abbrev pub over_budget : TimelineOptions → Timeline → Bool
over_budget options t = ltb options.token_budget t.token_estimate

abbrev pub replaced : Build → Timeline → Result Build
replaced b t = ok (record b { timeline = t })

abbrev pub timed_event : ℕ → Event → TimedEvent
timed_event t e = record { event = e; time = t }

module _ (parse_rfc3339 : Text → Option ℕ) where
  abbrev or_invalid : Text → Text → Option ℕ → Result ℕ
  or_invalid id ts none = err (invalid_timestamp id ts)
  or_invalid id ts (some t) = ok t

  -- What `map` and `collect` make of `A`s with an identifier and a timestamp.
  unfoldable pub parse_all {ℓ κ} :
      {A : Type ℓ} {B : Type κ} → (A → Text) → (A → Text) → (ℕ → A → B) → List A → Result (List B)
  parse_all id ts timed [] = ok []
  parse_all id ts timed (x ∷ xs) = or_invalid (id x) (ts x) (parse_rfc3339 (ts x)) >>= λ t.
      parse_all id ts timed xs >>= λ rest. ok (timed t x ∷ rest)

  unfoldable pub parse_events : List Event → Result (List TimedEvent)
  unfolding parse_all
  parse_events = parse_all (λ e. e.id) (λ e. e.ts) timed_event

  unfoldable pub parse_metadata : List EventMetadata → Result (List (ℕ × EventMetadata))
  unfolding parse_all
  parse_metadata = parse_all (λ m. m.id) (λ m. m.ts) (λ t m. (t, m))

  -- `assign_content_snapshots`.
  unfoldable pub assign_content_snapshots :
      List RawSession → List EventMetadata → Result (List RawSession)
  assign_content_snapshots sessions metadata =
      parse_metadata metadata >>= λ timed. ok (assign_all sessions (sort_metadata timed))

module _ (to_json : Timeline → Option Text) (options : TimelineOptions) where
  abbrev pub assembled : Granularity → List RawSession → (Timeline → Timeline) → Result Build
  assembled granularity raw change =
      update_estimate to_json (change (assemble raw options granularity)) options.format >>= λ t.
      ok (record { granularity = granularity; raw_sessions = raw; timeline = t })

  unfoldable pub coarsen : List RawSession → Build → Result Build
  coarsen base b =
      if over_budget options b.timeline && is_fine b.granularity
      then assembled coarse (sessions_for_granularity base coarse) (λ t. t)
      else ok b

  unfoldable pub drop_ids : Build → Result Build
  drop_ids b =
      if over_budget options b.timeline && is_json options.format
      then update_estimate to_json (without_ids b.timeline) options.format >>= replaced b
      else ok b

  unfoldable pub merge_sessions : Build → Result Build
  merge_sessions b =
      let ids_removed = is_json options.format && all has_no_ids b.timeline.sessions in
      if over_budget options b.timeline
      then assembled b.granularity (merge_adjacent_same_app b.raw_sessions)
          (λ t. if ids_removed then without_ids t else t)
      else ok b

  -- The last loop: the second argument is the timeline's sessions.
  unfoldable pub drop_oldest : Timeline → List Session → Result Timeline
  drop_oldest t [] = ok t
  drop_oldest t (s ∷ ss) = elim (over_budget options t) [
    | false ↦ ok t
    | true ↦
        update_estimate to_json (record t { sessions = ss; truncated = true }) options.format
        >>= λ t'. drop_oldest t' ss
  ]

  -- `build` from the sessions on.
  unfoldable pub fit : List RawSession → Result Timeline
  fit base =
      assembled options.granularity (sessions_for_granularity base options.granularity) (λ t. t)
      >>= coarsen base
      >>= drop_ids
      >>= merge_sessions
      >>= λ b. drop_oldest b.timeline b.timeline.sessions

module _ (parse_rfc3339 : Text → Option ℕ) (to_json : Timeline → Option Text) where
  unfoldable pub build : List Event → List EventMetadata → TimelineOptions → Result Timeline
  build events snapshot_metadata options =
      if ltb options.token_budget min_timeline_token_budget_tokens
      then err (token_budget_below_minimum min_timeline_token_budget_tokens)
      else parse_events parse_rfc3339 events >>= λ timed.
          assign_content_snapshots parse_rfc3339 (split_sessions (sort_timed timed))
            snapshot_metadata
          >>= fit to_json options
