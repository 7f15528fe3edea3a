-- ===== src/Core/Timeline/Snapshots.antt =====
-- crates/zanei-core/src/timeline/builder.rs: `assign_content_snapshots`.
use zanei.Prelude.{
  ℕ, Bool, true, false, not, ◌&&◌, Option, none, some, List, [], ◌∷◌, Text, eq_ignore_ascii_case,
  ltb, leb, if◌then◌else◌, any, is_empty, saturating_add,
}
use zanei.Core.Timeline.Model.{EventMetadata, MetadataSpan, RawSession}
use zanei.Core.Timeline.Sessions.{start_at, app_name, bundle_id, from_snapshot}

abbrev same_ignoring_case : Text → Option Text → Bool
same_ignoring_case t none = false
same_ignoring_case t (some s) = eq_ignore_ascii_case s t

unfoldable pub snapshot_matches_session : EventMetadata → RawSession → Bool
snapshot_matches_session metadata session = elim metadata.bundle_id [
  | some id ↦ same_ignoring_case id (bundle_id session)
  | none ↦ same_ignoring_case metadata.app_name (app_name session)
]

abbrev pub starts_by : ℕ → Option ℕ → Bool
starts_by at_ns none = false
starts_by at_ns (some start) = leb start at_ns

abbrev pub starts_after : ℕ → Option ℕ → Bool
starts_after at_ns none = false
starts_after at_ns (some start) = ltb at_ns start

-- A session with events of another app has started since.
abbrev interrupts : EventMetadata → ℕ → ℕ → RawSession → Bool
interrupts metadata start snapshot_at candidate =
    not (is_empty candidate.events)
    && (starts_after start (start_at candidate) && starts_by snapshot_at (start_at candidate))
    && not (snapshot_matches_session metadata candidate)

unfoldable pub snapshot_session_is_open : List RawSession → RawSession → EventMetadata → ℕ → Bool
snapshot_session_is_open sessions session metadata snapshot_at =
    if not (is_empty session.events) then true else elim (start_at session) [
      | none ↦ false
      | some start ↦ not (any (interrupts metadata start snapshot_at) sessions)
    ]

-- The test of the `rposition`.
unfoldable pub takes_snapshot : List RawSession → EventMetadata → ℕ → RawSession → Bool
takes_snapshot sessions metadata at_ns session =
    starts_by at_ns (start_at session)
    && snapshot_matches_session metadata session
    && snapshot_session_is_open sessions session metadata at_ns

abbrev extended : EventMetadata → ℕ → Option MetadataSpan → Option MetadataSpan
extended metadata at_ns none = none
extended metadata at_ns (some span) = some (record span { end = metadata.ts; end_at = at_ns })

unfoldable pub count_snapshot : EventMetadata → ℕ → RawSession → RawSession
count_snapshot metadata at_ns session = record session {
  content_snapshots = saturating_add session.content_snapshots 1;
  metadata_span = extended metadata at_ns session.metadata_span;
}

-- The last session with the property changed, if there is one.
unfoldable pub update_last :
    (RawSession → Bool) → (RawSession → RawSession) → List RawSession → Option (List RawSession)
update_last p f [] = none
update_last p f (s ∷ ss) = elim (update_last p f ss) [
  | some rest ↦ some (s ∷ rest)
  | none ↦ if p s then some (f s ∷ ss) else none
]

-- Put before the first session that starts later.
unfoldable pub insert_session : RawSession → ℕ → List RawSession → List RawSession
insert_session session at_ns [] = session ∷ []
insert_session session at_ns (s ∷ ss) =
    let rest = insert_session session at_ns ss in
    if starts_after at_ns (start_at s) then session ∷ s ∷ ss else s ∷ rest

unfoldable pub assign_snapshot : List RawSession → ℕ → EventMetadata → List RawSession
assign_snapshot sessions at_ns metadata =
    elim (update_last (takes_snapshot sessions metadata at_ns) (count_snapshot metadata at_ns)
      sessions) [
        | some updated ↦ updated
        | none ↦ insert_session (from_snapshot metadata at_ns) at_ns sessions
      ]

-- `sort_unstable_by_key`, at which equal instants may come in any order: here, their own.
unfoldable pub insert_metadata :
    ℕ × EventMetadata → List (ℕ × EventMetadata) → List (ℕ × EventMetadata)
insert_metadata (t, m) [] = (t, m) ∷ []
insert_metadata (t, m) ((u, n) ∷ rest) =
    let later = insert_metadata (t, m) rest in
    if leb t u then (t, m) ∷ (u, n) ∷ rest else (u, n) ∷ later

unfoldable pub sort_metadata : List (ℕ × EventMetadata) → List (ℕ × EventMetadata)
sort_metadata [] = []
sort_metadata (x ∷ xs) = insert_metadata x (sort_metadata xs)

unfoldable pub assign_all : List RawSession → List (ℕ × EventMetadata) → List RawSession
assign_all sessions [] = sessions
assign_all sessions ((at_ns, metadata) ∷ rest) =
    assign_all (assign_snapshot sessions at_ns metadata) rest
