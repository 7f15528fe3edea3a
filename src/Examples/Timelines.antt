-- ===== src/Examples/Timelines.antt =====
-- Timelines at concrete events. The timestamps here are seconds in decimal digits, and the encoder
-- of JSON is the Markdown one.
use zanei.Prelude.{
  true, eq_ignore_ascii_case, ℕ, ◌*◌, ◌<◌, ◌⊎◌, ◌++◌, ◌≡◌, ◌↔◌, refl, false, Option, none, some,
  List, [], ◌∷◌, Text, text, arith, length, is_empty, if◌then◌else◌, text_eq, saturating_add,
  to_ascii_lowercase,
}
use zanei.Core.Privacy.Hosts.{decimal}
use zanei.Core.Schema.{Event, EventData}
use zanei.Core.Timeline.Snapshots.{
  snapshot_matches_session, snapshot_session_is_open, takes_snapshot, count_snapshot, update_last,
  insert_session, assign_snapshot, insert_metadata, sort_metadata, assign_all,
}
use zanei.Core.Timeline.Assembly.{build_session, assemble}
use zanei.Core.Timeline.Model.{
  coarse, json, markdown, TimelineOptions, Timeline, Session, ok, err, invalid_timestamp,
  token_budget_below_minimum, EventMetadata, TimedEvent, RawSession,
}
use zanei.Core.Timeline.Sessions.{
  split_sessions, absorb_bounces, merge_adjacent_same_app, is_bounce, primary_app_key, raw_session,
  absorb_from, absorbed, app_key, collapse, merge_from, merge_metadata_spans, merged,
  session_residence, split_from, splits, start_at, key_le, insert_timed, sort_timed, from_snapshot,
  app_name, bundle_id, sessions_for_granularity,
}
use zanei.Core.Timeline.Render.{
  to_markdown, count_ascii, count_non_ascii, estimate_tokens, serialize, update_estimate,
}
use zanei.Core.Timeline.Splitting.{IsSplit, split_sessions-IsSplit}
use zanei.Core.Timeline.Bounces.{absorb_bounces-no-bounce}
use zanei.Core.Timeline.Budget.{IsTotal, Fits}
use zanei.Core.Timeline.Answers.{build_returns, build-snapshots, build-error}
use zanei.Core.Timeline.Instants.{Rejects}
use zanei.Core.Timeline.Activity.{url_host}
use zanei.Prelude.Ordered.{to_string, digits}
use zanei.Prelude.Slices.{
  break_at, rsplit_once, split_once, split_once_text, strip_prefix, trim_end,
}
use zanei.Core.Timeline.Outcomes.{session_snapshots}
use zanei.Core.Timeline.{
  without_ids, build, parse_events, parse_all, parse_metadata, assign_content_snapshots, coarsen,
  drop_ids, merge_sessions, drop_oldest, fit,
}

abbrev seconds : Text → Option ℕ
seconds ts = if is_empty ts then none else some (decimal 0 ts * 1000000000)

abbrev encode : Timeline → Option Text
encode t = some (to_markdown t)

abbrev activation : Text → Text → Event
activation app ts = record {
  version = 1;
  id = text "evt_" ++ ts;
  ts = ts;
  mono_ns = decimal 0 ts;
  source = text "macos.workspace";
  event_type = text "app.activate";
  app = record { name = app; bundle_id = none; pid = none };
  window = none;
  element = none;
  payload = EventData.app_activate;
  redaction = record { applied = false; rules = [] };
}

abbrev timed : Text → Text → TimedEvent
timed app ts = record { event = activation app ts; time = decimal 0 ts * 1000000000 }

abbrev snapshot : Text → Text → EventMetadata
snapshot app ts = record {
  id = text "evt_s";
  ts = ts;
  bundle_id = none;
  app_name = app;
  window_id = none;
}

abbrev two_apps : List TimedEvent
two_apps = timed (text "Notes") (text "10") ∷ timed (text "Mail") (text "12") ∷ []

abbrev notes_again : List TimedEvent
notes_again = timed (text "Notes") (text "20") ∷ []

abbrev notes : RawSession
notes = raw_session (timed (text "Notes") (text "10") ∷ [])

abbrev mail : RawSession
mail = raw_session (timed (text "Mail") (text "12") ∷ [])

two_sessions : split_sessions two_apps ≡ notes ∷ mail ∷ []
unfolding split_sessions split_from splits decimal text_eq app_key to_ascii_lowercase
two_sessions = refl

split_sessions-IsSplit_example :
    (split_sessions two_apps ≡ notes ∷ mail ∷ []) ↔ IsSplit two_apps (notes ∷ mail ∷ [])
split_sessions-IsSplit_example = split_sessions-IsSplit two_apps (notes ∷ mail ∷ [])

abbrev later : RawSession
later = raw_session (timed (text "Notes") (text "90") ∷ [])

-- Mail for 8 seconds is a bounce, and for 78 seconds it is not.
absorbed_bounce :
    absorb_bounces (notes ∷ mail ∷ raw_session notes_again ∷ [])
    ≡ raw_session (timed (text "Notes") (text "10") ∷ timed (text "Mail") (text "12") ∷ notes_again)
      ∷ []
unfolding absorb_bounces absorb_from collapse is_bounce text_eq primary_app_key app_key
    to_ascii_lowercase session_residence start_at decimal absorbed saturating_add
absorbed_bounce = refl

no_bounce : absorb_bounces (notes ∷ mail ∷ later ∷ []) ≡ notes ∷ mail ∷ later ∷ []
unfolding absorb_bounces absorb_from collapse is_bounce text_eq primary_app_key app_key
    to_ascii_lowercase session_residence start_at decimal
no_bounce = refl

absorb_bounces-no-bounce_example : is_bounce notes mail later ≡ false
absorb_bounces-no-bounce_example =
    absorb_bounces-no-bounce (notes ∷ mail ∷ later ∷ []) [] [] notes mail later no_bounce

merged_notes :
    merge_adjacent_same_app (notes ∷ later ∷ mail ∷ [])
    ≡ raw_session (timed (text "Notes") (text "10") ∷ timed (text "Notes") (text "90") ∷ [])
      ∷ mail
      ∷ []
unfolding merge_adjacent_same_app merge_from text_eq primary_app_key app_key to_ascii_lowercase
    merged saturating_add merge_metadata_spans
merged_notes = refl

abbrev options : ℕ → TimelineOptions
options budget = record {
  range = record { since = text "0"; until = text "9" };
  token_budget = budget;
  granularity = coarse;
  format = markdown;
}

abbrev events : List Event
events = activation (text "Notes") (text "10") ∷ activation (text "Mail") (text "12") ∷ []

abbrev snapshots : List EventMetadata
snapshots = snapshot (text "mail") (text "15") ∷ snapshot (text "Safari") (text "11") ∷ []

encode-IsTotal : IsTotal encode
encode-IsTotal t = (to_markdown t, refl)

build_returns_example :
    (t : Timeline) × (build seconds encode events snapshots (options 60) ≡ ok t)
    × Fits (options 60) t
build_returns_example =
    build_returns seconds encode events snapshots (options 60) encode-IsTotal (omega arith)
      ((_, refl), ((_, refl), tt)) ((_, refl), ((_, refl), tt))

build-error_example :
    ((20 < 34) × (token_budget_below_minimum 34 ≡ token_budget_below_minimum 34))
    ⊎ (Rejects seconds (λ e. e.id) (λ e. e.ts) events (token_budget_below_minimum 34)
        ⊎ Rejects seconds (λ m. m.id) (λ m. m.ts) snapshots (token_budget_below_minimum 34))
unfolding build
build-error_example =
    build-error seconds encode events snapshots (options 20) (token_budget_below_minimum 34)
      encode-IsTotal refl

-- An encoder that takes sixty characters for a session.
abbrev sixty_each : List Session → Text
sixty_each [] = []
sixty_each (s ∷ ss) =
    text "0123456789012345678901234567890123456789" ++ text "01234567890123456789" ++ sixty_each ss

abbrev sixty : Timeline → Option Text
sixty t = some (sixty_each t.sessions)

abbrev json_options : ℕ → TimelineOptions
json_options budget = record (options budget) { format = json }

-- Of three sessions the oldest is dropped for a budget of 34 tokens.
abbrev sessions_in : ℕ → ℕ
sessions_in budget = elim (build seconds sixty events snapshots (json_options budget)) [
  | ok t ↦ length t.sessions
  | err e ↦ 100
]

two_of_three : (sessions_in 45 ≡ 3) × (sessions_in 34 ≡ 2)
unfolding without_ids parse_all parse_events parse_metadata assign_content_snapshots coarsen
    drop_ids merge_sessions drop_oldest fit build app_key key_le insert_timed sort_timed splits
    split_from split_sessions from_snapshot start_at app_name bundle_id primary_app_key
    session_residence is_bounce absorbed collapse absorb_from absorb_bounces
    sessions_for_granularity merged merge_from merge_adjacent_same_app snapshot_matches_session
    snapshot_session_is_open takes_snapshot count_snapshot update_last insert_session
    assign_snapshot insert_metadata sort_metadata assign_all count_ascii count_non_ascii
    estimate_tokens serialize update_estimate build_session assemble text_eq to_ascii_lowercase
    eq_ignore_ascii_case saturating_add decimal
two_of_three = (refl, refl)

abbrev whole : Timeline
whole = elim (build seconds sixty events snapshots (json_options 45)) [
  | ok t ↦ t
  | err e ↦ record {
    range = record { since = []; until = [] };
    token_estimate = 0;
    truncated = true;
    sessions = [];
  }
]

built_whole :
    (build seconds sixty events snapshots (json_options 45) ≡ ok whole) × (whole.truncated ≡ false)
unfolding parse_all parse_events parse_metadata assign_content_snapshots coarsen drop_ids
    merge_sessions drop_oldest fit build app_key key_le insert_timed sort_timed splits split_from
    split_sessions from_snapshot start_at app_name bundle_id primary_app_key session_residence
    is_bounce absorbed collapse absorb_from absorb_bounces sessions_for_granularity merged
    merge_from merge_adjacent_same_app snapshot_matches_session snapshot_session_is_open
    takes_snapshot count_snapshot update_last insert_session assign_snapshot insert_metadata
    sort_metadata assign_all count_ascii count_non_ascii estimate_tokens serialize update_estimate
    build_session assemble text_eq to_ascii_lowercase eq_ignore_ascii_case saturating_add decimal
built_whole = (refl, refl)

build-snapshots_example : session_snapshots whole.sessions ≡ 2
build-snapshots_example =
    build-snapshots seconds sixty events snapshots (json_options 45) whole (omega arith)
      built_whole.0 built_whole.1

unread :
    build seconds encode (activation (text "Notes") [] ∷ []) [] (options 34)
    ≡ err (invalid_timestamp (text "evt_") [])
unfolding build parse_events
unread = refl

-- The host of a URL with a user, a port and a dot at its end.
hosts : url_host (text "https://me@Example.COM.:8080/a") ≡ some (text "example.com")
unfolding url_host split_once_text strip_prefix rsplit_once break_at to_ascii_lowercase trim_end
hosts = refl

ipv6_host : url_host (text "http://[::1]:80/") ≡ some (text "::1")
unfolding url_host split_once_text strip_prefix rsplit_once break_at split_once to_ascii_lowercase
    trim_end
ipv6_host = refl

numbers : to_string 120 ≡ text "120"
unfolding to_string digits
numbers = refl
