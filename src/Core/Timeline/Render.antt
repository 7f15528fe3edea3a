-- ===== src/Core/Timeline/Render.antt =====
-- crates/zanei-core/src/timeline/render.rs: a timeline as text, and the estimate of its tokens.
-- The encoder of serde_json, which may fail, is the parameter `to_json`.
use zanei.Prelude.{
  ℕ, ◌+◌, ◌*◌, ◌/◌, Bool, Option, none, some, List, [], ◌∷◌, ◌++◌, Text, text, ltb, if◌then◌else◌,
}
use zanei.Prelude.Ordered.{to_string}
use zanei.Core.Timeline.Model.{
  TimelineFormat, markdown, json, Timeline, Session, Interaction, Result, ok, err, serialize_failed,
  ◌>>=◌,
}

-- The ASCII characters and the others.
unfoldable pub count_ascii : Text → ℕ
count_ascii [] = 0
count_ascii (c ∷ t) = (if ltb c 128 then 1 else 0) + count_ascii t

unfoldable pub count_non_ascii : Text → ℕ
count_non_ascii [] = 0
count_non_ascii (c ∷ t) = (if ltb c 128 then 0 else 1) + count_non_ascii t

-- A quarter of the first and six tenths of the second, rounded up. The sum is a multiple of a
-- twentieth, so the rounding of an f64 does not reach the next integer at the lengths of texts.
unfoldable pub estimate_tokens : Text → ℕ
estimate_tokens t = (5 * count_ascii t + 12 * count_non_ascii t + 19) / 20

abbrev line : Text → Text
line t = t ++ (10 ∷ [])

abbrev yes_or_no : Bool → Text
yes_or_no b = if b then text "yes" else text "no"

abbrev title_line : Option Text → Text
title_line none = []
title_line (some title) = line ((10 ∷ []) ++ text "Title: " ++ title)

abbrev activity_lines : List Text → Text
activity_lines [] = []
activity_lines (a ∷ rest) = line (text "- " ++ a) ++ activity_lines rest

abbrev interaction_lines : List Interaction → Text
interaction_lines [] = []
interaction_lines (i ∷ rest) =
    line (text "  - [" ++ i.ts ++ text "] " ++ i.activity) ++ interaction_lines rest

abbrev some_interaction_lines : Option (List Interaction) → Text
some_interaction_lines none = []
some_interaction_lines (some interactions) = interaction_lines interactions

unfoldable pub session_lines : Session → Text
session_lines s =
    line ((10 ∷ []) ++ text "## " ++ s.start ++ text " — " ++ s.end ++ text " · " ++ s.app)
    ++ title_line s.title_summary
    ++ activity_lines s.activities
    ++ some_interaction_lines s.interactions
    ++ (if ltb 0 s.content_snapshots
        then line (text "Content snapshots: " ++ to_string s.content_snapshots)
        else [])

unfoldable pub sessions_lines : List Session → Text
sessions_lines [] = []
sessions_lines (s ∷ ss) = session_lines s ++ sessions_lines ss

unfoldable pub to_markdown : Timeline → Text
to_markdown t =
    line (text "# Zanei timeline")
    ++ line ((10 ∷ []) ++ text "Range: " ++ t.range.since ++ text " — " ++ t.range.until)
    ++ line (text "Estimated tokens: " ++ to_string t.token_estimate)
    ++ line (text "Truncated: " ++ yes_or_no t.truncated)
    ++ sessions_lines t.sessions

module _ (to_json : Timeline → Option Text) where
  abbrev pub or_failed : Option Text → Result Text
  or_failed none = err serialize_failed
  or_failed (some t) = ok t

  unfoldable pub serialize : Timeline → TimelineFormat → Result Text
  serialize t json = or_failed (to_json t)
  serialize t markdown = ok (to_markdown t)

  abbrev pub estimate_once : TimelineFormat → Timeline → Result Timeline
  estimate_once format t =
      serialize t format >>= λ out. ok (record t { token_estimate = estimate_tokens out })

  -- The loop runs three times.
  unfoldable pub update_estimate : Timeline → TimelineFormat → Result Timeline
  update_estimate t format =
      estimate_once format t >>= estimate_once format >>= estimate_once format
