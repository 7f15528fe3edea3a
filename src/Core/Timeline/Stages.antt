-- ===== src/Core/Timeline/Stages.antt =====
-- crates/zanei-core/src/timeline/builder.rs: the stages of `build` under an encoder that answers for
-- every timeline.
use zanei.Prelude.{refl, ◌&&◌, Option, List, Text, if◌then◌else◌, all, if_rule}
use zanei.Core.Timeline.Model.{Granularity, coarse, TimelineOptions, Timeline, ok, RawSession}
use zanei.Core.Timeline.Sessions.{sessions_for_granularity, merge_adjacent_same_app}
use zanei.Core.Timeline.Assembly.{assemble}
use zanei.Core.Timeline.Render.{update_estimate}
use zanei.Core.Timeline.Budget.{IsTotal, IsOk, >>=-IsOk, update_estimate-IsOk, drop_oldest-IsOk}
use zanei.Core.Timeline.{
  Build, fit, coarsen, drop_ids, merge_sessions, assembled, over_budget, replaced, without_ids,
  is_fine, is_json, has_no_ids,
}

module _ (to_json : Timeline → Option Text) (options : TimelineOptions)
    (base : List RawSession) where
  assembled-IsOk :
      IsTotal to_json
      → (granularity : Granularity) (raw : List RawSession) (change : Timeline → Timeline)
      → IsOk (assembled to_json options granularity raw change)
  assembled-IsOk h granularity raw change =
      >>=-IsOk (update_estimate to_json (change (assemble raw options granularity)) options.format)
        (λ t. ok (record { granularity = granularity; raw_sessions = raw; timeline = t }))
        (update_estimate-IsOk to_json h (change (assemble raw options granularity)) options.format)
        (λ t e. (_, refl))

  coarsen-IsOk : IsTotal to_json → (b : Build) → IsOk (coarsen to_json options base b)
  unfolding coarsen
  coarsen-IsOk h b =
      if_rule IsOk (over_budget options b.timeline && is_fine b.granularity) _ (ok b)
        (λ _. assembled-IsOk h coarse (sessions_for_granularity base coarse) (λ t. t))
        (λ _. (b, refl))

  drop_ids-IsOk : IsTotal to_json → (b : Build) → IsOk (drop_ids to_json options b)
  unfolding drop_ids
  drop_ids-IsOk h b =
      if_rule IsOk (over_budget options b.timeline && is_json options.format) _ (ok b)
        (λ _.
          >>=-IsOk (update_estimate to_json (without_ids b.timeline) options.format) (replaced b)
            (update_estimate-IsOk to_json h (without_ids b.timeline) options.format)
            (λ t e. (_, refl)))
        (λ _. (b, refl))

  merge_sessions-IsOk : IsTotal to_json → (b : Build) → IsOk (merge_sessions to_json options b)
  unfolding merge_sessions
  merge_sessions-IsOk h b =
      if_rule IsOk (over_budget options b.timeline) _ (ok b)
        (λ _. assembled-IsOk h b.granularity (merge_adjacent_same_app b.raw_sessions) (λ t.
          if is_json options.format && all has_no_ids b.timeline.sessions
          then without_ids t
          else t))
        (λ _. (b, refl))

  pub fit-IsOk : IsTotal to_json → IsOk (fit to_json options base)
  unfolding fit
  fit-IsOk h =
      >>=-IsOk _ _
        (>>=-IsOk _ _
          (>>=-IsOk _ _
            (>>=-IsOk _ _
              (assembled-IsOk h options.granularity
                (sessions_for_granularity base options.granularity) (λ t. t))
              (λ b _. coarsen-IsOk h b))
            (λ b _. drop_ids-IsOk h b))
          (λ b _. merge_sessions-IsOk h b))
        (λ b _. drop_oldest-IsOk to_json options h b.timeline.sessions b.timeline)
