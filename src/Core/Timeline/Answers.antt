-- ===== src/Core/Timeline/Answers.antt =====
-- crates/zanei-core/src/timeline/builder.rs: the answers of `build`.
use zanei.Prelude.{
  ℕ, ◌≤◌, ◌<◌, ◌≡◌, refl, sym, ap, ◌∙◌, subst, ◌⊎◌, inl, inr, true, false, Option, List, [], ◌∷◌,
  Text, arith, ltb, ltb→lt, length, All, Bool-cases, u64_max,
}
use zanei.Core.Schema.{Event}
use zanei.Core.Timeline.Model.{
  TimelineOptions, Timeline, TimelineError, Result, ok, err, ◌>>=◌, >>=-eq-ok, EventMetadata,
  TimedEvent, RawSession, min_timeline_token_budget_tokens, token_budget_below_minimum,
}
use zanei.Core.Timeline.Sessions.{sort_timed, split_sessions}
use zanei.Core.Timeline.Snapshots.{assign_all, sort_metadata}
use zanei.Core.Timeline.Splitting.{split_sessions-IsSplit, IsFresh}
use zanei.Core.Timeline.Bounces.{snapshots_of}
use zanei.Core.Timeline.Assigned.{assign_all-snapshots, sort_metadata-length}
use zanei.Core.Timeline.Budget.{IsTotal, IsOk, >>=-IsOk, Fits}
use zanei.Core.Timeline.Outcomes.{session_snapshots, fit-Fits, fit-snapshots}
use zanei.Core.Timeline.Stages.{fit-IsOk}
use zanei.Core.Timeline.Instants.{
  Result-cases, IsInstant, Rejects, parse_all-IsOk, parse_all-length, parse_all-Rejects,
}
use zanei.Core.Timeline.{
  timed_event, build, fit, parse_events, parse_metadata, assign_content_snapshots,
}

fresh-snapshots : (ss : List RawSession) → All IsFresh ss → snapshots_of ss ≡ 0
unfolding snapshots_of
fresh-snapshots [] h = refl
fresh-snapshots (s ∷ ss) h =
    omega (arith, ap (λ r. r.content_snapshots) h.0.2, fresh-snapshots ss h.1)

split_sessions-snapshots : (es : List TimedEvent) → snapshots_of (split_sessions es) ≡ 0
split_sessions-snapshots es =
    fresh-snapshots (split_sessions es)
      ((split_sessions-IsSplit es (split_sessions es)).0 refl).fresh

module _ (parse_rfc3339 : Text → Option ℕ) (to_json : Timeline → Option Text) (events : List Event)
    (metadata : List EventMetadata) (options : TimelineOptions) where
  -- The sessions with the snapshots of the metadata.
  abbrev with_snapshots : List TimedEvent → Result (List RawSession)
  with_snapshots timed =
      assign_content_snapshots parse_rfc3339 (split_sessions (sort_timed timed)) metadata

  build_enough :
      ltb options.token_budget min_timeline_token_budget_tokens ≡ false
      → build parse_rfc3339 to_json events metadata options ≡ (
          parse_events parse_rfc3339 events >>= λ timed.
          with_snapshots timed >>= fit to_json options)
  unfolding build
  build_enough h = rw h refl

  build_little :
      ltb options.token_budget min_timeline_token_budget_tokens ≡ true
      → build parse_rfc3339 to_json events metadata options
        ≡ err (token_budget_below_minimum min_timeline_token_budget_tokens)
  unfolding build
  build_little h = rw h refl

  with_snapshots-IsOk :
      (timed : List TimedEvent)
      → All (λ m. IsInstant parse_rfc3339 m.ts) metadata
      → IsOk (with_snapshots timed)
  unfolding assign_content_snapshots parse_metadata
  with_snapshots-IsOk timed h =
      >>=-IsOk (parse_metadata parse_rfc3339 metadata) _
        (parse_all-IsOk parse_rfc3339 (λ m. m.id) (λ m. m.ts) (λ t m. (t, m)) metadata h)
        (λ ms e. (_, refl))

  with_snapshots-snapshots :
      (timed : List TimedEvent) (base : List RawSession)
      → length metadata ≤ u64_max
      → with_snapshots timed ≡ ok base
      → snapshots_of base ≡ length metadata
  unfolding assign_content_snapshots parse_metadata
  with_snapshots-snapshots timed base le h =
      let split = split_sessions (sort_timed timed) in
      let (ms, e, k) =
        >>=-eq-ok (parse_metadata parse_rfc3339 metadata)
          (λ ms. ok (assign_all split (sort_metadata ms))) h in
      let k' : assign_all split (sort_metadata ms) ≡ base = cc in
      let many =
        parse_all-length parse_rfc3339 (λ m. m.id) (λ m. m.ts) (λ t m. (t, m)) metadata ms e in
      let sorted = sort_metadata-length ms in
      let none_yet = split_sessions-snapshots (sort_timed timed) in
      ap snapshots_of (sym k')
      ∙ assign_all-snapshots split (sort_metadata ms) (omega (arith, many, sorted, none_yet))
      ∙ omega (arith, many, sorted, none_yet)

  -- With a budget of 34 tokens or more, timestamps that the parser reads and an encoder that answers
  -- for every timeline, a timeline comes out, and its estimate is within the budget or it has no
  -- sessions.
  pub build_returns :
      IsTotal to_json
      → min_timeline_token_budget_tokens ≤ options.token_budget
      → All (λ e. IsInstant parse_rfc3339 e.ts) events
      → All (λ m. IsInstant parse_rfc3339 m.ts) metadata
      → (t : Timeline) × (build parse_rfc3339 to_json events metadata options ≡ ok t)
        × Fits options t
  unfolding parse_events
  build_returns total enough es ms =
      let (timed, e) = parse_all-IsOk parse_rfc3339 (λ e. e.id) (λ e. e.ts) timed_event events es in
      let (base, e') = with_snapshots-IsOk timed ms in
      let (t, e'') = fit-IsOk to_json options base total in
      (
        t,
        build_enough (ground arith)
            ∙ ap (λ r. r >>= λ timed. with_snapshots timed >>= fit to_json options) e
            ∙ ap (λ r. r >>= fit to_json options) e'
            ∙ e'',
        fit-Fits to_json options base t e'',
      )

  -- A timeline whose mark says that nothing has been dropped counts every snapshot of the metadata
  -- once, if they are at most 2^64 - 1.
  pub build-snapshots :
      (t : Timeline)
      → length metadata ≤ u64_max
      → build parse_rfc3339 to_json events metadata options ≡ ok t
      → t.truncated ≡ false
      → session_snapshots t.sessions ≡ length metadata
  build-snapshots t le h k =
      elim (Bool-cases (ltb options.token_budget min_timeline_token_budget_tokens)) [
        | inl b ↦ cc (build_little b)
        | inr b ↦
            let (timed, e, h') =
              >>=-eq-ok (parse_events parse_rfc3339 events)
                (λ timed. with_snapshots timed >>= fit to_json options)
                (sym (build_enough b) ∙ h) in
            let (base, e', h'') = >>=-eq-ok (with_snapshots timed) (fit to_json options) h' in
            let count = with_snapshots-snapshots timed base le e' in
            fit-snapshots to_json options base t (omega (arith, count)) h'' k ∙ count
      ]

  -- With an encoder that answers for every timeline, an error is either that the budget is less than
  -- 34 tokens, or that the parser does not read the timestamp of an event or of a snapshot, and
  -- then it names that event or snapshot and its timestamp.
  pub build-error :
      (e : TimelineError)
      → IsTotal to_json
      → build parse_rfc3339 to_json events metadata options ≡ err e
      → ((options.token_budget < min_timeline_token_budget_tokens)
          × (e ≡ token_budget_below_minimum min_timeline_token_budget_tokens))
        ⊎ (Rejects parse_rfc3339 (λ x. x.id) (λ x. x.ts) events e
            ⊎ Rejects parse_rfc3339 (λ x. x.id) (λ x. x.ts) metadata e)
  unfolding parse_events assign_content_snapshots parse_metadata
  build-error e total h =
      elim (Bool-cases (ltb options.token_budget min_timeline_token_budget_tokens)) [
        | inl b ↦ inl (ltb→lt _ _ b, cc (build_little b))
        | inr b ↦ elim (Result-cases (parse_events parse_rfc3339 events)) [
          | inr (e', k) ↦
              let k'' : e' ≡ e = cc (
                build_enough b,
                ap (λ r. r >>= λ timed. with_snapshots timed >>= fit to_json options) k,
              ) in
              inr (
                inl (
                  subst (Rejects parse_rfc3339 (λ x. x.id) (λ x. x.ts) events) k'' (
                    parse_all-Rejects parse_rfc3339 (λ x. x.id) (λ x. x.ts) timed_event events e'
                      k)))
          | inl (timed, k) ↦ elim (Result-cases (parse_metadata parse_rfc3339 metadata)) [
            | inr (e', k') ↦
                let split = split_sessions (sort_timed timed) in
                let k'' : e' ≡ e = cc (
                  build_enough b,
                  ap (λ r. r >>= λ timed. with_snapshots timed >>= fit to_json options) k,
                  ap
                      (λ r.
                        r
                        >>= (λ ms. ok (assign_all split (sort_metadata ms)))
                        >>= fit to_json options)
                      k',
                ) in
                inr (
                  inr (
                    subst (Rejects parse_rfc3339 (λ x. x.id) (λ x. x.ts) metadata) k'' (
                      parse_all-Rejects parse_rfc3339 (λ x. x.id) (λ x. x.ts) (λ t m. (t, m))
                        metadata e' k')))
            | inl (ms, k') ↦
                let split = split_sessions (sort_timed timed) in
                let base = assign_all split (sort_metadata ms) in
                let (t, k'') = fit-IsOk to_json options base total in
                cc (
                  build_enough b,
                  ap (λ r. r >>= λ timed. with_snapshots timed >>= fit to_json options) k,
                  ap
                      (λ r.
                        r
                        >>= (λ ms. ok (assign_all split (sort_metadata ms)))
                        >>= fit to_json options)
                      k',
                  k'',
                )
          ]
        ]
      ]
