-- ===== src/Core/Timeline/Outcomes.antt =====
-- crates/zanei-core/src/timeline/builder.rs: what `build` answers, errors included.
use zanei.Prelude.{
  ℕ, ◌+◌, ◌≤◌, ◌≡◌, refl, sym, ap, ◌∙◌, subst, Bool, true, false, ◌&&◌, Option, List, [], ◌∷◌, map,
  Text, arith, if◌then◌else◌, all, if_rule, u64_max,
}
use zanei.Core.Timeline.Model.{
  Granularity, fine, coarse, TimelineFormat, TimelineOptions, Timeline, Session, Result, ok, ◌>>=◌,
  >>=-eq-ok, RawSession,
}
use zanei.Core.Timeline.Sessions.{sessions_for_granularity, absorb_bounces, merge_adjacent_same_app}
use zanei.Core.Timeline.Assembly.{assemble, build_session}
use zanei.Core.Timeline.Render.{update_estimate}
use zanei.Core.Timeline.Bounces.{snapshots_of, absorb_bounces-snapshots}
use zanei.Core.Timeline.Merging.{merge_adjacent_same_app-snapshots}
use zanei.Core.Timeline.Budget.{
  Fits, Kept, update_estimate-Kept, Dropped-whole, drop_oldest-Fits, drop_oldest-Dropped,
}
use zanei.Core.Timeline.{
  Build, fit, coarsen, drop_ids, merge_sessions, drop_oldest, assembled, over_budget, strip_ids,
  replaced, without_ids, is_fine, is_json, has_no_ids,
}

-- The snapshots that the sessions of a timeline count.
unfoldable pub session_snapshots : List Session → ℕ
session_snapshots [] = 0
session_snapshots (s ∷ ss) = s.content_snapshots + session_snapshots ss

build_session-snapshots :
    (granularity : Granularity) (format : TimelineFormat) (ss : List RawSession)
    → session_snapshots (map (build_session granularity format) ss) ≡ snapshots_of ss
unfolding session_snapshots snapshots_of build_session
build_session-snapshots granularity format [] = refl
build_session-snapshots granularity format (s ∷ ss) =
    ap (◌+◌ s.content_snapshots) (build_session-snapshots granularity format ss)

strip_ids-snapshots :
    (ss : List Session) → session_snapshots (map strip_ids ss) ≡ session_snapshots ss
unfolding session_snapshots
strip_ids-snapshots [] = refl
strip_ids-snapshots (s ∷ ss) = ap (◌+◌ s.content_snapshots) (strip_ids-snapshots ss)

-- The local variables of `build` count `n` snapshots, and nothing has been dropped.
abbrev Shows : ℕ → Timeline → Type 0
Shows n t = (session_snapshots t.sessions ≡ n) × (t.truncated ≡ false)

abbrev Counts : ℕ → Build → Type 0
Counts n b = (snapshots_of b.raw_sessions ≡ n) × Shows n b.timeline

Kept-Shows : (n : ℕ) (t u : Timeline) → Kept t u → Shows n t → Shows n u
Kept-Shows n t u k s = (ap session_snapshots k.0 ∙ s.0, k.1 ∙ s.1)

without_ids-Shows : (n : ℕ) (t : Timeline) → Shows n t → Shows n (without_ids t)
unfolding without_ids
without_ids-Shows n t s = (strip_ids-snapshots t.sessions ∙ s.0, s.1)

-- A stage of `build` is done or left out.
stage_rule :
    (P : Build → Type 0) (c : Bool) (stage : Result Build) (b b' : Build)
    → (stage ≡ ok b' → P b')
    → P b
    → (if c then stage else ok b) ≡ ok b'
    → P b'
stage_rule P true stage b b' h p e = h e
stage_rule P false stage b b' h p e = let e' : b ≡ b' = cc in subst P e' p

module _ (to_json : Timeline → Option Text) (options : TimelineOptions) (n : ℕ) where
  assemble-Shows :
      (granularity : Granularity) (raw : List RawSession)
      → snapshots_of raw ≡ n
      → Shows n (assemble raw options granularity)
  unfolding assemble
  assemble-Shows granularity raw h =
      (build_session-snapshots granularity options.format raw ∙ h, refl)

  assembled-Counts :
      (granularity : Granularity) (raw : List RawSession) (change : Timeline → Timeline) (b : Build)
      → ((t : Timeline) → Shows n t → Shows n (change t))
      → snapshots_of raw ≡ n
      → assembled to_json options granularity raw change ≡ ok b
      → Counts n b
  assembled-Counts granularity raw change b c h e =
      let before = change (assemble raw options granularity) in
      let (t, e', k) =
        >>=-eq-ok (update_estimate to_json before options.format)
          (λ t. ok (record { granularity = granularity; raw_sessions = raw; timeline = t })) e in
      let shows =
        Kept-Shows n before t (update_estimate-Kept to_json options.format before t e')
          (c (assemble raw options granularity) (assemble-Shows granularity raw h)) in
      let k' : record { granularity = granularity; raw_sessions = raw; timeline = t } ≡ b = cc in
      subst (Counts n) k' (h, shows)

  coarsen-Counts :
      (base : List RawSession) (b b' : Build)
      → n ≤ u64_max
      → snapshots_of base ≡ n
      → Counts n b
      → coarsen to_json options base b ≡ ok b'
      → Counts n b'
  unfolding coarsen sessions_for_granularity
  coarsen-Counts base b b' le h c e =
      stage_rule (Counts n) (over_budget options b.timeline && is_fine b.granularity) _ b b'
        (assembled-Counts coarse (absorb_bounces base) (λ t. t) b' (λ t s. s)
          (absorb_bounces-snapshots base (omega (arith, h)) ∙ h))
        c e

  drop_ids-Counts : (b b' : Build) → Counts n b → drop_ids to_json options b ≡ ok b' → Counts n b'
  unfolding drop_ids
  drop_ids-Counts b b' c e =
      stage_rule (Counts n) (over_budget options b.timeline && is_json options.format) _ b b'
        (λ h.
          let (t, e', k) =
            >>=-eq-ok (update_estimate to_json (without_ids b.timeline) options.format) (replaced b)
              h in
          let k' : record b { timeline = t } ≡ b' = cc in
          subst (Counts n) k' (
            c.0,
            Kept-Shows n (without_ids b.timeline) t
                (update_estimate-Kept to_json options.format (without_ids b.timeline) t e')
                (without_ids-Shows n b.timeline c.1),
          ))
        c e

  merge_sessions-Counts :
      (b b' : Build)
      → n ≤ u64_max
      → Counts n b
      → merge_sessions to_json options b ≡ ok b'
      → Counts n b'
  unfolding merge_sessions
  merge_sessions-Counts b b' le c e =
      let ids_removed = is_json options.format && all has_no_ids b.timeline.sessions in
      stage_rule (Counts n) (over_budget options b.timeline) _ b b'
        (assembled-Counts b.granularity (merge_adjacent_same_app b.raw_sessions)
          (λ t. if ids_removed then without_ids t else t) b'
          (λ t s.
            if_rule (Shows n) ids_removed (without_ids t) t (λ _. without_ids-Shows n t s) (λ _. s))
          (merge_adjacent_same_app-snapshots b.raw_sessions (omega (arith, c.0)) ∙ c.0))
        c e

  sessions_for_granularity-snapshots :
      (base : List RawSession) (granularity : Granularity)
      → n ≤ u64_max
      → snapshots_of base ≡ n
      → snapshots_of (sessions_for_granularity base granularity) ≡ n
  unfolding sessions_for_granularity
  sessions_for_granularity-snapshots base fine le h = h
  sessions_for_granularity-snapshots base coarse le h =
      absorb_bounces-snapshots base (omega (arith, h)) ∙ h

-- The steps of `fit` in a row.
record Stages (to_json : Timeline → Option Text) (options : TimelineOptions)
    (base : List RawSession) (t : Timeline) : Type 0 where
  first : Build
  second : Build
  third : Build
  fourth : Build
  first_eq :
      assembled to_json options options.granularity
        (sessions_for_granularity base options.granularity)
        (λ t. t)
      ≡ ok first
  second_eq : coarsen to_json options base first ≡ ok second
  third_eq : drop_ids to_json options second ≡ ok third
  fourth_eq : merge_sessions to_json options third ≡ ok fourth
  last_eq : drop_oldest to_json options fourth.timeline fourth.timeline.sessions ≡ ok t

module _ (to_json : Timeline → Option Text) (options : TimelineOptions)
    (base : List RawSession) where
  fit-Stages : (t : Timeline) → fit to_json options base ≡ ok t → Stages to_json options base t
  unfolding fit
  fit-Stages t h =
      let a =
        assembled to_json options options.granularity
          (sessions_for_granularity base options.granularity) (λ t. t) in
      let c = coarsen to_json options base in
      let d = drop_ids to_json options in
      let m = merge_sessions to_json options in
      let (b4, e4, h4) =
        >>=-eq-ok (a >>= c >>= d >>= m)
          (λ b. drop_oldest to_json options b.timeline b.timeline.sessions) h in
      let (b3, e3, h3) = >>=-eq-ok (a >>= c >>= d) m e4 in
      let (b2, e2, h2) = >>=-eq-ok (a >>= c) d e3 in
      let (b1, e1, h1) = >>=-eq-ok a c e2 in
      record {
        first = b1;
        second = b2;
        third = b3;
        fourth = b4;
        first_eq = e1;
        second_eq = h1;
        third_eq = h2;
        fourth_eq = h3;
        last_eq = h4;
      }

  pub fit-Fits : (t : Timeline) → fit to_json options base ≡ ok t → Fits options t
  fit-Fits t h =
      let s = fit-Stages t h in drop_oldest-Fits to_json options s.fourth.timeline t s.last_eq

  -- The last stage's timeline counts the snapshots of the sessions, and what is left is its end.
  pub fit-snapshots :
      (t : Timeline)
      → snapshots_of base ≤ u64_max
      → fit to_json options base ≡ ok t
      → t.truncated ≡ false
      → session_snapshots t.sessions ≡ snapshots_of base
  fit-snapshots t le h k =
      let s = fit-Stages t h in
      let n = snapshots_of base in
      let c1 =
        assembled-Counts to_json options n options.granularity
          (sessions_for_granularity base options.granularity) (λ t. t) s.first (λ t s. s)
          (sessions_for_granularity-snapshots to_json options n base options.granularity le refl)
          s.first_eq in
      let c2 = coarsen-Counts to_json options n base s.first s.second le refl c1 s.second_eq in
      let c3 = drop_ids-Counts to_json options n s.second s.third c2 s.third_eq in
      let c4 = merge_sessions-Counts to_json options n s.third s.fourth le c3 s.fourth_eq in
      let d = drop_oldest-Dropped to_json options s.fourth.timeline t s.last_eq in
      let e = Dropped-whole s.fourth.timeline t d c4.1.1 k in ap session_snapshots (sym e) ∙ c4.1.0
