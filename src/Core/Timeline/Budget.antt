-- ===== src/Core/Timeline/Budget.antt =====
-- crates/zanei-core/src/timeline/builder.rs: the budget, the errors and the counts of `build`.
use zanei.Prelude.{
  ◌≤◌, not, ◌||◌, not_ltb→le, is_empty, ◌≡◌, refl, sym, ap, ◌∙◌, subst, ◌⊎◌, inl, inr, true, false,
  Option, some, List, [], ◌∷◌, ◌++◌, Text, arith, Bool-cases,
}
use zanei.Core.Timeline.Model.{
  TimelineFormat, markdown, json, TimelineOptions, Timeline, Session, Result, ok, ◌>>=◌, >>=-eq-ok,
}
use zanei.Core.Timeline.Render.{serialize, update_estimate, estimate_once, estimate_tokens}
use zanei.Core.Timeline.{drop_oldest, over_budget}

-- The encoder answers for every timeline.
abbrev pub IsTotal : (Timeline → Option Text) → Type 0
IsTotal to_json = (t : Timeline) → (s : Text) × (to_json t ≡ some s)

abbrev pub IsOk {ℓ} : {A : Type ℓ} → Result A → Type ℓ
IsOk {A = A} r = (a : A) × (r ≡ ok a)

-- A chain succeeds if its first step does, and the next one on what that gives.
pub >>=-IsOk {ℓ κ} :
    {A : Type ℓ} {B : Type κ} (m : Result A) (f : A → Result B)
    → IsOk m
    → ((a : A) → m ≡ ok a → IsOk (f a))
    → IsOk (m >>= f)
>>=-IsOk m f (a, e) h = let (b, k) = h a e in (b, ap (λ x. x >>= f) e ∙ k)

-- A timeline with its sessions and its mark kept.
abbrev pub Kept : Timeline → Timeline → Type 0
Kept t u = (u.sessions ≡ t.sessions) × (u.truncated ≡ t.truncated)

Kept-trans : (t u v : Timeline) → Kept t u → Kept u v → Kept t v
Kept-trans t u v h k = (k.0 ∙ h.0, k.1 ∙ h.1)

-- A timeline that the loop ends with: within the budget, or empty.
abbrev pub Fits : TimelineOptions → Timeline → Type 0
Fits options t = (t.token_estimate ≤ options.token_budget) ⊎ (t.sessions ≡ [])

-- Some oldest sessions have gone, and the mark says whether any has.
pub record Dropped (t u : Timeline) : Type 0 where
  pub oldest : List Session
  pub was : t.sessions ≡ oldest ++ u.sessions
  pub mark : u.truncated ≡ (t.truncated || not (is_empty oldest))

-- Without the mark nothing has gone.
pub Dropped-whole :
    (t u : Timeline)
    → Dropped t u
    → t.truncated ≡ false
    → u.truncated ≡ false
    → t.sessions ≡ u.sessions
Dropped-whole t u d h k = whole d.oldest d.was d.mark
  where
    whole :
        (oldest : List Session)
        → t.sessions ≡ oldest ++ u.sessions
        → u.truncated ≡ (t.truncated || not (is_empty oldest))
        → t.sessions ≡ u.sessions
    whole [] e m = e
    whole (s ∷ ss) e m = ground arith

module _ (to_json : Timeline → Option Text) where
  estimate_once-Kept :
      (format : TimelineFormat) (t u : Timeline) → estimate_once to_json format t ≡ ok u → Kept t u
  estimate_once-Kept format t u h =
      let (s, e, k) =
        >>=-eq-ok (serialize to_json t format)
          (λ out. ok (record t { token_estimate = estimate_tokens out })) h in
      let k' : record t { token_estimate = estimate_tokens s } ≡ u = cc in
      subst (Kept t) k' (refl, refl)

  pub update_estimate-Kept :
      (format : TimelineFormat) (t u : Timeline)
      → update_estimate to_json t format ≡ ok u
      → Kept t u
  unfolding update_estimate
  update_estimate-Kept format t u h =
      let once = estimate_once to_json format in
      let (b, e, k) = >>=-eq-ok (once t >>= once) once h in
      let (a, e', k') = >>=-eq-ok (once t) once e in
      Kept-trans t a u (estimate_once-Kept format t a e')
        (Kept-trans a b u (estimate_once-Kept format a b k') (estimate_once-Kept format b u k))

  estimate_once-IsOk :
      IsTotal to_json
      → (format : TimelineFormat) (t : Timeline) → IsOk (estimate_once to_json format t)
  unfolding serialize
  estimate_once-IsOk h markdown t = (_, refl)
  estimate_once-IsOk h json t =
      let (s, e) = h t in (record t { token_estimate = estimate_tokens s }, rw e refl)

  pub update_estimate-IsOk :
      IsTotal to_json
      → (t : Timeline) (format : TimelineFormat) → IsOk (update_estimate to_json t format)
  unfolding update_estimate
  update_estimate-IsOk h t format =
      let once = estimate_once to_json format in
      >>=-IsOk (once t >>= once) once
        (>>=-IsOk (once t) once (estimate_once-IsOk h format t)
          (λ a _. estimate_once-IsOk h format a))
        (λ a _. estimate_once-IsOk h format a)

module _ (to_json : Timeline → Option Text) (options : TimelineOptions) where
  abbrev shorter : Timeline → List Session → Timeline
  shorter t ss = record t { sessions = ss; truncated = true }

  drop_oldest_over :
      (t : Timeline) (s : Session) (ss : List Session)
      → over_budget options t ≡ true
      → drop_oldest to_json options t (s ∷ ss) ≡ (
          update_estimate to_json (shorter t ss) options.format >>= λ t'.
          drop_oldest to_json options t' ss)
  unfolding drop_oldest
  drop_oldest_over t s ss h = rw (h, drop_oldest) refl

  drop_oldest_within :
      (t : Timeline) (s : Session) (ss : List Session)
      → over_budget options t ≡ false
      → drop_oldest to_json options t (s ∷ ss) ≡ ok t
  unfolding drop_oldest
  drop_oldest_within t s ss h = rw (h, drop_oldest) refl

  drop_oldest_empty : (t : Timeline) → drop_oldest to_json options t [] ≡ ok t
  unfolding drop_oldest
  drop_oldest_empty t = refl

  -- What holds of a timeline that the loop stops at, and of one that has a session dropped if it
  -- holds of the shorter one, holds of the loop's result.
  drop_oldest_rule {ℓ} :
      (P : Timeline → Timeline → Type ℓ)
      → ((t : Timeline) → Fits options t → P t t)
      → ((t v u : Timeline) (s : Session) (ss : List Session)
          → t.sessions ≡ s ∷ ss
          → Kept (shorter t ss) v
          → P v u
          → P t u)
      → (ss : List Session) (t u : Timeline) → t.sessions ≡ ss
      → drop_oldest to_json options t ss ≡ ok u
      → P t u
  drop_oldest_rule P stop next [] t u e h =
      let h' : t ≡ u = cc (drop_oldest_empty t) in subst (P t) h' (stop t (inr e))
  drop_oldest_rule P stop next (s ∷ ss) t u e h = elim (Bool-cases (over_budget options t)) [
    | inl k ↦
        let (v, e', h') =
          >>=-eq-ok (update_estimate to_json (shorter t ss) options.format)
            (λ t'. drop_oldest to_json options t' ss) (sym (drop_oldest_over t s ss k) ∙ h) in
        let kept = update_estimate-Kept to_json options.format (shorter t ss) v e' in
        next t v u s ss e kept (drop_oldest_rule P stop next ss v u kept.0 h')
    | inr k ↦
        let h' : t ≡ u = cc (drop_oldest_within t s ss k) in
        subst (P t) h' (stop t (inl (not_ltb→le options.token_budget t.token_estimate k)))
  ]

  pub drop_oldest-Fits :
      (t u : Timeline) → drop_oldest to_json options t t.sessions ≡ ok u → Fits options u
  drop_oldest-Fits t u h =
      drop_oldest_rule (λ t u. Fits options u) (λ t f. f) (λ t v u s ss e k p. p) t.sessions t u
        refl h

  pub drop_oldest-Dropped :
      (t u : Timeline) → drop_oldest to_json options t t.sessions ≡ ok u → Dropped t u
  drop_oldest-Dropped t u h =
      drop_oldest_rule Dropped (λ t f. record { oldest = []; was = refl; mark = ground arith })
        (λ t v u s ss e k d. record {
          oldest = s ∷ d.oldest;
          was = e ∙ ap (◌∷◌ s) (sym k.0 ∙ d.was);
          mark = d.mark ∙ ap (λ b. b || not (is_empty d.oldest)) k.1 ∙ ground arith;
        })
        t.sessions t u refl h

  pub drop_oldest-IsOk :
      IsTotal to_json → (ss : List Session) (t : Timeline) → IsOk (drop_oldest to_json options t ss)
  drop_oldest-IsOk h [] t = (t, drop_oldest_empty t)
  drop_oldest-IsOk h (s ∷ ss) t = elim (Bool-cases (over_budget options t)) [
    | inl k ↦ subst IsOk (sym (drop_oldest_over t s ss k)) (
        >>=-IsOk (update_estimate to_json (shorter t ss) options.format)
          (λ t'. drop_oldest to_json options t' ss)
          (update_estimate-IsOk to_json h (shorter t ss) options.format)
          (λ t' _. drop_oldest-IsOk h ss t'))
    | inr k ↦ (t, drop_oldest_within t s ss k)
  ]
