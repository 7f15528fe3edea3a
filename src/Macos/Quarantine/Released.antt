-- ===== src/Macos/Quarantine/Released.antt =====
-- What quarantine.rs releases, drops and keeps.
use zanei.Prelude.{
  ℕ, ◌<◌, ◌≡◌, ◌≢◌, ◌⊎◌, inl, inr, refl, ap, sym, subst, Bool, true, false, not, ◌&&◌, ◌||◌, Option,
  none, some, List, [], ◌∷◌, Text, leb, if_rule, if◌then◌else◌, arith, ltb→lt, leb→le, not_leb→lt,
  ==_iff,
}
use zanei.Core.Privacy.CapturePolicy.{Url}
use zanei.Core.Privacy.Filter.Carried.{
  suppress_payload-NoPayloadText, suppress_element-NoElementValue,
}
use zanei.Macos.CapturePolicy.{CapturePolicy}
use zanei.Macos.Quarantine.Parts.{
  IsWhole, IsBare, IsObserved, IsAuthorized, IsRefused, IsDenied, IsPartition, done, stays, passes,
  loses_text, drops,
}
use zanei.Macos.Quarantine.{
  HeldEvent, HeldBodyKind, ReleasedEvent, Turns, let_go, keep, is_snapshot, is_after, is_version,
  released, without_text, decision_of, is_confirmed, resolve_confirmed, resolve_unresponsive,
  release_all, release, TextQuarantine,
}

-- The branches of `resolve_confirmed`.
verdict :
    (P : Option ReleasedEvent → Type 0) (allowed unchanged snapshot : Bool) (whole bare : HeldEvent)
    → (allowed ≡ true → unchanged ≡ true → P (some (released whole)))
    → ((allowed ≡ false) ⊎ (unchanged ≡ false) → snapshot ≡ true → P none)
    → ((allowed ≡ false) ⊎ (unchanged ≡ false) → snapshot ≡ false → P (some (released bare)))
    → P (
        if not allowed && snapshot
        then none
        else if not unchanged && snapshot
        then none
        else some (released (if not allowed || not unchanged then bare else whole)))
verdict P true true s whole bare x y z = x refl refl
verdict P true false true whole bare x y z = y (inr refl) refl
verdict P true false false whole bare x y z = z (inr refl) refl
verdict P false u true whole bare x y z = y (inl refl) refl
verdict P false true false whole bare x y z = z (inl refl) refl
verdict P false false false whole bare x y z = z (inl refl) refl

module _ (lowercase : Text → Text) (is_ipv6 : Text → Bool) (parse_url : Text → Option Url)
    (policy : CapturePolicy) where
  module _ (now : ℕ) where
    -- What becomes of a held event that does not stay.
    abbrev Resolved : HeldEvent → Option ReleasedEvent → Type 0
    Resolved h none =
        IsDenied lowercase is_ipv6 parse_url policy now h × (is_snapshot h.kind ≡ true)
    Resolved h (some r) =
        (IsAuthorized lowercase is_ipv6 parse_url policy h × IsWhole h r)
        ⊎ (IsDenied lowercase is_ipv6 parse_url policy now h × IsBare h r)

    abbrev Turned : HeldEvent → List HeldEvent → Turns → Type 0
    Turned h hs t = IsPartition lowercase is_ipv6 parse_url policy now (h ∷ hs) t.out t.pending

    let_go-IsPartition :
        {h : HeldEvent} {hs : List HeldEvent} (o : Option ReleasedEvent) (t : Turns)
        → Resolved h o
        → IsPartition lowercase is_ipv6 parse_url policy now hs t.out t.pending
        → IsPartition lowercase is_ipv6 parse_url policy now
            (h ∷ hs)
            (let_go o t).out
            (let_go o t).pending
    let_go-IsPartition none t (d, s) p = drops d s p
    let_go-IsPartition (some r) t (inl (a, w)) p = passes a w p
    let_go-IsPartition (some r) t (inr (d, b)) p = loses_text d b p

    is_after→lt : (o : Option ℕ) (n : ℕ) → is_after o n ≡ true → (t : ℕ) × (o ≡ some t) × (n < t)
    is_after→lt none n h = cc
    is_after→lt (some t) n h = (t, refl, ltb→lt n t h)

    lt→is_after : (o : Option ℕ) (n : ℕ) (t : ℕ) → o ≡ some t → n < t → is_after o n ≡ true
    lt→is_after o n t e h = subst (λ x. is_after x n ≡ true) (sym e) (ground arith)

    is_version→some : (o : Option ℕ) (v : ℕ) → is_version o v ≡ true → o ≡ some v
    is_version→some none v h = cc
    is_version→some (some w) v h = ap some ((==_iff w v).0 h)

    is_version-changed : (o : Option ℕ) (v : ℕ) → is_version o v ≡ false → o ≢ some v
    is_version-changed o v h e =
        let on = subst (λ x. is_version x v ≡ true) (sym e) ((==_iff v v).1 refl) in cc

    refused :
        (h : HeldEvent)
        → IsObserved lowercase is_ipv6 parse_url policy h
        → ((decision_of lowercase is_ipv6 parse_url policy h).allowed ≡ false)
          ⊎ (is_version
                (decision_of lowercase is_ipv6 parse_url policy h).chrome_version
                h.version_at_decision
              ≡ false)
        → IsRefused lowercase is_ipv6 parse_url policy h
    refused h seen (inl a) = record { observed = seen; why = inl a }
    refused h seen (inr u) = record {
      observed = seen;
      why = inr (is_version-changed _ h.version_at_decision u);
    }

    text_kind : (k : HeldBodyKind) → is_snapshot k ≡ false → k ≡ HeldBodyKind.text_body
    text_kind HeldBodyKind.text_body h = refl
    text_kind (HeldBodyKind.snapshot_body n) h = cc

    released-IsWhole : (h : HeldEvent) → IsWhole h (released h)
    unfolding released
    released-IsWhole h = record {
      event = refl;
      no_hash = λ e. rw (e) refl;
      hash = λ n e. rw (e) refl;
    }

    without_text-IsBare :
        (h : HeldEvent) → is_snapshot h.kind ≡ false → IsBare h (released (without_text h))
    unfolding released without_text
    without_text-IsBare h s = record {
      kind = text_kind h.kind s;
      payload = suppress_payload-NoPayloadText h.event.payload;
      element = suppress_element-NoElementValue h.event.element;
      others = refl;
      no_hash = rw (text_kind h.kind s) refl;
    }

    not_after :
        (h : HeldEvent)
        → is_confirmed lowercase is_ipv6 parse_url policy h ≡ false
        → ¬ IsObserved lowercase is_ipv6 parse_url policy h
    unfolding is_confirmed
    not_after h off (t, e, lt) =
        let on =
          lt→is_after (policy.chrome.observed_at h.key.pid h.key.window_id) h.held_at t e lt in
        cc

    resolve_unresponsive-Resolved :
        (h : HeldEvent)
        → IsDenied lowercase is_ipv6 parse_url policy now h
        → Resolved h (resolve_unresponsive h)
    unfolding resolve_unresponsive
    resolve_unresponsive-Resolved h d =
        if_rule (Resolved h) (is_snapshot h.kind) none (some (released (without_text h)))
          (λ yes. (d, yes)) (λ off. inr (d, without_text-IsBare h off))

    resolve_confirmed-Resolved :
        (h : HeldEvent)
        → IsObserved lowercase is_ipv6 parse_url policy h
        → Resolved h (resolve_confirmed lowercase is_ipv6 parse_url policy h)
    unfolding resolve_confirmed
    resolve_confirmed-Resolved h seen =
        verdict (Resolved h) (decision_of lowercase is_ipv6 parse_url policy h).allowed
          (is_version (decision_of lowercase is_ipv6 parse_url policy h).chrome_version
            h.version_at_decision)
          (is_snapshot h.kind) h (without_text h)
          (λ a u. inl (
            record {
              observed = seen;
              allowed = a;
              version = is_version→some _ h.version_at_decision u;
            },
            released-IsWhole h,
          ))
          (λ why s. (inl (refused h seen why), s))
          (λ why s. inr (inl (refused h seen why), without_text-IsBare h s))

    -- One turn of the loop of `release`, after the turns of the rest.
    step :
        (h : HeldEvent) (hs : List HeldEvent) (rest : Turns)
        → IsPartition lowercase is_ipv6 parse_url policy now hs rest.out rest.pending
        → Turned h hs (
            if is_confirmed lowercase is_ipv6 parse_url policy h
            then let_go (resolve_confirmed lowercase is_ipv6 parse_url policy h) rest
            else if leb h.expires_at now
            then let_go (resolve_unresponsive h) rest
            else keep h rest)
    unfolding is_confirmed
    step h hs rest later =
        if_rule (Turned h hs) (is_confirmed lowercase is_ipv6 parse_url policy h) _ _
          (λ yes.
            let_go-IsPartition _ rest (resolve_confirmed-Resolved h (is_after→lt _ h.held_at yes))
              later)
          (λ off.
            if_rule (Turned h hs) (leb h.expires_at now) _ _
              (λ over.
                let_go-IsPartition _ rest
                  (resolve_unresponsive-Resolved h (
                    inr (record {
                      unobserved = not_after h off;
                      late = leb→le h.expires_at now over;
                    })))
                  later)
              (λ early. stays (not_after h off) (not_leb→lt h.expires_at now early) later))

    release_all-IsPartition :
        (hs : List HeldEvent)
        → IsPartition lowercase is_ipv6 parse_url policy now hs
            (release_all lowercase is_ipv6 parse_url policy now hs).out
            (release_all lowercase is_ipv6 parse_url policy now hs).pending
    unfolding release_all is_confirmed
    release_all-IsPartition [] = done
    release_all-IsPartition (h ∷ hs) =
        step h hs (release_all lowercase is_ipv6 parse_url policy now hs)
          (release_all-IsPartition hs)

    -- `release` parts the held events, in their order: an event stays as long as its window has not
    -- been observed after the hold and its time has not run out. One whose window has been observed
    -- is released whole exactly when the policy allows its body and the window's version is that of
    -- the hold. Every other text is released without its body, and every other snapshot is dropped.
    pub release-IsPartition :
        (q : TextQuarantine)
        → IsPartition lowercase is_ipv6 parse_url policy now q.held
            (release lowercase is_ipv6 parse_url q now policy).1
            (release lowercase is_ipv6 parse_url q now policy).0.held
    unfolding release
    release-IsPartition q = release_all-IsPartition q.held
