-- ===== src/Macos/Routing/Confirmed.antt =====
-- A browser's text on its way through routing.rs and quarantine.rs.
use mathlib.Core.List.{Memᴰ}
use zanei.Prelude.{
  ℕ, ◌≡◌, refl, ap, sym, ◌∙◌, subst, Bool, true, Option, none, some, List, [], ◌∷◌, Text, All,
  All-append,
}
use zanei.Core.Privacy.CapturePolicy.{Url}
use zanei.Core.Normalizer.State.{RawEvent}
use zanei.Macos.CapturePolicy.{CapturePolicy, CaptureDecision}
use zanei.Macos.Quarantine.{
  ChromeWindowKey, HeldEvent, HeldBodyKind, ReleasedEvent, TextQuarantine, new_quarantine,
  with_released, resolve_unresponsive, released, without_text, flush_all, flush_held,
}
use zanei.Macos.Quarantine.Parts.{
  IsWhole, IsAuthorized, IsPartition, done, stays, passes, loses_text, drops,
}
use zanei.Macos.Quarantine.Released.{release-IsPartition}
use zanei.Macos.Quarantine.Runs.{
  Call, hold_text_call, hold_snapshot_call, release_call, flush_call, held_text, Brings, call, run,
  call-All,
}
use zanei.Macos.Routing.{quarantine, has_text_body, decision_for, route_text_body}
use zanei.Macos.Routing.Bodies.{
  IsPrivate, route_text_body-IsPrivate, has_text_body-none, suppressed_body,
}
use zanei.Macos.Routing.Sanctioned.{IsSanctioned, sanctioned}

All-Memᴰ :
    (P : ReleasedEvent → Type 0) (rs : List ReleasedEvent) (r : ReleasedEvent)
    → All P rs
    → Memᴰ r rs
    → P r
All-Memᴰ P [] r a m = elim m [ ]
All-Memᴰ P (s ∷ rs) r a (Memᴰ.head e) = subst P (sym e) a.0
All-Memᴰ P (s ∷ rs) r a (Memᴰ.tail m) = All-Memᴰ P rs r a.1 m

-- A whole event that is released without a hash is that of a text.
whole_text :
    (h : HeldEvent) (r : ReleasedEvent) (k : HeldBodyKind)
    → h.kind ≡ k
    → IsWhole h r
    → r.snapshot_hash ≡ none
    → h.kind ≡ HeldBodyKind.text_body
whole_text h r HeldBodyKind.text_body e w n = e
whole_text h r (HeldBodyKind.snapshot_body hash) e w n = cc (w.hash hash e)

module _ (lowercase : Text → Text) (is_ipv6 : Text → Bool) (parse_url : Text → Option Url) where
  -- The call holds a text that the router has sent to the quarantine, which a decision at its capture
  -- came before; or it holds no text.
  abbrev pub IsRouted : Call → Type 0
  IsRouted (hold_text_call e key version observed_at held_at) =
      (event : RawEvent) × (before : CapturePolicy) × (earlier : CaptureDecision) × (route_text_body
          lowercase is_ipv6 parse_url event before (some earlier)
        ≡ quarantine e key version observed_at)
  IsRouted _ = Unit

  -- The event is that of a text that a call of the list has held, and that a later observation and
  -- the policy of a release of the list have confirmed.
  pub record HasOrigin (cs : List Call) (sent : RawEvent) : Type 0 where
    pub event : RawEvent
    pub before : CapturePolicy
    pub at_capture : CaptureDecision
    pub waiting : RawEvent
    pub key : ChromeWindowKey
    pub version : ℕ
    pub observed_at : ℕ
    pub held_at : ℕ
    pub released_at : ℕ
    pub after : CapturePolicy
    pub was_held : Memᴰ (hold_text_call waiting key version observed_at held_at) cs
    pub was_routed :
        route_text_body lowercase is_ipv6 parse_url event before (some at_capture)
        ≡ quarantine waiting key version observed_at
    pub was_released : Memᴰ (release_call released_at after) cs
    pub sanctioned_as :
        IsSanctioned lowercase is_ipv6 parse_url event before after at_capture key version
          observed_at held_at sent

  -- A released text body has been confirmed.
  abbrev pub Confirms : List Call → ReleasedEvent → Type 0
  Confirms cs r = has_text_body r.event ≡ true → r.snapshot_hash ≡ none → HasOrigin cs r.event

  module _ (all_calls : List Call) where
    -- A held text is one that a call of the list has held, after the router.
    abbrev FromCall : HeldEvent → Type 0
    FromCall h =
        h.kind ≡ HeldBodyKind.text_body
        → (e : RawEvent) × (key : ChromeWindowKey) × (version : ℕ) × (observed_at : ℕ)
          × (held_at : ℕ) × Memᴰ (hold_text_call e key version observed_at held_at) all_calls
          × IsRouted (hold_text_call e key version observed_at held_at)
          × (h ≡ held_text e key version observed_at held_at)

    abbrev Listed : Call → Type 0
    Listed c = Memᴰ c all_calls × IsRouted c

    Listed-Brings : (c : Call) → Listed c → Brings FromCall c
    Listed-Brings (hold_text_call e key version observed_at held_at) l =
        λ k. (e, key, version, observed_at, held_at, l.0, l.1, refl)
    Listed-Brings (hold_snapshot_call e key version hash held_at) l = λ k. cc
    Listed-Brings (release_call now policy) l = tt
    Listed-Brings flush_call l = tt

    passes-Confirms :
        (policy : CapturePolicy) (now : ℕ) (h : HeldEvent) (r : ReleasedEvent)
        → Memᴰ (release_call now policy) all_calls
        → FromCall h
        → IsAuthorized lowercase is_ipv6 parse_url policy h
        → IsWhole h r
        → Confirms all_calls r
    passes-Confirms policy now h r m from auth w body no_hash =
        let (e, key, version, observed_at, held_at, held, (event, before, earlier, routed), same) =
          from (whole_text h r h.kind refl w no_hash) in
        record {
          event = event;
          before = before;
          at_capture = earlier;
          waiting = e;
          key = key;
          version = version;
          observed_at = observed_at;
          held_at = held_at;
          released_at = now;
          after = policy;
          was_held = held;
          was_routed = routed;
          was_released = m;
          sanctioned_as =
              sanctioned lowercase is_ipv6 parse_url event before policy earlier e key version
                observed_at held_at r.event
                (subst
                  (IsPrivate event
                    (decision_for lowercase is_ipv6 parse_url event before (some earlier)))
                  routed
                  (route_text_body-IsPrivate lowercase is_ipv6 parse_url event before
                    (some earlier)))
                (subst (IsAuthorized lowercase is_ipv6 parse_url policy) same auth)
                (w.event ∙ ap (λ (x : HeldEvent). x.event) same);
        }

    IsPartition-Confirms :
        (policy : CapturePolicy) (now : ℕ) {hs : List HeldEvent} {rs : List ReleasedEvent}
        {ps : List HeldEvent}
        → Memᴰ (release_call now policy) all_calls
        → IsPartition lowercase is_ipv6 parse_url policy now hs rs ps
        → All FromCall hs
        → All (Confirms all_calls) rs
    IsPartition-Confirms policy now m done f = tt
    IsPartition-Confirms policy now m (stays u l p) f = IsPartition-Confirms policy now m p f.1
    IsPartition-Confirms policy now m (passes {h} {r} a w p) f =
        (passes-Confirms policy now h r m f.0 a w, IsPartition-Confirms policy now m p f.1)
    IsPartition-Confirms policy now m (loses_text {h} {r} d b p) f =
        let bare = has_text_body-none r.event b.payload b.element in
        ((λ body none. cc), IsPartition-Confirms policy now m p f.1)
    IsPartition-Confirms policy now m (drops d s p) f = IsPartition-Confirms policy now m p f.1

    unresponsive-Confirms :
        (h : HeldEvent) (k : HeldBodyKind) (rs : List ReleasedEvent)
        → All (Confirms all_calls) rs
        → All (Confirms all_calls) (with_released (resolve_unresponsive (record h { kind = k })) rs)
    unfolding resolve_unresponsive released without_text
    unresponsive-Confirms h HeldBodyKind.text_body rs c =
        let bare = suppressed_body h.event in ((λ body none. cc), c)
    unresponsive-Confirms h (HeldBodyKind.snapshot_body n) rs c = c

    flush_all-Confirms : (hs : List HeldEvent) → All (Confirms all_calls) (flush_all hs)
    unfolding flush_all
    flush_all-Confirms [] = tt
    flush_all-Confirms (h ∷ hs) =
        unresponsive-Confirms h h.kind (flush_all hs) (flush_all-Confirms hs)

    call-Confirms :
        (q : TextQuarantine) (c : Call)
        → Listed c
        → All FromCall q.held
        → All (Confirms all_calls) (call lowercase is_ipv6 parse_url q c).1
    unfolding call flush_held
    call-Confirms q (hold_text_call e key version observed_at held_at) l f = tt
    call-Confirms q (hold_snapshot_call e key version hash held_at) l f = tt
    call-Confirms q (release_call now policy) l f =
        IsPartition-Confirms policy now l.0
          (release-IsPartition lowercase is_ipv6 parse_url policy now q) f
    call-Confirms q flush_call l f = flush_all-Confirms q.held

    run-Confirms :
        (q : TextQuarantine) (cs : List Call)
        → All Listed cs
        → All FromCall q.held
        → All (Confirms all_calls) (run lowercase is_ipv6 parse_url q cs).1
    unfolding run
    run-Confirms q [] l f = tt
    run-Confirms q (c ∷ cs) l f = All-append (Confirms all_calls) _ _ (call-Confirms q c l.0 f) (
        run-Confirms (call lowercase is_ipv6 parse_url q c).0 cs l.1
          (call-All lowercase is_ipv6 parse_url FromCall q c (Listed-Brings c l.0) f))

  -- Over any calls from an empty quarantine, whose texts the router has sent there after a decision
  -- at their capture: a text that leaves with its body, however many releases it has waited through,
  -- had been allowed at its capture, was allowed at its sending and, under the policy of the release,
  -- at its confirmation, and the version of its window was the same at the capture and at the
  -- confirmation, which comes after an observation that is later than the hold. The event is then as
  -- it came, with the context of its capture.
  pub confirmed_body :
      (observer : List ChromeWindowKey) (cs : List Call) (r : ReleasedEvent)
      → All IsRouted cs
      → Memᴰ r (run lowercase is_ipv6 parse_url (new_quarantine observer) cs).1
      → has_text_body r.event ≡ true
      → r.snapshot_hash ≡ none
      → HasOrigin cs r.event
  confirmed_body observer cs r routed =
      All-Memᴰ (Confirms cs) _ r
        (run-Confirms cs (new_quarantine observer) cs (listed cs routed (λ c m. m)) tt)
    where
      listed :
          (ds : List Call)
          → All IsRouted ds
          → ((c : Call) → Memᴰ c ds → Memᴰ c cs)
          → All (Listed cs) ds
      listed [] r inside = tt
      listed (d ∷ ds) r inside =
          ((inside d (Memᴰ.head refl), r.0), listed ds r.1 (λ c m. inside c (Memᴰ.tail m)))
