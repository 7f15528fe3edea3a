-- ===== src/Core/Normalizer/Pushes.antt =====
-- The counts through `push_at` and `flush` of normalize.rs.
use zanei.Prelude.{
  subst, ℕ, ◌+◌, ◌≡◌, refl, ◌∙◌, Bool, Option, none, some, List, [], ◌∷◌, ◌++◌, Text, arith, All,
  Bool-cases, Option-cases, inl, inr, if_rule,
}
use zanei.Core.Schema.{Event, ContentSnapshotLine}
use zanei.Core.Normalizer.Keys.{PendingKind, pending_kind, event_schema_version}
use zanei.Core.Normalizer.{
  coalesce, coalesced, pending_bytes, push_event, push_normalized, push_at, normalize, stamped, new,
}
use zanei.Core.Normalizer.State.{
  NormalizedEvent, RawEvent, Stamp, Pending, Normalizer, NormalizeError, Result, ok, err,
  sort_events, expired, retained, drained, finish_push, over_limits, accept, goes_back,
}
use zanei.Core.Normalizer.Counts.{
  count_of, total, pending_total, Matches, retained-Matches, pending_kind-variant, expired-total,
  drained-total, append-total, sort_events-total, enforce_size_limits-count,
}
use zanei.Core.Normalizer.Conservation.{coalesce-Coalesced}

-- What a push that succeeds gives and keeps counts `c`.
abbrev pub Pushed : ℕ → Normalizer × Result (List NormalizedEvent) → Type 0
Pushed c (n, ok emitted) = (total emitted + pending_total n.pending ≡ c) × All Matches n.pending
Pushed c (n, err e) = Unit

total-one : (e : NormalizedEvent) → total (e ∷ []) ≡ count_of e.event.payload + 0
unfolding total
total-one e = refl

module _ (lowercase : Text → Text) (add_f64 : ℕ → ℕ → ℕ) (is_finite : ℕ → Bool)
    (json_bytes : Event → Option ℕ) (lines_bytes : List ContentSnapshotLine → ℕ) where
  finish_push-Pushed :
      (n : Normalizer) (emitted : List NormalizedEvent) (bytes : Option ℕ)
      → All Matches n.pending
      → Pushed (total emitted + pending_total n.pending) (finish_push n emitted bytes)
  unfolding finish_push
  finish_push-Pushed n emitted none a = tt
  finish_push-Pushed n emitted (some bytes) a =
      if_rule (Pushed (total emitted + pending_total n.pending)) (over_limits n.pending bytes)
        (record n { pending = [] }, ok (sort_events (emitted ++ drained n.pending)))
        (n, ok (sort_events emitted))
        (λ _. (
          omega (
            arith,
            sort_events-total (emitted ++ drained n.pending),
            append-total emitted (drained n.pending),
            drained-total n.pending,
          ),
          tt,
        ))
        (λ _. (omega (arith, sort_events-total emitted), a))

  coalesced-Pushed :
      (n : Normalizer) (emitted : List NormalizedEvent) (x : List Pending × Option NormalizeError)
      (c : ℕ)
      → (x.1 ≡ none → (pending_total x.0 ≡ c) × All Matches x.0)
      → Pushed
          (total emitted + c)
          (coalesced lowercase add_f64 is_finite json_bytes lines_bytes n emitted x)
  coalesced-Pushed n emitted (ps, some e) c h = tt
  coalesced-Pushed n emitted (ps, none) c h =
      subst
        (λ (d : ℕ). Pushed (total emitted + d) (
          finish_push (record n { pending = ps }) emitted
            (pending_bytes lowercase add_f64 is_finite json_bytes lines_bytes 0 ps)))
        (h refl).0 (finish_push-Pushed (record n { pending = ps }) emitted _ (h refl).1)

  push_event-Pushed :
      (n : Normalizer) (emitted : List NormalizedEvent) (e : NormalizedEvent)
      (kind : Option PendingKind)
      → All Matches n.pending
      → pending_kind lowercase e.event e.capture_context e.selectors ≡ kind
      → Pushed
          (total emitted + (pending_total n.pending + count_of e.event.payload))
          (push_event lowercase add_f64 is_finite json_bytes lines_bytes n emitted e kind)
  unfolding push_event
  push_event-Pushed n emitted e none a k = (
    omega (
      arith,
      sort_events-total (emitted ++ (drained n.pending ++ (e ∷ []))),
      append-total emitted (drained n.pending ++ (e ∷ [])),
      append-total (drained n.pending) (e ∷ []),
      drained-total n.pending,
      total-one e,
    ),
    tt,
  )
  push_event-Pushed n emitted e (some kind) a k =
      coalesced-Pushed n emitted
        (coalesce lowercase add_f64 is_finite json_bytes lines_bytes n.pending e kind)
        (pending_total n.pending + count_of e.event.payload)
        (coalesce-Coalesced lowercase add_f64 is_finite json_bytes lines_bytes n.pending e kind a
          (pending_kind-variant lowercase e.event e.capture_context e.selectors kind k))

  push_normalized-Pushed :
      (n : Normalizer) (mono_ns : ℕ) (count : ℕ) (r : Result NormalizedEvent)
      → All Matches n.pending
      → ((e : NormalizedEvent) → r ≡ ok e → count_of e.event.payload ≡ count)
      → Pushed
          (pending_total n.pending + count)
          (push_normalized lowercase add_f64 is_finite json_bytes lines_bytes n mono_ns r)
  push_normalized-Pushed n mono_ns count (err e) a h = tt
  push_normalized-Pushed n mono_ns count (ok e) a h =
      subst
        (λ (c : ℕ).
          Pushed c
            (push_normalized lowercase add_f64 is_finite json_bytes lines_bytes n mono_ns (ok e)))
        (omega (
          arith,
          h e refl,
          sort_events-total (expired mono_ns n.pending),
          expired-total mono_ns n.pending,
        ))
        (push_event-Pushed (record n { pending = retained mono_ns n.pending })
          (sort_events (expired mono_ns n.pending)) e _ (retained-Matches mono_ns n.pending a) refl)

  accept-count :
      (e f : NormalizedEvent) (bytes : Option ℕ)
      → accept e bytes ≡ ok f
      → count_of f.event.payload ≡ count_of e.event.payload
  accept-count e f none h = absurd (cc)
  accept-count e f (some n) h = cc

  stamped-count :
      (raw : RawEvent) (stamp : Stamp) (mono_ns version : ℕ)
      → count_of
          (stamped lowercase add_f64 is_finite json_bytes lines_bytes raw stamp mono_ns
            version).event.payload
        ≡ count_of raw.payload
  unfolding new
  stamped-count raw stamp mono_ns version = enforce_size_limits-count lines_bytes _

  normalize-count :
      (raw : RawEvent) (stamp : Stamp) (mono_ns : ℕ) (e : NormalizedEvent)
      → normalize lowercase add_f64 is_finite json_bytes lines_bytes raw stamp mono_ns ≡ ok e
      → count_of e.event.payload ≡ count_of raw.payload
  unfolding normalize
  normalize-count raw stamp mono_ns e h = elim (Bool-cases stamp.in_range) [
    | inr out_of_range ↦ absurd (ground (arith, out_of_range))
    | inl in_range ↦ elim (Option-cases (event_schema_version raw.event_type)) [
      | inl unknown ↦ absurd (ground (arith, in_range, unknown))
      | inr (version, known) ↦
          accept-count
            (stamped lowercase add_f64 is_finite json_bytes lines_bytes raw stamp mono_ns version) e
            (json_bytes
              (stamped lowercase add_f64 is_finite json_bytes lines_bytes raw stamp mono_ns
                version).event)
            (ground (arith, in_range, known))
          ∙ stamped-count raw stamp mono_ns version
    ]
  ]

  -- A push that succeeds neither loses nor repeats a key press or a scroll step, when the pending
  -- events are of the variants of their kinds: what it emits and what stays pending count what
  -- was pending and the pushed event.
  pub push_at-Pushed :
      (n : Normalizer) (raw : RawEvent) (stamp : Stamp) (mono_ns : ℕ)
      → All Matches n.pending
      → Pushed
          (pending_total n.pending + count_of raw.payload)
          (push_at lowercase add_f64 is_finite json_bytes lines_bytes n raw stamp mono_ns)
  unfolding push_at
  push_at-Pushed n raw stamp mono_ns a =
      if_rule (Pushed (pending_total n.pending + count_of raw.payload))
        (goes_back n.last_seen_mono_ns mono_ns) _
        (push_normalized lowercase add_f64 is_finite json_bytes lines_bytes
          (record n { last_seen_mono_ns = some mono_ns }) mono_ns
          (normalize lowercase add_f64 is_finite json_bytes lines_bytes raw stamp mono_ns))
        (λ _. tt)
        (λ _.
          push_normalized-Pushed (record n { last_seen_mono_ns = some mono_ns }) mono_ns
            (count_of raw.payload) _ a (normalize-count raw stamp mono_ns))
