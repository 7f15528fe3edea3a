-- ===== src/Core/Normalizer/Runs.antt =====
-- Runs of the normalizer of normalize.rs: the order of what it emits, the bound on what it keeps,
-- and the counts over any pushes and flushes.
use zanei.Prelude.{
  ℕ, ◌+◌, ◌≤◌, ◌<◌, ◌≡◌, refl, subst, Bool, Option, none, some, List, [], ◌∷◌, ◌++◌, Text, leb,
  arith, All, if_rule, length,
}
use zanei.Core.Schema.{Event, ContentSnapshotLine}
use zanei.Core.Normalizer.Keys.{PendingKind}
use zanei.Core.Normalizer.{coalesced, push_event, push_normalized, push_at, normalize}
use zanei.Core.Normalizer.State.{
  NormalizedEvent, RawEvent, Stamp, Pending, Normalizer, NormalizeError, Result, ok, err,
  insert_event, sort_events, drained, flush, finish_push, over_limits, goes_back,
  max_pending_events,
}
use zanei.Core.Normalizer.Counts.{count_of, total, pending_total, Matches, drained-total}
use zanei.Core.Normalizer.Pushes.{Pushed, push_at-Pushed}

-- The events stand in the order of their monotonic times, from `lo` on.
abbrev pub Sorted : ℕ → List NormalizedEvent → Type 0
Sorted lo [] = Unit
Sorted lo (e ∷ es) = (lo ≤ e.event.mono_ns) × Sorted e.event.mono_ns es

insert_event-Sorted :
    (lo : ℕ) (e : NormalizedEvent) (fs : List NormalizedEvent)
    → lo ≤ e.event.mono_ns
    → Sorted lo fs
    → Sorted lo (insert_event e fs)
unfolding insert_event
insert_event-Sorted lo e [] h o = (h, tt)
insert_event-Sorted lo e (f ∷ fs) h o =
    if_rule (Sorted lo) (leb e.event.mono_ns f.event.mono_ns) (e ∷ f ∷ fs) (f ∷ insert_event e fs)
      (λ first. (h, (ground arith, o.1)))
      (λ later. (o.0, insert_event-Sorted f.event.mono_ns e fs (ground arith) o.1))

pub sort_events-Sorted : (es : List NormalizedEvent) → Sorted 0 (sort_events es)
unfolding sort_events
sort_events-Sorted [] = tt
sort_events-Sorted (e ∷ es) =
    insert_event-Sorted 0 e (sort_events es) (omega arith) (sort_events-Sorted es)

-- What a push that succeeds emits is in order, and it keeps fewer events than the bound.
abbrev pub Settled : Normalizer × Result (List NormalizedEvent) → Type 0
Settled (n, ok emitted) = Sorted 0 emitted × (length n.pending < max_pending_events)
Settled (n, err e) = Unit

module _ (lowercase : Text → Text) (add_f64 : ℕ → ℕ → ℕ) (is_finite : ℕ → Bool)
    (json_bytes : Event → Option ℕ) (lines_bytes : List ContentSnapshotLine → ℕ) where
  finish_push-Settled :
      (n : Normalizer) (emitted : List NormalizedEvent) (bytes : Option ℕ)
      → Settled (finish_push n emitted bytes)
  unfolding finish_push over_limits
  finish_push-Settled n emitted none = tt
  finish_push-Settled n emitted (some bytes) =
      if_rule Settled (over_limits n.pending bytes)
        (record n { pending = [] }, ok (sort_events (emitted ++ drained n.pending)))
        (n, ok (sort_events emitted))
        (λ _. (sort_events-Sorted (emitted ++ drained n.pending), omega arith))
        (λ within. (sort_events-Sorted emitted, ground arith))

  coalesced-Settled :
      (n : Normalizer) (emitted : List NormalizedEvent) (x : List Pending × Option NormalizeError)
      → Settled (coalesced lowercase add_f64 is_finite json_bytes lines_bytes n emitted x)
  coalesced-Settled n emitted (ps, some e) = tt
  coalesced-Settled n emitted (ps, none) = finish_push-Settled (record n { pending = ps }) emitted _

  push_event-Settled :
      (n : Normalizer) (emitted : List NormalizedEvent) (e : NormalizedEvent)
      (kind : Option PendingKind)
      → Settled (push_event lowercase add_f64 is_finite json_bytes lines_bytes n emitted e kind)
  unfolding push_event
  push_event-Settled n emitted e none =
      (sort_events-Sorted (emitted ++ (drained n.pending ++ (e ∷ []))), omega arith)
  push_event-Settled n emitted e (some kind) = coalesced-Settled n emitted _

  push_normalized-Settled :
      (n : Normalizer) (mono_ns : ℕ) (r : Result NormalizedEvent)
      → Settled (push_normalized lowercase add_f64 is_finite json_bytes lines_bytes n mono_ns r)
  push_normalized-Settled n mono_ns (err e) = tt
  push_normalized-Settled n mono_ns (ok e) = push_event-Settled _ _ e _

  -- What a push that succeeds emits stands in the order of the monotonic times, and fewer than 512
  -- events stay pending, whatever was pending before.
  pub push_at-Settled :
      (n : Normalizer) (raw : RawEvent) (stamp : Stamp) (mono_ns : ℕ)
      → Settled (push_at lowercase add_f64 is_finite json_bytes lines_bytes n raw stamp mono_ns)
  unfolding push_at
  push_at-Settled n raw stamp mono_ns =
      if_rule Settled (goes_back n.last_seen_mono_ns mono_ns) _
        (push_normalized lowercase add_f64 is_finite json_bytes lines_bytes
          (record n { last_seen_mono_ns = some mono_ns }) mono_ns
          (normalize lowercase add_f64 is_finite json_bytes lines_bytes raw stamp mono_ns))
        (λ _. tt) (λ _. push_normalized-Settled _ mono_ns _)

  -- A normalizer after pushes that succeeded and flushes, with the key presses and scroll steps
  -- that were pushed and those that were emitted.
  pub data Fed : Normalizer → ℕ → ℕ → Type 0 where
    fresh : Fed (record { last_seen_mono_ns = none; pending = [] }) 0 0
    push :
        {n m : Normalizer} {pushed emitted : ℕ} {out : List NormalizedEvent} (raw : RawEvent)
        (stamp : Stamp) (mono_ns : ℕ)
        → Fed n pushed emitted
        → push_at lowercase add_f64 is_finite json_bytes lines_bytes n raw stamp mono_ns
          ≡ (m, ok out)
        → Fed m (pushed + count_of raw.payload) (emitted + total out)
    flush_all :
        {n : Normalizer} {pushed emitted : ℕ}
        → Fed n pushed emitted
        → Fed (flush n).0 pushed (emitted + total (flush n).1)

  Fed-Matches :
      {n : Normalizer} {pushed emitted : ℕ}
      → Fed n pushed emitted
      → (emitted + pending_total n.pending ≡ pushed) × All Matches n.pending
  unfolding flush
  Fed-Matches fresh = (refl, tt)
  Fed-Matches (push {n} {m} {pushed} {emitted} {out} raw stamp mono_ns fed e) =
      let before = Fed-Matches fed in
      let after = subst (Pushed (pending_total n.pending + count_of raw.payload)) e (
        push_at-Pushed lowercase add_f64 is_finite json_bytes lines_bytes n raw stamp mono_ns
          before.1) in
      (omega (arith, before.0, after.0), after.1)
  Fed-Matches (flush_all {n} fed) =
      let before = Fed-Matches fed in (omega (arith, before.0, drained-total n.pending), tt)

  -- Over any successful pushes and flushes, every key press and scroll step that was pushed has
  -- been emitted or is pending, exactly once.
  pub Fed-total :
      {n : Normalizer} {pushed emitted : ℕ}
      → Fed n pushed emitted
      → emitted + pending_total n.pending ≡ pushed
  Fed-total fed = (Fed-Matches fed).0
