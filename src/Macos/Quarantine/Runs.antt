-- ===== src/Macos/Quarantine/Runs.antt =====
-- Any calls of quarantine.rs, one after the other: what they hold and what they release.
use zanei.Prelude.{
  ℕ, ◌+◌, ◌<◌, ◌≡◌, refl, ap, Bool, true, Option, none, some, List, [], ◌∷◌, ◌++◌, Text, arith, All,
  All-append,
}
use zanei.Core.Normalizer.State.{RawEvent}
use zanei.Core.Privacy.CapturePolicy.{Url}
use zanei.Macos.CapturePolicy.{CapturePolicy}
use zanei.Macos.Quarantine.{
  ChromeWindowKey, HeldEvent, HeldBodyKind, ReleasedEvent, TextQuarantine, new_quarantine,
  confirmation_safety_cap, hold_at, hold_text, hold_snapshot, release, flush_held, flush_all,
  resolve_unresponsive, released, without_text, is_snapshot, with_released,
}
use zanei.Macos.Quarantine.Parts.{
  IsWhole, IsObserved, IsPartition, done, stays, passes, loses_text, drops,
}
use zanei.Macos.Quarantine.Released.{release-IsPartition}

pub data Call : Type 0 where
  hold_text_call : RawEvent → ChromeWindowKey → ℕ → ℕ → ℕ → Call
  hold_snapshot_call : RawEvent → ChromeWindowKey → ℕ → ℕ → ℕ → Call
  release_call : ℕ → CapturePolicy → Call
  flush_call : Call

-- The texts that are held, released and, by the calls, brought in.
abbrev pub text_count : HeldBodyKind → ℕ
text_count HeldBodyKind.text_body = 1
text_count (HeldBodyKind.snapshot_body hash) = 0

abbrev pub texts_held : List HeldEvent → ℕ
texts_held [] = 0
texts_held (h ∷ hs) = text_count h.kind + texts_held hs

abbrev pub hash_count : Option (ChromeWindowKey × ℕ) → ℕ
hash_count none = 1
hash_count (some hash) = 0

abbrev pub texts_released : List ReleasedEvent → ℕ
texts_released [] = 0
texts_released (r ∷ rs) = hash_count r.snapshot_hash + texts_released rs

abbrev pub texts_called : List Call → ℕ
texts_called [] = 0
texts_called (hold_text_call event key version observed_at now ∷ cs) = 1 + texts_called cs
texts_called (hold_snapshot_call event key version hash held_at ∷ cs) = texts_called cs
texts_called (release_call now policy ∷ cs) = texts_called cs
texts_called (flush_call ∷ cs) = texts_called cs

texts_held-append : (xs ys : List HeldEvent) → texts_held (xs ++ ys) ≡ texts_held xs + texts_held ys
texts_held-append [] ys = omega arith
texts_held-append (x ∷ xs) ys = omega (arith, texts_held-append xs ys)

texts_released-append :
    (xs ys : List ReleasedEvent) → texts_released (xs ++ ys) ≡ texts_released xs + texts_released ys
texts_released-append [] ys = omega arith
texts_released-append (x ∷ xs) ys = omega (arith, texts_released-append xs ys)

snapshot_count : (k : HeldBodyKind) → is_snapshot k ≡ true → text_count k ≡ 0
snapshot_count HeldBodyKind.text_body h = cc
snapshot_count (HeldBodyKind.snapshot_body hash) h = refl

IsWhole-count :
    (h : HeldEvent) (r : ReleasedEvent) (k : HeldBodyKind)
    → h.kind ≡ k
    → IsWhole h r
    → hash_count r.snapshot_hash ≡ text_count k
IsWhole-count h r HeldBodyKind.text_body e w = ap hash_count (w.no_hash e)
IsWhole-count h r (HeldBodyKind.snapshot_body n) e w = ap hash_count (w.hash n e)

-- What the flush of one event of some kind adds.
unresponsive-count :
    (h : HeldEvent) (k : HeldBodyKind) (rs : List ReleasedEvent)
    → texts_released (with_released (resolve_unresponsive (record h { kind = k })) rs)
      ≡ text_count k + texts_released rs
unfolding resolve_unresponsive released without_text
unresponsive-count h HeldBodyKind.text_body rs = refl
unresponsive-count h (HeldBodyKind.snapshot_body n) rs = omega arith

flush_all-count : (hs : List HeldEvent) → texts_released (flush_all hs) ≡ texts_held hs
unfolding flush_all
flush_all-count [] = refl
flush_all-count (h ∷ hs) =
    omega (arith, unresponsive-count h h.kind (flush_all hs), flush_all-count hs)

texts_called-cons :
    (c : Call) (cs : List Call) → texts_called (c ∷ cs) ≡ texts_called (c ∷ []) + texts_called cs
texts_called-cons (hold_text_call event key version observed_at now) cs = omega arith
texts_called-cons (hold_snapshot_call event key version hash held_at) cs = omega arith
texts_called-cons (release_call now policy) cs = omega arith
texts_called-cons flush_call cs = omega arith

abbrev Expires : HeldEvent → Type 0
Expires h = h.expires_at ≡ h.held_at + confirmation_safety_cap

-- The events that the calls hold.
abbrev pub held_text : RawEvent → ChromeWindowKey → ℕ → ℕ → ℕ → HeldEvent
held_text event key version observed_at now = record {
  event = record event { observed_at = some observed_at };
  key = key;
  version_at_decision = version;
  held_at = now;
  expires_at = now + confirmation_safety_cap;
  kind = HeldBodyKind.text_body;
}

abbrev held_snapshot : RawEvent → ChromeWindowKey → ℕ → ℕ → ℕ → HeldEvent
held_snapshot event key version hash held_at = record {
  event = event;
  key = key;
  version_at_decision = version;
  held_at = held_at;
  expires_at = held_at + confirmation_safety_cap;
  kind = HeldBodyKind.snapshot_body hash;
}

abbrev pub Brings : (HeldEvent → Type 0) → Call → Type 0
Brings P (hold_text_call event key version observed_at now) =
    P (held_text event key version observed_at now)
Brings P (hold_snapshot_call event key version hash held_at) =
    P (held_snapshot event key version hash held_at)
Brings P (release_call now policy) = Unit
Brings P flush_call = Unit

Brings-Expires : (c : Call) → Brings Expires c
Brings-Expires (hold_text_call event key version observed_at now) = refl
Brings-Expires (hold_snapshot_call event key version hash held_at) = refl
Brings-Expires (release_call now policy) = tt
Brings-Expires flush_call = tt

module _ (lowercase : Text → Text) (is_ipv6 : Text → Bool) (parse_url : Text → Option Url) where
  IsPartition-count :
      (policy : CapturePolicy) (now : ℕ) {hs : List HeldEvent} {rs : List ReleasedEvent}
      {ps : List HeldEvent}
      → IsPartition lowercase is_ipv6 parse_url policy now hs rs ps
      → texts_held hs ≡ texts_released rs + texts_held ps
  IsPartition-count policy now done = refl
  IsPartition-count policy now (stays u l p) = omega (arith, IsPartition-count policy now p)
  IsPartition-count policy now (passes {h} {r} a w p) =
      omega (arith, IsWhole-count h r h.kind refl w, IsPartition-count policy now p)
  IsPartition-count policy now (loses_text {h} {r} d b p) =
      omega (arith, ap text_count b.kind, ap hash_count b.no_hash, IsPartition-count policy now p)
  IsPartition-count policy now (drops {h} d s p) =
      omega (arith, snapshot_count h.kind s, IsPartition-count policy now p)

  abbrev pub Waits : CapturePolicy → ℕ → HeldEvent → Type 0
  Waits policy now h =
      (now < h.held_at + confirmation_safety_cap)
      × (¬ IsObserved lowercase is_ipv6 parse_url policy h)

  unfoldable pub call : TextQuarantine → Call → TextQuarantine × List ReleasedEvent
  call q (hold_text_call event key version observed_at now) =
      (hold_text q event key version observed_at now, [])
  call q (hold_snapshot_call event key version hash held_at) =
      (hold_snapshot q event key version hash held_at, [])
  call q (release_call now policy) = release lowercase is_ipv6 parse_url q now policy
  call q flush_call = flush_held q

  unfoldable pub run : TextQuarantine → List Call → TextQuarantine × List ReleasedEvent
  run q [] = (q, [])
  run q (c ∷ cs) = let r = call q c in let rest = run r.0 cs in (rest.0, r.1 ++ rest.1)

  call-count :
      (q : TextQuarantine) (c : Call)
      → texts_called (c ∷ []) + texts_held q.held
        ≡ texts_released (call q c).1 + texts_held (call q c).0.held
  unfolding call hold_text hold_snapshot hold_at flush_held
  call-count q (hold_text_call event key version observed_at now) =
      omega (arith, texts_held-append q.held _)
  call-count q (hold_snapshot_call event key version hash held_at) =
      omega (arith, texts_held-append q.held _)
  call-count q (release_call now policy) = omega (
    arith,
    IsPartition-count policy now (release-IsPartition lowercase is_ipv6 parse_url policy now q),
  )
  call-count q flush_call = omega (arith, flush_all-count q.held)

  -- Over any calls, no event of a text is lost or repeated: those that were held before or by the
  -- calls are as many as those that have been released, with or without the text, and those that
  -- are still held.
  pub run-texts :
      (q : TextQuarantine) (cs : List Call)
      → texts_called cs + texts_held q.held
        ≡ texts_released (run q cs).1 + texts_held (run q cs).0.held
  unfolding run
  run-texts q [] = refl
  run-texts q (c ∷ cs) = omega (
    arith,
    texts_called-cons c cs,
    call-count q c,
    run-texts (call q c).0 cs,
    texts_released-append (call q c).1 (run (call q c).0 cs).1,
  )

  IsPartition-Waits :
      (policy : CapturePolicy) (now : ℕ) {hs : List HeldEvent} {rs : List ReleasedEvent}
      {ps : List HeldEvent}
      → IsPartition lowercase is_ipv6 parse_url policy now hs rs ps
      → All Expires hs
      → All (Waits policy now) ps
  IsPartition-Waits policy now done e = tt
  IsPartition-Waits policy now (stays {h} u l p) e =
      ((omega (arith, e.0, l), u), IsPartition-Waits policy now p e.1)
  IsPartition-Waits policy now (passes a w p) e = IsPartition-Waits policy now p e.1
  IsPartition-Waits policy now (loses_text d b p) e = IsPartition-Waits policy now p e.1
  IsPartition-Waits policy now (drops d s p) e = IsPartition-Waits policy now p e.1

  module _ (P : HeldEvent → Type 0) where
    IsPartition-All :
        (policy : CapturePolicy) (now : ℕ) {hs : List HeldEvent} {rs : List ReleasedEvent}
        {ps : List HeldEvent}
        → IsPartition lowercase is_ipv6 parse_url policy now hs rs ps
        → All P hs
        → All P ps
    IsPartition-All policy now done e = tt
    IsPartition-All policy now (stays u l p) e = (e.0, IsPartition-All policy now p e.1)
    IsPartition-All policy now (passes a w p) e = IsPartition-All policy now p e.1
    IsPartition-All policy now (loses_text d b p) e = IsPartition-All policy now p e.1
    IsPartition-All policy now (drops d s p) e = IsPartition-All policy now p e.1

    -- What the held events have, those that a call holds included, they keep.
    pub call-All :
        (q : TextQuarantine) (c : Call) → Brings P c → All P q.held → All P (call q c).0.held
    unfolding call hold_text hold_snapshot hold_at flush_held
    call-All q (hold_text_call event key version observed_at now) b e =
        All-append P q.held _ e (b, tt)
    call-All q (hold_snapshot_call event key version hash held_at) b e =
        All-append P q.held _ e (b, tt)
    call-All q (release_call now policy) b e =
        IsPartition-All policy now (release-IsPartition lowercase is_ipv6 parse_url policy now q) e
    call-All q flush_call b e = tt

  run-Expires :
      (q : TextQuarantine) (cs : List Call) → All Expires q.held → All Expires (run q cs).0.held
  unfolding run
  run-Expires q [] e = e
  run-Expires q (c ∷ cs) e = run-Expires (call q c).0 cs (call-All Expires q c (Brings-Expires c) e)

  -- Whatever has been called before, what a release at a time leaves in the quarantine was held
  -- less than two seconds before that time, and its window has not been observed since.
  pub release-Waits :
      (observer : List ChromeWindowKey) (cs : List Call) (now : ℕ) (policy : CapturePolicy)
      → All
          (Waits policy now)
          (call (run (new_quarantine observer) cs).0 (release_call now policy)).0.held
  unfolding call
  release-Waits observer cs now policy =
      IsPartition-Waits policy now
        (release-IsPartition lowercase is_ipv6 parse_url policy now
          (run (new_quarantine observer) cs).0)
        (run-Expires (new_quarantine observer) cs tt)
