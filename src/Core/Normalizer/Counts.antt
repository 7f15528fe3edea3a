-- ===== src/Core/Normalizer/Counts.antt =====
-- No key press and no scroll step is lost by the coalescing of normalize.rs.
use zanei.Prelude.{
  ℕ, ◌+◌, ◌≡◌, refl, ap, ◌∙◌, true, some, List, [], ◌∷◌, ◌++◌, map, Text, arith, All, if_rule,
}
use zanei.Core.Schema.{Event, EventData, ContentSnapshotLine, CaptureContext, mark_truncated}
use zanei.Core.Limits.{limit_payload, limit_fields, exceeds_limits, enforce_size_limits}
use zanei.Core.Privacy.Filter.{PolicySelectors}
use zanei.Core.Normalizer.Keys.{
  PendingKind, key, scroll, window_title_change, kind_eq, payload_kind, pending_kind,
}
use zanei.Core.Normalizer.State.{
  NormalizedEvent, Pending, insert_event, sort_events, is_expired, expired, retained, drained,
}

abbrev pub count_of : EventData → ℕ
count_of (EventData.input_key d) = d.count
count_of (EventData.input_scroll d) = d.count
count_of _ = 0

-- The key presses and scroll steps of events.
unfoldable pub total : List NormalizedEvent → ℕ
total [] = 0
total (e ∷ es) = count_of e.event.payload + total es

abbrev pub pending_total : List Pending → ℕ
pending_total [] = 0
pending_total (p ∷ ps) = count_of p.event.event.payload + pending_total ps

insert_event-total :
    (e : NormalizedEvent) (es : List NormalizedEvent)
    → total (insert_event e es) ≡ count_of e.event.payload + total es
unfolding total insert_event
insert_event-total e [] = refl
insert_event-total e (f ∷ fs) = ground (arith, insert_event-total e fs)

pub sort_events-total : (es : List NormalizedEvent) → total (sort_events es) ≡ total es
unfolding total sort_events
sort_events-total [] = refl
sort_events-total (e ∷ es) =
    insert_event-total e (sort_events es)
    ∙ ap (◌+◌ (count_of e.event.payload)) (sort_events-total es)

pub append-total : (es fs : List NormalizedEvent) → total (es ++ fs) ≡ total es + total fs
unfolding total
append-total [] fs = omega arith
append-total (e ∷ es) fs = omega (arith, append-total es fs)

map-total : (ps : List Pending) → total (map (λ p. p.event) ps) ≡ pending_total ps
unfolding total
map-total [] = refl
map-total (p ∷ ps) = ap (◌+◌ (count_of p.event.event.payload)) (map-total ps)

pub drained-total : (ps : List Pending) → total (drained ps) ≡ pending_total ps
unfolding drained
drained-total ps = sort_events-total (map (λ p. p.event) ps) ∙ map-total ps

pub expired-total :
    (now : ℕ) (ps : List Pending)
    → total (expired now ps) + pending_total (retained now ps) ≡ pending_total ps
unfolding total expired retained
expired-total now [] = refl
expired-total now (p ∷ ps) = ground (arith, expired-total now ps)

-- The variant of the payloads of one kind.
abbrev pub variant : PendingKind → ℕ
variant (key a w c s f k) = 0
variant (scroll a w c s d) = 1
variant (window_title_change a w c) = 2

abbrev pub payload_variant : EventData → ℕ
payload_variant (EventData.input_key d) = 0
payload_variant (EventData.input_scroll d) = 1
payload_variant (EventData.window_title d) = 2
payload_variant _ = 3

-- The payload of a pending event is of the variant of its kind.
abbrev pub Matches : Pending → Type 0
Matches p = payload_variant p.event.event.payload ≡ variant p.kind

pub kind_eq-variant : (a b : PendingKind) → kind_eq a b ≡ true → variant a ≡ variant b
unfolding kind_eq
kind_eq-variant (key _ _ _ _ _ _) (key _ _ _ _ _ _) h = refl
kind_eq-variant (key _ _ _ _ _ _) (scroll _ _ _ _ _) h = cc
kind_eq-variant (key _ _ _ _ _ _) (window_title_change _ _ _) h = cc
kind_eq-variant (scroll _ _ _ _ _) (key _ _ _ _ _ _) h = cc
kind_eq-variant (scroll _ _ _ _ _) (scroll _ _ _ _ _) h = refl
kind_eq-variant (scroll _ _ _ _ _) (window_title_change _ _ _) h = cc
kind_eq-variant (window_title_change _ _ _) (key _ _ _ _ _ _) h = cc
kind_eq-variant (window_title_change _ _ _) (scroll _ _ _ _ _) h = cc
kind_eq-variant (window_title_change _ _ _) (window_title_change _ _ _) h = refl

pub retained-Matches :
    (now : ℕ) (ps : List Pending) → All Matches ps → All Matches (retained now ps)
unfolding retained
retained-Matches now [] a = tt
retained-Matches now (p ∷ ps) a =
    if_rule (All Matches) (is_expired now p) (retained now ps) (p ∷ retained now ps)
      (λ _. retained-Matches now ps a.1) (λ _. (a.0, retained-Matches now ps a.1))

payload_kind-variant :
    (lowercase : Text → Text) (e : Event) (c : CaptureContext) (s : PolicySelectors) (d : EventData)
    (k : PendingKind)
    → payload_kind lowercase e c s d ≡ some k
    → payload_variant d ≡ variant k
unfolding payload_kind
payload_kind-variant lowercase e c s d k h = ground arith

pub pending_kind-variant :
    (lowercase : Text → Text) (e : Event) (c : CaptureContext) (s : PolicySelectors)
    (k : PendingKind)
    → pending_kind lowercase e c s ≡ some k
    → payload_variant e.payload ≡ variant k
unfolding pending_kind
pending_kind-variant lowercase e c s k h =
    ground (arith, payload_kind-variant lowercase e c s e.payload k)

module _ (lines_bytes : List ContentSnapshotLine → ℕ) where
  limit_payload-count : (d : EventData) → count_of (limit_payload lines_bytes d).0 ≡ count_of d
  unfolding limit_payload
  limit_payload-count (EventData.input_key d) = refl
  limit_payload-count (EventData.input_scroll d) = refl
  limit_payload-count (EventData.window_title d) = refl
  limit_payload-count (EventData.ui_value d) = refl
  limit_payload-count (EventData.browser_navigate d) = refl
  limit_payload-count (EventData.clipboard_copy d) = refl
  limit_payload-count (EventData.clipboard_paste d) = refl
  limit_payload-count (EventData.content_snapshot d) = refl
  limit_payload-count _ = refl

  limit_payload-variant :
      (d : EventData) → payload_variant (limit_payload lines_bytes d).0 ≡ payload_variant d
  unfolding limit_payload
  limit_payload-variant (EventData.input_key d) = refl
  limit_payload-variant (EventData.input_scroll d) = refl
  limit_payload-variant (EventData.window_title d) = refl
  limit_payload-variant (EventData.ui_value d) = refl
  limit_payload-variant (EventData.browser_navigate d) = refl
  limit_payload-variant (EventData.clipboard_copy d) = refl
  limit_payload-variant (EventData.clipboard_paste d) = refl
  limit_payload-variant (EventData.content_snapshot d) = refl
  limit_payload-variant _ = refl

  enforce_size_limits-payload :
      (e : Event)
      → (enforce_size_limits lines_bytes e).payload ≡ (limit_payload lines_bytes e.payload).0
  unfolding enforce_size_limits limit_fields mark_truncated
  enforce_size_limits-payload e =
      if_rule (λ (f : Event). f.payload ≡ (limit_payload lines_bytes e.payload).0)
        (exceeds_limits lines_bytes e) (mark_truncated (limit_fields lines_bytes e))
        (limit_fields lines_bytes e) (λ _. refl) (λ _. refl)

  pub enforce_size_limits-count :
      (e : Event) → count_of (enforce_size_limits lines_bytes e).payload ≡ count_of e.payload
  enforce_size_limits-count e =
      ap count_of (enforce_size_limits-payload e) ∙ limit_payload-count e.payload

  pub enforce_size_limits-variant :
      (e : Event)
      → payload_variant (enforce_size_limits lines_bytes e).payload ≡ payload_variant e.payload
  enforce_size_limits-variant e =
      ap payload_variant (enforce_size_limits-payload e) ∙ limit_payload-variant e.payload
