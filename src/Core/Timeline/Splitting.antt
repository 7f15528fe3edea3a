-- ===== src/Core/Timeline/Splitting.antt =====
-- crates/zanei-core/src/timeline/builder.rs: what `split_sessions` promises.
use mathlib.Core.List.{append_assoc, append-nil}
use zanei.Prelude.{
  ◌≡◌, refl, sym, ap, ◌∙◌, subst, ◌↔◌, inl, inr, Bool, true, false, Option, none, some, List, [],
  ◌∷◌, ◌++◌, is_empty, first?, last?, All, Bool-cases,
}
use zanei.Core.Timeline.Model.{TimedEvent, RawSession}
use zanei.Core.Timeline.Sessions.{splits, splits_after, raw_session, split_from, split_sessions}

-- The events of sessions, in order.
unfoldable pub events_of : List RawSession → List TimedEvent
events_of [] = []
events_of (s ∷ ss) = s.events ++ events_of ss

-- No event of the list begins a session.
abbrev pub Unbroken : List TimedEvent → Type 0
Unbroken [] = Unit
Unbroken (e ∷ []) = Unit
Unbroken (e ∷ f ∷ es) = (splits e f ≡ false) × Unbroken (f ∷ es)

-- A session of `split_sessions`: some events, unbroken, and no snapshot.
abbrev pub IsFresh : RawSession → Type 0
IsFresh s = (is_empty s.events ≡ false) × Unbroken s.events × (s ≡ raw_session s.events)

abbrev pub breaks : Option TimedEvent → Option TimedEvent → Bool
breaks none _ = false
breaks (some e) none = false
breaks (some e) (some f) = splits e f

-- The first event of each session but the first one splits it from the last event before.
abbrev pub Separated : List RawSession → Type 0
Separated [] = Unit
Separated (s ∷ []) = Unit
Separated (s ∷ t ∷ ss) = (breaks (last? s.events) (first? t.events) ≡ true) × Separated (t ∷ ss)

-- The sessions are the events, cut where one splits from the one before, and nowhere else.
pub record IsSplit (events : List TimedEvent) (sessions : List RawSession) : Type 0 where
  pub all_events : events_of sessions ≡ events
  pub fresh : All IsFresh sessions
  pub separated : Separated sessions

Unbroken-snoc :
    (es : List TimedEvent) (e : TimedEvent)
    → Unbroken es
    → splits_after (last? es) e ≡ false
    → Unbroken (es ++ (e ∷ []))
Unbroken-snoc [] e h k = tt
Unbroken-snoc (a ∷ []) e h k = (k, tt)
Unbroken-snoc (a ∷ b ∷ es) e h k = (h.0, Unbroken-snoc (b ∷ es) e h.1 k)

Unbroken-next :
    (es : List TimedEvent) (e : TimedEvent) (fs : List TimedEvent)
    → Unbroken (es ++ e ∷ fs)
    → splits_after (last? es) e ≡ false
Unbroken-next [] e fs h = refl
Unbroken-next (a ∷ []) e fs h = h.0
Unbroken-next (a ∷ b ∷ es) e fs h = Unbroken-next (b ∷ es) e fs h.1

snoc-filled : (es : List TimedEvent) (e : TimedEvent) → is_empty (es ++ (e ∷ [])) ≡ false
snoc-filled [] e = refl
snoc-filled (a ∷ es) e = refl

split_from_splits :
    (current : List TimedEvent) (e : TimedEvent) (es : List TimedEvent)
    → splits_after (last? current) e ≡ true
    → split_from current (e ∷ es) ≡ raw_session current ∷ split_from (e ∷ []) es
unfolding split_from
split_from_splits current e es h = rw (h, split_from) refl

split_from_joins :
    (current : List TimedEvent) (e : TimedEvent) (es : List TimedEvent)
    → splits_after (last? current) e ≡ false
    → split_from current (e ∷ es) ≡ split_from (current ++ (e ∷ [])) es
unfolding split_from
split_from_joins current e es h = rw (h, split_from) refl

split_from_none : split_from [] [] ≡ []
unfolding split_from
split_from_none = refl

split_from_end :
    (c : TimedEvent) (current : List TimedEvent)
    → split_from (c ∷ current) [] ≡ raw_session (c ∷ current) ∷ []
unfolding split_from
split_from_end c current = refl

-- The first session of `split_from` begins with the first event of `current`.
abbrev Begins : TimedEvent → List RawSession → Type 0
Begins e [] = Unit
Begins e (s ∷ ss) = first? s.events ≡ some e

split_from-Begins :
    (c : TimedEvent) (current es : List TimedEvent) → Begins c (split_from (c ∷ current) es)
split_from-Begins c current [] = subst (Begins c) (sym (split_from_end c current)) refl
split_from-Begins c current (e ∷ es) = elim (Bool-cases (splits_after (last? (c ∷ current)) e)) [
  | inl h ↦ subst (Begins c) (sym (split_from_splits (c ∷ current) e es h)) refl
  | inr h ↦
      subst (Begins c) (sym (split_from_joins (c ∷ current) e es h))
        (split_from-Begins c (current ++ (e ∷ [])) es)
]

split_from-events :
    (current es : List TimedEvent) → events_of (split_from current es) ≡ current ++ es
unfolding events_of split_from
split_from-events [] [] = refl
split_from-events (c ∷ current) [] = refl
split_from-events current (e ∷ es) = elim (Bool-cases (splits_after (last? current) e)) [
  | inl h ↦
      ap events_of (split_from_splits current e es h)
      ∙ ap (◌++◌ current) (split_from-events (e ∷ []) es)
  | inr h ↦
      ap events_of (split_from_joins current e es h)
      ∙ split_from-events (current ++ (e ∷ [])) es
      ∙ append_assoc current (e ∷ []) es
]

split_from-IsFresh :
    (current es : List TimedEvent) → Unbroken current → All IsFresh (split_from current es)
split_from-IsFresh [] [] u = subst (All IsFresh) (sym split_from_none) tt
split_from-IsFresh (c ∷ current) [] u =
    subst (All IsFresh) (sym (split_from_end c current)) ((refl, u, refl), tt)
split_from-IsFresh [] (e ∷ es) u =
    subst (All IsFresh) (sym (split_from_joins [] e es refl)) (split_from-IsFresh (e ∷ []) es tt)
split_from-IsFresh (c ∷ current) (e ∷ es) u =
    elim (Bool-cases (splits_after (last? (c ∷ current)) e)) [
      | inl h ↦
          subst (All IsFresh) (sym (split_from_splits (c ∷ current) e es h))
            ((refl, u, refl), split_from-IsFresh (e ∷ []) es tt)
      | inr h ↦
          subst (All IsFresh) (sym (split_from_joins (c ∷ current) e es h))
            (split_from-IsFresh (c ∷ current ++ (e ∷ [])) es (Unbroken-snoc (c ∷ current) e u h))
    ]

-- A split before a session that begins with the event.
Separated-cons :
    (s : RawSession) (e : TimedEvent) (ss : List RawSession)
    → splits_after (last? s.events) e ≡ true
    → Begins e ss
    → Separated ss
    → Separated (s ∷ ss)
Separated-cons s e [] h b k = tt
Separated-cons s e (t ∷ ts) h b k = (breaks_at (last? s.events) (first? t.events) h b, k)
  where
    breaks_at : (o p : Option TimedEvent) → splits_after o e ≡ true → p ≡ some e → breaks o p ≡ true
    breaks_at none p h b = cc
    breaks_at (some a) p h b = rw b h

split_from-Separated : (current es : List TimedEvent) → Separated (split_from current es)
split_from-Separated [] [] = subst Separated (sym split_from_none) tt
split_from-Separated (c ∷ current) [] = subst Separated (sym (split_from_end c current)) tt
split_from-Separated [] (e ∷ es) =
    subst Separated (sym (split_from_joins [] e es refl)) (split_from-Separated (e ∷ []) es)
split_from-Separated (c ∷ current) (e ∷ es) =
    elim (Bool-cases (splits_after (last? (c ∷ current)) e)) [
      | inl h ↦ subst Separated (sym (split_from_splits (c ∷ current) e es h)) (
          Separated-cons (raw_session (c ∷ current)) e (split_from (e ∷ []) es) h
            (split_from-Begins e [] es) (split_from-Separated (e ∷ []) es))
      | inr h ↦
          subst Separated (sym (split_from_joins (c ∷ current) e es h))
            (split_from-Separated (c ∷ current ++ (e ∷ [])) es)
    ]

split_sessions-IsSplit_of : (es : List TimedEvent) → IsSplit es (split_sessions es)
unfolding split_sessions
split_sessions-IsSplit_of es = record {
  all_events = split_from-events [] es;
  fresh = split_from-IsFresh [] es tt;
  separated = split_from-Separated [] es;
}

-- An unbroken session is read to its end.
split_from-append :
    (current es fs : List TimedEvent)
    → Unbroken (current ++ es)
    → split_from current (es ++ fs) ≡ split_from (current ++ es) fs
split_from-append current [] fs u = ap (λ x. split_from x fs) (sym (append-nil current))
split_from-append current (e ∷ es) fs u =
    split_from_joins current e (es ++ fs) (Unbroken-next current e es u)
    ∙ split_from-append (current ++ (e ∷ [])) es fs
        (subst Unbroken (sym (append_assoc current (e ∷ []) es)) u)
    ∙ ap (λ x. split_from x fs) (append_assoc current (e ∷ []) es)

split_from_session :
    (es fs : List TimedEvent) → Unbroken es → split_from [] (es ++ fs) ≡ split_from es fs
split_from_session es fs u = split_from-append [] es fs u

split_from_filled :
    (es : List TimedEvent) → is_empty es ≡ false → split_from es [] ≡ raw_session es ∷ []
split_from_filled [] h = cc
split_from_filled (c ∷ es) h = split_from_end c es

breaks-splits_after :
    (o p : Option TimedEvent) (e : TimedEvent)
    → p ≡ some e
    → breaks o p ≡ true
    → splits_after o e ≡ true
breaks-splits_after none p e k h = cc
breaks-splits_after (some a) p e k h = subst (λ q. breaks (some a) q ≡ true) k h

breaks-none : (o : Option TimedEvent) → breaks o none ≡ false
breaks-none none = refl
breaks-none (some a) = refl

split_from_next :
    (es ts more : List TimedEvent)
    → breaks (last? es) (first? ts) ≡ true
    → split_from es (ts ++ more) ≡ raw_session es ∷ split_from [] (ts ++ more)
split_from_next es [] more h = cc (breaks-none (last? es))
split_from_next es (x ∷ xs) more h =
    split_from_splits es x (xs ++ more) (breaks-splits_after (last? es) (some x) x refl h)
    ∙ ap (◌∷◌ (raw_session es)) (sym (split_from_joins [] x (xs ++ more) refl))

-- The sessions that the description allows are those of the loop.
only_split :
    (ss : List RawSession) → All IsFresh ss → Separated ss → split_from [] (events_of ss) ≡ ss
unfolding events_of
only_split [] f p = split_from_none
only_split (s ∷ []) f p =
    split_from_session s.events [] f.0.1
    ∙ split_from_filled s.events f.0.0
    ∙ ap (λ r. r ∷ []) (sym f.0.2)
only_split (s ∷ t ∷ ss) f p =
    split_from_session s.events (t.events ++ events_of ss) f.0.1
    ∙ split_from_next s.events t.events (events_of ss) p.0
    ∙ ap (◌∷◌ (raw_session s.events)) (only_split (t ∷ ss) f.1 p.1)
    ∙ ap (λ r. r ∷ t ∷ ss) (sym f.0.2)

-- The sessions of a list of events are the only lists of sessions that hold these events in this
-- order, each session some events and no snapshot, such that an event opens a session exactly when
-- it splits from the event before it: it comes more than 5 minutes later or activates another app.
pub split_sessions-IsSplit :
    (es : List TimedEvent) (ss : List RawSession) → (split_sessions es ≡ ss) ↔ IsSplit es ss
unfolding split_sessions
split_sessions-IsSplit es ss = (
  λ h. subst (IsSplit es) h (split_sessions-IsSplit_of es),
  λ h. ap (split_from []) (sym h.all_events) ∙ only_split ss h.fresh h.separated,
)
