-- ===== src/Core/Timeline/Bounces.antt =====
-- crates/zanei-core/src/timeline/builder.rs: what `absorb_bounces` and `merge_adjacent_same_app`
-- keep, and what they leave.
use mathlib.Core.List.{append_assoc, append-nil, reverse-cons, reverse-append, reverse-reverse}
use zanei.Prelude.{
  ℕ, ◌+◌, ◌≤◌, ◌≡◌, refl, sym, ap, ◌∙◌, subst, inl, inr, true, false, List, [], ◌∷◌, ◌++◌, reverse,
  arith, Bool-cases, saturating_add, u64_max,
}
use zanei.Core.Timeline.Model.{TimedEvent, RawSession}
use zanei.Core.Timeline.Sessions.{is_bounce, absorbed, collapse, absorb_from, absorb_bounces}
use zanei.Core.Timeline.Splitting.{events_of}

-- The snapshots that sessions count.
unfoldable pub snapshots_of : List RawSession → ℕ
snapshots_of [] = 0
snapshots_of (s ∷ ss) = s.content_snapshots + snapshots_of ss

pub events_of-append :
    (ss ts : List RawSession) → events_of (ss ++ ts) ≡ events_of ss ++ events_of ts
unfolding events_of
events_of-append [] ts = refl
events_of-append (s ∷ ss) ts =
    ap (◌++◌ s.events) (events_of-append ss ts)
    ∙ sym (append_assoc s.events (events_of ss) (events_of ts))

pub snapshots_of-append :
    (ss ts : List RawSession) → snapshots_of (ss ++ ts) ≡ snapshots_of ss + snapshots_of ts
unfolding snapshots_of
snapshots_of-append [] ts = omega arith
snapshots_of-append (s ∷ ss) ts = omega (arith, snapshots_of-append ss ts)

events_of-reverse_cons :
    (s : RawSession) (ss : List RawSession)
    → events_of (reverse (s ∷ ss)) ≡ events_of (reverse ss) ++ s.events
unfolding events_of
events_of-reverse_cons s ss =
    ap events_of (reverse-cons s ss)
    ∙ events_of-append (reverse ss) (s ∷ [])
    ∙ ap (◌++◌ (events_of (reverse ss))) (append-nil s.events)

snapshots_of-reverse : (ss : List RawSession) → snapshots_of (reverse ss) ≡ snapshots_of ss
unfolding snapshots_of
snapshots_of-reverse [] = refl
snapshots_of-reverse (s ∷ ss) =
    ap snapshots_of (reverse-cons s ss)
    ∙ snapshots_of-append (reverse ss) (s ∷ [])
    ∙ omega (arith, snapshots_of-reverse ss)

collapse_bounce :
    (last middle leading : RawSession) (rest : List RawSession)
    → is_bounce leading middle last ≡ true
    → collapse last (middle ∷ leading ∷ rest) ≡ collapse (absorbed leading middle last) rest
unfolding collapse
collapse_bounce last middle leading rest h = rw (h, collapse) refl

collapse_keeps :
    (last middle leading : RawSession) (rest : List RawSession)
    → is_bounce leading middle last ≡ false
    → collapse last (middle ∷ leading ∷ rest) ≡ last ∷ middle ∷ leading ∷ rest
unfolding collapse
collapse_keeps last middle leading rest h = rw (h, collapse) refl

collapse_one : (last : RawSession) → collapse last [] ≡ last ∷ []
unfolding collapse
collapse_one last = refl

collapse_two : (last middle : RawSession) → collapse last (middle ∷ []) ≡ last ∷ middle ∷ []
unfolding collapse
collapse_two last middle = refl

-- Every stack of sessions, the last one first, is left as it is or has a bounce absorbed.
collapse_rule {ℓ} :
    (P : RawSession → List RawSession → List RawSession → Type ℓ)
    → ((s : RawSession) (ss : List RawSession) → P s ss (s ∷ ss))
    → ((l m k : RawSession) (ss : List RawSession)
        → is_bounce k m l ≡ true
        → P (absorbed k m l) ss (collapse (absorbed k m l) ss)
        → P l (m ∷ k ∷ ss) (collapse (absorbed k m l) ss))
    → (s : RawSession) (ss : List RawSession) → P s ss (collapse s ss)
collapse_rule P keep absorb s [] = subst (P s []) (sym (collapse_one s)) (keep s [])
collapse_rule P keep absorb s (m ∷ []) =
    subst (P s (m ∷ [])) (sym (collapse_two s m)) (keep s (m ∷ []))
collapse_rule P keep absorb s (m ∷ k ∷ ss) = elim (Bool-cases (is_bounce k m s)) [
  | inl h ↦
      subst (P s (m ∷ k ∷ ss)) (sym (collapse_bounce s m k ss h))
        (absorb s m k ss h (collapse_rule P keep absorb (absorbed k m s) ss))
  | inr h ↦ subst (P s (m ∷ k ∷ ss)) (sym (collapse_keeps s m k ss h)) (keep s (m ∷ k ∷ ss))
]

absorbed-events :
    (before : List TimedEvent) (l m k : RawSession)
    → before ++ (absorbed k m l).events ≡ ((before ++ k.events) ++ m.events) ++ l.events
unfolding absorbed
absorbed-events before l m k = simp append_assoc

collapse-events :
    (s : RawSession) (ss : List RawSession)
    → events_of (reverse (collapse s ss)) ≡ events_of (reverse ss) ++ s.events
collapse-events s ss =
    collapse_rule (λ s ss out. events_of (reverse out) ≡ events_of (reverse ss) ++ s.events)
      (λ s ss. events_of-reverse_cons s ss)
      (λ l m k ss h e.
        e
        ∙ absorbed-events (events_of (reverse ss)) l m k
        ∙ ap (λ x. (x ++ m.events) ++ l.events) (sym (events_of-reverse_cons k ss))
        ∙ ap (λ x. x ++ l.events) (sym (events_of-reverse_cons m (k ∷ ss))))
      s ss

absorb_from-events :
    (out ss : List RawSession)
    → events_of (absorb_from out ss) ≡ events_of (reverse out) ++ events_of ss
unfolding absorb_from events_of
absorb_from-events out [] = sym (append-nil (events_of (reverse out)))
absorb_from-events out (s ∷ ss) =
    absorb_from-events (collapse s out) ss
    ∙ ap (λ x. x ++ events_of ss) (collapse-events s out)
    ∙ append_assoc (events_of (reverse out)) s.events (events_of ss)

-- No event is lost, repeated or moved by the absorption.
pub absorb_bounces-events : (ss : List RawSession) → events_of (absorb_bounces ss) ≡ events_of ss
unfolding absorb_bounces events_of
absorb_bounces-events ss = absorb_from-events [] ss

collapse_counts :
    (l m k : RawSession) (ss : List RawSession) {out : ℕ}
    → ((absorbed k m l).content_snapshots + snapshots_of ss ≤ u64_max
        → out ≡ (absorbed k m l).content_snapshots + snapshots_of ss)
    → l.content_snapshots + (m.content_snapshots + (k.content_snapshots + snapshots_of ss))
      ≤ u64_max
    → out ≡ l.content_snapshots + (m.content_snapshots + (k.content_snapshots + snapshots_of ss))
unfolding absorbed saturating_add
collapse_counts l m k ss e le = ground arith

collapse-snapshots :
    (s : RawSession) (ss : List RawSession)
    → s.content_snapshots + snapshots_of ss ≤ u64_max
    → snapshots_of (collapse s ss) ≡ s.content_snapshots + snapshots_of ss
unfolding snapshots_of
collapse-snapshots s ss =
    collapse_rule
      (λ s ss out.
        s.content_snapshots + snapshots_of ss ≤ u64_max
        → snapshots_of out ≡ s.content_snapshots + snapshots_of ss)
      (λ s ss le. refl) (λ l m k ss h e le. collapse_counts l m k ss e le) s ss

absorb_from-snapshots :
    (out ss : List RawSession)
    → snapshots_of out + snapshots_of ss ≤ u64_max
    → snapshots_of (absorb_from out ss) ≡ snapshots_of out + snapshots_of ss
unfolding absorb_from snapshots_of
absorb_from-snapshots out [] h = omega (arith, snapshots_of-reverse out)
absorb_from-snapshots out (s ∷ ss) h = omega (
  arith,
  absorb_from-snapshots (collapse s out) ss (omega (arith, collapse-snapshots s out (omega arith))),
  collapse-snapshots s out (omega arith),
)

pub absorb_bounces-snapshots :
    (ss : List RawSession)
    → snapshots_of ss ≤ u64_max
    → snapshots_of (absorb_bounces ss) ≡ snapshots_of ss
unfolding absorb_bounces snapshots_of
absorb_bounces-snapshots ss h = omega (arith, absorb_from-snapshots [] ss (omega arith))

-- Of a stack of sessions, the last one first, no trio is a bounce.
abbrev Settled : List RawSession → Type 0
Settled [] = Unit
Settled (l ∷ []) = Unit
Settled (l ∷ m ∷ []) = Unit
Settled (l ∷ m ∷ k ∷ ss) = (is_bounce k m l ≡ false) × Settled (m ∷ k ∷ ss)

Settled-tail : (s : RawSession) (ss : List RawSession) → Settled (s ∷ ss) → Settled ss
Settled-tail s [] h = tt
Settled-tail s (m ∷ []) h = tt
Settled-tail s (m ∷ k ∷ ss) h = h.1

collapse-Settled : (s : RawSession) (ss : List RawSession) → Settled ss → Settled (collapse s ss)
collapse-Settled s [] h = subst Settled (sym (collapse_one s)) tt
collapse-Settled s (m ∷ []) h = subst Settled (sym (collapse_two s m)) tt
collapse-Settled s (m ∷ k ∷ ss) h = elim (Bool-cases (is_bounce k m s)) [
  | inl e ↦
      subst Settled (sym (collapse_bounce s m k ss e))
        (collapse-Settled (absorbed k m s) ss (Settled-tail k ss (Settled-tail m (k ∷ ss) h)))
  | inr e ↦ subst Settled (sym (collapse_keeps s m k ss e)) (e, h)
]

collapse_again : (s : RawSession) (ss : List RawSession) → Settled (s ∷ ss) → collapse s ss ≡ s ∷ ss
collapse_again s [] h = collapse_one s
collapse_again s (m ∷ []) h = collapse_two s m
collapse_again s (m ∷ k ∷ ss) h = collapse_keeps s m k ss h.0

absorb_from-Settled :
    (out ss : List RawSession) → Settled out → Settled (reverse (absorb_from out ss))
unfolding absorb_from
absorb_from-Settled out [] h = subst Settled (sym (reverse-reverse out)) h
absorb_from-Settled out (s ∷ ss) h =
    absorb_from-Settled (collapse s out) ss (collapse-Settled s out h)

Settled-append : (xs ys : List RawSession) → Settled (xs ++ ys) → Settled ys
Settled-append [] ys h = h
Settled-append (x ∷ xs) ys h = Settled-append xs ys (Settled-tail x (xs ++ ys) h)

reverse-cons_append :
    (s : RawSession) (ss out : List RawSession) → reverse (s ∷ ss) ++ out ≡ reverse ss ++ s ∷ out
reverse-cons_append s ss out =
    ap (λ x. x ++ out) (reverse-cons s ss) ∙ append_assoc (reverse ss) (s ∷ []) out

absorb_from_again :
    (out ss : List RawSession)
    → Settled (reverse ss ++ out)
    → absorb_from out ss ≡ reverse out ++ ss
unfolding absorb_from
absorb_from_again out [] h = sym (append-nil (reverse out))
absorb_from_again out (s ∷ ss) h =
    let k = subst Settled (reverse-cons_append s ss out) h in
    ap (λ x. absorb_from x ss) (collapse_again s out (Settled-append (reverse ss) (s ∷ out) k))
    ∙ absorb_from_again (s ∷ out) ss k
    ∙ reverse-cons_append s out ss

-- Absorbing the bounces of sessions a second time changes nothing.
pub absorb_bounces-again :
    (ss : List RawSession) → absorb_bounces (absorb_bounces ss) ≡ absorb_bounces ss
unfolding absorb_bounces
absorb_bounces-again ss =
    absorb_from_again [] (absorb_from [] ss) (
      subst Settled (sym (append-nil (reverse (absorb_from [] ss)))) (absorb_from-Settled [] ss tt))

reverse_trio :
    (before : List RawSession) (k m l : RawSession) (after : List RawSession)
    → reverse (before ++ k ∷ m ∷ l ∷ after) ≡ reverse after ++ l ∷ m ∷ k ∷ reverse before
reverse_trio before k m l after =
    reverse-append before (k ∷ m ∷ l ∷ after)
    ∙ reverse-cons_append k (m ∷ l ∷ after) (reverse before)
    ∙ reverse-cons_append m (l ∷ after) (k ∷ reverse before)
    ∙ reverse-cons_append l after (m ∷ k ∷ reverse before)

-- Three sessions that follow one another after the absorption are no bounce: one of them is
-- without events, the outer ones are of two apps, or the middle one lasts 30 seconds or more.
pub absorb_bounces-no-bounce :
    (ss before after : List RawSession) (k m l : RawSession)
    → absorb_bounces ss ≡ before ++ k ∷ m ∷ l ∷ after
    → is_bounce k m l ≡ false
unfolding absorb_bounces
absorb_bounces-no-bounce ss before after k m l e =
    (Settled-append (reverse after) (l ∷ m ∷ k ∷ reverse before) (
      subst Settled (ap reverse e ∙ reverse_trio before k m l after)
        (absorb_from-Settled [] ss tt))).0
