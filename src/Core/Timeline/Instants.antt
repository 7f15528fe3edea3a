-- ===== src/Core/Timeline/Instants.antt =====
-- crates/zanei-core/src/timeline/builder.rs: the timestamps that `build` has parsed.
use mathlib.Core.List.{Memᴰ}
use zanei.Prelude.{
  ℕ, suc, ◌≡◌, refl, sym, ap, ◌∙◌, subst, ◌⊎◌, inl, inr, Option, none, some, List, [], ◌∷◌, Text,
  length, All, Option-cases,
}
use zanei.Core.Timeline.Model.{TimelineError, Result, ok, err, ◌>>=◌, >>=-eq-ok, invalid_timestamp}
use zanei.Core.Timeline.Budget.{IsOk, >>=-IsOk}
use zanei.Core.Timeline.{parse_all}

pub Result-cases {ℓ} : {A : Type ℓ} (r : Result A) → IsOk r ⊎ ((e : TimelineError) × (r ≡ err e))
Result-cases (ok a) = inl (a, refl)
Result-cases (err e) = inr (e, refl)

module _ (parse_rfc3339 : Text → Option ℕ) where
  -- The timestamp is one that the parser reads.
  abbrev pub IsInstant : Text → Type 0
  IsInstant ts = (t : ℕ) × (parse_rfc3339 ts ≡ some t)

  -- The error names a timestamp of the list that the parser does not read.
  abbrev pub Rejects : {A : Type 0} → (A → Text) → (A → Text) → List A → TimelineError → Type 0
  Rejects {A} id ts xs e =
      (x : A) × Memᴰ x xs × (e ≡ invalid_timestamp (id x) (ts x)) × (parse_rfc3339 (ts x) ≡ none)

  module _ {A B : Type 0} (id : A → Text) (ts : A → Text) (timed : ℕ → A → B) where
    parse_all-none :
        (x : A) (xs : List A)
        → parse_rfc3339 (ts x) ≡ none
        → parse_all parse_rfc3339 id ts timed (x ∷ xs) ≡ err (invalid_timestamp (id x) (ts x))
    unfolding parse_all
    parse_all-none x xs h = rw h refl

    parse_all-some :
        (x : A) (xs : List A) (t : ℕ)
        → parse_rfc3339 (ts x) ≡ some t
        → parse_all parse_rfc3339 id ts timed (x ∷ xs)
          ≡ (parse_all parse_rfc3339 id ts timed xs >>= λ rest. ok (timed t x ∷ rest))
    unfolding parse_all
    parse_all-some x xs t h = rw h refl

    pub parse_all-IsOk :
        (xs : List A)
        → All (λ x. IsInstant (ts x)) xs
        → IsOk (parse_all parse_rfc3339 id ts timed xs)
    unfolding parse_all
    parse_all-IsOk [] h = ([], refl)
    parse_all-IsOk (x ∷ xs) ((t, k), h) = subst IsOk (sym (parse_all-some x xs t k)) (
        >>=-IsOk (parse_all parse_rfc3339 id ts timed xs) _ (parse_all-IsOk xs h)
          (λ rest e. (_, refl)))

    pub parse_all-length :
        (xs : List A) (ys : List B)
        → parse_all parse_rfc3339 id ts timed xs ≡ ok ys
        → length ys ≡ length xs
    unfolding parse_all
    parse_all-length [] ys h = let k : [] ≡ ys = cc in ap length (sym k)
    parse_all-length (x ∷ xs) ys h = elim (Option-cases (parse_rfc3339 (ts x))) [
      | inl e ↦ cc (parse_all-none x xs e)
      | inr (t, e) ↦
          let (rest, k, k') =
            >>=-eq-ok (parse_all parse_rfc3339 id ts timed xs) (λ rest. ok (timed t x ∷ rest))
              (sym (parse_all-some x xs t e) ∙ h) in
          let k'' : timed t x ∷ rest ≡ ys = cc in
          ap length (sym k'') ∙ ap suc (parse_all-length xs rest k)
    ]

    pub parse_all-Rejects :
        (xs : List A) (e : TimelineError)
        → parse_all parse_rfc3339 id ts timed xs ≡ err e
        → Rejects id ts xs e
    unfolding parse_all
    parse_all-Rejects [] e h = cc
    parse_all-Rejects (x ∷ xs) e h = elim (Option-cases (parse_rfc3339 (ts x))) [
      | inl k ↦ (x, Memᴰ.head refl, cc (parse_all-none x xs k), k)
      | inr (t, k) ↦ elim (Result-cases (parse_all parse_rfc3339 id ts timed xs)) [
        | inl (rest, k') ↦
            cc (ap (λ r. r >>= λ rest. ok (timed t x ∷ rest)) k', parse_all-some x xs t k)
        | inr (e', k') ↦
            let k'' : e' ≡ e =
              cc (ap (λ r. r >>= λ rest. ok (timed t x ∷ rest)) k', parse_all-some x xs t k) in
            let (y, m, is, fails) = parse_all-Rejects xs e' k' in
            (y, Memᴰ.tail m, sym k'' ∙ is, fails)
      ]
    ]
