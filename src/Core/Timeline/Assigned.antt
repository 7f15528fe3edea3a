-- ===== src/Core/Timeline/Assigned.antt =====
-- crates/zanei-core/src/timeline/builder.rs: what `assign_content_snapshots` keeps and counts.
use zanei.Prelude.{
  ℕ, ◌+◌, ◌≤◌, suc, ◌⊎◌, if_rule, ◌≡◌, refl, sym, ap, ◌∙◌, subst, inl, inr, Bool, none, some, List,
  [], ◌∷◌, ◌++◌, arith, if◌then◌else◌, length, Bool-cases, Option-cases, saturating_add, u64_max,
}
use zanei.Core.Timeline.Model.{EventMetadata, RawSession}
use zanei.Core.Timeline.Sessions.{start_at, from_snapshot}
use zanei.Core.Timeline.Snapshots.{
  update_last, insert_session, assign_snapshot, assign_all, count_snapshot, takes_snapshot,
  starts_after, insert_metadata, sort_metadata,
}
use zanei.Core.Timeline.Splitting.{events_of}
use zanei.Core.Timeline.Bounces.{snapshots_of, snapshots_of-append, events_of-append}

-- One session of the list is changed by `f`.
pub record Updated (f : RawSession → RawSession) (ss out : List RawSession) : Type 0 where
  pub before : List RawSession
  pub session : RawSession
  pub after : List RawSession
  pub was : ss ≡ before ++ session ∷ after
  pub is : out ≡ before ++ f session ∷ after

-- A session stands in the list anew.
pub record Inserted (s : RawSession) (ss out : List RawSession) : Type 0 where
  pub before : List RawSession
  pub after : List RawSession
  pub was : ss ≡ before ++ after
  pub is : out ≡ before ++ s ∷ after

Updated-cons :
    (f : RawSession → RawSession) (s : RawSession) {ss out : List RawSession}
    → Updated f ss out
    → Updated f (s ∷ ss) (s ∷ out)
Updated-cons f s u = record {
  before = s ∷ u.before;
  session = u.session;
  after = u.after;
  was = ap (◌∷◌ s) u.was;
  is = ap (◌∷◌ s) u.is;
}

module _ (p : RawSession → Bool) (f : RawSession → RawSession) where
  update_last_later :
      (s : RawSession) (ss rest : List RawSession)
      → update_last p f ss ≡ some rest
      → update_last p f (s ∷ ss) ≡ some (s ∷ rest)
  unfolding update_last
  update_last_later s ss rest e = rw (e, update_last) refl

  update_last-none :
      (s : RawSession) (ss : List RawSession)
      → update_last p f ss ≡ none
      → update_last p f (s ∷ ss) ≡ (if p s then some (f s ∷ ss) else none)
  unfolding update_last
  update_last-none s ss e = rw (e, update_last) refl

  update_last-some : (ss out : List RawSession) → update_last p f ss ≡ some out → Updated f ss out
  unfolding update_last
  update_last-some [] out h = cc
  update_last-some (s ∷ ss) out h = elim (Option-cases (update_last p f ss)) [
    | inr (rest, e) ↦
        let k : s ∷ rest ≡ out = cc (update_last_later s ss rest e) in
        subst (Updated f (s ∷ ss)) k (Updated-cons f s (update_last-some ss rest e))
    | inl e ↦ elim (Bool-cases (p s)) [
      | inl k ↦
          let e' : some (f s ∷ ss) ≡ some out =
            subst (λ b. (if b then some (f s ∷ ss) else none) ≡ some out) k
              (sym (update_last-none s ss e) ∙ h) in
          record { before = []; session = s; after = ss; was = refl; is = cc }
      | inr k ↦
          let e' : none ≡ some out =
            subst (λ b. (if b then some (f s ∷ ss) else none) ≡ some out) k
              (sym (update_last-none s ss e) ∙ h) in
          cc
    ]
  ]

Inserted-cons :
    (x s : RawSession) {ss out : List RawSession}
    → Inserted s ss out
    → Inserted s (x ∷ ss) (x ∷ out)
Inserted-cons x s u = record {
  before = x ∷ u.before;
  after = u.after;
  was = ap (◌∷◌ x) u.was;
  is = ap (◌∷◌ x) u.is;
}

insert_session-Inserted :
    (s : RawSession) (t : ℕ) (ss : List RawSession) → Inserted s ss (insert_session s t ss)
unfolding insert_session
insert_session-Inserted s t [] = record { before = []; after = []; was = refl; is = refl }
insert_session-Inserted s t (x ∷ xs) =
    if_rule (Inserted s (x ∷ xs)) (starts_after t (start_at x)) (s ∷ x ∷ xs)
      (x ∷ insert_session s t xs)
      (λ _. record { before = []; after = x ∷ xs; was = refl; is = refl })
      (λ _. Inserted-cons x s (insert_session-Inserted s t xs))

-- A snapshot is counted by a session, or opens one of its own.
pub assign_snapshot-cases :
    (ss : List RawSession) (t : ℕ) (m : EventMetadata)
    → Updated (count_snapshot m t) ss (assign_snapshot ss t m)
      ⊎ Inserted (from_snapshot m t) ss (assign_snapshot ss t m)
unfolding assign_snapshot
assign_snapshot-cases ss t m =
    elim (Option-cases (update_last (takes_snapshot ss m t) (count_snapshot m t) ss)) [
      | inr (out, e) ↦ inl (
          subst (Updated (count_snapshot m t) ss) (sym (assign_snapshot_counted out e))
            (update_last-some (takes_snapshot ss m t) (count_snapshot m t) ss out e))
      | inl e ↦ inr (
          subst (Inserted (from_snapshot m t) ss) (sym (assign_snapshot_opened e))
            (insert_session-Inserted (from_snapshot m t) t ss))
    ]
  where
    assign_snapshot_counted :
        (out : List RawSession)
        → update_last (takes_snapshot ss m t) (count_snapshot m t) ss ≡ some out
        → assign_snapshot ss t m ≡ out
    assign_snapshot_counted out e = rw (e, assign_snapshot) refl

    assign_snapshot_opened :
        update_last (takes_snapshot ss m t) (count_snapshot m t) ss ≡ none
        → assign_snapshot ss t m ≡ insert_session (from_snapshot m t) t ss
    assign_snapshot_opened e = rw (e, assign_snapshot) refl

Updated-events :
    (m : EventMetadata) (t : ℕ) {ss out : List RawSession}
    → Updated (count_snapshot m t) ss out
    → events_of out ≡ events_of ss
unfolding count_snapshot events_of
Updated-events m t u =
    ap events_of u.is
    ∙ events_of-append u.before (count_snapshot m t u.session ∷ u.after)
    ∙ sym (events_of-append u.before (u.session ∷ u.after))
    ∙ sym (ap events_of u.was)

Inserted-events :
    (m : EventMetadata) (t : ℕ) {ss out : List RawSession}
    → Inserted (from_snapshot m t) ss out
    → events_of out ≡ events_of ss
unfolding from_snapshot events_of
Inserted-events m t u =
    ap events_of u.is
    ∙ events_of-append u.before (from_snapshot m t ∷ u.after)
    ∙ sym (events_of-append u.before u.after)
    ∙ sym (ap events_of u.was)

assign_snapshot-events :
    (ss : List RawSession) (t : ℕ) (m : EventMetadata)
    → events_of (assign_snapshot ss t m) ≡ events_of ss
assign_snapshot-events ss t m = elim (assign_snapshot-cases ss t m) [
  | inl u ↦ Updated-events m t u
  | inr u ↦ Inserted-events m t u
]

pub assign_all-events :
    (ss : List RawSession) (ms : List (ℕ × EventMetadata))
    → events_of (assign_all ss ms) ≡ events_of ss
unfolding assign_all
assign_all-events ss [] = refl
assign_all-events ss ((t, m) ∷ ms) =
    assign_all-events (assign_snapshot ss t m) ms ∙ assign_snapshot-events ss t m

Updated-snapshots :
    (m : EventMetadata) (t : ℕ) {ss out : List RawSession}
    → Updated (count_snapshot m t) ss out
    → snapshots_of ss + 1 ≤ u64_max
    → snapshots_of out ≡ snapshots_of ss + 1
unfolding count_snapshot snapshots_of saturating_add
Updated-snapshots m t u le = omega (
  arith,
  ap snapshots_of u.is,
  snapshots_of-append u.before (count_snapshot m t u.session ∷ u.after),
  snapshots_of-append u.before (u.session ∷ u.after),
  ap snapshots_of u.was,
)

Inserted-snapshots :
    (m : EventMetadata) (t : ℕ) {ss out : List RawSession}
    → Inserted (from_snapshot m t) ss out
    → snapshots_of out ≡ snapshots_of ss + 1
unfolding from_snapshot snapshots_of
Inserted-snapshots m t u = omega (
  arith,
  ap snapshots_of u.is,
  snapshots_of-append u.before (from_snapshot m t ∷ u.after),
  snapshots_of-append u.before u.after,
  ap snapshots_of u.was,
)

assign_snapshot-snapshots :
    (ss : List RawSession) (t : ℕ) (m : EventMetadata)
    → snapshots_of ss + 1 ≤ u64_max
    → snapshots_of (assign_snapshot ss t m) ≡ snapshots_of ss + 1
assign_snapshot-snapshots ss t m le = elim (assign_snapshot-cases ss t m) [
  | inl u ↦ Updated-snapshots m t u le
  | inr u ↦ Inserted-snapshots m t u
]

pub assign_all-snapshots :
    (ss : List RawSession) (ms : List (ℕ × EventMetadata))
    → snapshots_of ss + length ms ≤ u64_max
    → snapshots_of (assign_all ss ms) ≡ snapshots_of ss + length ms
unfolding assign_all
assign_all-snapshots ss [] le = omega arith
assign_all-snapshots ss ((t, m) ∷ ms) le =
    let counted = assign_snapshot-snapshots ss t m (omega arith) in
    omega
      (arith, counted, assign_all-snapshots (assign_snapshot ss t m) ms (omega (arith, counted)))

insert_metadata-length :
    (m : ℕ × EventMetadata) (ms : List (ℕ × EventMetadata))
    → length (insert_metadata m ms) ≡ suc (length ms)
unfolding insert_metadata
insert_metadata-length (t, m) [] = refl
insert_metadata-length (t, m) ((u, n) ∷ ms) = ground (arith, insert_metadata-length (t, m) ms)

pub sort_metadata-length : (ms : List (ℕ × EventMetadata)) → length (sort_metadata ms) ≡ length ms
unfolding sort_metadata
sort_metadata-length [] = refl
sort_metadata-length (m ∷ ms) =
    omega (arith, insert_metadata-length m (sort_metadata ms), sort_metadata-length ms)
