-- ===== src/Macos/ContentSnapshot/Saves.antt =====
-- crates/zanei-macos/src/content_snapshot/state.rs: what a save and a failure leave behind.
use zanei.Prelude.{
  ℕ, zero, suc, ◌+◌, ◌-◌, ◌^◌, ◌≤◌, ◌≡◌, ◌≢◌, refl, sym, ap, ◌∙◌, min, inl, inr, Bool, true, false,
  not, Option, none, some, List, [], ◌∷◌, arith, leb, ltb, not_ltb→le, ◌==◌, if_rule,
  saturating_add, Bool-cases,
}
use zanei.Macos.ContentSnapshot.Trigger.{SnapshotWindowKey}
use zanei.Macos.ContentSnapshot.Scheduler.{opt_eq}
use zanei.Macos.ContentSnapshot.Due.{global_interval_allows}
use zanei.Macos.ContentSnapshot.State.{
  SnapshotOrigin, SaveBlock, SavedWindow, SnapshotState, key_eq, get, put, saved_window, backoff_of,
  roll_daily_window, waits, backoff_allows, is_saved, evaluate_save, reserve, with_hash,
  change_saved, record_hash, timeouts_after, failure_delay, record_failure, daily_text_budget_bytes,
  pid_backoff_max, pid_backoff_initial,
}

get_here :
    {K V : Type 0} (p : K → Bool) (k : K) (v : V) (m : List (K × V))
    → p k ≡ true
    → get p ((k, v) ∷ m) ≡ some v
unfolding get
get_here p k v m h = rw h refl

get_there :
    {K V : Type 0} (p : K → Bool) (k : K) (v : V) (m : List (K × V))
    → p k ≡ false
    → get p ((k, v) ∷ m) ≡ get p m
unfolding get
get_there p k v m h = rw h refl

get-put :
    {K V : Type 0} (p : K → Bool) (key : K) (v : V) (m : List (K × V))
    → p key ≡ true
    → get p (put p key v m) ≡ some v
unfolding put
get-put p key v [] h = get_here p key v [] h
get-put p key v ((k, w) ∷ m) h = elim (Bool-cases (p k)) [
  | inl e ↦ ap (get p) (rw e refl) ∙ get_here p k v m e
  | inr e ↦ ap (get p) (rw e refl) ∙ get_there p k w (put p key v m) e ∙ get-put p key v m h
]

key_eq_refl : (key : SnapshotWindowKey) → key_eq key key ≡ true
key_eq_refl key = ground arith

opt_eq_refl : (o : Option ℕ) → opt_eq o o ≡ true
opt_eq_refl none = refl
opt_eq_refl (some a) = ground arith

roll_daily_window-saved :
    (s : SnapshotState) (now : ℕ) (key : SnapshotWindowKey)
    → (saved_window (roll_daily_window s now) key ≡ saved_window s key)
      × ((roll_daily_window s now).global_saved_at ≡ s.global_saved_at)
unfolding roll_daily_window saved_window
roll_daily_window-saved s now key =
    if_rule
      (λ (r : SnapshotState).
        (get (key_eq key) r.windows ≡ get (key_eq key) s.windows)
        × (r.global_saved_at ≡ s.global_saved_at))
      _ _ s (λ _. (refl, refl)) (λ _. (refl, refl))

evaluate_save-duplicate :
    (s : SnapshotState) (key : SnapshotWindowKey) (origin : SnapshotOrigin) (hash bytes now : ℕ)
    → is_saved origin hash (saved_window s key) ≡ true
    → (evaluate_save s key origin hash bytes now).1 ≡ some SaveBlock.duplicate
unfolding evaluate_save
evaluate_save-duplicate s key origin hash bytes now h =
    let same = ap (is_saved origin hash) (roll_daily_window-saved s now key).0 ∙ h in rw same refl

pub evaluate_save-interval :
    (s : SnapshotState) (key : SnapshotWindowKey) (origin : SnapshotOrigin) (hash bytes now : ℕ)
    → global_interval_allows s.global_saved_at now ≡ false
    → (evaluate_save s key origin hash bytes now).1 ≢ none
unfolding evaluate_save
evaluate_save-interval s key origin hash bytes now h =
    let s' = roll_daily_window s now in
    let same = ap (λ o. global_interval_allows o now) (roll_daily_window-saved s now key).1 ∙ h in
    elim (Bool-cases (is_saved origin hash (saved_window s' key))) [
      | inl e ↦ λ k. cc (evaluate_save_first e)
      | inr e ↦ λ k. cc (evaluate_save_second e same)
    ]
  where
    evaluate_save_first :
        is_saved origin hash (saved_window (roll_daily_window s now) key) ≡ true
        → (evaluate_save s key origin hash bytes now).1 ≡ some SaveBlock.duplicate
    evaluate_save_first e = rw e refl

    evaluate_save_second :
        is_saved origin hash (saved_window (roll_daily_window s now) key) ≡ false
        → global_interval_allows (roll_daily_window s now).global_saved_at now ≡ false
        → (evaluate_save s key origin hash bytes now).1 ≡ some SaveBlock.global_interval
    evaluate_save_second e k = rw (e, k) refl

-- What `record_hash` leaves for the window.
record_hash-saved :
    (s s' : SnapshotState) (key : SnapshotWindowKey) (origin : SnapshotOrigin) (hash : ℕ)
    → record_hash s key origin hash ≡ some s'
    → (w : SavedWindow) × (saved_window s key ≡ some w)
      × (saved_window s' key ≡ some (with_hash origin hash w))
unfolding record_hash saved_window
record_hash-saved s s' key origin hash h = recorded (get (key_eq key) s.windows) refl h
  where
    recorded :
        (o : Option SavedWindow)
        → get (key_eq key) s.windows ≡ o
        → change_saved s key (with_hash origin hash) o ≡ some s'
        → (w : SavedWindow) × (get (key_eq key) s.windows ≡ some w)
          × (get (key_eq key) s'.windows ≡ some (with_hash origin hash w))
    recorded none e k = cc
    recorded (some w) e k =
        let k' : record s { windows = put (key_eq key) key (with_hash origin hash w) s.windows }
            ≡ s' =
          cc in
        (
          w,
          e,
          ap (λ (r : SnapshotState). get (key_eq key) r.windows) (sym k')
              ∙ get-put (key_eq key) key (with_hash origin hash w) s.windows (key_eq_refl key),
        )

-- Once a body of the window from the one origin and then one from the other have been recorded, each
-- of the two is a duplicate, at any time and of any size: the second does not make the first new.
pub record_hash-duplicate :
    (s s1 s2 : SnapshotState) (key : SnapshotWindowKey) (ax_hash ocr_hash bytes now : ℕ)
    → record_hash s key SnapshotOrigin.ax ax_hash ≡ some s1
    → record_hash s1 key SnapshotOrigin.ocr ocr_hash ≡ some s2
    → ((evaluate_save s2 key SnapshotOrigin.ax ax_hash bytes now).1 ≡ some SaveBlock.duplicate)
      × ((evaluate_save s2 key SnapshotOrigin.ocr ocr_hash bytes now).1 ≡ some SaveBlock.duplicate)
record_hash-duplicate s s1 s2 key ax_hash ocr_hash bytes now h k =
    let (w, was, is) = record_hash-saved s s1 key SnapshotOrigin.ax ax_hash h in
    let (v, was', is') = record_hash-saved s1 s2 key SnapshotOrigin.ocr ocr_hash k in
    let same : v ≡ with_hash SnapshotOrigin.ax ax_hash w = cc in
    (
      evaluate_save-duplicate s2 key SnapshotOrigin.ax ax_hash bytes now (
          ap (is_saved SnapshotOrigin.ax ax_hash) is'
          ∙ ap (λ (u : SavedWindow). opt_eq u.ax_hash (some ax_hash)) same
          ∙ opt_eq_refl (some ax_hash)),
      evaluate_save-duplicate s2 key SnapshotOrigin.ocr ocr_hash bytes now
          (ap (is_saved SnapshotOrigin.ocr ocr_hash) is' ∙ opt_eq_refl (some ocr_hash)),
    )

abbrev IsWithin : SnapshotState × Option SaveBlock → SnapshotWindowKey → ℕ → ℕ → Type 0
IsWithin (s, block) key bytes now =
    block ≡ none → (reserve s key bytes now).daily_bytes ≤ daily_text_budget_bytes

-- A body whose save is allowed keeps the bytes of the day within 128 MiB.
pub evaluate_save-within :
    (s : SnapshotState) (key : SnapshotWindowKey) (origin : SnapshotOrigin) (hash bytes now : ℕ)
    → (evaluate_save s key origin hash bytes now).1 ≡ none
    → (reserve (evaluate_save s key origin hash bytes now).0 key bytes now).daily_bytes
      ≤ daily_text_budget_bytes
unfolding evaluate_save reserve
evaluate_save-within s key origin hash bytes now =
    let s' = roll_daily_window s now in
    if_rule (λ p. IsWithin p key bytes now) (is_saved origin hash (saved_window s' key)) _ _
      (λ _ e. cc)
      (λ _.
        if_rule (λ p. IsWithin p key bytes now)
          (not (global_interval_allows s'.global_saved_at now)) _ _ (λ _ e. cc)
          (λ _.
            if_rule (λ p. IsWithin p key bytes now)
              (ltb daily_text_budget_bytes (saturating_add s'.daily_bytes bytes)) _ _ (λ _ e. cc)
              (λ k e. not_ltb→le daily_text_budget_bytes (saturating_add s'.daily_bytes bytes) k)))

pow_pos : (n : ℕ) → 1 ≤ 2 ^ n
pow_pos zero = omega arith
pow_pos (suc n) = omega (arith, pow_pos n)

failure_delay_bounds :
    (timeouts : ℕ)
    → (pid_backoff_initial ≤ failure_delay timeouts) × (failure_delay timeouts ≤ pid_backoff_max)
unfolding failure_delay
failure_delay_bounds timeouts = (omega (arith, pow_pos (min (timeouts - 1) 31)), omega arith)

-- After a failure the process waits for the delay of its timeouts in a row: 30 seconds at least, and
-- 10 minutes at most.
pub record_failure-waits :
    (s : SnapshotState) (pid now next : ℕ) (timed_out : Bool)
    → (backoff_allows (record_failure s pid now timed_out) pid next
        ≡ leb (now + failure_delay (timeouts_after timed_out (backoff_of s pid))) next)
      × (pid_backoff_initial ≤ failure_delay (timeouts_after timed_out (backoff_of s pid)))
      × (failure_delay (timeouts_after timed_out (backoff_of s pid)) ≤ pid_backoff_max)
unfolding backoff_allows record_failure backoff_of
record_failure-waits s pid now next timed_out =
    let timeouts = timeouts_after timed_out (get (◌==◌ pid) s.backoffs) in
    let bounds = failure_delay_bounds timeouts in
    (
      ap (λ o. waits o next) (get-put (◌==◌ pid) pid _ s.backoffs (ground arith)),
      bounds.0,
      bounds.1,
    )
