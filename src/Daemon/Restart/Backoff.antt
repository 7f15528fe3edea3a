-- ===== src/Daemon/Restart/Backoff.antt =====
-- The restart policy of supervisor/health.rs: delays, permissions and the retry instants.
use native.Mathlib.Nat.{pow-suc}
use zanei.Prelude.{
  ℕ, zero, suc, ◌+◌, ◌*◌, ◌^◌, ◌≤◌, ◌<◌, min, ◌≡◌, refl, Bool, true, false, ◌&&◌, Option, none,
  some, Text, leb, List, [], ◌∷◌, arith, saturating_add, if◌then◌else◌,
}
use zanei.Daemon.Restart.{
  RestartState, from_secs, new, delay_at, schedule, start_failed, exited_unexpectedly, ready,
  started, stable,
}

pow_grows : (i : ℕ) → 16 ≤ 2 ^ suc (suc (suc (suc i)))
pow_grows zero = omega arith
pow_grows (suc i) = rw (pow-suc) (omega (arith, pow_grows i))

-- The n-th delay of a row of failures is five seconds doubled n times, and never above a minute.
pub delay_at_doubles : (i : ℕ) → delay_at i ≡ min (from_secs 5 * 2 ^ i) (from_secs 60)
unfolding delay_at
delay_at_doubles zero = refl
delay_at_doubles (suc zero) = refl
delay_at_doubles (suc (suc zero)) = refl
delay_at_doubles (suc (suc (suc zero))) = refl
delay_at_doubles (suc (suc (suc (suc i)))) =
    let capped : min (suc (suc (suc (suc i)))) 4 ≡ 4 = omega arith in
    rw (capped, delay_at) (omega (arith, pow_grows i))

-- Every delay lasts at least five seconds.
pub delay_at_pos : (i : ℕ) → from_secs 5 ≤ delay_at i
unfolding delay_at
delay_at_pos zero = omega arith
delay_at_pos (suc zero) = omega arith
delay_at_pos (suc (suc zero)) = omega arith
delay_at_pos (suc (suc (suc zero))) = omega arith
delay_at_pos (suc (suc (suc (suc i)))) =
    let capped : min (suc (suc (suc (suc i)))) 4 ≡ 4 = omega arith in
    rw (capped, delay_at) (omega arith)

-- A collector that is waiting for a permission has no retry instant.
pub IsConsistent : RestartState → Type 0
IsConsistent s = s.waiting_for_permission ≡ true → s.next_attempt ≡ none

-- What the daemon reports of one collector to its restart state.
pub data Report : Type 0 where
  failed_start : ℕ → Bool → Report
  unexpected_exit : ℕ → Bool → Text → Report
  start_succeeded : Report
  ran_stably : Report

pub apply : RestartState → Report → RestartState
unfolding start_failed exited_unexpectedly started stable
apply s (failed_start now granted) = start_failed s now granted
apply s (unexpected_exit now granted reason) = exited_unexpectedly s now granted reason
apply s start_succeeded = started s
apply s ran_stably = stable s

pub apply_all : RestartState → List Report → RestartState
apply_all s [] = s
apply_all s (r ∷ rs) = apply_all (apply s r) rs

-- Failures since the last stable run that happened while the permissions were granted.
unfoldable pub failures : ℕ → List Report → ℕ
failures n [] = n
failures n (failed_start now true ∷ rs) = failures (saturating_add n 1) rs
failures n (unexpected_exit now true reason ∷ rs) = failures (saturating_add n 1) rs
failures n (ran_stably ∷ rs) = failures 0 rs
failures n (r ∷ rs) = failures n rs

apply-IsConsistent : (s : RestartState) (r : Report) → IsConsistent s → IsConsistent (apply s r)
unfolding IsConsistent apply
apply-IsConsistent s r h = ground arith

-- After any reports, the delay index counts the granted failures since the last stable run.
pub delay_index-failures :
    (s : RestartState) (rs : List Report) → (apply_all s rs).delay_index ≡ failures s.delay_index rs
unfolding apply_all apply failures
delay_index-failures s [] = refl
delay_index-failures s (failed_start now true ∷ rs) =
    delay_index-failures (apply s (failed_start now true)) rs
delay_index-failures s (failed_start now false ∷ rs) =
    delay_index-failures (apply s (failed_start now false)) rs
delay_index-failures s (unexpected_exit now true reason ∷ rs) =
    delay_index-failures (apply s (unexpected_exit now true reason)) rs
delay_index-failures s (unexpected_exit now false reason ∷ rs) =
    delay_index-failures (apply s (unexpected_exit now false reason)) rs
delay_index-failures s (start_succeeded ∷ rs) = delay_index-failures (apply s start_succeeded) rs
delay_index-failures s (ran_stably ∷ rs) = delay_index-failures (apply s ran_stably) rs

apply_all-IsConsistent :
    (s : RestartState) (rs : List Report) → IsConsistent s → IsConsistent (apply_all s rs)
unfolding apply_all
apply_all-IsConsistent s [] h = h
apply_all-IsConsistent s (r ∷ rs) h =
    apply_all-IsConsistent (apply s r) rs (apply-IsConsistent s r h)

-- After a failure at `now`, the collector may start again at `later` exactly when its permissions
-- are granted then and, if they were granted at the failure too, the delay has passed.
pub ready-schedule :
    (s : RestartState) (now later : ℕ) (granted_then granted_later : Bool)
    → ready (schedule s now granted_then) later granted_later
      ≡ (granted_later && (if granted_then then leb (now + delay_at s.delay_index) later else true))
unfolding ready schedule
ready-schedule s now later true true = refl
ready-schedule s now later granted_then granted_later = ground arith

-- The time of a failure that happened while the permissions were granted.
unfoldable pub granted_failure : Report → Option ℕ
granted_failure (failed_start now true) = some now
granted_failure (unexpected_exit now true reason) = some now
granted_failure _ = none

schedule-waits :
    (s : RestartState) (rs : List Report) (now later : ℕ) (granted : Bool)
    → s.delay_index ≡ failures 0 rs
    → later < now + min (from_secs 5 * 2 ^ failures 0 rs) (from_secs 60)
    → ready (schedule s now true) later granted ≡ false
unfolding ready schedule
schedule-waits s rs now later granted same h = ground (arith, same, delay_at_doubles s.delay_index)

-- After any reports and then a granted failure at a time, a failed start or an unexpected exit, no
-- start is allowed before the delay that five seconds, doubled once for each earlier granted failure
-- since the last stable run and capped at a minute, makes.
pub not_ready_before_delay :
    (rs : List Report) (failure : Report) (now later : ℕ) (granted : Bool)
    → granted_failure failure ≡ some now
    → later < now + min (from_secs 5 * 2 ^ failures 0 rs) (from_secs 60)
    → ready (apply (apply_all new rs) failure) later granted ≡ false
unfolding apply granted_failure start_failed exited_unexpectedly new
not_ready_before_delay rs (failed_start at true) now later granted e h =
    let same : at ≡ now = cc in
    schedule-waits (apply_all new rs) rs at later granted (delay_index-failures new rs)
      (omega (arith, h, same))
not_ready_before_delay rs (unexpected_exit at true reason) now later granted e h =
    let same : at ≡ now = cc in
    schedule-waits (record (apply_all new rs) { unexpected_exit_reason = some reason }) rs at later
      granted (delay_index-failures new rs) (omega (arith, h, same))
not_ready_before_delay rs (failed_start at false) now later granted e h = cc
not_ready_before_delay rs (unexpected_exit at false reason) now later granted e h = cc
not_ready_before_delay rs start_succeeded now later granted e h = cc
not_ready_before_delay rs ran_stably now later granted e h = cc
