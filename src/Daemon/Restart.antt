-- ===== src/Daemon/Restart.antt =====
-- crates/zanei-cli/src/daemon/supervisor/health.rs: when a failed collector is started again.
-- An `Instant` and a `Duration` are counted in nanoseconds.
pub mod Backoff
use zanei.Prelude.{
  ℕ, ◌+◌, ◌-◌, ◌*◌, min, Bool, true, false, not, ◌&&◌, ◌||◌, Option, none, some, List, [], ◌∷◌,
  Text, leb, if◌then◌else◌, get_or, length, saturating_add,
}

abbrev pub from_secs : ℕ → ℕ
from_secs s = s * 1_000_000_000

abbrev pub restart_delays : List ℕ
restart_delays = from_secs 5 ∷ from_secs 10 ∷ from_secs 20 ∷ from_secs 40 ∷ from_secs 60 ∷ []

abbrev pub restart_stable_after : ℕ
restart_stable_after = from_secs 60

pub record RestartState : Type 0 where
  pub next_attempt : Option ℕ
  pub delay_index : ℕ
  pub waiting_for_permission : Bool
  pub unexpected_exit_reason : Option Text

unfoldable pub new : RestartState
new = record {
  next_attempt = none;
  delay_index = 0;
  waiting_for_permission = false;
  unexpected_exit_reason = none;
}

-- `RESTART_DELAYS[self.delay_index.min(RESTART_DELAYS.len() - 1)]`; the index is always in range.
unfoldable pub delay_at : ℕ → ℕ
delay_at index = get_or restart_delays (min index (length restart_delays - 1)) 0

unfoldable pub schedule : RestartState → ℕ → Bool → RestartState
unfolding delay_at saturating_add
schedule s now permissions_granted =
    if permissions_granted
    then record s {
      next_attempt = some (now + delay_at s.delay_index);
      delay_index = saturating_add s.delay_index 1;
      waiting_for_permission = false;
    }
    else record s { next_attempt = none; waiting_for_permission = true }

unfoldable pub start_failed : RestartState → ℕ → Bool → RestartState
unfolding schedule
start_failed s now permissions_granted = schedule s now permissions_granted

unfoldable pub exited_unexpectedly : RestartState → ℕ → Bool → Text → RestartState
unfolding schedule
exited_unexpectedly s now permissions_granted reason =
    schedule (record s { unexpected_exit_reason = some reason }) now permissions_granted

-- `Option::is_some_and(|next_attempt| now >= next_attempt)`.
abbrev pub reached : Option ℕ → ℕ → Bool
reached none now = false
reached (some next) now = leb next now

abbrev is_none : Option ℕ → Bool
is_none none = true
is_none (some n) = false

unfoldable pub ready : RestartState → ℕ → Bool → Bool
ready s now permissions_granted =
    (not s.waiting_for_permission && is_none s.next_attempt)
    || (s.waiting_for_permission && permissions_granted)
    || (permissions_granted && reached s.next_attempt now)

unfoldable pub started : RestartState → RestartState
started s = record s { next_attempt = none; waiting_for_permission = false }

unfoldable pub stable : RestartState → RestartState
unfolding new
stable s = new

unfoldable pub degraded_reason : RestartState → Option Text
degraded_reason s = s.unexpected_exit_reason
