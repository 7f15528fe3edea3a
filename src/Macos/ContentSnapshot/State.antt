-- ===== src/Macos/ContentSnapshot/State.antt =====
-- crates/zanei-macos/src/content_snapshot/state.rs: which bodies have been saved, what is left of
-- the day's budget, and the processes that wait after a failure. A `HashMap` is an association
-- list with one entry for a key at most; a size in bytes always fits in 64 bits.
use zanei.Prelude.{
  ℕ, ◌+◌, ◌-◌, ◌*◌, ◌^◌, min, max, Bool, true, false, not, ◌&&◌, Option, none, some, List, [], ◌∷◌,
  leb, ltb, ◌==◌, if◌then◌else◌, saturating_add,
}
use zanei.Macos.ContentSnapshot.Trigger.{SnapshotWindowKey}
use zanei.Macos.ContentSnapshot.Scheduler.{opt_eq, seconds, global_save_interval}
use zanei.Macos.ContentSnapshot.Due.{global_interval_allows}

abbrev pub daily_text_budget_bytes : ℕ
daily_text_budget_bytes = 128 * 1024 * 1024

abbrev pub daily_budget_window : ℕ
daily_budget_window = seconds (24 * 60 * 60)

abbrev pub pid_backoff_initial : ℕ
pid_backoff_initial = seconds 30

abbrev pub pid_backoff_max : ℕ
pid_backoff_max = seconds (10 * 60)

abbrev pub u32_max : ℕ
u32_max = 4294967295

pub data SnapshotOrigin : Type 0 where
  ax ocr : SnapshotOrigin

pub data SaveBlock : Type 0 where
  duplicate global_interval daily_budget : SaveBlock

pub record SavedWindow : Type 0 where
  pub ax_hash : Option ℕ
  pub ocr_hash : Option ℕ
  pub ocr_image : Option ℕ
  pub saved_at : ℕ

pub record PidBackoff : Type 0 where
  pub consecutive_timeouts : ℕ
  pub retry_at : ℕ

pub record SnapshotState : Type 0 where
  pub windows : List (SnapshotWindowKey × SavedWindow)
  pub global_saved_at : Option ℕ
  pub daily_started_at : ℕ
  pub daily_bytes : ℕ
  pub daily_exhausted : Bool
  pub backoffs : List (ℕ × PidBackoff)

abbrev pub key_eq : SnapshotWindowKey → SnapshotWindowKey → Bool
key_eq a b = a.pid == b.pid && a.window_id == b.window_id

-- The methods of the maps: `get`, `insert`, `remove` and `retain`.
module _ {K V : Type 0} where
  unfoldable pub get : (K → Bool) → List (K × V) → Option V
  get p [] = none
  get p ((k, v) ∷ m) = if p k then some v else get p m

  unfoldable pub put : (K → Bool) → K → V → List (K × V) → List (K × V)
  put p key value [] = (key, value) ∷ []
  put p key value ((k, v) ∷ m) =
      let rest = put p key value m in if p k then (k, value) ∷ m else (k, v) ∷ rest

  unfoldable pub without : (K → Bool) → List (K × V) → List (K × V)
  without p [] = []
  without p ((k, v) ∷ m) = let rest = without p m in if p k then rest else (k, v) ∷ rest

unfoldable pub saved_window : SnapshotState → SnapshotWindowKey → Option SavedWindow
saved_window s key = get (key_eq key) s.windows

unfoldable pub backoff_of : SnapshotState → ℕ → Option PidBackoff
backoff_of s pid = get (◌==◌ pid) s.backoffs

unfoldable pub empty : ℕ → SnapshotState
empty now = record {
  windows = [];
  global_saved_at = none;
  daily_started_at = now;
  daily_bytes = 0;
  daily_exhausted = false;
  backoffs = [];
}

abbrev saved_time : Option SavedWindow → Option ℕ
saved_time none = none
saved_time (some w) = some w.saved_at

unfoldable pub last_saved_at : SnapshotState → SnapshotWindowKey → Option ℕ
last_saved_at s key = saved_time (saved_window s key)

abbrev end_of : Option ℕ → Option ℕ
end_of none = none
end_of (some saved_at) = some (saved_at + global_save_interval)

unfoldable pub global_interval_ends : SnapshotState → ℕ → Option ℕ
global_interval_ends s now =
    if global_interval_allows s.global_saved_at now then none else end_of s.global_saved_at

unfoldable pub roll_daily_window : SnapshotState → ℕ → SnapshotState
roll_daily_window s now =
    if leb s.daily_started_at now && leb daily_budget_window (now - s.daily_started_at)
    then record s { daily_started_at = now; daily_bytes = 0; daily_exhausted = false }
    else s

unfoldable pub daily_budget_allows : SnapshotState → ℕ → SnapshotState × Bool
daily_budget_allows s now =
    let s' = roll_daily_window s now in
    (s', not s'.daily_exhausted && ltb s'.daily_bytes daily_text_budget_bytes)

abbrev pub waits : Option PidBackoff → ℕ → Bool
waits none now = true
waits (some b) now = leb b.retry_at now

unfoldable pub backoff_allows : SnapshotState → ℕ → ℕ → Bool
backoff_allows s pid now = waits (backoff_of s pid) now

abbrev later : Option ℕ → Option ℕ → Option ℕ
later none b = b
later a none = a
later (some a) (some b) = some (max a b)

abbrev remaining : ℕ → PidBackoff → Option ℕ
remaining now b = if leb now b.retry_at then some (b.retry_at - now) else none

unfoldable pub longest_wait : List (ℕ × PidBackoff) → ℕ → Option ℕ
longest_wait [] now = none
longest_wait ((pid, b) ∷ m) now = later (remaining now b) (longest_wait m now)

unfoldable pub backoff_remaining : SnapshotState → ℕ → Option ℕ
backoff_remaining s now = longest_wait s.backoffs now

abbrev pub hash_of : SnapshotOrigin → SavedWindow → Option ℕ
hash_of SnapshotOrigin.ax w = w.ax_hash
hash_of SnapshotOrigin.ocr w = w.ocr_hash

abbrev pub is_saved : SnapshotOrigin → ℕ → Option SavedWindow → Bool
is_saved origin hash none = false
is_saved origin hash (some w) = opt_eq (hash_of origin w) (some hash)

-- The answer is none when the save is allowed.
unfoldable pub evaluate_save :
    SnapshotState
    → SnapshotWindowKey
    → SnapshotOrigin
    → ℕ
    → ℕ
    → ℕ
    → SnapshotState × Option SaveBlock
evaluate_save s key origin hash bytes now =
    let s' = roll_daily_window s now in
    if is_saved origin hash (saved_window s' key)
    then (s', some SaveBlock.duplicate)
    else if not (global_interval_allows s'.global_saved_at now)
    then (s', some SaveBlock.global_interval)
    else if ltb daily_text_budget_bytes (saturating_add s'.daily_bytes bytes)
    then (record s' { daily_exhausted = true }, some SaveBlock.daily_budget)
    else (s', none)

abbrev pub touched : ℕ → Option SavedWindow → SavedWindow
touched now none = record { ax_hash = none; ocr_hash = none; ocr_image = none; saved_at = now }
touched now (some w) = record w { saved_at = now }

unfoldable pub reserve : SnapshotState → SnapshotWindowKey → ℕ → ℕ → SnapshotState
reserve s key bytes now = record s {
  windows = put (key_eq key) key (touched now (saved_window s key)) s.windows;
  global_saved_at = some now;
  daily_bytes = saturating_add s.daily_bytes bytes;
  backoffs = without (◌==◌ key.pid) s.backoffs;
}

abbrev pub with_hash : SnapshotOrigin → ℕ → SavedWindow → SavedWindow
with_hash SnapshotOrigin.ax hash w = record w { ax_hash = some hash }
with_hash SnapshotOrigin.ocr hash w = record w { ocr_hash = some hash; ocr_image = none }

-- `saved_mut` panics when there is no such window: none.
abbrev pub change_saved :
    SnapshotState
    → SnapshotWindowKey
    → (SavedWindow → SavedWindow)
    → Option SavedWindow
    → Option SnapshotState
change_saved s key f none = none
change_saved s key f (some w) = some (record s { windows = put (key_eq key) key (f w) s.windows })

unfoldable pub record_hash :
    SnapshotState → SnapshotWindowKey → SnapshotOrigin → ℕ → Option SnapshotState
record_hash s key origin hash = change_saved s key (with_hash origin hash) (saved_window s key)

unfoldable pub record_recognized_image :
    SnapshotState → SnapshotWindowKey → ℕ → Option SnapshotState
record_recognized_image s key image =
    change_saved s key (λ w. record w { ocr_image = some image }) (saved_window s key)

abbrev image_of : Option SavedWindow → Option ℕ
image_of none = none
image_of (some w) = w.ocr_image

unfoldable pub recognized_image : SnapshotState → SnapshotWindowKey → Option ℕ
recognized_image s key = image_of (saved_window s key)

abbrev pub timeouts_after : Bool → Option PidBackoff → ℕ
timeouts_after false b = 0
timeouts_after true none = 1
timeouts_after true (some b) = min (b.consecutive_timeouts + 1) u32_max

-- `1_u32.checked_shl(shift)` is always some, and so is the product.
unfoldable pub failure_delay : ℕ → ℕ
failure_delay timeouts = min (pid_backoff_initial * 2 ^ min (timeouts - 1) 31) pid_backoff_max

unfoldable pub record_failure : SnapshotState → ℕ → ℕ → Bool → SnapshotState
record_failure s pid now timed_out =
    let timeouts = timeouts_after timed_out (backoff_of s pid) in
    let backoff : PidBackoff = record {
      consecutive_timeouts = timeouts;
      retry_at = now + failure_delay timeouts;
    } in
    record s { backoffs = put (◌==◌ pid) pid backoff s.backoffs }

unfoldable pub clear_backoff : SnapshotState → ℕ → SnapshotState
clear_backoff s pid = record s { backoffs = without (◌==◌ pid) s.backoffs }

unfoldable pub record_scan_success : SnapshotState → ℕ → SnapshotState
record_scan_success s pid = clear_backoff s pid

unfoldable pub forget_pid : SnapshotState → ℕ → SnapshotState
forget_pid s pid = record s {
  windows = without (λ key. key.pid == pid) s.windows;
  backoffs = without (◌==◌ pid) s.backoffs;
}
