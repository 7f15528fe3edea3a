-- ===== src/Prelude/Saturating.antt =====
-- Rust's unsigned machine integers: the bounds and the saturating and checked additions.
use Prim.Native.Nat.{ℕ, ◌+◌, ◌≤◌, min}
use mathlib.Core.Path.{◌≡◌}
use mathlib.Core.Option.{Option, none, some}
use native.Mathlib.Omega.{arith}
use zanei.Prelude.Tests.{leb, if◌then◌else◌}

-- `u64::MAX`, which is also `usize::MAX` on the supported platform.
abbrev pub u64_max : ℕ
u64_max = 18446744073709551615

unfoldable pub saturating_add : ℕ → ℕ → ℕ
saturating_add a b = min (a + b) u64_max

unfoldable pub checked_add : ℕ → ℕ → Option ℕ
checked_add a b = if leb (a + b) u64_max then some (a + b) else none

pub saturating_add_le : (a b : ℕ) → saturating_add a b ≤ u64_max
unfolding saturating_add
saturating_add_le a b = omega arith

pub saturating_add_assoc :
    (a b c : ℕ) → saturating_add (saturating_add a b) c ≡ saturating_add a (saturating_add b c)
unfolding saturating_add
saturating_add_assoc a b c = omega arith

pub saturating_add_exact : (a b : ℕ) → a + b ≤ u64_max → saturating_add a b ≡ a + b
unfolding saturating_add
saturating_add_exact a b h = omega arith
