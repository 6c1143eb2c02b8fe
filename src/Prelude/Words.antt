-- ===== src/Prelude/Words.antt =====
-- `usize` of a 64-bit target. The crate's `+` and `-` on it wrap, as in a release build.
use Prim.Native.Nat.{ℕ, ◌+◌, ◌-◌, ◌%◌, ◌^◌, ◌≤◌, ◌<◌}
use mathlib.Core.Path.{◌≡◌}
use native.Mathlib.Omega.{arith}

abbrev pub usize_mod : ℕ
usize_mod = 2 ^ 64

-- `usize::MAX`
abbrev pub usize_max : ℕ
usize_max = 2 ^ 64 - 1

unfoldable pub usize_add : ℕ → ℕ → ℕ
usize_add a b = (a + b) % usize_mod

unfoldable pub usize_sub : ℕ → ℕ → ℕ
usize_sub a b = (a + usize_mod - b) % usize_mod

pub usize_add_lem : (a b : ℕ) → a + b < usize_mod → usize_add a b ≡ a + b
unfolding usize_add
usize_add_lem a b h = omega arith

pub usize_sub_lem : (a b : ℕ) → b ≤ a → a < usize_mod → usize_sub a b ≡ a - b
unfolding usize_sub
usize_sub_lem a b h k = omega arith
