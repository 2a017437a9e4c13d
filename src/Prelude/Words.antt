-- ===== src/Prelude/Words.antt =====
-- Machine words. A `size_t` and an `off_t` are both 64-bit patterns, numbers below 2 ^ 64: the
-- casts between them keep the pattern, and a pattern from 2 ^ 63 on is a negative `off_t`.
use Prim.Native.Nat.{ℕ, ◌+◌, ◌-◌, ◌%◌, ◌^◌, ◌≤◌, ◌<◌}
use mathlib.Core.Path.{◌≡◌}
use mathlib.Core.Bool.{Bool}
use native.Mathlib.Omega.{arith}
use mtappender_file.Prelude.Tests.{leb}

abbrev pub word_mod : ℕ
word_mod = 2 ^ 64

abbrev pub add64 : ℕ → ℕ → ℕ
add64 a b = (a + b) % 2 ^ 64

abbrev pub sub64 : ℕ → ℕ → ℕ
sub64 a b = (a + 2 ^ 64 - b) % 2 ^ 64

-- The cast to `unsigned int`.
abbrev pub u32 : ℕ → ℕ
u32 a = a % 2 ^ 32

-- `off < 0` on an `off_t`.
abbrev pub is_negative : ℕ → Bool
is_negative a = leb (2 ^ 63) a

-- The pattern of `-k`, for a positive `k` of at most 2 ^ 63.
abbrev pub minus : ℕ → ℕ
minus k = 2 ^ 64 - k

pub sub64_lem : (a b : ℕ) → a < 2 ^ 64 → b ≤ a → sub64 a b ≡ a - b
sub64_lem a b h k = omega arith

pub add64_lem : (a b : ℕ) → a + b < 2 ^ 64 → add64 a b ≡ a + b
add64_lem a b h = omega arith
