-- ===== src/AutoBuffer/Round.antt =====
-- The size that `__FitSize` asks for.
use mtappender_file.Prelude.{ℕ, ◌+◌, ◌-◌, ◌*◌, ◌/◌, ◌%◌, ◌^◌, ◌≤◌, ◌<◌, ◌≡◌, arith, add64, sub64}
use native.Mathlib.Nat.{div-add-mod', mod-lt, mod-eq_of_lt, mul-mod_left}
use mtappender_file.AutoBuffer.{round_up}

less_one : (u n : ℕ) → 0 < u → n + u < 2 ^ 64 → sub64 (add64 n u) 1 ≡ n + u - 1
less_one u n h k = omega arith

-- As long as nothing wraps, it is the least multiple of the unit that is not below the length.
pub round_up_lem :
    (u n : ℕ)
    → 0 < u
    → n + u < 2 ^ 64
    → (n ≤ round_up u n) × (round_up u n < n + u) × (round_up u n % u ≡ 0)
round_up_lem u n h k =
    rw (less_one u n h k, mod-eq_of_lt small)
      (omega (arith, whole, rest), omega (arith, whole), mul-mod_left ((n + u - 1) / u) u)
  where
    whole : (n + u - 1) / u * u + (n + u - 1) % u ≡ n + u - 1
    whole = div-add-mod' (n + u - 1) u

    rest : (n + u - 1) % u < u
    rest = mod-lt (n + u - 1) h

    small : (n + u - 1) / u * u < 2 ^ 64
    small = omega (arith, whole)
