-- ===== src/Time/Laws.antt =====
-- comm/mtaf_time_utils.c: readings of the clock of Apple's systems, and their span.
use mtappender_file.Prelude.{
  ℕ, ◌+◌, ◌-◌, ◌*◌, ◌/◌, ◌%◌, ◌^◌, ◌≤◌, ◌<◌, ◌≡◌, ap, arith, some, ltb, ◌==◌, false, inl, inr,
  Bool-cases, le→ltb_false,
}
use native.Mathlib.Nat.{div-add-mod', mod-lt, mod-eq_of_lt}
use mtappender_file.Time.{Timebase, mach_timebase, mach_millis, mach_tick_count, tick_span}

mul_mono : (a b d : ℕ) → a ≤ b → a * d ≤ b * d
mul_mono a b d h =
    let e : a + (b - a) ≡ b = omega arith in
    let e' : (a + (b - a)) * d ≡ b * d = ap (λ z. z * d) e in omega (arith, e')

positive : (n : ℕ) → 0 < n → (n == 0) ≡ false
positive n h = ground arith

mach_millis_lem :
    (b : Timebase) (ticks : ℕ)
    → 0 < b.denom
    → b.denom < 4294
    → ticks * b.numer < 2 ^ 64
    → mach_millis b ticks ≡ some (ticks * b.numer / (b.denom * 1000000))
unfolding mach_millis
mach_millis_lem b ticks pos small fits =
    let exact : b.denom * 1000000 % 2 ^ 32 ≡ b.denom * 1000000 = mod-eq_of_lt (omega arith) in
    rw (exact, positive (b.denom * 1000000) (omega arith), mod-eq_of_lt fits)

-- A quotient grows with what is divided, by the quotient of the growth, to the unit.
div_grows :
    (m k d : ℕ)
    → 0 < d
    → (m / d ≤ (m + k) / d)
      × (((m + k) / d - m / d) * d < k + d)
      × (k < ((m + k) / d - m / d + 1) * d)
div_grows m k d pos =
    let span : m / d + ((m + k) / d - m / d) ≡ (m + k) / d = omega (arith, grows) in
    let spans : (m / d + ((m + k) / d - m / d)) * d ≡ (m + k) / d * d = ap (λ z. z * d) span in
    (
      grows,
      omega (arith, spans, whole, rest, whole', rest'),
      omega (arith, spans, whole, rest, whole', rest'),
    )
  where
    whole : m / d * d + m % d ≡ m
    whole = div-add-mod' m d

    rest : m % d < d
    rest = mod-lt m pos

    whole' : (m + k) / d * d + (m + k) % d ≡ m + k
    whole' = div-add-mod' (m + k) d

    rest' : (m + k) % d < d
    rest' = mod-lt (m + k) pos

    grows : m / d ≤ (m + k) / d
    grows = elim (Bool-cases (ltb ((m + k) / d) (m / d))) [
      | inl less ↦
          absurd (
            omega
              (arith, whole, whole', rest', mul_mono ((m + k) / d + 1) (m / d) d (ground arith)))
      | inr fine ↦ ground arith
    ]

-- On Apple's systems, with a timebase that is not known at first and whose denominator is then
-- from 1 to 4293, and as long as the ticks times the numerator stay below 2 ^ 64: two readings of
-- the clock keep the timebase of the first, and the span between them differs by less than a
-- millisecond from the exact time.
pub tick_span-mach_tick_count :
    (unknown b : Timebase) (from elapsed : ℕ)
    → unknown.denom ≡ 0
    → 0 < b.denom
    → b.denom < 4294
    → (from + elapsed) * b.numer < 2 ^ 64
    → (r : ℕ) × (q : ℕ) × (mach_tick_count unknown b from ≡ (b, some r))
      × (mach_tick_count b b (from + elapsed) ≡ (b, some q))
      × (tick_span r q * (b.denom * 1000000) < elapsed * b.numer + b.denom * 1000000)
      × (elapsed * b.numer < (tick_span r q + 1) * (b.denom * 1000000))
unfolding mach_tick_count mach_timebase tick_span
tick_span-mach_tick_count unknown b from elapsed first pos small fits =
    let spread : (from + elapsed) * b.numer ≡ from * b.numer + elapsed * b.numer = omega arith in
    let (grows, below, above) =
      div_grows (from * b.numer) (elapsed * b.numer) (b.denom * 1000000) (omega arith) in
    (
      from * b.numer / (b.denom * 1000000),
      (from * b.numer + elapsed * b.numer) / (b.denom * 1000000),
      rw (first, mach_millis_lem b from pos small (omega (arith, spread))),
      rw (positive b.denom pos, mach_millis_lem b (from + elapsed) pos small fits, spread),
      rw (le→ltb_false _ _ grows) below,
      rw (le→ltb_false _ _ grows) above,
    )
