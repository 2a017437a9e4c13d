-- ===== src/Tests/Clocks.antt =====
-- The clocks and the lock that gives up, on concrete readings.
use mtappender_file.Prelude.{
  ℕ, ◌+◌, ◌*◌, ◌/◌, ◌≤◌, ◌<◌, ◌≡◌, ◌⊎◌, refl, arith, true, false, none, some, suc, ltb,
  if◌then◌else◌,
}
use mtappender_file.Sync.Mutex.{Mutex}
use mtappender_file.Sync.Mutex
use mtappender_file.Sync.Lock.{ScopedLock, enter_timed}
use mtappender_file.Sync.TimedLaws.{AllBusy, enter_timed_lem}
use mtappender_file.Time.{Timebase, mach_tick_count, tick_span}
use mtappender_file.Time.Laws.{tick_span-mach_tick_count}

abbrev unknown_base : Timebase
unknown_base = record { numer = 0; denom = 0 }

-- The timebase of the newer machines.
abbrev base : Timebase
base = record { numer = 125; denom = 3 }

tick_span-mach_tick_count_example :
    (r : ℕ) × (q : ℕ) × (mach_tick_count unknown_base base 24000 ≡ (base, some r))
    × (mach_tick_count base base (24000 + 48000) ≡ (base, some q))
    × (tick_span r q * (3 * 1000000) < 48000 * 125 + 3 * 1000000)
    × (48000 * 125 < (tick_span r q + 1) * (3 * 1000000))
tick_span-mach_tick_count_example =
    tick_span-mach_tick_count unknown_base base 24000 48000 refl (omega arith) (omega arith)
      (omega arith)

-- Thread 2 has the mutex up to the third look at it.
abbrev seen_by_1 : ℕ → Mutex
seen_by_1 k = record {
  intact = true;
  recursive = false;
  holder = if ltb k 2 then some 2 else none;
  again = 0;
}

enter_timed_lem_example :
    (r : ScopedLock) × (j : ℕ) × (enter_timed (100 / 50 + 2) (λ k. 7 + 60 * k) seen_by_1 1 100
      ≡ some r)
    × (j ≤ 100 / 50 + 1)
    × AllBusy seen_by_1 1 j
    × (((r.is_locked ≡ true)
          × (r.mutex ≡ (Mutex.trylock (seen_by_1 j) 1).0)
          × ((Mutex.trylock (seen_by_1 j) 1).1 ≡ true)
          × (7 + 60 * j ≤ 7 + 100))
        ⊎ ((r.is_locked ≡ false) × (7 + 100 < 7 + 60 * j)))
enter_timed_lem_example = enter_timed_lem (λ k. 7 + 60 * k) seen_by_1 1 100 every_60 (omega arith)
  where
    every_60 : (k : ℕ) → 7 + 60 * k + 50 ≤ 7 + 60 * suc k
    every_60 k = omega arith
