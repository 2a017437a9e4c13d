-- ===== src/Sync/TimedLaws.antt =====
-- `timedlock` of comm/mtaf_lock.h: the lock that gives up after a time.
use mtappender_file.Prelude.{
  ℕ, zero, suc, ◌+◌, ◌*◌, ◌/◌, ◌%◌, ◌^◌, ◌≤◌, ◌<◌, ◌≡◌, ◌⊎◌, refl, arith, true, false, some, leb,
  inl, inr, Bool-cases, leb→le, lt→leb_false, ◌∙◌,
}
use mathlib.Core.Path.{ap₂}
use native.Mathlib.Nat.{mod-eq_of_lt}
use mtappender_file.Sync.Mutex.{Mutex}
use mtappender_file.Sync.Mutex
use mtappender_file.Sync.Lock.{ScopedLock, trylock, poll, timedlock, enter_timed}

module _ (seen : ℕ → Mutex) (t : ℕ) where
  -- The mutex was not to be had at the first `k` tries.
  abbrev pub AllBusy : ℕ → Type 0
  AllBusy zero = Unit
  AllBusy (suc k) = AllBusy k × ((Mutex.trylock (seen k) t).1 ≡ false)

module _ (ticks : ℕ → ℕ) (seen : ℕ → Mutex) (t : ℕ)
    (sleeps : (k : ℕ) → ticks k + 50 ≤ ticks (suc k)) (limit : ℕ) where
  -- How the loop ends.
  abbrev pub Ended : ℕ → ScopedLock → ℕ → Type 0
  Ended most r k =
      (k ≤ most)
      × AllBusy seen t k
      × (((r.is_locked ≡ true)
            × (r.mutex ≡ (Mutex.trylock (seen k) t).0)
            × ((Mutex.trylock (seen k) t).1 ≡ true)
            × (ticks k ≤ limit))
          ⊎ ((r.is_locked ≡ false) × (limit < ticks k)))

  poll_lem :
      (fuel k : ℕ) (s : ScopedLock)
      → s.is_locked ≡ false
      → AllBusy seen t k
      → limit < ticks k + 50 * fuel
      → (r : ScopedLock) × (j : ℕ) × (poll (suc fuel) ticks seen t limit k s ≡ some r)
        × Ended (k + fuel) r j
  unfolding poll trylock
  poll_lem zero k s free busy enough =
      let over : limit < ticks k = omega (arith, enough) in
      (s, k, rw (lt→leb_false (ticks k) limit over), (omega arith, busy, inr (free, over)))
  poll_lem (suc fuel) k s free busy enough = elim (Bool-cases (leb (ticks k) limit)) [
    | inr over ↦ (s, k, rw over, (omega arith, busy, inr (free, ground arith)))
    | inl early ↦ elim (Bool-cases (Mutex.trylock (seen k) t).1) [
      | inl got ↦ (
        record { mutex = (Mutex.trylock (seen k) t).0; is_locked = true },
        k,
        rw (early, free, got),
        (omega arith, busy, inl (refl, refl, got, leb→le (ticks k) limit early)),
      )
      | inr missed ↦
          let (r, j, e, ended) =
            poll_lem fuel (suc k)
              (record { mutex = (Mutex.trylock (seen k) t).0; is_locked = false }) refl
              (busy, missed) (omega (arith, sleeps k)) in
          (r, j, rw (early, free, missed) e, (omega (arith, ended.0), ended.1, ended.2))
    ]
  ]

-- Whatever other threads do with the mutex, if the clock goes on by 50 ms or more between two
-- tries and the end of the wait fits into 64 bits, a lock with a time to wait ends after at most
-- one try for every 50 ms and two more; it holds the mutex from the first try that finds it, in
-- time, or it holds nothing and the time is over.
pub enter_timed_lem :
    (ticks : ℕ → ℕ) (seen : ℕ → Mutex) (t millisecond : ℕ)
    → ((k : ℕ) → ticks k + 50 ≤ ticks (suc k))
    → ticks 0 + millisecond < 2 ^ 64
    → (r : ScopedLock) × (j : ℕ) × (enter_timed (millisecond / 50 + 2) ticks seen t millisecond
        ≡ some r)
      × (j ≤ millisecond / 50 + 1)
      × AllBusy seen t j
      × (((r.is_locked ≡ true)
            × (r.mutex ≡ (Mutex.trylock (seen j) t).0)
            × ((Mutex.trylock (seen j) t).1 ≡ true)
            × (ticks j ≤ ticks 0 + millisecond))
          ⊎ ((r.is_locked ≡ false) × (ticks 0 + millisecond < ticks j)))
unfolding enter_timed timedlock
enter_timed_lem ticks seen t ms sleeps fits =
    let exact : (ticks 0 + ms) % 2 ^ 64 ≡ ticks 0 + ms = mod-eq_of_lt fits in
    let fuel : ms / 50 + 2 ≡ suc (ms / 50 + 1) = omega arith in
    let (r, j, e, ended) =
      poll_lem ticks seen t sleeps (ticks 0 + ms) (ms / 50 + 1) 0
        (record { mutex = seen 0; is_locked = false }) refl tt (omega arith) in
    (
      r,
      j,
      ap₂ (λ f l. poll f ticks seen t l 0 (record { mutex = seen 0; is_locked = false })) fuel exact
          ∙ e,
      omega (arith, ended.0),
      ended.1,
      ended.2,
    )
