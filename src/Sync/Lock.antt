-- ===== src/Sync/Lock.antt =====
-- comm/mtaf_lock.h: `BaseScopedLock`, over the mutex. A `mutex` and an `is_locked` below are what a
-- scope sees and keeps.
use mtappender_file.Prelude.{
  ℕ, zero, suc, ◌+◌, ◌%◌, ◌^◌, Bool, true, false, Option, none, some, leb, if◌then◌else◌, ◌>>=◌,
}
use mtappender_file.Sync.Mutex.{Mutex}
use mtappender_file.Sync.Mutex

pub record ScopedLock : Type 0 where
  pub mutex : Mutex
  pub is_locked : Bool

-- `lock`.
unfoldable pub lock : ScopedLock → ℕ → Option ScopedLock
lock s t =
    if s.is_locked
    then some s
    else (Mutex.lock s.mutex t >>= λ r.
        some (record { mutex = r.0; is_locked = if r.1 then true else s.is_locked }))

-- The constructor, with `initiallyLocked`.
unfoldable pub enter : Mutex → ℕ → Bool → Option ScopedLock
unfolding lock
enter m t initially_locked =
    let s : ScopedLock = record { mutex = m; is_locked = false } in
    if initially_locked then lock s t else some s

-- `unlock`.
unfoldable pub unlock : ScopedLock → ℕ → ScopedLock
unlock s t =
    if s.is_locked then record { mutex = (Mutex.unlock s.mutex t).0; is_locked = false } else s

-- `trylock`.
unfoldable pub trylock : ScopedLock → ℕ → ScopedLock × Bool
trylock s t =
    if s.is_locked
    then (s, false)
    else (let (m, done) = Mutex.trylock s.mutex t in (record { mutex = m; is_locked = done }, done))

-- The destructor: the mutex after the scope.
unfoldable pub leave : ScopedLock → ℕ → Mutex
unfolding unlock
leave s t = if s.is_locked then (unlock s t).mutex else s.mutex

-- The `while` of `timedlock`, off Linux. What other threads do between the tries of thread `t` is in
-- `seen`, the mutex at each try, and `ticks` has the readings of the clock, the first of which is
-- the start. Out of fuel is `none`.
unfoldable pub poll : ℕ → (ℕ → ℕ) → (ℕ → Mutex) → ℕ → ℕ → ℕ → ScopedLock → Option ScopedLock
poll zero ticks seen t limit k s = none
poll (suc fuel) ticks seen t limit k s =
    let (r, done) = trylock (record s { mutex = seen k }) t in
    let rest = poll fuel ticks seen t limit (suc k) r in
    if leb (ticks k) limit then (if done then some r else rest) else some s

-- `timedlock`, off Linux. The sum is that of two 64-bit words.
unfoldable pub timedlock : ℕ → (ℕ → ℕ) → (ℕ → Mutex) → ScopedLock → ℕ → ℕ → Option ScopedLock
unfolding poll
timedlock fuel ticks seen s t millisecond =
    if s.is_locked then some s else poll fuel ticks seen t ((ticks 0 + millisecond) % 2 ^ 64) 0 s

-- The constructor with `_millisecond`.
unfoldable pub enter_timed : ℕ → (ℕ → ℕ) → (ℕ → Mutex) → ℕ → ℕ → Option ScopedLock
unfolding timedlock
enter_timed fuel ticks seen t millisecond =
    timedlock fuel ticks seen (record { mutex = seen 0; is_locked = false }) t millisecond
