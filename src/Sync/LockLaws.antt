-- ===== src/Sync/LockLaws.antt =====
-- What a scope does to its mutex.
use mtappender_file.Prelude.{
  ℕ, ◌≡◌, ◌≢◌, refl, arith, Bool, true, false, not, Bool-cases, inl, inr, none, some, ◌==◌,
}
use mtappender_file.Sync.Mutex.{Mutex}
use mtappender_file.Sync.Mutex
use mtappender_file.Sync.Lock.{ScopedLock, enter, leave, unlock}

same : (t : ℕ) → (t == t) ≡ true
same t = ground arith

other_test : (t u : ℕ) → t ≢ u → (t == u) ≡ false
other_test t u h = ground arith

-- A thread enters a scope of a free mutex and holds it there; another thread cannot take the mutex
-- meanwhile; and leaving the scope frees the mutex, also after an explicit `unlock`.
pub leave-enter :
    (recursive : Bool) (t u : ℕ)
    → t ≢ u
    → (s : ScopedLock) × (enter (Mutex.create recursive) t true ≡ some s)
      × (s.mutex.holder ≡ some t)
      × (Mutex.lock s.mutex u ≡ none)
      × ((Mutex.trylock s.mutex u).1 ≡ false)
      × (leave s t ≡ Mutex.create recursive)
      × (leave (unlock s t) t ≡ Mutex.create recursive)
unfolding enter leave unlock Mutex.lock Mutex.unlock Mutex.trylock
leave-enter recursive t u other = (
  record {
    mutex = record { intact = true; recursive = recursive; holder = some t; again = 0 };
    is_locked = true;
  },
  refl,
  refl,
  rw (other_test t u other),
  rw (other_test t u other),
  rw (same t),
  rw (same t),
)

-- A mutex that does not allow it is not locked twice: a second scope of the thread that holds it
-- goes on without the mutex, and leaving that scope does not free it.
leave-enter_again :
    (m : Mutex) (t : ℕ)
    → m.intact ≡ true
    → m.recursive ≡ false
    → m.holder ≡ some t
    → (s : ScopedLock) × (enter m t true ≡ some s) × (s.is_locked ≡ false) × (leave s t ≡ m)
unfolding enter leave Mutex.lock
leave-enter_again m t ok plain held =
    (record { mutex = m; is_locked = false }, rw (ok, held, same t, plain), refl, refl)

-- `islocked` takes a recursive mutex that the calling thread itself holds for free; an error
-- checking one it does not.
is_locked-own : (m : Mutex) (t : ℕ) → m.holder ≡ some t → (Mutex.is_locked m t).1 ≡ not m.recursive
unfolding Mutex.is_locked Mutex.unlock
is_locked-own m t held = elim (Bool-cases m.recursive) [
  | inl twice ↦ rw (held, same t, twice)
  | inr plain ↦ rw (held, same t, plain)
]
