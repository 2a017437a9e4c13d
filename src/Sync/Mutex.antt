-- ===== src/Sync/Mutex.antt =====
-- comm/mtaf_mutex.h. A mutex is seen with its holder; a thread is a number. A call that waits for
-- another thread is `none`: it goes on when that thread has unlocked. A call on a mutex that no
-- thread has initialised or that is destroyed while it is used is not modelled, apart from the
-- test of `magic_`.
use mtappender_file.Prelude.{
  ℕ, zero, suc, ◌+◌, Bool, true, false, Option, none, some, ◌==◌, if◌then◌else◌,
}

-- The kinds are PTHREAD_MUTEX_RECURSIVE and PTHREAD_MUTEX_ERRORCHECK. `intact` is whether `magic_`
-- is the address of the object; `again` counts the locks of the holder beyond the first.
pub record Mutex : Type 0 where
  pub intact : Bool
  pub recursive : Bool
  pub holder : Option ℕ
  pub again : ℕ

-- The constructor.
abbrev pub create : Bool → Mutex
create recursive = record { intact = true; recursive = recursive; holder = none; again = 0 }

-- `pthread_mutex_lock` of a mutex that thread `t` holds: EDEADLK, or one more lock.
abbrev pub relock : Mutex → Mutex × Bool
relock m = if m.recursive then (record m { again = m.again + 1 }, true) else (m, false)

-- The destructor, by which a dangling pointer is noticed.
abbrev pub destroy : Mutex → Mutex
destroy m = record m { intact = false }

abbrev pub take_lock : Mutex → ℕ → Option ℕ → Option (Mutex × Bool)
take_lock m t none = some (record m { holder = some t; again = 0 }, true)
take_lock m t (some u) = if u == t then some (relock m) else none

-- `lock`: whether it holds the mutex now.
unfoldable pub lock : Mutex → ℕ → Option (Mutex × Bool)
lock m t = if m.intact then take_lock m t m.holder else some (m, false)

abbrev pub give_back : Mutex → ℕ → Mutex
give_back m zero = record m { holder = none }
give_back m (suc n) = record m { again = n }

-- `pthread_mutex_unlock`, with EPERM for a thread that does not hold the mutex.
abbrev pub release : Mutex → ℕ → Option ℕ → Mutex × Bool
release m t none = (m, false)
release m t (some u) = if u == t then (give_back m m.again, true) else (m, false)

-- `unlock`: `magic_` is only asserted there.
unfoldable pub unlock : Mutex → ℕ → Mutex × Bool
unlock m t = release m t m.holder

-- `pthread_mutex_trylock`: EBUSY for any holder of an error checking mutex.
abbrev pub try_lock : Mutex → ℕ → Option ℕ → Mutex × Bool
try_lock m t none = (record m { holder = some t; again = 0 }, true)
try_lock m t (some u) = if u == t then relock m else (m, false)

-- `trylock`.
unfoldable pub trylock : Mutex → ℕ → Mutex × Bool
trylock m t = if m.intact then try_lock m t m.holder else (m, false)

-- `islocked`.
unfoldable pub is_locked : Mutex → ℕ → Mutex × Bool
unfolding unlock
is_locked m t =
    let (n, done) = try_lock m t m.holder in if done then ((unlock n t).0, false) else (n, true)
