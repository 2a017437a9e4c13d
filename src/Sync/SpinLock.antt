-- ===== src/Sync/SpinLock.antt =====
-- comm/mtaf_spinlock.h: `SpinLock` over the system's spin lock, which is a flag. A call that spins is
-- `none`: it goes on when the holder has unlocked.
use mtappender_file.Prelude.{Bool, true, false, Option, none, some, if◌then◌else◌}

pub record SpinLock : Type 0 where
  pub taken : Bool

-- The constructor.
abbrev pub create : SpinLock
create = record { taken = false }

-- `lock`, `unlock` and `trylock`, with their results.
abbrev pub lock : SpinLock → Option (SpinLock × Bool)
lock s = if s.taken then none else some (record { taken = true }, true)

abbrev pub unlock : SpinLock → SpinLock × Bool
unlock s = (record { taken = false }, true)

abbrev pub trylock : SpinLock → SpinLock × Bool
trylock s = if s.taken then (s, false) else (record { taken = true }, true)
