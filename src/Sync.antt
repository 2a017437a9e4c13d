-- ===== src/Sync.antt =====
-- What the threads of the library share: comm/mtaf_atomic_oper.h, mtaf_mutex.h, mtaf_lock.h and
-- mtaf_condition.h, one module each. MTAF_ASSERT is left out everywhere: it only reports, and
-- without DEBUG it is off (comm/__mtaf_assert.c).
pub mod Atomic
pub mod AtomicLaws
pub mod Mutex
pub mod Lock
pub mod SpinLock
pub mod LockLaws
pub mod TimedLaws
pub mod Condition
pub mod ConditionLaws
