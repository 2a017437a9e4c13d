-- ===== src/Sync/ConditionLaws.antt =====
-- Which notifications arrive, and when a wait is over.
use mtappender_file.Prelude.{ℕ, ◌+◌, ◌*◌, ◌<◌, ◌≡◌, arith, true, false}
use mtappender_file.Sync.Atomic.{Ops}
use mtappender_file.Sync.AtomicLaws.{Swaps}
use mtappender_file.Sync.Condition.{Condition, wait, woken, notify_all, Time, make_timeout}

-- The time to wait until has less than 10 ^ 9 nanoseconds, and is the time of day and the
-- milliseconds, to the nanosecond.
make_timeout_lem :
    (now : Time) (millisecond : ℕ)
    → ((make_timeout now millisecond).part < 1000 * 1000 * 1000)
      × ((make_timeout now millisecond).sec * (1000 * 1000 * 1000)
            + (make_timeout now millisecond).part
          ≡ now.sec * (1000 * 1000 * 1000) + now.part * 1000 + millisecond * (1000 * 1000))
unfolding make_timeout
make_timeout_lem now millisecond = (omega arith, omega arith)

-- With a proper compare-and-swap, a notification of all with `anywaynotify` after which the next
-- operation is a wait: that wait goes on at once, and the wait after it does wait. Where a thread
-- that has waited comes back in between, it clears the mark, and the next wait does wait.
pub wait-notify_all :
    (o : Ops) (c : Condition) (t u : ℕ)
    → Swaps o
    → let d = (wait o (notify_all c true).0 t).0 in
      ((wait o (notify_all c true).0 t).1 ≡ false)
      × ((wait o d u).1 ≡ true)
      × ((wait o (woken (notify_all c true).0) t).1 ≡ true)
unfolding wait woken notify_all
wait-notify_all o c t u s = (rw (s.swap 1 0 1), rw (s.swap 1 0 1, s.swap 0 0 1), rw (s.swap 0 0 1))
