-- ===== src/Thread/Signal.antt =====
-- `kill`, `join` and `cleanup`: no signal is lost before the thread has begun, and a thread that
-- was started is joined or detached, not both.
use mtappender_file.Prelude.{ℕ, ◌≤◌, ◌<◌, ◌≡◌, true, false, some, ◌==◌, le→leb, lt→ltb}
use mtappender_file.Thread.State.{Reference}
use mtappender_file.Thread.Ops.{Kill, kill, waits_for, join}
use mtappender_file.Thread.Routine.{init, cleanup}

-- A signal from 1 to 32 that is sent after a start and before the thread has begun is kept, and the
-- thread sends it to itself when it begins; after that, signals are sent at once.
init-kill :
    (r : Reference) (sig later : ℕ)
    → r.is_ended ≡ false
    → r.is_in_thread ≡ false
    → 0 < sig
    → sig ≤ 32
    → ((kill r sig).1 ≡ Kill.returns 0)
      × ((init (kill r sig).0).1 ≡ some sig)
      × ((kill (init (kill r sig).0).0 later).1 ≡ Kill.sends r.tid later)
unfolding kill init
init-kill r sig later e t h k = (rw (e, t), rw (e, t, lt→ltb 0 sig h, le→leb sig 32 k), rw (e, t))

-- For a thread that runs and that no thread joins yet: one that another thread joins is not detached
-- when it ends, and one that no thread joins is.
cleanup-join :
    (r : Reference) (self : ℕ)
    → r.is_ended ≡ false
    → r.is_joined ≡ false
    → (r.tid == self) ≡ false
    → ((join r self).1 ≡ waits_for r.tid)
      × ((cleanup (join r self).0).1 ≡ false)
      × ((cleanup r).1 ≡ true)
unfolding join cleanup
cleanup-join r self e j t = (rw (e, t), rw (e, t), rw j)
