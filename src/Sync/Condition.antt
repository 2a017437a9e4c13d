-- ===== src/Sync/Condition.antt =====
-- comm/mtaf_condition.h. `wait` is seen in two parts, up to `pthread_cond_wait` and from its return
-- on, with what other threads do in between as calls of their own; a thread is a number. That the
-- caller holds the mutex of the scope it gives is asserted there and is taken for granted here.
use mtappender_file.Prelude.{
  ℕ, ◌+◌, ◌*◌, ◌/◌, ◌%◌, Bool, true, false, List, [], ◌∷◌, ◌++◌, ◌==◌, if◌then◌else◌,
}
use mtappender_file.Sync.Atomic.{Ops}

-- `anyway_notify_`, and the threads inside `pthread_cond_wait`.
pub record Condition : Type 0 where
  pub anyway_notify : ℕ
  pub waiting : List ℕ

-- The constructor.
abbrev pub create : Condition
create = record { anyway_notify = 0; waiting = [] }

-- `wait`, to `pthread_cond_wait` or past it: whether the thread waits.
unfoldable pub wait : Ops → Condition → ℕ → Condition × Bool
wait o c t =
    let (flag, was) = o.cas c.anyway_notify 0 1 in
    if was == 0
    then (record { anyway_notify = flag; waiting = c.waiting ++ (t ∷ []) }, true)
    else (record c { anyway_notify = 0 }, false)

-- The rest of `wait` in a thread that has waited, for whatever reason it woke.
unfoldable pub woken : Condition → Condition
woken c = record c { anyway_notify = 0 }

-- `notifyOne`: the system wakes one of the threads, the longest waiting one here.
pub notify_one : Condition → Condition × List ℕ
notify_one c = elim c.waiting [ [] ↦ (c, []) | t ∷ rest ↦ (record c { waiting = rest }, t ∷ []) ]

-- `notifyAll`: the threads that it wakes.
unfoldable pub notify_all : Condition → Bool → Condition × List ℕ
notify_all c anyway_notify = (
  record { anyway_notify = if anyway_notify then 1 else c.anyway_notify; waiting = [] },
  c.waiting,
)

-- `cancelAnyWayNotify`.
abbrev pub cancel_any_way_notify : Condition → Condition
cancel_any_way_notify c = record c { anyway_notify = 0 }

-- A `timespec`, or a `timeval` with its microseconds.
pub record Time : Type 0 where
  pub sec : ℕ
  pub part : ℕ

-- `makeTimeout`, for the time of day `now` and at least 0 milliseconds; `MakeTimeout` of
-- mtaf_mutex.h is the same.
unfoldable pub make_timeout : Time → ℕ → Time
make_timeout now millisecond =
    let nsec = (millisecond % 1000) * 1000 * 1000 + now.part * 1000 in
    record {
      sec = millisecond / 1000 + now.sec + nsec / (1000 * 1000 * 1000);
      part = nsec % (1000 * 1000 * 1000);
    }

-- `Mutex::MakeTimeout`, which takes its time of day in the same way.
abbrev pub mutex_timeout : Time → ℕ → Time
mutex_timeout now ms = make_timeout now ms

-- The destructor: whether `pthread_cond_destroy` finds that threads wait, which is only asserted.
abbrev pub destroy : Condition → Bool
destroy c = elim c.waiting [ [] ↦ false | t ∷ rest ↦ true ]
