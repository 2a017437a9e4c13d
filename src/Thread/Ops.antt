-- ===== src/Thread/Ops.antt =====
-- The members of `Thread`. What `pthread_create` does is given: the new thread's number, or an error.
use mtappender_file.Prelude.{ℕ, Bool, true, false, ◌==◌, if◌then◌else◌, take, Bytes}
use mtappender_file.Sync.Condition.{Condition}
use mtappender_file.Sync.Condition
use mtappender_file.Thread.State.{
  Reference, new_reference, add_ref, remove_ref, is_running, long_max,
}

abbrev pub esrch : ℕ
esrch = 3

abbrev pub edeadlk : ℕ
edeadlk = 11

-- What `pthread_create` gives.
pub data Created : Type 0 where
  thread : ℕ → Created
  error : ℕ → Created

-- The constructors. `strncpy` fills the 128 bytes of the name.
abbrev pub create : Bool → Bytes → Reference
create target name = add_ref (new_reference target (take 128 name))

-- The destructor.
abbrev pub destroy : Reference → Reference
destroy r = remove_ref r

-- The end of every start: `pthread_create`, and the way back from its error, for which `undo` takes
-- back the times that the start has set.
unfoldable pub launch : Reference → (Reference → Reference) → Created → Reference × ℕ
launch r undo (thread t) = (record r { tid = t }, 0)
launch r undo (error e) = (remove_ref (undo (record r { is_ended = true })), e)

-- `start`: the record, the result, and what `_newone` gets.
unfoldable pub start : Reference → Created → Reference × ℕ × Bool
unfolding launch
start r p =
    if is_running r
    then (r, 0, false)
    else (let (s, ret) = launch (add_ref (record r { is_ended = false })) (λ q. q) p in
        (s, ret, true))

-- `start(op)`: the same with a runnable of its own.
unfoldable pub start_op : Reference → Created → Reference × ℕ × Bool
unfolding launch
start_op r p =
    if is_running r
    then (r, 0, false)
    else (let (s, ret) =
          launch (add_ref (record r { target = true; is_ended = false })) (λ q. q) p in
        (s, ret, true))

-- The record that `start_after` and `start_periodic` give to the thread, and its times taken back.
abbrev pub prepared_after : Reference → ℕ → Reference
prepared_after r after = add_ref (record r {
  condtime = Condition.cancel_any_way_notify r.condtime;
  is_cancel_delay_start = false;
  is_ended = false;
  aftertime = after;
})

abbrev pub undo_after : Reference → Reference
undo_after r = record r { aftertime = long_max }

abbrev pub prepared_periodic : Reference → ℕ → ℕ → Reference
prepared_periodic r after periodic = add_ref (record r {
  condtime = Condition.cancel_any_way_notify r.condtime;
  is_cancel_delay_start = false;
  is_ended = false;
  aftertime = after;
  periodictime = periodic;
})

abbrev pub undo_periodic : Reference → Reference
undo_periodic r = record r { aftertime = long_max; periodictime = long_max }

-- `start_after`.
unfoldable pub start_after : Reference → ℕ → Created → Reference × ℕ
unfolding launch
start_after r after p =
    if is_running r then (r, 0) else launch (prepared_after r after) undo_after p

-- `start_periodic`.
unfoldable pub start_periodic : Reference → ℕ → ℕ → Created → Reference × ℕ
unfolding launch
start_periodic r after periodic p =
    if is_running r then (r, 0) else launch (prepared_periodic r after periodic) undo_periodic p

-- `cancel_after`.
unfoldable pub cancel : Reference → Reference
unfolding Condition.notify_all
cancel r =
    if is_running r
    then record r {
      is_cancel_delay_start = true;
      condtime = (Condition.notify_all r.condtime true).0;
    }
    else r

-- `cancel_periodic` does the same.
abbrev pub cancel_periodic : Reference → Reference
cancel_periodic r = cancel r

-- `join` in thread `self`, up to `pthread_join`: the record, and what is left to do.
pub data Join : Type 0 where
  returns : ℕ → Join
  waits_for : ℕ → Join

unfoldable pub join : Reference → ℕ → Reference × Join
join r self =
    if r.tid == self
    then (r, returns edeadlk)
    else (if is_running r then (record r { is_joined = true }, waits_for r.tid) else (r, returns 0))

-- `outside_join`.
unfoldable pub outside_join : Reference → Reference
outside_join r =
    if r.is_joined then r else (if is_running r then r else record r { is_joined = true })

-- `kill`: a result, or a signal that goes to the thread now.
pub data Kill : Type 0 where
  returns : ℕ → Kill
  sends : ℕ → ℕ → Kill

unfoldable pub kill : Reference → ℕ → Reference × Kill
kill r sig =
    if is_running r
    then (if r.is_in_thread
        then (r, Kill.sends r.tid sig)
        else (record r { killsig = sig }, Kill.returns 0))
    else (r, Kill.returns esrch)
