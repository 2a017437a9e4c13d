-- ===== src/Thread/Util.antt =====
-- `ThreadUtil` of comm/mtaf_thread.h, and the small members of `Thread`. What `pthread_kill` and
-- `pthread_join` return is given; `yield` and the sleeps are the system's.
use mtappender_file.Prelude.{ℕ, Option, none, some, Bool, true, false, ◌==◌, if◌then◌else◌, Bytes}
use mtappender_file.Thread.State.{Reference}
use mtappender_file.Thread.Ops.{edeadlk}

-- `ThreadUtil::isruning`, on what `pthread_kill(_id, 0)` returns.
abbrev pub is_running_id : ℕ → Bool
is_running_id ret = ret == 0

-- `ThreadUtil::currentthreadid`, in thread `self`.
abbrev pub current_thread_id : ℕ → ℕ
current_thread_id self = self

-- `ThreadUtil::join` in thread `self`.
pub join_id : ℕ → ℕ → ℕ → ℕ
join_id self id ret = if id == current_thread_id self then edeadlk else ret

-- `tid` and `thread_name`.
abbrev pub tid : Reference → ℕ
tid r = r.tid

abbrev pub thread_name : Reference → Bytes
thread_name r = r.thread_name

-- `stack_size(_stacksize)`, which leaves the attribute alone for 0 and where the system refuses.
pub set_stack_size : (ℕ → Bool) → ℕ → ℕ → ℕ
set_stack_size accepts attr size = if size == 0 then attr else (if accepts size then size else attr)

-- `==` and `!=` of two threads.
abbrev pub same_thread : Reference → Reference → Bool
same_thread lhs rhs = tid lhs == tid rhs

abbrev pub other_thread : Reference → Reference → Bool
other_thread lhs rhs = if tid lhs == tid rhs then false else true

-- `stack_size()`: the attribute, or 0 where the system does not tell.
abbrev pub stack_size : Option ℕ → ℕ
stack_size none = 0
stack_size (some size) = size

-- `unsafe_exit`: the thread that `pthread_cancel` is to end. At the next point where it can end, it
-- runs `cleanup`, as at the end of its routine.
abbrev pub unsafe_exit : Reference → ℕ
unsafe_exit r = tid r
