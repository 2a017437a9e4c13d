-- ===== src/Appender/Threads.antt =====
-- Several threads that call one appender (loglib/mtaf_appender.cpp), interleaved in any order: the
-- parts of `__appender_async`, of `__log_thread_task` with `mtaf_log_appender_flush_sync`, and of
-- `__log2file` between the points where they take and give back the two mutexes of the appender.
-- What a thread has read under a mutex is kept in its place, and used there later.

pub mod Fits
pub mod Flow
pub mod InBuffer
pub mod Taken
pub mod InFile
pub mod Moves
pub mod Order
pub mod Accounts
pub mod Safe
pub mod Lossless
pub mod Progress
pub mod Alone
pub mod Closing
pub mod Finish
pub mod Runs
pub mod Durable
pub mod Race
use mtappender_file.Prelude.{
  update, ℕ, suc, ◌<◌, ◌≡◌, ◌≢◌, Bool, true, false, Option, none, some, List, [], ◌∷◌, ◌++◌, ◌||◌,
  if◌then◌else◌, ◌>>=◌, Bytes, load,
}
use mtappender_file.AutoBuffer
use mtappender_file.AutoBuffer.{AutoBuffer}
use mtappender_file.LogBuffer
use mtappender_file.LogBuffer.{LogBuffer}
use mtappender_file.Sync.Mutex.{Mutex}
use mtappender_file.Sync.Lock.{ScopedLock, enter, leave}
use mtappender_file.Appender.State.{Appender, World, Os, Entry, is_async, is_empty}
use mtappender_file.Appender.LogFile.{open_logfile, write_file, after_write}
use mtappender_file.Appender.Tasks.{append_pending}
use mtappender_file.Appender.AppendLaws.{IsPrintable}
use mtappender_file.Appender.Api.{show_console, flush, set_console_log}

-- What the threads share: the appender with its mutexes, and the world.
pub record Shared : Type 0 where
  pub appender : Appender
  pub world : World
  pub buffer_mutex : Mutex  -- sg_mutex_buffer_async
  pub file_mutex : Mutex  -- sg_mutex_log_file

-- What a thread wants the buffer for: `__appender_async` with a text, `__log_thread_task`, or
-- `mtaf_log_appender_flush_sync`.
pub data Job : Type 0 where
  append : Entry → Job
  task : Job
  flush_sync : Job

-- Where a thread is. A Bool is the `islocked_` of its scoped lock.
pub data Place : Type 0 where
  outside : Place
  wants_buffer : Job → Place
  appending : Bool → Entry → LogBuffer → Place
  flushing : Bool → LogBuffer → Place
  filled : AutoBuffer → Place  -- `tmp` has the text, and the buffer's mutex is free again
  wants_file : Bytes → Place
  opening : Bool → Bytes → Place
  writing : Bool → Bytes → Bool → Place  -- with `open_success`
  closing : Bool → Bool → Bool → Place  -- with `open_success` and `write_sucess`

-- The end of a scope over one of the mutexes.
abbrev pub freed : Mutex → Bool → ℕ → Mutex
freed m locked i = leave (record { mutex = m; is_locked = locked }) i

-- Behind the lock of the buffer's mutex: two of the calls look at `sg_log_buff` there, and are over
-- if it is NULL. `__log_thread_task` has looked at it before, and flushes through it in any case.
unfoldable pub entered : Shared → ℕ → ScopedLock → Job → Option LogBuffer → Option (Shared × Place)
entered s i g task none = none
entered s i g job none = some (record s { buffer_mutex = leave g i }, outside)
entered s i g (append t) (some l) =
    some (record s { buffer_mutex = g.mutex }, appending g.is_locked t l)
entered s i g task (some l) = some (record s { buffer_mutex = g.mutex }, flushing g.is_locked l)
entered s i g flush_sync (some l) =
    some (record s { buffer_mutex = g.mutex }, flushing g.is_locked l)

unfoldable pub take_buffer : Shared → ℕ → Job → Option ScopedLock → Option (Shared × Place)
take_buffer s i job none = some (s, wants_buffer job)
take_buffer s i job (some g) = entered s i g job s.appender.log_buff

unfoldable pub take_file : Shared → Bytes → Option ScopedLock → Shared × Place
take_file s src none = (s, wants_file src)
take_file s src (some g) = (record s { file_mutex = g.mutex }, opening g.is_locked src)

-- The tests between the flush and the lock of the file's mutex.
unfoldable pub filled_place : Appender → Option Bytes → Bytes → Place
filled_place a none src = outside
filled_place a (some p) src = if is_empty src || is_empty a.logdir then outside else wants_file src

-- The next part that thread `i` runs, in its place. A thread in front of a mutex that another one
-- holds stays there.
unfoldable pub act : Os → ℕ → Shared → Place → Option (Shared × Place)
act os i s outside = some (s, outside)
act os i s (wants_buffer job) = take_buffer s i job (enter s.buffer_mutex i true)
act os i s (appending locked t l) =
    append_pending os s.appender s.world t.info (some t.body) l >>= λ r. some (
      record s { appender = r.0; world = r.1; buffer_mutex = freed s.buffer_mutex locked i },
      outside,
    )
act os i s (flushing locked l) = LogBuffer.flush os.memory l (AutoBuffer.empty 128) >>= λ r. some (
  record s {
    appender = record s.appender { log_buff = some r.0 };
    buffer_mutex = freed s.buffer_mutex locked i;
  },
  filled r.1,
)
act os i s (filled tmp) =
    load tmp.parray 0 tmp.len >>= λ src. some (s, filled_place s.appender tmp.parray src)
act os i s (wants_file src) = some (take_file s src (enter s.file_mutex i true))
act os i s (opening locked src) =
    let (a, opened) = open_logfile os s.appender s.appender.logdir in
    some (record s { appender = a }, writing locked src opened)
act os i s (writing locked src opened) =
    let (w, wrote, f) = write_file os s.world src s.appender.logfile in
    some (
      if opened
      then (
        record s { world = w; appender = record s.appender { logfile = f } },
        closing locked true wrote,
      )
      else (s, closing locked false false))
act os i s (closing locked opened wrote) = some (
  record s {
    appender = if opened then after_write s.appender wrote else s.appender;
    file_mutex = freed s.file_mutex locked i;
  },
  outside,
)

-- The texts that the next part appends to the log buffer.
abbrev pub appended : Place → List Entry
appended (appending locked t l) = t ∷ []
appended _ = []

pub record System : Type 0 where
  pub shared : Shared
  pub place : ℕ → Place

-- One step of one of `n` threads. Only the threads of `Flushes` flush: those that run the background
-- work, and callers of `mtaf_log_appender_flush_sync`. A call looks at `sg_log_close` and `sg_mode`
-- before it takes the buffer's mutex, and `__log_thread_task` at `sg_log_buff`. A text begins with no
-- zero byte, and its log info, if any, has a known level and a short tag. `mtaf_log_appender_flush` and
-- `mtaf_log_appender_set_console_log` take no mutex, and may come at any time.
pub data Step (os : Os) (n : ℕ) (Flushes : ℕ → Type 0) (s : System) : System → Type 0 where
  appends :
      (i : ℕ) (t : Entry)
      → i < n
      → s.place i ≡ outside
      → s.shared.appender.log_close ≡ false
      → is_async s.shared.appender.mode ≡ true
      → IsPrintable t
      → Step os n Flushes s (record {
        shared = record s.shared { world = show_console s.shared.appender s.shared.world t.body };
        place = update s.place i (wants_buffer (append t));
      })
  tasks :
      (i : ℕ)
      → i < n
      → s.place i ≡ outside
      → Flushes i
      → s.shared.appender.log_buff ≢ none
      → Step os n Flushes s (record s { place = update s.place i (wants_buffer task) })
  flushes :
      (i : ℕ)
      → i < n
      → s.place i ≡ outside
      → Flushes i
      → is_async s.shared.appender.mode ≡ true
      → Step os n Flushes s (record s { place = update s.place i (wants_buffer flush_sync) })
  notifies :
      Step os n Flushes s (record s {
        shared = record s.shared { world = (flush s.shared.appender s.shared.world).1 };
      })
  sets_console :
      (on : Bool)
      → Step os n Flushes s (record s {
        shared = record s.shared { appender = set_console_log s.shared.appender on };
      })
  acts :
      (i : ℕ) (sh : Shared) (p : Place)
      → i < n
      → act os i s.shared (s.place i) ≡ some (sh, p)
      → Step os n Flushes s (record { shared = sh; place = update s.place i p })

-- The texts that a step appends to the log buffer.
unfoldable pub texts_of :
    {os : Os} {n : ℕ} {F : ℕ → Type 0} {s t : System} → Step os n F s t → List Entry
texts_of (appends i t _ _ _ _ _) = []
texts_of (tasks i _ _ _ _) = []
texts_of (flushes i _ _ _ _) = []
texts_of notifies = []
texts_of (sets_console on) = []
texts_of {s = s} (acts i sh p _ _) = appended (s.place i)

-- The states that the threads reach from a state where all are outside, each with the texts that
-- have been appended on the way, in order.
pub data Reachable (os : Os) (n : ℕ) (Flushes : ℕ → Type 0) (sh : Shared)
    : System → List Entry → Type 0 where
  begins : Reachable os n Flushes sh (record { shared = sh; place = λ _. outside }) []
  stepped :
      {s t : System} {ts : List Entry}
      → Reachable os n Flushes sh s ts
      → (st : Step os n Flushes s t) → Reachable os n Flushes sh t (ts ++ texts_of st)

-- What the calls that have begun lead to, by a number of parts and no new call, with the texts that
-- are appended on the way.
pub data Continues (os : Os) (n : ℕ) : ℕ → System → System → List Entry → Type 0 where
  rests : (s : System) → Continues os n 0 s s []
  goes_on :
      {s v : System} {k : ℕ} {us : List Entry} (i : ℕ) (sh : Shared) (p : Place)
      → i < n
      → act os i s.shared (s.place i) ≡ some (sh, p)
      → Continues os n k (record { shared = sh; place = update s.place i p }) v us
      → Continues os n (suc k) s v (appended (s.place i) ++ us)
