-- ===== src/Lib.antt =====
-- MTAppenderFile: a logging library that keeps the newest lines in a memory mapped file, from which a
-- thread moves them to a log file; they are meant to survive a crash of the program.
--
-- The parts, and how they work together. An appender (loglib/mtaf_appender.cpp) formats a line into
-- an array on its stack (loglib/mtaf_formatter.cpp, through comm/mtaf_ptrbuffer.cc), appends it to
-- its log buffer (loglib/mtaf_log_buffer.cpp), whose memory is a mapped file
-- (loglib/mtaf_mmap_file.cpp) or a heap block, and notifies a thread (comm/mtaf_thread.h) through a
-- condition (comm/mtaf_condition.h). The thread flushes the log buffer into a growing buffer
-- (comm/mtaf_autobuffer.cc) and appends that to the log file.
--
-- - Prelude: tests, lists, words and memory. A pointer is the bytes from its address to the end of
--   the allocation, and an access out of bounds is `none`, which stands for undefined behaviour.
--   Words are numbers with the wrap-around written out; an `off_t` is its 64-bit pattern.
-- - PtrBuffer: the class `PtrBuffer`, a record of its four fields; the members are functions of the
--   same names (`Seek` is `seek`, `Length(pos, len)` is `set_length`, the positioned `Write` and
--   `Read` are `write_at` and `read_at`). PtrBuffer/Objects has the templates of the header for
--   objects, whose bytes are a `Layout` of Prelude/Layouts, and the small members. PtrBuffer/Valid,
--   Write, Append and Read have the laws.
-- - AutoBuffer: the class `AutoBuffer` in the same way (`__FitSize` is `fit_size`), with the
--   allocator as a parameter, and AutoBuffer/Objects its templates. AutoBuffer/Round, Valid, Write,
--   Read, Move and Objects/RoundTrip have the laws.
-- - LogBuffer: `MTAppenderFileLogBuffer`. LogBuffer/Append, Flush and Reader have the laws; Reader
--   states the rule by which the readme tells a reader to cut a mapped file.
-- - Mmap: `mtaf_open_mmap` and the others, with the system calls' results as a parameter. The bytes
--   of the mapping are the bytes of the file. Mmap/Files has the laws.
-- - Formatter: `mtaf_log_formater`, with the time zone as a parameter. Formatter/Numbers, Holds,
--   Line, Header and Long have the laws.
-- - Appender/State, LogFile, Tasks and Api: the record of an appender, what it shares with the rest
--   of the program, the system, and the functions of loglib/mtaf_appender.cpp in its order.
--   Appender/FileLaws, TaskLaws, LineLaws, AppendLaws, ApiLaws, CloseLaws, OpenLaws, SharedLaws,
--   SyncLaws and Crash have the laws; Session has the lines of several texts. Appender/Calls has
--   any sequence of calls, and the log that they stand for; Calls/Tracked says how the appender
--   stands for it, Appended and Kept that each call keeps this, Lossy and Refused the same where the
--   log file cannot be opened, and Closed what closing does then. OnDisk says what of it has
--   reached the disk. Session, Lifetime, InOrder, Kill, Reading and LossySession have the laws of
--   whole programs. Appender/HeapBlock has the opening without a mapped file, and Appender/CloseRace
--   a closing with another call between its last task and the release.
-- - Appender/Threads: several threads in the functions of loglib/mtaf_appender.cpp at once, as a step
--   relation over the parts between the points where they take and give back the mutexes of the
--   appender. Fits says what a thread may rely on in its place, Flow what becomes of the texts,
--   InBuffer, Taken, InFile and Moves follow one part, Order, Accounts and Safe any sequence of
--   them, Runs one thread alone; Lossless, Progress, Finish, Durable, Race, Alone and Closing have
--   the laws.
-- - Sync/Atomic, Mutex, Lock, SpinLock and Condition: comm/mtaf_atomic_oper.h, mtaf_mutex.h,
--   mtaf_lock.h, mtaf_spinlock.h and mtaf_condition.h. The instructions, intrinsics and built-in
--   functions under the atomic operations are written out as they are documented.
--   Sync/AtomicLaws, LockLaws, TimedLaws and ConditionLaws have the laws.
-- - Time, with Time/Laws, Runnable and Assert: comm/mtaf_time_utils.c, mtaf_runnable.h and
--   __mtaf_assert.c.
-- - Thread/State, Ops, Routine: comm/mtaf_thread.h. Thread/System has the step relation of the record
--   that a `Thread` shares with the thread that it starts; Thread/Count and Reach, Signal and Delay
--   have the laws. Thread/Util has `ThreadUtil` and the small members.
-- - Tests: all of it on concrete inputs.
--
-- Bounds and fuel. `digits` in Formatter has the number itself for fuel, which has no more digits
-- than that (Formatter/Numbers); `poll` in Sync/Lock has the number of tries, one for every 50 ms of the
-- wait and two more (Sync/TimedLaws); `run` in Appender/Threads/Alone has the number of parts, seven
-- for the longest call. Loops over lists of appenders and over looks at a flag are structural.
-- Sizes are bounded where the code's own types need it: below 2 ^ 32 for a pointer buffer, below
-- 2 ^ 31 for a log buffer and its texts, below 2 ^ 29 for a block whose four fifths `__appender_async`
-- computes in `int`, below 2 ^ 63 for a growing buffer.
--
-- Not modelled. Outside Appender/Threads and Thread/System calls run one at a time. Changing the mode,
-- opening and closing are no steps of Appender/Threads. The assertions are off in a release build and
-- are left out. zlib is linked but no stream is opened.
-- The clock, the allocator, the file system and the mapping are parameters. A stream holds back as much
-- of what it has been given as the system decides, and hands it over at its closing; the log files of
-- the model are those with what the open streams hold back, and `on_disk` takes this away. The calls
-- of the C library that end a thread or let it sleep, `timedlock` for Linux, the Objective-C interface
-- and the demo are left out.
pub mod Prelude
pub mod PtrBuffer
pub mod AutoBuffer
pub mod LogBuffer
pub mod Mmap
pub mod Formatter
pub mod Appender
pub mod Assert
pub mod Runnable
pub mod Time
pub mod Sync
pub mod Thread
pub mod Tests
