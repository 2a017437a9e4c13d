-- ===== src/Appender/Calls.antt =====
-- The calls of a program that uses one appender of loglib/mtaf_appender.cpp, one at a time and in any
-- order, with rounds of the background work between them, and what a log is without buffers and files.
pub mod Tracked
pub mod Appended
pub mod Kept
pub mod Closed
pub mod Session
pub mod Lifetime
pub mod InOrder
pub mod OnDisk
pub mod Kill
pub mod Lossy
pub mod Refused
pub mod LossySession
pub mod Reading
use mtappender_file.Prelude.{
  Bool, not, Option, some, List, [], ◌∷◌, ◌++◌, ◌||◌, ◌>>=◌, if◌then◌else◌, Bytes,
}
use mtappender_file.Formatter.{Zone}
use mtappender_file.Appender.State.{Appender, World, Os, Mode, Entry, is_async}
use mtappender_file.Appender.Tasks.{thread_task}
use mtappender_file.Appender.Api.{append, flush, flush_sync, set_mode, set_console_log}
use mtappender_file.Appender.AppendLaws.{line_of}

-- `mtaf_log_appender_append` and `_append_ex`, `mtaf_log_appender_flush`,
-- `mtaf_log_appender_flush_sync`, `mtaf_log_appender_setmode`, `mtaf_log_appender_set_console_log`,
-- and `__log_thread_task`.
pub data Call : Type 0 where
  appends : Entry → Call
  flushes flushes_sync does_task : Call
  sets_mode : Mode → Call
  sets_console : Bool → Call

-- One call, beside a system that may differ from call to call, as the time does.
pub call : Os → Call → Appender → World → Option (Appender × World)
call os (appends t) a w = append os a w t.info t.body
call os flushes a w = some (flush a w)
call os flushes_sync a w = flush_sync os a w
call os does_task a w = thread_task os a w
call os (sets_mode m) a w = some (set_mode a w m)
call os (sets_console on) a w = some (set_console_log a on, w)

pub calls : List (Os × Call) → Appender → World → Option (Appender × World)
calls [] a w = some (a, w)
calls ((os, c) ∷ cs) a w = call os c a w >>= λ r. calls cs r.0 r.1

-- A log: what has been stored for good, and what waits for it.
pub record Log : Type 0 where
  pub mode : Mode
  pub stored : Bytes
  pub pending : Bytes
  pub direct : Bool  -- whether the mode was synchronous when anything was to be written

abbrev pub directly : Log → Bool
directly g = g.direct || not (is_async g.mode)

abbrev pub moved : Log → Log
moved g = record g { stored = g.stored ++ g.pending; pending = []; direct = directly g }

abbrev pub put : Log → Bytes → Log
put g line =
    if is_async g.mode
    then record g { pending = g.pending ++ line }
    else record g { stored = g.stored ++ line; direct = directly g }

abbrev pub log_call : Zone → Call → Log → Log
log_call z (appends t) g = put g (line_of z t.info t.body)
log_call z flushes g = g
log_call z flushes_sync g = if is_async g.mode then moved g else g
log_call z does_task g = moved g
log_call z (sets_mode m) g = record g { mode = m }
log_call z (sets_console on) g = g

abbrev pub log_calls : List (Os × Call) → Log → Log
log_calls [] g = g
log_calls ((os, c) ∷ cs) g = log_calls cs (log_call os.zone c g)
