-- ===== src/Appender/Threads/Closing.antt =====
-- loglib/mtaf_appender.cpp: a thread that is on its way to the log buffer while another one closes the
-- appender.
use mtappender_file.Prelude.{ℕ, ◌<◌, ◌≡◌, ◌≢◌, sym, Option, none, some, ◌∷◌, length, Bytes}
use mathlib.Core.Path.{subst}
use mtappender_file.LogBuffer.{LogBuffer}
use mtappender_file.LogBuffer.Append.{text}
use mtappender_file.Mmap.{MmapFile}
use mtappender_file.Appender.State.{Entry, Appender, World, Os}
use mtappender_file.Appender.LogFile.{log_path}
use mtappender_file.Appender.Api.{close_log}
use mtappender_file.Appender.FileLaws.{Works}
use mtappender_file.Appender.TaskLaws.{Grants}
use mtappender_file.Appender.ApiLaws.{IsOpenAsync}
use mtappender_file.Appender.CloseLaws.{IsMapped, HasThread, close_log_lem}
use mtappender_file.Appender.Threads.{
  append, task, flush_sync, outside, wants_buffer, act, take_buffer, entered,
}
use mtappender_file.Appender.Threads.Flow.{enter_free, freed_own}
use mtappender_file.Appender.Threads.Alone.{free}

-- What becomes of the three calls.
abbrev Finds : Os → ℕ → Appender → World → Entry → Option LogBuffer → Type 0
Finds os i b v t o =
    (act os i (free (record b { log_buff = o }, v)) (wants_buffer task) ≡ none)
    × (act os i (free (record b { log_buff = o }, v)) (wants_buffer flush_sync)
        ≡ some (free (record b { log_buff = o }, v), outside))
    × (act os i (free (record b { log_buff = o }, v)) (wants_buffer (append t))
        ≡ some (free (record b { log_buff = o }, v), outside))

Finds-none : (os : Os) (i : ℕ) (b : Appender) (v : World) (t : Entry) → Finds os i b v t none
unfolding act take_buffer entered
Finds-none os i b v t =
    (rw (enter_free i), rw (enter_free i, freed_own i), rw (enter_free i, freed_own i))

-- Once an open appender in the asynchronous mode over a mapped file, with a pending text that
-- begins with no zero byte, a thread and a working system, has been closed, a thread in front of
-- the buffer's mutex returns if it is to append or to flush through
-- `mtaf_log_appender_flush_sync`; one in `__log_thread_task`, which has looked at the buffer
-- before, goes through NULL.
pub act-close_log :
    (os : Os) (a : Appender) (w : World) (l : LogBuffer) (m : MmapFile) (x : ℕ) (src : Bytes)
    (i : ℕ) (t : Entry)
    → IsOpenAsync a l
    → IsMapped a l m
    → 0 < a.block_length
    → HasThread a
    → text l ≡ x ∷ src
    → x ≢ 0
    → Grants os (length (x ∷ src))
    → Works os (log_path a a.logdir) (length (x ∷ src))
    → (b : Appender) × (v : World) × (close_log os a w ≡ some (b, v))
      × (act os i (free (b, v)) (wants_buffer task) ≡ none)
      × (act os i (free (b, v)) (wants_buffer flush_sync) ≡ some (free (b, v), outside))
      × (act os i (free (b, v)) (wants_buffer (append t)) ≡ some (free (b, v), outside))
act-close_log os a w l m x src i t o mapped pos thread e nz g s =
    let (b, v, closes, c, no_buffer, no_file, no_stream, files, cache) =
      close_log_lem os a w l m x src o mapped pos thread e nz g s in
    let finds : Finds os i b v t b.log_buff =
      subst (Finds os i b v t) (sym no_buffer) (Finds-none os i b v t) in
    (b, v, closes, finds.0, finds.1, finds.2)
