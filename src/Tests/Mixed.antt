-- ===== src/Tests/Mixed.antt =====
-- Runs of a program that makes calls of all kinds, on two days.
use mtappender_file.Prelude.{
  ℕ, ◌≡◌, refl, Bool, Option, arith, true, false, none, some, List, [], ◌∷◌, ◌++◌, replicate, Bytes,
  target,
}
use mtappender_file.Formatter.{time_text}
use mtappender_file.Appender.State.{Appender, Stream, World, Os, Entry, async, sync, appended_file}
use mtappender_file.Appender.LogFile.{log_path, fresh, write_file, on_disk}
use mtappender_file.Appender.Api.{block_size}
use mtappender_file.Appender.FileLaws.{AlwaysWorks}
use mtappender_file.Appender.Calls.{
  Call, appends, flushes, flushes_sync, does_task, sets_mode, sets_console, log_calls,
}
use mtappender_file.Appender.Calls.Kept.{CanCalls}
use mtappender_file.Appender.Calls.Session.{
  mixed_session, nothing_logged, logged, mixed_session_lem,
}
use mtappender_file.Appender.Calls.InOrder.{AreInTurn, lines_of_calls, mixed_session-lines_of_calls}
use mtappender_file.LogBuffer.{LogBuffer}
use mtappender_file.Mmap.{MmapFile}
use mtappender_file.Appender.OpenLaws.{Opened}
use mtappender_file.Appender.Calls.Kill.{mixed_crash, IsRest, mixed_crash_lem}
use mtappender_file.LogBuffer.Reader.{read_back}
use mtappender_file.Appender.Calls.Reading.{opened_calls, read_back-opened_calls}
use mtappender_file.LogBuffer.Flush.{StartsText}
use mtappender_file.Appender.Calls.Lifetime.{Run, runs, logged_by, runs_lem}
use mtappender_file.Tests.Samples.{closed, world, dir, name, clean, clean-Maps, info}

-- The system on a day.
abbrev on_day : ℕ → Os
on_day d = record clean {
  now = d;
  zone = record clean.zone {
    localtime = λ t. record { year = 70; month = 0; mday = t; hour = 0; minute = 0; second = 0 };
  };
}

abbrev path : Bytes
path = log_path (record closed { logdir = dir; logfilename = name }) dir

on_day-AlwaysWorks : (d : ℕ) → AlwaysWorks (on_day d) path
on_day-AlwaysWorks d = record {
  opens = refl;
  tells = refl;
  takes = λ n. omega arith;
  grants = λ n. refl;
}

abbrev headed : Entry
headed = record { info = info; body = 33 ∷ [] }

abbrev plain_text : Entry
plain_text = record { info = none; body = 97 ∷ 98 ∷ [] }

abbrev history : List (Os × Call)
history =
    (on_day 1, appends headed)
    ∷ (on_day 1, flushes)
    ∷ (on_day 1, does_task)
    ∷ (on_day 1, sets_mode sync)
    ∷ (on_day 1, appends plain_text)
    ∷ (on_day 2, appends plain_text)
    ∷ (on_day 2, sets_console true)
    ∷ (on_day 2, sets_mode async)
    ∷ (on_day 2, appends plain_text)
    ∷ (on_day 2, flushes_sync)
    ∷ (on_day 2, appends plain_text)
    ∷ []

history-CanCalls : CanCalls (block_size closed.block_length) path history nothing_logged
unfolding time_text
history-CanCalls = (
  (
    on_day-AlwaysWorks 1,
    ((λ e. absurd (omega (arith, e)), (omega arith, omega arith)), λ a. omega arith),
  ),
  (
    (on_day-AlwaysWorks 1, tt),
    (
      (on_day-AlwaysWorks 1, tt),
      (
        (on_day-AlwaysWorks 1, tt),
        (
          (on_day-AlwaysWorks 1, ((λ e. absurd (omega (arith, e)), tt), λ a. omega arith)),
          (
            (on_day-AlwaysWorks 2, ((λ e. absurd (omega (arith, e)), tt), λ a. omega arith)),
            (
              (on_day-AlwaysWorks 2, tt),
              (
                (on_day-AlwaysWorks 2, tt),
                (
                  (on_day-AlwaysWorks 2, ((λ e. absurd (omega (arith, e)), tt), λ a. omega arith)),
                  (
                    (on_day-AlwaysWorks 2, tt),
                    (
                      (
                        on_day-AlwaysWorks 2,
                        ((λ e. absurd (omega (arith, e)), tt), λ a. omega arith),
                      ),
                      tt,
                    ),
                  ),
                ),
              ),
            ),
          ),
        ),
      ),
    ),
  ),
)

history-AreInTurn : AreInTurn history nothing_logged
history-AreInTurn = (
  λ a. refl,
  (tt, (tt, (tt, (λ a. refl, (λ a. refl, (tt, (tt, (λ a. refl, (tt, (λ a. refl, tt)))))))))),
)

mixed_session_lem_example :
    (b : Appender) × (v : World) × (mixed_session clean closed world dir name history (on_day 2)
      ≡ some (b, v))
    × (b.log_close ≡ true)
    × (b.logfile ≡ none)
    × (v.files ≡ appended_file world.files path (logged history))
    × (v.cache ≡ replicate (block_size closed.block_length) 0)
mixed_session_lem_example =
    mixed_session_lem clean closed world dir name 5 history (on_day 2) refl refl refl (omega arith)
      (omega arith) (clean-Maps _) (λ s. s refl) tt history-CanCalls (on_day-AlwaysWorks 2)

mixed_session-lines_of_calls_example :
    (b : Appender) × (v : World) × (mixed_session clean closed world dir name history (on_day 2)
      ≡ some (b, v))
    × (v.files ≡ appended_file world.files path (lines_of_calls history))
mixed_session-lines_of_calls_example =
    mixed_session-lines_of_calls clean closed world dir name 5 history (on_day 2) refl refl refl
      (omega arith) (omega arith) (clean-Maps _) (λ s. s refl) tt history-CanCalls history-AreInTurn
      (on_day-AlwaysWorks 2)

mixed_crash_lem_example :
    (b : Appender) × (v : World) × (l : LogBuffer) × (m : MmapFile) × (kept : Bytes)
    × (lost : Bytes) × (rest : Bytes) × (mixed_crash clean closed world dir name history (on_day 3)
        ≡ some (b, v))
    × Opened closed b dir name l m
    × (v.files
        ≡ appended_file world.files path
            ((kept ++ (log_calls history nothing_logged).pending) ++ rest))
    × (kept ++ lost ≡ (log_calls history nothing_logged).stored)
    × ((log_calls history nothing_logged).direct ≡ false → lost ≡ [])
    × IsRest (block_size closed.block_length) (log_calls history nothing_logged).pending rest
mixed_crash_lem_example =
    mixed_crash_lem clean closed world dir name 5 history (on_day 3) refl refl refl (omega arith)
      (omega arith) (clean-Maps _) (λ s. s refl) tt history-CanCalls
      (record { opens = refl; lengthens = refl; maps = refl }) (on_day-AlwaysWorks 3)

read_back-opened_calls_example :
    (b : Appender) × (v : World) × (l : LogBuffer) × (kept : Bytes) × (lost : Bytes) × (opened_calls
        clean closed world dir name history
      ≡ some (b, v))
    × (b.log_buff ≡ some l)
    × (on_disk b.logfile v.files ≡ appended_file world.files path kept)
    × (kept ++ lost ≡ (log_calls history nothing_logged).stored)
    × ((log_calls history nothing_logged).direct ≡ false → lost ≡ [])
    × (read_back (target l.buff.parray) ≡ (log_calls history nothing_logged).pending)
read_back-opened_calls_example =
    read_back-opened_calls clean closed world dir name 5 history refl refl refl (omega arith)
      (omega arith) (clean-Maps _) (λ s. s refl) tt history-CanCalls
      (λ e. absurd (omega (arith, e)))
      (
        (λ e. absurd (omega (arith, e))),
        ((λ e. absurd (omega (arith, e))), ((λ e. absurd (omega (arith, e))), tt)),
      )

-- Two runs, the second without calls.
abbrev two_runs : List Run
two_runs =
    record { first = clean; history = history; last = on_day 2 }
    ∷ record { first = clean; history = []; last = on_day 3 }
    ∷ []

runs_lem_example :
    (b : Appender) × (v : World) × (runs dir name two_runs closed world ≡ some (b, v))
    × (b.log_close ≡ true)
    × (b.logfile ≡ none)
    × (v.files ≡ appended_file world.files path (logged_by two_runs))
    × ¬ StartsText v.cache
runs_lem_example =
    runs_lem dir name two_runs closed world refl refl refl (omega arith) (omega arith) (λ s. s) tt
      (
        ((5, clean-Maps _), history-CanCalls, on_day-AlwaysWorks 2),
        (((5, clean-Maps _), tt, on_day-AlwaysWorks 3), tt),
      )

-- A line that is appended in the synchronous mode comes before one that is pending.
abbrev hasty : List (Os × Call)
hasty =
    (on_day 1, appends plain_text)
    ∷ (on_day 1, sets_mode sync)
    ∷ (on_day 1, appends (record { info = none; body = 99 ∷ [] }))
    ∷ []

hasty_run : logged hasty ≡ 99 ∷ 10 ∷ 97 ∷ 98 ∷ 10 ∷ []
hasty_run = refl

-- A line that is written to an open stream and is still held back.
written : World × Bool × Option Stream
written = write_file clean world (33 ∷ []) (some (fresh path))

written_held_back :
    (written.0.files path ≡ world.files path ++ (33 ∷ []))
    × (on_disk written.2 written.0.files path ≡ world.files path)
unfolding written write_file
written_held_back = (refl, refl)
