-- ===== src/Tests/Refusing.antt =====
-- A run beside a system that refuses to open the log file now and then.
use mtappender_file.Prelude.{
  ◌≡◌, refl, arith, true, false, none, some, Bool, List, [], ◌∷◌, replicate, Bytes,
}
use mtappender_file.Formatter.{time_text}
use mtappender_file.Appender.State.{Appender, World, Os, Entry, sync, appended_file}
use mtappender_file.Appender.LogFile.{log_path}
use mtappender_file.Appender.Api.{block_size}
use mtappender_file.Appender.FileLaws.{MayRefuse}
use mtappender_file.Appender.Calls.{Call, appends, flushes_sync, does_task, sets_mode}
use mtappender_file.Appender.Calls.Session.{mixed_session, nothing_logged}
use mtappender_file.Appender.Calls.Lossy.{lossy_moved}
use mtappender_file.Appender.Calls.LossySession.{
  lossy_calls, AreExcused, CanTry, mixed_session-lossy_calls,
}
use mtappender_file.Tests.Samples.{closed, world, dir, name, clean, clean-Maps, info}

abbrev shut : Os
shut = record clean { opens_log = λ path. false }

clean-MayRefuse : MayRefuse clean
clean-MayRefuse = record { tells = refl; takes = λ n. omega arith; grants = λ n. refl }

shut-MayRefuse : MayRefuse shut
shut-MayRefuse = record { tells = refl; takes = λ n. omega arith; grants = λ n. refl }

abbrev path : Bytes
path = log_path (record closed { logdir = dir; logfilename = name }) dir

abbrev headed : Entry
headed = record { info = info; body = 33 ∷ [] }

abbrev plain_text : Entry
plain_text = record { info = none; body = 97 ∷ 98 ∷ [] }

abbrev history : List (Os × Call)
history =
    (clean, appends headed)
    ∷ (shut, does_task)
    ∷ (clean, appends plain_text)
    ∷ (clean, flushes_sync)
    ∷ (clean, sets_mode sync)
    ∷ (shut, appends plain_text)
    ∷ []

history-CanTry : CanTry (block_size closed.block_length) history nothing_logged
unfolding time_text
history-CanTry = (
  clean-MayRefuse,
  ((λ e. absurd (omega (arith, e)), (omega arith, omega arith)), λ a. omega arith),
  λ k1. (
    shut-MayRefuse,
    tt,
    λ k2. (
      clean-MayRefuse,
      ((λ e. absurd (omega (arith, e)), tt), λ a. omega arith),
      λ k3. (
        clean-MayRefuse,
        tt,
        λ k4. (
          clean-MayRefuse,
          tt,
          λ k5.
              (shut-MayRefuse, ((λ e. absurd (omega (arith, e)), tt), λ a. omega arith), λ k6. tt),
        ),
      ),
    ),
  ),
)

mixed_session-lossy_calls_example :
    (ks : List Bool) × (k : Bool) × (b : Appender) × (v : World) × AreExcused path ks history
    × (k ≡ false → shut.opens_log path ≡ false)
    × (mixed_session clean closed world dir name history shut ≡ some (b, v))
    × (b.log_close ≡ true)
    × (b.logfile ≡ none)
    × (v.files
        ≡ appended_file world.files path
            (lossy_moved k (lossy_calls ks history nothing_logged)).stored)
    × (v.cache ≡ replicate (block_size closed.block_length) 0)
mixed_session-lossy_calls_example =
    mixed_session-lossy_calls clean closed world dir name 5 history shut refl refl refl
      (omega arith) (omega arith) (clean-Maps _) (λ s. s refl) tt history-CanTry shut-MayRefuse
