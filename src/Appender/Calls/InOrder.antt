-- ===== src/Appender/Calls/InOrder.antt =====
-- When the lines of a program that uses an appender of loglib/mtaf_appender.cpp are stored in the order
-- of its appends.
use mtappender_file.Prelude.{
  ◌≤◌, ◌<◌, ◌^◌, ◌≡◌, refl, ◌∙◌, sym, ap, true, false, Bool-cases, inl, inr, none, some, List, [],
  ◌∷◌, ◌++◌, append-nil, append_assoc, Bytes, ℕ,
}
use mtappender_file.LogBuffer.Flush.{StartsText}
use mtappender_file.Formatter.{Zone}
use mtappender_file.Appender.State.{Appender, World, Os, is_async, is_empty, appended_file}
use mtappender_file.Appender.LogFile.{log_path}
use mtappender_file.Appender.Api.{block_size, mmap_path}
use mtappender_file.Appender.FileLaws.{AlwaysWorks}
use mtappender_file.Appender.AppendLaws.{line_of, HaveBuffers}
use mtappender_file.Appender.OpenLaws.{Maps, block_at}
use mtappender_file.Appender.Calls.{
  Call, appends, flushes, flushes_sync, does_task, sets_mode, sets_console, Log, put, log_call,
  log_calls,
}
use mtappender_file.Appender.Calls.Kept.{CanCalls}
use mtappender_file.Appender.Calls.Session.{mixed_session, nothing_logged, mixed_session_lem}

-- The lines of the appends, in their order.
abbrev pub line_of_call : Zone → Call → Bytes
line_of_call z (appends t) = line_of z t.info t.body
line_of_call z flushes = []
line_of_call z flushes_sync = []
line_of_call z does_task = []
line_of_call z (sets_mode m) = []
line_of_call z (sets_console on) = []

abbrev pub lines_of_calls : List (Os × Call) → Bytes
lines_of_calls [] = []
lines_of_calls ((os, c) ∷ cs) = line_of_call os.zone c ++ lines_of_calls cs

-- No line is appended in the synchronous mode while others are pending.
abbrev pub IsInTurn : Call → Log → Type 0
IsInTurn (appends t) g = is_async g.mode ≡ false → g.pending ≡ []
IsInTurn flushes g = Unit
IsInTurn flushes_sync g = Unit
IsInTurn does_task g = Unit
IsInTurn (sets_mode m) g = Unit
IsInTurn (sets_console on) g = Unit

abbrev pub AreInTurn : List (Os × Call) → Log → Type 0
AreInTurn [] g = Unit
AreInTurn ((os, c) ∷ cs) g = IsInTurn c g × AreInTurn cs (log_call os.zone c g)

-- Everything in a log.
abbrev whole : Log → Bytes
whole g = g.stored ++ g.pending

whole-put :
    (g : Log) (line : Bytes)
    → (is_async g.mode ≡ false → g.pending ≡ [])
    → whole (put g line) ≡ whole g ++ line
whole-put g line turn = elim (Bool-cases (is_async g.mode)) [
  | inl async ↦ rw async (sym (append_assoc g.stored g.pending line))
  | inr direct ↦ rw (direct, turn direct, append-nil (g.stored ++ line), append-nil g.stored)
]

whole-log_call :
    (z : Zone) (c : Call) (g : Log)
    → IsInTurn c g
    → whole (log_call z c g) ≡ whole g ++ line_of_call z c
whole-log_call z (appends t) g turn = whole-put g (line_of z t.info t.body) turn
whole-log_call z flushes g turn = sym (append-nil (whole g))
whole-log_call z flushes_sync g turn = elim (Bool-cases (is_async g.mode)) [
  | inl async ↦ rw async
  | inr direct ↦ rw direct (sym (append-nil (whole g)))
]
whole-log_call z does_task g turn = refl
whole-log_call z (sets_mode m) g turn = sym (append-nil (whole g))
whole-log_call z (sets_console on) g turn = sym (append-nil (whole g))

whole-log_calls :
    (cs : List (Os × Call)) (g : Log)
    → AreInTurn cs g
    → whole (log_calls cs g) ≡ whole g ++ lines_of_calls cs
whole-log_calls [] g turns = sym (append-nil (whole g))
whole-log_calls ((os, c) ∷ cs) g turns =
    whole-log_calls cs (log_call os.zone c g) turns.1
    ∙ ap (λ xs. xs ++ lines_of_calls cs) (whole-log_call os.zone c g turns.0)
    ∙ append_assoc (whole g) (line_of_call os.zone c) (lines_of_calls cs)

-- A program opens a closed appender, which has no stream and stands beside appenders that have
-- their buffers, in the asynchronous mode over a mapped file that holds nothing, with a block of 4
-- to less than 2 ^ 29 bytes. It then makes any sequence of calls, each at a time of its own and
-- with a system that always works: appends of texts that begin with no zero byte and have no log
-- info or one of a known level and a tag of less than 952 bytes, flushes of both kinds, changes of
-- the mode and of the console output, with background tasks anywhere between them, as long as what
-- is pending in the asynchronous mode stays below four fifths of the block. It closes the log at
-- last. If it appends nothing in the synchronous mode while text is pending, the log file has
-- grown by the lines of all its texts, in the order of the appends and once each, and no other
-- file has changed.
pub mixed_session-lines_of_calls :
    (os : Os) (a : Appender) (w : World) (dir name : Bytes) (fd : ℕ) (cs : List (Os × Call))
    (last : Os)
    → a.log_close ≡ true
    → a.logfile ≡ none
    → is_empty dir ≡ false
    → 4 ≤ block_size a.block_length
    → block_size a.block_length < 2 ^ 29
    → Maps os (mmap_path dir name) fd
    → ¬ StartsText (block_at os a dir name)
    → HaveBuffers w.peers
    → CanCalls
        (block_size a.block_length)
        (log_path (record a { logdir = dir; logfilename = name }) dir)
        cs
        nothing_logged
    → AreInTurn cs nothing_logged
    → AlwaysWorks last (log_path (record a { logdir = dir; logfilename = name }) dir)
    → (b : Appender) × (v : World) × (mixed_session os a w dir name cs last ≡ some (b, v))
      × (v.files
          ≡ appended_file w.files
              (log_path (record a { logdir = dir; logfilename = name }) dir)
              (lines_of_calls cs))
mixed_session-lines_of_calls os a w dir name fd cs last closed stream named four small maps clean h
      can turns works =
    let (b, v, e, shut, no_stream, grown, wiped) =
      mixed_session_lem os a w dir name fd cs last closed stream named four small maps clean h can
        works in
    (
      b,
      v,
      e,
      grown
          ∙ ap
              (appended_file w.files (log_path (record a { logdir = dir; logfilename = name }) dir))
              (whole-log_calls cs nothing_logged turns),
    )
