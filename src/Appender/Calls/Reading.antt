-- ===== src/Appender/Calls/Reading.antt =====
-- What a reader of the two files of an appender (loglib/mtaf_appender.cpp) finds while a program uses
-- it: the log file, and the mapped file, cut by the rule of the readme.
use mtappender_file.Prelude.{
  ℕ, ◌+◌, ◌^◌, ◌≤◌, ◌<◌, ◌≡◌, inl, inr, ◌∙◌, sym, ap, arith, true, false, Option, none, some, List,
  [], ◌++◌, length, ◌>>=◌, Bytes, target,
}
use mathlib.Core.Path.{subst}
use mtappender_file.LogBuffer.{LogBuffer}
use mtappender_file.LogBuffer.Append.{length-text}
use mtappender_file.LogBuffer.Flush.{StartsText}
use mtappender_file.LogBuffer.Reader.{NoZero, read_back, read_back-text}
use mtappender_file.Mmap.{MmapFile}
use mtappender_file.Appender.State.{Appender, World, Os, async, is_empty, appended_file}
use mtappender_file.Appender.LogFile.{log_path, on_disk}
use mtappender_file.Appender.Api.{open_log, block_size, mmap_path}
use mtappender_file.Appender.AppendLaws.{HaveBuffers}
use mtappender_file.Appender.OpenLaws.{Maps, block_at, open_log-clean}
use mtappender_file.Appender.Calls.{Call, calls, Log, log_calls}
use mtappender_file.Appender.Calls.Tracked.{Tracked}
use mtappender_file.Appender.Calls.Kept.{CanCalls, calls-Next}
use mtappender_file.Appender.Calls.Session.{nothing_logged, Tracked-Opened}
use mtappender_file.Appender.Calls.OnDisk.{on_disk-Tracked}

-- Opening and the calls.
pub opened_calls :
    Os → Appender → World → Bytes → Bytes → List (Os × Call) → Option (Appender × World)
opened_calls os a w dir name cs = open_log os a w async dir name >>= λ r. calls cs r.0 r.1

read_back-Tracked :
    (files : Bytes → Bytes) (path : Bytes) (n : ℕ) (m : MmapFile) (g : Log) (a : Appender)
    (w : World) (l : LogBuffer)
    → 16 ≤ n
    → Tracked files path n m g a w l
    → StartsText g.pending
    → NoZero g.pending
    → read_back (target l.buff.parray) ≡ g.pending
read_back-Tracked files path n m g a w l large k s clean =
    let held : length g.pending ≡ l.buff.len = ap length (sym k.held) ∙ length-text l k.ready in
    let room : l.buff.len + 4 < l.buff.max_len = elim k.below [
      | inl nothing ↦ absurd (subst StartsText nothing s)
      | inr below ↦ omega (arith, below, held, k.room, large)
    ] in
    read_back-text l k.ready (subst NoZero (sym k.held) clean) (k.marked s room) ∙ k.held

-- A program opens a closed appender, which has no stream and stands beside appenders that have
-- their buffers, in the asynchronous mode over a mapped file that holds nothing, with a block of
-- 16 to less than 2 ^ 29 bytes. It then makes any sequence of calls, each at a time of its own and
-- with a system that always works: appends of texts that begin with no zero byte and have no log
-- info or one of a known level and a tag of less than 952 bytes, flushes of both kinds, changes of
-- the mode and of the console output, with background tasks anywhere between them, as long as what
-- is pending in the asynchronous mode stays below four fifths of the block. If text is pending
-- after these calls and has no zero byte, the log file on the disk has grown by what is stored,
-- but for a last part of it that its open stream may hold back, which is empty if the mode was
-- asynchronous at every append and task; and the mapped file, cut by the rule of the readme, gives
-- exactly what is pending, whatever older bytes the block still holds.
pub read_back-opened_calls :
    (os : Os) (a : Appender) (w : World) (dir name : Bytes) (fd : ℕ) (cs : List (Os × Call))
    → a.log_close ≡ true
    → a.logfile ≡ none
    → is_empty dir ≡ false
    → 16 ≤ block_size a.block_length
    → block_size a.block_length < 2 ^ 29
    → Maps os (mmap_path dir name) fd
    → ¬ StartsText (block_at os a dir name)
    → HaveBuffers w.peers
    → CanCalls
        (block_size a.block_length)
        (log_path (record a { logdir = dir; logfilename = name }) dir)
        cs
        nothing_logged
    → StartsText (log_calls cs nothing_logged).pending
    → NoZero (log_calls cs nothing_logged).pending
    → (b : Appender) × (v : World) × (l : LogBuffer) × (kept : Bytes) × (lost : Bytes)
      × (opened_calls os a w dir name cs ≡ some (b, v))
      × (b.log_buff ≡ some l)
      × (on_disk b.logfile v.files
          ≡ appended_file w.files
              (log_path (record a { logdir = dir; logfilename = name }) dir)
              kept)
      × (kept ++ lost ≡ (log_calls cs nothing_logged).stored)
      × ((log_calls cs nothing_logged).direct ≡ false → lost ≡ [])
      × (read_back (target l.buff.parray) ≡ (log_calls cs nothing_logged).pending)
unfolding opened_calls
read_back-opened_calls os a w dir name fd cs closed stream named large small maps clean h can begins
      no_zero =
    let path : Bytes = log_path (record a { logdir = dir; logfilename = name }) dir in
    let n : ℕ = block_size a.block_length in
    let (b, v, l, m, e, o, f, p) =
      open_log-clean os a w dir name fd closed stream named (omega (arith, large))
        (omega (arith, small)) maps clean in
    let s =
      calls-Next w.files path n m cs nothing_logged b v l
        (Tracked-Opened a b w v dir name l m small o f (subst HaveBuffers (sym p) h))
        o.open_async.live can in
    let d =
      on_disk-Tracked w.files path n m (log_calls cs nothing_logged) s.after s.world s.log
        s.tracked in
    (
      s.after,
      s.world,
      s.log,
      d.kept,
      d.lost,
      rw e s.returns,
      s.tracked.buffer,
      d.on_disk,
      d.all,
      d.none_lost,
      read_back-Tracked w.files path n m (log_calls cs nothing_logged) s.after s.world s.log large
          s.tracked begins no_zero,
    )
