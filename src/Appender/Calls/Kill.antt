-- ===== src/Appender/Calls/Kill.antt =====
-- A program that uses an appender of loglib/mtaf_appender.cpp and is killed between two calls, and the
-- next one.
use mtappender_file.Prelude.{
  ℕ, ◌^◌, ◌≤◌, ◌<◌, ◌≡◌, ◌⊎◌, inl, inr, refl, ◌∙◌, sym, ap, arith, true, false, Option, none, some,
  List, [], ◌++◌, append-nil, append_assoc, length, drop, ◌>>=◌, Bytes, target,
}
use mathlib.Core.Path.{subst, ap₂}
use mtappender_file.LogBuffer.{LogBuffer}
use mtappender_file.LogBuffer.Flush.{StartsText}
use mtappender_file.Mmap.{MmapFile}
use mtappender_file.Appender.State.{Appender, World, Os, async, is_empty, appended_file}
use mtappender_file.Appender.LogFile.{log_path, on_disk}
use mtappender_file.Appender.Api.{open_log, block_size, mmap_path}
use mtappender_file.Appender.FileLaws.{AlwaysWorks, always_works, appended_file-append}
use mtappender_file.Appender.AppendLaws.{HaveBuffers}
use mtappender_file.Appender.OpenLaws.{Maps, Opened, block_at, open_log-clean}
use mtappender_file.Appender.Crash.{killed, take-drop, truncated-same, reopen_lem, killed-Maps}
use mtappender_file.Appender.Calls.{Call, calls, Log, log_calls}
use mtappender_file.Appender.Calls.Tracked.{Tracked}
use mtappender_file.Appender.Calls.Kept.{CanCalls, calls-Next}
use mtappender_file.Appender.Calls.Session.{nothing_logged, Tracked-Opened}
use mtappender_file.Appender.Calls.OnDisk.{on_disk-Tracked}

-- The world once the process has been killed: what the open stream holds back is gone.
abbrev pub left_on_disk : Appender → World → World
left_on_disk a w = record w { files = on_disk a.logfile w.files }

-- The calls, the kill, and the opening in the next process, which begins with an appender like the
-- first.
pub mixed_crash :
    Os → Appender → World → Bytes → Bytes → List (Os × Call) → Os → Option (Appender × World)
mixed_crash os a w dir name cs next = open_log os a w async dir name >>= λ r.
    calls cs r.0 r.1 >>= λ q.
    q.0.log_buff >>= λ l. open_log (killed next l) a (left_on_disk q.0 q.1) async dir name

-- What follows the lines: the rest of the block, if a line was pending.
abbrev pub IsRest : ℕ → Bytes → Bytes → Type 0
IsRest n pending rest = (length (pending ++ rest) ≡ n) ⊎ ((pending ≡ []) × (rest ≡ []))

-- What the next process finds.
record Found (files : Bytes → Bytes) (path : Bytes) (a : Appender) (dir name kept : Bytes) (g : Log)
    (r : Option (Appender × World)) : Type 0 where
  after : Appender
  world : World
  log : LogBuffer
  map : MmapFile
  rest : Bytes
  returns : r ≡ some (after, world)
  opened : Opened a after dir name log map
  grown : world.files ≡ appended_file files path ((kept ++ g.pending) ++ rest)
  is_rest : IsRest (block_size a.block_length) g.pending rest

open_log-killed :
    (files : Bytes → Bytes) (m : MmapFile) (g : Log) (next : Os) (a b : Appender) (w v : World)
    (l : LogBuffer) (dir name kept : Bytes) (fd : ℕ)
    → a.log_close ≡ true
    → a.logfile ≡ none
    → is_empty dir ≡ false
    → 4 ≤ block_size a.block_length
    → block_size a.block_length < 2 ^ 29
    → Maps next (mmap_path dir name) fd
    → AlwaysWorks next (log_path (record a { logdir = dir; logfilename = name }) dir)
    → Tracked files
        (log_path (record a { logdir = dir; logfilename = name }) dir)
        (block_size a.block_length)
        m
        g
        b
        w
        l
    → v.files
      ≡ appended_file files (log_path (record a { logdir = dir; logfilename = name }) dir) kept
    → Found files
        (log_path (record a { logdir = dir; logfilename = name }) dir)
        a
        dir
        name
        kept
        g
        (open_log (killed next l) a v async dir name)
open_log-killed files m g next a b w v l dir name kept fd closed stream named four small maps works
      k disk =
    let path : Bytes = log_path (record a { logdir = dir; logfilename = name }) dir in
    let n : ℕ = block_size a.block_length in
    let size : length (target l.buff.parray) ≡ n = k.mapped.whole ∙ k.size in
    elim k.begins [
      | inl nothing ↦
          let (d, u, k', m', e, o, f, p) =
            open_log-clean (killed next l) a v dir name fd closed stream named four
              (omega (arith, small)) (killed-Maps next l (mmap_path dir name) fd maps)
              (λ s.
                k.blank nothing
                  (subst StartsText (truncated-same (target l.buff.parray) n size) s)) in
          record {
            after = d;
            world = u;
            log = k';
            map = m';
            rest = [];
            returns = e;
            opened = o;
            grown =
                f
                ∙ disk
                ∙ ap (appended_file files path) (
                    sym (append-nil kept)
                    ∙ ap (λ xs. kept ++ xs) (sym nothing)
                    ∙ sym (append-nil (kept ++ g.pending)));
            is_rest = inr (nothing, refl);
          }
      | inr s ↦
          let rest : Bytes = drop l.buff.len (target l.buff.parray) in
          let (d, u, k', m', e, o, f) =
            reopen_lem next a v l dir name fd closed stream named four (omega (arith, small)) maps
              size (subst StartsText (sym k.held) s)
              (record { granted = works.grants _; small = omega (arith, small) })
              (always_works next path n works) in
          record {
            after = d;
            world = u;
            log = k';
            map = m';
            rest = rest;
            returns = e;
            opened = o;
            grown =
                f
                ∙ ap₂ (λ fs xs. appended_file fs path (xs ++ rest)) disk k.held
                ∙ appended_file-append files path kept (g.pending ++ rest)
                ∙ ap (appended_file files path) (sym (append_assoc kept g.pending rest));
            is_rest = inl (
                ap length
                  (ap (λ xs. xs ++ rest) (sym k.held) ∙ take-drop l.buff.len (target l.buff.parray))
                ∙ size);
          }
    ]

-- A program opens a closed appender, which has no stream and stands beside appenders that have
-- their buffers, in the asynchronous mode over a mapped file that holds nothing, with a block of 4
-- to less than 2 ^ 29 bytes. It then makes any sequence of calls, each at a time of its own and
-- with a system that always works: appends of texts that begin with no zero byte and have no log
-- info or one of a known level and a tag of less than 952 bytes, flushes of both kinds, changes of
-- the mode and of the console output, with background tasks anywhere between them, as long as what
-- is pending in the asynchronous mode stays below four fifths of the block. Between any two calls,
-- or after the last, it is killed, and loses what the open stream of its log file holds back, of
-- which the system decides how much it is; the next process opens the log with an appender like
-- the first and a system that works and maps the file. Let the same calls be made on a log that
-- only knows what is stored, what is pending and its mode. The log file has then grown by what is
-- stored, but for a last part of it that may be lost, and then by what is pending, each once;
-- nothing has been written to any other file. Nothing is lost if the mode was asynchronous at
-- every append and task. If text was pending, the bytes of the rest of the block stand behind it,
-- and nothing does otherwise. The log is open again, with nothing pending.
pub mixed_crash_lem :
    (os : Os) (a : Appender) (w : World) (dir name : Bytes) (fd : ℕ) (cs : List (Os × Call))
    (next : Os)
    → a.log_close ≡ true
    → a.logfile ≡ none
    → is_empty dir ≡ false
    → 4 ≤ block_size a.block_length
    → block_size a.block_length < 2 ^ 29
    → Maps os (mmap_path dir name) fd
    → ¬ StartsText (block_at os a dir name)
    → HaveBuffers w.peers
    → CanCalls
        (block_size a.block_length)
        (log_path (record a { logdir = dir; logfilename = name }) dir)
        cs
        nothing_logged
    → Maps next (mmap_path dir name) fd
    → AlwaysWorks next (log_path (record a { logdir = dir; logfilename = name }) dir)
    → (b : Appender) × (v : World) × (l : LogBuffer) × (m : MmapFile) × (kept : Bytes)
      × (lost : Bytes) × (rest : Bytes) × (mixed_crash os a w dir name cs next ≡ some (b, v))
      × Opened a b dir name l m
      × (v.files
          ≡ appended_file w.files
              (log_path (record a { logdir = dir; logfilename = name }) dir)
              ((kept ++ (log_calls cs nothing_logged).pending) ++ rest))
      × (kept ++ lost ≡ (log_calls cs nothing_logged).stored)
      × ((log_calls cs nothing_logged).direct ≡ false → lost ≡ [])
      × IsRest (block_size a.block_length) (log_calls cs nothing_logged).pending rest
unfolding mixed_crash
mixed_crash_lem os a w dir name fd cs next closed stream named four small maps clean h can maps'
      works =
    let path : Bytes = log_path (record a { logdir = dir; logfilename = name }) dir in
    let (b, v, l, m, e, o, f, p) =
      open_log-clean os a w dir name fd closed stream named four (omega (arith, small)) maps
        clean in
    let s =
      calls-Next w.files path (block_size a.block_length) m cs nothing_logged b v l
        (Tracked-Opened a b w v dir name l m small o f (subst HaveBuffers (sym p) h))
        o.open_async.live can in
    let d =
      on_disk-Tracked w.files path (block_size a.block_length) m (log_calls cs nothing_logged)
        s.after s.world s.log s.tracked in
    let r =
      open_log-killed w.files m (log_calls cs nothing_logged) next a s.after s.world
        (left_on_disk s.after s.world) s.log dir name d.kept fd closed stream named four small maps'
        works s.tracked d.on_disk in
    (
      r.after,
      r.world,
      r.log,
      r.map,
      d.kept,
      d.lost,
      r.rest,
      rw (e, s.returns, s.tracked.buffer) r.returns,
      r.opened,
      r.grown,
      d.all,
      d.none_lost,
      r.is_rest,
    )
