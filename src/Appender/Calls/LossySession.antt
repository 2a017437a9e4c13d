-- ===== src/Appender/Calls/LossySession.antt =====
-- A program that uses an appender of loglib/mtaf_appender.cpp beside a system that may refuse to open the
-- log file: what the log file holds in the end.
use mtappender_file.Prelude.{
  ℕ, ◌^◌, ◌≤◌, ◌<◌, ◌≡◌, refl, ◌∙◌, sym, arith, Bool, true, false, none, some, List, [], ◌∷◌, Bytes,
  replicate,
}
use mathlib.Core.Path.{subst}
use mtappender_file.LogBuffer.{LogBuffer}
use mtappender_file.LogBuffer.Flush.{StartsText}
use mtappender_file.Mmap.{MmapFile}
use mtappender_file.Appender.State.{Appender, World, Os, is_empty, appended_file}
use mtappender_file.Appender.LogFile.{log_path}
use mtappender_file.Appender.Api.{block_size, mmap_path}
use mtappender_file.Appender.FileLaws.{MayRefuse}
use mtappender_file.Appender.AppendLaws.{HaveBuffers}
use mtappender_file.Appender.OpenLaws.{Maps, block_at, open_log-clean}
use mtappender_file.Appender.Calls.{Call, calls, Log}
use mtappender_file.Appender.Calls.Tracked.{Tracked, Next}
use mtappender_file.Appender.Calls.Kept.{CanCall}
use mtappender_file.Appender.Calls.Closed.{closing, told, Tracked-closing, close_log-Next}
use mtappender_file.Appender.Calls.Session.{
  mixed_session, mixed_session-returns, nothing_logged, Tracked-Opened,
}
use mtappender_file.Appender.Calls.Lossy.{lossy_moved, lossy_call}
use mtappender_file.Appender.Calls.Refused.{thread_task-Outcome, call-Outcome}

-- The calls, each with whether the bytes that it writes are kept.
abbrev pub lossy_calls : List Bool → List (Os × Call) → Log → Log
lossy_calls [] cs g = g
lossy_calls (k ∷ ks) [] g = g
lossy_calls (k ∷ ks) ((os, c) ∷ cs) g = lossy_calls ks cs (lossy_call k os.zone c g)

-- Something is lost only in a call in which the log file cannot be opened.
abbrev pub AreExcused : Bytes → List Bool → List (Os × Call) → Type 0
AreExcused path [] [] = Unit
AreExcused path [] (c ∷ cs) = ⊥
AreExcused path (k ∷ ks) [] = ⊥
AreExcused path (k ∷ ks) ((os, c) ∷ cs) =
    (k ≡ false → os.opens_log path ≡ false) × AreExcused path ks cs

-- What calls need in their order, whatever is lost.
abbrev pub CanTry : ℕ → List (Os × Call) → Log → Type 0
CanTry n [] g = Unit
CanTry n ((os, c) ∷ cs) g =
    MayRefuse os × CanCall n os.zone c g × ((k : Bool) → CanTry n cs (lossy_call k os.zone c g))

-- The calls, and what they lose.
record Outcomes (files : Bytes → Bytes) (path : Bytes) (n : ℕ) (m : MmapFile)
    (cs : List (Os × Call)) (g : Log) (a : Appender) (w : World) : Type 0 where
  kept : List Bool
  excused : AreExcused path kept cs
  next : Next files path n m (lossy_calls kept cs g) a (calls cs a w)

calls-Outcomes :
    (files : Bytes → Bytes) (path : Bytes) (n : ℕ) (m : MmapFile) (cs : List (Os × Call)) (g : Log)
    (a : Appender) (w : World) (l : LogBuffer)
    → Tracked files path n m g a w l
    → a.log_close ≡ false
    → CanTry n cs g
    → Outcomes files path n m cs g a w
unfolding calls
calls-Outcomes files path n m [] g a w l k live can = record {
  kept = [];
  excused = tt;
  next = record { after = a; world = w; log = l; returns = refl; tracked = k; close_kept = refl };
}
calls-Outcomes files path n m ((os, c) ∷ cs) g a w l k live can =
    let o = call-Outcome files path n m os c g a w l can.0 k live can.1 in
    let s = o.next in
    let rest =
      calls-Outcomes files path n m cs (lossy_call o.kept os.zone c g) s.after s.world s.log
        s.tracked (s.close_kept ∙ live) (can.2 o.kept) in
    record {
      kept = o.kept ∷ rest.kept;
      excused = (o.excuse, rest.excused);
      next = record {
        after = rest.next.after;
        world = rest.next.world;
        log = rest.next.log;
        returns = rw s.returns rest.next.returns;
        tracked = rest.next.tracked;
        close_kept = rest.next.close_kept ∙ s.close_kept;
      };
    }

-- A program opens a closed appender, which has no stream and stands beside appenders that have
-- their buffers, in the asynchronous mode over a mapped file that holds nothing, with a block of 4
-- to less than 2 ^ 29 bytes. It then makes any sequence of calls, each at a time of its own and
-- with a system that works but for the log file, which it may refuse to open: appends of texts
-- that begin with no zero byte and have no log info or one of a known level and a tag of less than
-- 952 bytes, flushes of both kinds, changes of the mode and of the console output, with background
-- tasks anywhere between them, as long as what is pending in the asynchronous mode stays below
-- four fifths of the block. It closes the log at last, beside such a system too. No call faults;
-- what a call writes, be it what was pending or a line in the synchronous mode, is either kept
-- whole or lost whole, and lost only where the system refuses to open the log file in that very
-- call; the log file has grown by what is kept, in the order in which it is written, and no other
-- file has changed; the appender is closed without a stream, and the mapped file holds zero bytes.
pub mixed_session-lossy_calls :
    (os : Os) (a : Appender) (w : World) (dir name : Bytes) (fd : ℕ) (cs : List (Os × Call))
    (last : Os)
    → a.log_close ≡ true
    → a.logfile ≡ none
    → is_empty dir ≡ false
    → 4 ≤ block_size a.block_length
    → block_size a.block_length < 2 ^ 29
    → Maps os (mmap_path dir name) fd
    → ¬ StartsText (block_at os a dir name)
    → HaveBuffers w.peers
    → CanTry (block_size a.block_length) cs nothing_logged
    → MayRefuse last
    → let path : Bytes = log_path (record a { logdir = dir; logfilename = name }) dir in
      (ks : List Bool) × (k : Bool) × (b : Appender) × (v : World) × AreExcused path ks cs
      × (k ≡ false → last.opens_log path ≡ false)
      × (mixed_session os a w dir name cs last ≡ some (b, v))
      × (b.log_close ≡ true)
      × (b.logfile ≡ none)
      × (v.files
          ≡ appended_file w.files path (lossy_moved k (lossy_calls ks cs nothing_logged)).stored)
      × (v.cache ≡ replicate (block_size a.block_length) 0)
mixed_session-lossy_calls os a w dir name fd cs last closed stream named four small maps clean h can
      system =
    let path : Bytes = log_path (record a { logdir = dir; logfilename = name }) dir in
    let n : ℕ = block_size a.block_length in
    let (b, v, l, m, e, o, f, p) =
      open_log-clean os a w dir name fd closed stream named four (omega (arith, small)) maps
        clean in
    let r =
      calls-Outcomes w.files path n m cs nothing_logged b v l
        (Tracked-Opened a b w v dir name l m small o f (subst HaveBuffers (sym p) h))
        o.open_async.live can in
    let s = r.next in
    let g = lossy_calls r.kept cs nothing_logged in
    let t =
      thread_task-Outcome w.files path n m last g (closing s.after) (told s.world) s.log system
        (Tracked-closing w.files path n m g s.after s.world s.log s.tracked) in
    let (c, u, e', shut, no_stream, grown, wiped, size, peers) =
      close_log-Next w.files path n m last (lossy_moved t.kept g) s.after s.world
        (omega (arith, four)) (s.close_kept ∙ o.open_async.live) s.tracked.thread t.next in
    (
      r.kept,
      t.kept,
      c,
      u,
      r.excused,
      t.excuse,
      mixed_session-returns os a w dir name cs last b v s.after s.world c u e s.returns e',
      shut,
      no_stream,
      grown,
      wiped,
    )
