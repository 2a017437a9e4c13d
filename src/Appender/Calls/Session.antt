-- ===== src/Appender/Calls/Session.antt =====
-- A program that opens a log of loglib/mtaf_appender.cpp, makes calls in any order, and closes it.
use mtappender_file.Prelude.{
  ℕ, ◌^◌, ◌≤◌, ◌<◌, ◌≡◌, refl, ap, ◌∙◌, sym, arith, true, false, inl, Option, none, some, List, [],
  ◌++◌, ◌>>=◌, Bytes, replicate,
}
use mathlib.Core.Path.{subst, ap₂}
use mtappender_file.LogBuffer.{LogBuffer}
use mtappender_file.LogBuffer.Flush.{StartsText}
use mtappender_file.Mmap.{MmapFile}
use mtappender_file.Appender.State.{Appender, World, Os, async, is_empty, appended_file}
use mtappender_file.Appender.LogFile.{log_path, make_logfilename, log_ext, held_back}
use mtappender_file.Appender.Api.{open_log, close_log, block_size, mmap_path}
use mtappender_file.Appender.FileLaws.{AlwaysWorks, appended_file-nil}
use mtappender_file.Appender.AppendLaws.{HaveBuffers}
use mtappender_file.Appender.OpenLaws.{Maps, Opened, block_at, open_log-clean}
use mtappender_file.Appender.Calls.{Call, calls, Log, log_calls}
use mtappender_file.Appender.Calls.Tracked.{Tracked}
use mtappender_file.Appender.Calls.Kept.{CanCalls, calls-Next}
use mtappender_file.Appender.Calls.Closed.{close_log-Tracked}

-- Opening, the calls, and closing beside a system of its own.
pub mixed_session :
    Os → Appender → World → Bytes → Bytes → List (Os × Call) → Os → Option (Appender × World)
mixed_session os a w dir name cs last =
    open_log os a w async dir name >>= λ r. calls cs r.0 r.1 >>= λ q. close_log last q.0 q.1

pub mixed_session-returns :
    (os : Os) (a : Appender) (w : World) (dir name : Bytes) (cs : List (Os × Call)) (last : Os)
    (b : Appender) (v : World) (c : Appender) (u : World) (d : Appender) (t : World)
    → open_log os a w async dir name ≡ some (b, v)
    → calls cs b v ≡ some (c, u)
    → close_log last c u ≡ some (d, t)
    → mixed_session os a w dir name cs last ≡ some (d, t)
unfolding mixed_session
mixed_session-returns os a w dir name cs last b v c u d t e f g = rw (e, f, g)

-- The log at its opening.
abbrev pub nothing_logged : Log
nothing_logged = record { mode = async; stored = []; pending = []; direct = false }

-- All that a program has appended, once it has closed the log.
abbrev pub logged : List (Os × Call) → Bytes
logged cs = let g = log_calls cs nothing_logged in g.stored ++ g.pending

pub Tracked-Opened :
    (a b : Appender) (w v : World) (dir name : Bytes) (l : LogBuffer) (m : MmapFile)
    → block_size a.block_length < 2 ^ 29
    → Opened a b dir name l m
    → v.files ≡ w.files
    → HaveBuffers v.peers
    → Tracked w.files
        (log_path (record a { logdir = dir; logfilename = name }) dir)
        (block_size a.block_length)
        m
        nothing_logged
        b
        v
        l
Tracked-Opened a b w v dir name l m small o f h = record {
  mode = o.open_async.mode;
  buffer = o.open_async.buffer;
  ready = o.open_async.ready;
  named = o.open_async.named;
  at_path = ap₂ (λ d n. make_logfilename d n log_ext 1024) o.dir_kept o.name_kept;
  on_log = inl o.open_async.no_stream;
  shut = λ e. o.open_async.no_stream;
  behind = omega (arith, ap held_back o.open_async.no_stream);
  size = o.size;
  small = small;
  room = o.buffer_size;
  held = o.nothing;
  begins = inl refl;
  blank = λ nothing. o.blank;
  below = inl refl;
  marked = λ s. absurd s;
  grown =
      f
      ∙ sym (
          appended_file-nil w.files (log_path (record a { logdir = dir; logfilename = name }) dir));
  peers = h;
  mapped = o.mapped;
  thread = o.thread;
}

-- What a run has left behind: the appender is closed, and ready for the next.
pub record Ended (files : Bytes → Bytes) (path : Bytes) (n : ℕ) (text : Bytes)
    (r : Option (Appender × World)) : Type 0 where
  pub after : Appender
  pub world : World
  pub returns : r ≡ some (after, world)
  pub closed : after.log_close ≡ true
  pub no_stream : after.logfile ≡ none
  pub grown : world.files ≡ appended_file files path text
  pub wiped : world.cache ≡ replicate n 0
  pub size : after.block_length ≡ n
  pub peers : HaveBuffers world.peers

pub mixed_session-Ended :
    (os : Os) (a : Appender) (w : World) (dir name : Bytes) (fd : ℕ) (cs : List (Os × Call))
    (last : Os)
    → a.log_close ≡ true
    → a.logfile ≡ none
    → is_empty dir ≡ false
    → 4 ≤ block_size a.block_length
    → block_size a.block_length < 2 ^ 29
    → Maps os (mmap_path dir name) fd
    → ¬ StartsText (block_at os a dir name)
    → HaveBuffers w.peers
    → CanCalls
        (block_size a.block_length)
        (log_path (record a { logdir = dir; logfilename = name }) dir)
        cs
        nothing_logged
    → AlwaysWorks last (log_path (record a { logdir = dir; logfilename = name }) dir)
    → Ended w.files
        (log_path (record a { logdir = dir; logfilename = name }) dir)
        (block_size a.block_length)
        (logged cs)
        (mixed_session os a w dir name cs last)
mixed_session-Ended os a w dir name fd cs last closed stream named four small maps clean h can
      works =
    let path : Bytes = log_path (record a { logdir = dir; logfilename = name }) dir in
    let n : ℕ = block_size a.block_length in
    let (b, v, l, m, e, o, f, p) =
      open_log-clean os a w dir name fd closed stream named four (omega (arith, small)) maps
        clean in
    let s =
      calls-Next w.files path n m cs nothing_logged b v l
        (Tracked-Opened a b w v dir name l m small o f (subst HaveBuffers (sym p) h))
        o.open_async.live can in
    let (c, u, e', shut, no_stream, grown, wiped, size, peers) =
      close_log-Tracked w.files path n m last (log_calls cs nothing_logged) s.after s.world s.log
        (omega (arith, four)) works s.tracked (s.close_kept ∙ o.open_async.live) in
    record {
      after = c;
      world = u;
      returns =
          mixed_session-returns os a w dir name cs last b v s.after s.world c u e s.returns e';
      closed = shut;
      no_stream = no_stream;
      grown = grown;
      wiped = wiped;
      size = size;
      peers = peers;
    }

-- A program opens a closed appender, which has no stream and stands beside appenders that have
-- their buffers, in the asynchronous mode over a mapped file that holds nothing, with a block of 4
-- to less than 2 ^ 29 bytes. It then makes any sequence of calls, each at a time of its own and
-- with a system that always works: appends of texts that begin with no zero byte and have no log
-- info or one of a known level and a tag of less than 952 bytes, flushes of both kinds, changes of
-- the mode and of the console output, with background tasks anywhere between them, as long as what
-- is pending in the asynchronous mode stays below four fifths of the block. It closes the log at
-- last. No call faults, whatever the day on which it finds a stream open; the log file has grown
-- by what the same calls make of a log that only knows its mode, what is stored and what is
-- pending, and no other file has changed; the appender is closed without a stream, and the mapped
-- file holds zero bytes.
pub mixed_session_lem :
    (os : Os) (a : Appender) (w : World) (dir name : Bytes) (fd : ℕ) (cs : List (Os × Call))
    (last : Os)
    → a.log_close ≡ true
    → a.logfile ≡ none
    → is_empty dir ≡ false
    → 4 ≤ block_size a.block_length
    → block_size a.block_length < 2 ^ 29
    → Maps os (mmap_path dir name) fd
    → ¬ StartsText (block_at os a dir name)
    → HaveBuffers w.peers
    → CanCalls
        (block_size a.block_length)
        (log_path (record a { logdir = dir; logfilename = name }) dir)
        cs
        nothing_logged
    → AlwaysWorks last (log_path (record a { logdir = dir; logfilename = name }) dir)
    → (b : Appender) × (v : World) × (mixed_session os a w dir name cs last ≡ some (b, v))
      × (b.log_close ≡ true)
      × (b.logfile ≡ none)
      × (v.files
          ≡ appended_file w.files
              (log_path (record a { logdir = dir; logfilename = name }) dir)
              (logged cs))
      × (v.cache ≡ replicate (block_size a.block_length) 0)
mixed_session_lem os a w dir name fd cs last closed stream named four small maps clean h can works =
    let r =
      mixed_session-Ended os a w dir name fd cs last closed stream named four small maps clean h can
        works in
    (r.after, r.world, r.returns, r.closed, r.no_stream, r.grown, r.wiped)
