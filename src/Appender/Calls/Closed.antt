-- ===== src/Appender/Calls/Closed.antt =====
-- `mtaf_log_appender_close` of loglib/mtaf_appender.cpp after any calls: what is pending is stored last.
use mtappender_file.Prelude.{
  ℕ, ◌<◌, ◌≡◌, ◌∙◌, sym, ap, arith, true, false, Bool-cases, inl, inr, none, some, ◌++◌, length,
  if_true, if_false, ◌>>=◌, Bytes, target, replicate, ◌+◌,
}
use mtappender_file.LogBuffer.{LogBuffer}
use mtappender_file.Mmap.{MmapFile}
use mtappender_file.Appender.State.{Appender, World, Os, is_own, appended_file}
use mtappender_file.Appender.LogFile.{close_logfile}
use mtappender_file.Appender.Tasks.{thread_task}
use mtappender_file.Appender.Api.{close_log, last_task}
use mtappender_file.Appender.FileLaws.{AlwaysWorks}
use mtappender_file.Appender.AppendLaws.{HaveBuffers}
use mtappender_file.Appender.CloseLaws.{HasThread, release_block_lem, close_logfile_lem}
use mtappender_file.Appender.Calls.{Log, moved}
use mtappender_file.Appender.Calls.Tracked.{Next, Tracked}
use mtappender_file.Appender.Calls.Kept.{thread_task-Next}

close_logfile-block_length : (c : Appender) → (close_logfile c).block_length ≡ c.block_length
unfolding close_logfile
close_logfile-block_length c = ground arith

-- The appender and the world once closing has told the threads.
abbrev pub closing : Appender → Appender
closing a = record a { log_close = true }

abbrev pub told : World → World
told w = record w { own_signals = w.own_signals + 1; shared_signals = w.shared_signals + 1 }

module _ (files : Bytes → Bytes) (path : Bytes) (n : ℕ) (m : MmapFile) where
  -- The appender after the last task of its thread.
  record LastDone (g : Log) (a b : Appender) (v : World) : Type 0 where
    log : LogBuffer
    buffer : b.log_buff ≡ some log
    file : b.mmap_file ≡ some m
    file_open : m.is_open ≡ true
    size : b.block_length ≡ n
    whole : length (target log.buff.parray) ≡ b.block_length
    closed : b.log_close ≡ a.log_close
    peers : HaveBuffers v.peers
    grown : v.files ≡ appended_file files path g.stored

  LastDone-Tracked :
      (g : Log) (a b : Appender) (v : World) (l : LogBuffer)
      → Tracked files path n m g b v l
      → b.log_close ≡ a.log_close
      → LastDone g a b v
  LastDone-Tracked g a b v l k same = record {
    log = l;
    buffer = k.buffer;
    file = k.mapped.file;
    file_open = k.mapped.file_open;
    size = k.size;
    whole = k.mapped.whole;
    closed = same;
    peers = k.peers;
    grown = k.grown;
  }

  -- The last task, whatever the log is after it.
  last_task-Next :
      (os : Os) (g : Log) (a : Appender) (w : World)
      → HasThread a
      → Next files path n m g a (thread_task os a w)
      → (b : Appender) × (v : World) × (last_task os a w ≡ some (b, v)) × LastDone g a b v
  unfolding last_task
  last_task-Next os g a w thread t =
      let d = LastDone-Tracked g a t.after t.world t.log t.tracked t.close_kept in
      elim (Bool-cases (is_own a.worker)) [
        | inr common ↦ (t.after, t.world, if_false _ _ _ common ∙ t.returns, d)
        | inl alone ↦ (
          record t.after { running = false },
          t.world,
          if_true _ _ _ alone
              ∙ if_true _ _ _ (runs alone thread)
              ∙ ap (λ r. r >>= λ (p : Appender × World). some (record p.0 { running = false }, p.1))
                  t.returns,
          record {
            log = d.log;
            buffer = d.buffer;
            file = d.file;
            file_open = d.file_open;
            size = d.size;
            whole = d.whole;
            closed = d.closed;
            peers = d.peers;
            grown = d.grown;
          },
        )
      ]
    where
      runs : is_own a.worker ≡ true → HasThread a → a.running ≡ true
      runs alone (inl common) = absurd (cc (sym alone ∙ common))
      runs alone (inr r) = r

  pub Tracked-closing :
      (g : Log) (a : Appender) (w : World) (l : LogBuffer)
      → Tracked files path n m g a w l
      → Tracked files path n m g (closing a) (told w) l
  Tracked-closing g a w l k = record {
    mode = k.mode;
    buffer = k.buffer;
    ready = k.ready;
    named = k.named;
    at_path = k.at_path;
    on_log = k.on_log;
    shut = k.shut;
    behind = k.behind;
    size = k.size;
    small = k.small;
    room = k.room;
    held = k.held;
    begins = k.begins;
    blank = k.blank;
    below = k.below;
    marked = k.marked;
    grown = k.grown;
    peers = k.peers;
    mapped = record {
      file = k.mapped.file;
      file_open = k.mapped.file_open;
      whole = k.mapped.whole;
    };
    thread = k.thread;
  }

  pub close_log-Next :
      (os : Os) (g : Log) (a : Appender) (w : World)
      → 0 < n
      → a.log_close ≡ false
      → HasThread a
      → Next files path n m g (closing a) (thread_task os (closing a) (told w))
      → (b : Appender) × (v : World) × (close_log os a w ≡ some (b, v))
        × (b.log_close ≡ true)
        × (b.logfile ≡ none)
        × (v.files ≡ appended_file files path g.stored)
        × (v.cache ≡ replicate n 0)
        × (b.block_length ≡ n)
        × HaveBuffers v.peers
  unfolding close_log
  close_log-Next os g a w pos live thread t =
      let (b, v, e, d) = last_task-Next os g (closing a) (told w) thread t in
      let released : Appender = record b { mmap_file = none; log_buff = none } in
      let (c1, c2, c3, c4) = close_logfile_lem released in
      (
        close_logfile released,
        record v { cache = replicate b.block_length 0 },
        if_false _ _ _ live
            ∙ rw (
              e,
              release_block_lem b v d.log m (omega (arith, pos, d.size)) d.buffer d.file d.file_open
                  d.whole,
            ),
        c1 ∙ d.closed,
        c4,
        d.grown,
        ap (λ i. replicate i 0) d.size,
        close_logfile-block_length released ∙ d.size,
        d.peers,
      )

  pub close_log-Tracked :
      (os : Os) (g : Log) (a : Appender) (w : World) (l : LogBuffer)
      → 0 < n
      → AlwaysWorks os path
      → Tracked files path n m g a w l
      → a.log_close ≡ false
      → (b : Appender) × (v : World) × (close_log os a w ≡ some (b, v))
        × (b.log_close ≡ true)
        × (b.logfile ≡ none)
        × (v.files ≡ appended_file files path (g.stored ++ g.pending))
        × (v.cache ≡ replicate n 0)
        × (b.block_length ≡ n)
        × HaveBuffers v.peers
  close_log-Tracked os g a w l pos works k live =
      close_log-Next os (moved g) a w pos live k.thread (
        thread_task-Next files path n m os g (closing a) (told w) l works
          (Tracked-closing g a w l k))
