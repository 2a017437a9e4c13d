-- ===== src/Appender/Calls/Kept.antt =====
-- Every call of loglib/mtaf_appender.cpp does to the appender and its log file what it does to the log
-- that they stand for.
use mtappender_file.Prelude.{
  ℕ, ◌≡◌, ◌⊎◌, inl, inr, refl, ◌∙◌, sym, ap, arith, true, false, Bool, Bool-cases, some, List, [],
  ◌∷◌, if_true, if_false, if◌then◌else◌, ◌&&◌, Bytes,
}
use mathlib.Core.Path.{subst}
use mtappender_file.LogBuffer.{LogBuffer}
use mtappender_file.Mmap.{MmapFile}
use mtappender_file.Formatter.{Zone}
use mtappender_file.Appender.State.{Appender, World, Os, Mode, is_async, is_own, Worker}
use mtappender_file.Appender.Tasks.{thread_task}
use mtappender_file.Appender.Api.{flush, flush_sync, set_mode, set_console_log}
use mtappender_file.Appender.FileLaws.{AlwaysWorks}
use mtappender_file.Appender.AppendLaws.{line_of, IsPrintable, HaveBuffers}
use mtappender_file.Appender.ApiLaws.{at_buffer}
use mtappender_file.Appender.Calls.{
  Call, appends, flushes, flushes_sync, does_task, sets_mode, sets_console, call, calls, Log, moved,
  log_call, log_calls,
}
use mtappender_file.Appender.Calls.Tracked.{Tracked, Next, drain-Next}
use mtappender_file.Appender.Calls.Appended.{HasRoom, append-Next}

thread_kept :
    (k : Worker) (r : Bool) (md : Mode)
    → (is_own k ≡ false) ⊎ (r ≡ true)
    → (is_own k ≡ false) ⊎ ((if is_async md && is_own k then true else r) ≡ true)
thread_kept k r md (inl common) = inl common
thread_kept k r md (inr runs) = inr (ground arith)

-- What a call needs to be kept whole: a text that begins with no zero byte, with a good log info, and
-- room for its line.
abbrev pub CanCall : ℕ → Zone → Call → Log → Type 0
CanCall n z (appends t) g = IsPrintable t × HasRoom n g (line_of z t.info t.body)
CanCall n z flushes g = Unit
CanCall n z flushes_sync g = Unit
CanCall n z does_task g = Unit
CanCall n z (sets_mode m) g = Unit
CanCall n z (sets_console on) g = Unit

-- The same of calls in their order, with a system that always works.
abbrev pub CanCalls : ℕ → Bytes → List (Os × Call) → Log → Type 0
CanCalls n path [] g = Unit
CanCalls n path ((os, c) ∷ cs) g =
    (AlwaysWorks os path × CanCall n os.zone c g) × CanCalls n path cs (log_call os.zone c g)

module _ (files : Bytes → Bytes) (path : Bytes) (n : ℕ) (m : MmapFile) where
  flush_sync-Next :
      (os : Os) (g : Log) (a : Appender) (w : World) (l : LogBuffer)
      → AlwaysWorks os path
      → Tracked files path n m g a w l
      → Next files path n m (if is_async g.mode then moved g else g) a (flush_sync os a w)
  unfolding flush_sync
  flush_sync-Next os g a w l system k = elim (Bool-cases (is_async g.mode)) [
    | inl async ↦
        let d = drain-Next files path n m os g a w l system k in
        record {
          after = d.after;
          world = d.world;
          log = d.log;
          returns =
              if_true _ _ _ (ap is_async k.mode ∙ async)
              ∙ at_buffer os a w l a.log_buff k.buffer
              ∙ d.returns;
          tracked =
              subst (λ h. Tracked files path n m h d.after d.world d.log)
                (sym (if_true _ _ _ async)) d.tracked;
          close_kept = d.close_kept;
        }
    | inr direct ↦ record {
      after = a;
      world = w;
      log = l;
      returns = if_false _ _ _ (ap is_async k.mode ∙ direct);
      tracked = subst (λ h. Tracked files path n m h a w l) (sym (if_false _ _ _ direct)) k;
      close_kept = refl;
    }
  ]

  pub thread_task-Next :
      (os : Os) (g : Log) (a : Appender) (w : World) (l : LogBuffer)
      → AlwaysWorks os path
      → Tracked files path n m g a w l
      → Next files path n m (moved g) a (thread_task os a w)
  unfolding thread_task
  thread_task-Next os g a w l system k =
      subst (Next files path n m (moved g) a) (sym (at_buffer os a w l a.log_buff k.buffer))
        (drain-Next files path n m os g a w l system k)

  -- A call that leaves the buffer, the files and the stream alone.
  unchanged-Next :
      (g : Log) (a : Appender) (w v : World) (l : LogBuffer) (md mg : Mode) (runs on : Bool)
      → Tracked files path n m g a w l
      → md ≡ mg
      → v.files ≡ w.files
      → v.peers ≡ w.peers
      → (is_own a.worker ≡ false) ⊎ (runs ≡ true)
      → Next files path n m
          (record g { mode = mg })
          a
          (some (record a { mode = md; running = runs; consolelog_open = on }, v))
  unchanged-Next g a w v l md mg runs on k same f p thread = record {
    after = record a { mode = md; running = runs; consolelog_open = on };
    world = v;
    log = l;
    returns = refl;
    tracked = record {
      mode = same;
      buffer = k.buffer;
      ready = k.ready;
      named = k.named;
      at_path = k.at_path;
      on_log = k.on_log;
      shut = k.shut;
      behind = k.behind;
      size = k.size;
      small = k.small;
      room = k.room;
      held = k.held;
      begins = k.begins;
      blank = k.blank;
      below = k.below;
      marked = k.marked;
      grown = f ∙ k.grown;
      peers = subst HaveBuffers (sym p) k.peers;
      mapped = record {
        file = k.mapped.file;
        file_open = k.mapped.file_open;
        whole = k.mapped.whole;
      };
      thread = thread;
    };
    close_kept = refl;
  }

  pub flush-Next :
      (g : Log) (a : Appender) (w : World) (l : LogBuffer)
      → Tracked files path n m g a w l
      → Next files path n m g a (some (flush a w))
  unfolding flush
  flush-Next g a w l k =
      unchanged-Next g a w _ l a.mode g.mode a.running a.consolelog_open k k.mode refl refl k.thread

  pub set_mode-Next :
      (g : Log) (a : Appender) (w : World) (l : LogBuffer) (md : Mode)
      → Tracked files path n m g a w l
      → Next files path n m (record g { mode = md }) a (some (set_mode a w md))
  unfolding set_mode
  set_mode-Next g a w l md k =
      unchanged-Next g a w _ l md md _ a.consolelog_open k refl refl refl
        (thread_kept a.worker a.running md k.thread)

  pub set_console_log-Next :
      (g : Log) (a : Appender) (w : World) (l : LogBuffer) (on : Bool)
      → Tracked files path n m g a w l
      → Next files path n m g a (some (set_console_log a on, w))
  set_console_log-Next g a w l on k =
      unchanged-Next g a w w l a.mode g.mode a.running on k k.mode refl refl k.thread

  -- Each call.
  pub call-Next :
      (os : Os) (c : Call) (g : Log) (a : Appender) (w : World) (l : LogBuffer)
      → AlwaysWorks os path
      → Tracked files path n m g a w l
      → a.log_close ≡ false
      → CanCall n os.zone c g
      → Next files path n m (log_call os.zone c g) a (call os c a w)
  unfolding call
  call-Next os (appends t) g a w l system k live can =
      append-Next files path n m os g a w l t system k live can.0 can.1
  call-Next os flushes g a w l system k live can = flush-Next g a w l k
  call-Next os flushes_sync g a w l system k live can = flush_sync-Next os g a w l system k
  call-Next os does_task g a w l system k live can = thread_task-Next os g a w l system k
  call-Next os (sets_mode md) g a w l system k live can = set_mode-Next g a w l md k
  call-Next os (sets_console on) g a w l system k live can = set_console_log-Next g a w l on k

  -- Calls one after the other.
  pub calls-Next :
      (cs : List (Os × Call)) (g : Log) (a : Appender) (w : World) (l : LogBuffer)
      → Tracked files path n m g a w l
      → a.log_close ≡ false
      → CanCalls n path cs g
      → Next files path n m (log_calls cs g) a (calls cs a w)
  unfolding calls
  calls-Next [] g a w l k live can = record {
    after = a;
    world = w;
    log = l;
    returns = refl;
    tracked = k;
    close_kept = refl;
  }
  calls-Next ((os, c) ∷ cs) g a w l k live can =
      let s = call-Next os c g a w l can.0.0 k live can.0.1 in
      let rest =
        calls-Next cs (log_call os.zone c g) s.after s.world s.log s.tracked (s.close_kept ∙ live)
          can.1 in
      record {
        after = rest.after;
        world = rest.world;
        log = rest.log;
        returns = rw s.returns rest.returns;
        tracked = rest.tracked;
        close_kept = rest.close_kept ∙ s.close_kept;
      }
