-- ===== src/Appender/Calls/Tracked.antt =====
-- What an open appender of loglib/mtaf_appender.cpp and its log file have to do with the log that they
-- stand for, and that every call keeps it.
use mtappender_file.Prelude.{
  ℕ, ◌≡◌, ◌⊎◌, inl, inr, refl, ◌∙◌, sym, ap, arith, true, false, Option, none, some, [], ◌∷◌, ◌++◌,
  append-nil, length-append, ◌≤◌, ◌<◌, ◌+◌, ◌*◌, ◌/◌, ◌^◌, length, Bytes, target,
  length-overwrite_ptr,
}
use mathlib.Core.Path.{subst, ap₂}
use mtappender_file.LogBuffer.{LogBuffer}
use mtappender_file.LogBuffer.Append.{
  HasEndMark, IsReady, text, length-text, cleared, cleared-IsReady,
}
use mtappender_file.LogBuffer.Flush.{StartsText, cleared_blank, IsReady-IsBacked}
use mtappender_file.Mmap.{MmapFile}
use mtappender_file.Appender.State.{Appender, Stream, World, Os, is_async, is_empty, appended_file}
use mtappender_file.Appender.LogFile.{log_path, held_back}
use mtappender_file.Appender.Tasks.{drain}
use mtappender_file.Appender.FileLaws.{
  AlwaysWorks, always_works, appended_file-append, OnLog, with_stream, log2file_any,
}
use mtappender_file.Appender.TaskLaws.{drain_lem, drain_nothing}
use mtappender_file.Appender.AppendLaws.{HaveBuffers}
use mtappender_file.Appender.ApiLaws.{starts}
use mtappender_file.Appender.CloseLaws.{IsMapped, HasThread}
use mtappender_file.Appender.Calls.{Log, directly, moved}

module _ (files : Bytes → Bytes) (path : Bytes) (n : ℕ) (m : MmapFile) where
  -- The appender `a` with the log buffer `l` over the whole of its mapped file of `n` bytes: its log
  -- file at `path` has grown by what is stored, and its buffer has what is pending.
  pub record Tracked (g : Log) (a : Appender) (w : World) (l : LogBuffer) : Type 0 where
    pub mode : a.mode ≡ g.mode
    pub buffer : a.log_buff ≡ some l
    pub ready : IsReady l
    pub named : is_empty a.logdir ≡ false
    pub at_path : log_path a a.logdir ≡ path
    pub on_log : OnLog a a.logfile
    pub shut : g.direct ≡ false → a.logfile ≡ none
    pub behind : held_back a.logfile ≤ length g.stored
    pub size : a.block_length ≡ n
    pub small : n < 2 ^ 29
    pub room : l.buff.max_len ≡ n
    pub held : text l ≡ g.pending
    pub begins : (g.pending ≡ []) ⊎ StartsText g.pending
    pub blank : g.pending ≡ [] → ¬ StartsText (target l.buff.parray)
    pub below : (g.pending ≡ []) ⊎ (length g.pending < n * 4 / 5)
    pub marked : StartsText g.pending → l.buff.len + 4 < l.buff.max_len → HasEndMark l
    pub grown : w.files ≡ appended_file files path g.stored
    pub peers : HaveBuffers w.peers
    pub mapped : IsMapped a l m
    pub thread : HasThread a

  -- A call that returns, with an appender that stands for the log `g`.
  pub record Next (g : Log) (a : Appender) (r : Option (Appender × World)) : Type 0 where
    pub after : Appender
    pub world : World
    pub log : LogBuffer
    pub returns : r ≡ some (after, world)
    pub tracked : Tracked g after world log
    pub close_kept : after.log_close ≡ a.log_close

  -- A log that has been written in the asynchronous mode only.
  pub indirect : (g : Log) → directly g ≡ false → (g.direct ≡ false) × (is_async g.mode ≡ true)
  indirect g e = (ground arith, ground arith)

  -- What is stored when the pending text has been taken out of the buffer.
  pub Tracked-moved :
      (g : Log) (a : Appender) (w v : World) (l : LogBuffer) (t : ℕ) (d : Bytes) (f : Option Stream)
      (src : Bytes)
      → Tracked g a w l
      → OnLog a f
      → (directly g ≡ false → f ≡ none)
      → held_back f ≤ length src
      → v.files ≡ appended_file files path src
      → v.peers ≡ w.peers
      → Tracked
          (record g { stored = src; pending = []; direct = directly g })
          (with_stream (record a { log_buff = some (cleared l) }) t d f)
          v
          (cleared l)
  Tracked-moved g a w v l t d f src k on closes behind e p = record {
    mode = k.mode;
    buffer = refl;
    ready = cleared-IsReady l k.ready;
    named = k.named;
    at_path = k.at_path;
    on_log = on;
    shut = closes;
    behind = behind;
    size = k.size;
    small = k.small;
    room = k.room;
    held = refl;
    begins = inl refl;
    blank = λ nothing. cleared_blank l;
    below = inl refl;
    marked = λ s. absurd s;
    grown = e;
    peers = subst HaveBuffers (sym p) k.peers;
    mapped = record {
      file = k.mapped.file;
      file_open = k.mapped.file_open;
      whole = length-overwrite_ptr l.buff.parray 0 (0 ∷ []) ∙ k.mapped.whole;
    };
    thread = k.thread;
  }

  -- Nothing is pending, and nothing is written.
  pub drain-blank :
      (os : Os) (g : Log) (a : Appender) (w : World) (l : LogBuffer)
      → Tracked g a w l
      → g.pending ≡ []
      → Next (moved g) a (drain os a w l)
  drain-blank os g a w l k nothing = record {
    after = record a { log_buff = some (cleared l) };
    world = w;
    log = cleared l;
    returns =
        drain_nothing os a w l (IsReady-IsBacked l k.ready)
          (λ s. subst StartsText (k.held ∙ nothing) s);
    tracked =
        Tracked-moved g a w w l a.openfiletime a.current_dir a.logfile (g.stored ++ g.pending) k
          k.on_log (λ e. k.shut (indirect g e).0)
          (omega (arith, k.behind, length-append g.stored g.pending))
          (k.grown
            ∙ ap (appended_file files path)
                (sym (append-nil g.stored) ∙ ap (λ xs. g.stored ++ xs) (sym nothing)))
          refl;
    close_kept = refl;
  }

  pub drain-Next :
      (os : Os) (g : Log) (a : Appender) (w : World) (l : LogBuffer)
      → AlwaysWorks os path
      → Tracked g a w l
      → Next (moved g) a (drain os a w l)
  drain-Next os g a w l works k = elim k.begins [
    | inl nothing ↦ drain-blank os g a w l k nothing
    | inr s ↦
        let (y, ys, cons, nz) = starts g.pending s in
        let c : Appender = record a { log_buff = some (cleared l) } in
        let works' =
          always_works os (log_path a a.logdir) (length (y ∷ ys))
            (subst (AlwaysWorks os) (sym k.at_path) works) in
        let (t, d, f, e, on, closes, behind) = log2file_any os c w y ys k.named k.on_log works' in
        let most : length (y ∷ ys) ≡ l.buff.len =
          ap length (sym (k.held ∙ cons)) ∙ length-text l k.ready in
        record {
          after = with_stream c t d f;
          world = record w { files = appended_file w.files (log_path a a.logdir) (y ∷ ys) };
          log = cleared l;
          returns =
              drain_lem os a w l y ys (IsReady-IsBacked l k.ready) (k.held ∙ cons) nz
                (record { granted = works.grants _; small = omega (arith, most, k.ready) })
              ∙ ap some e;
          tracked =
              Tracked-moved g a w _ l t d f (g.stored ++ g.pending) k on
                (λ e'. closes (ap is_async k.mode ∙ (indirect g e').1))
                (omega (arith, behind, k.behind, length-append g.stored g.pending, ap length cons))
                (ap₂ (λ fs p. appended_file fs p (y ∷ ys)) k.grown k.at_path
                  ∙ appended_file-append files path g.stored (y ∷ ys)
                  ∙ ap (λ xs. appended_file files path (g.stored ++ xs)) (sym cons))
                refl;
          close_kept = refl;
        }
  ]
