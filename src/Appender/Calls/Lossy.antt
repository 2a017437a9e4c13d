-- ===== src/Appender/Calls/Lossy.antt =====
-- Any sequence of calls of loglib/mtaf_appender.cpp beside a system that may refuse to open the log file
-- in any of them: what is lost, and what is not.
use mtappender_file.Prelude.{
  ℕ, ◌+◌, ◌≤◌, ◌≡◌, refl, ◌∙◌, sym, ap, arith, Bool, true, false, inl, inr, Option, some, [], ◌∷◌,
  ◌++◌, length, length-append, if◌then◌else◌, Bytes,
}
use mathlib.Core.Path.{subst, ap₂}
use mtappender_file.LogBuffer.{LogBuffer}
use mtappender_file.LogBuffer.Append.{length-text, cleared}
use mtappender_file.LogBuffer.Flush.{IsReady-IsBacked}
use mtappender_file.Mmap.{MmapFile}
use mtappender_file.Formatter.{Zone, LogInfo}
use mtappender_file.Appender.State.{Appender, World, Os, is_async, appended_file}
use mtappender_file.Appender.LogFile.{log_path, log2file, held_back}
use mtappender_file.Appender.Tasks.{drain}
use mtappender_file.Appender.Api.{append, show_console}
use mtappender_file.Appender.FileLaws.{
  MayRefuse, kept_files, appended_file-append, with_stream, log2file_refused,
}
use mtappender_file.Appender.TaskLaws.{drain_lem}
use mtappender_file.Appender.AppendLaws.{line_of, HasHeader, line_sizes}
use mtappender_file.Appender.ApiLaws.{starts}
use mtappender_file.Appender.Calls.{
  Call, appends, flushes, flushes_sync, does_task, sets_mode, sets_console, Log, directly, log_call,
}
use mtappender_file.Appender.SyncLaws.{append-direct}
use mtappender_file.Appender.Calls.Appended.{some_cons, show_console_lem, Tracked-written}
use mtappender_file.Appender.Calls.Tracked.{Tracked, Next, indirect, Tracked-moved, drain-blank}

-- The log when the bytes that a call writes are kept, or are lost.
abbrev pub written : Bool → Log → Bytes → Log
written k g src = record g { stored = if k then g.stored ++ src else g.stored; direct = directly g }

abbrev pub lossy_moved : Bool → Log → Log
lossy_moved k g = record (written k g g.pending) { pending = [] }

abbrev pub lossy_put : Bool → Log → Bytes → Log
lossy_put k g line =
    if is_async g.mode then record g { pending = g.pending ++ line } else written k g line

abbrev pub lossy_call : Bool → Zone → Call → Log → Log
lossy_call k z (appends t) g = lossy_put k g (line_of z t.info t.body)
lossy_call k z flushes g = g
lossy_call k z flushes_sync g = if is_async g.mode then lossy_moved k g else g
lossy_call k z does_task g = lossy_moved k g
lossy_call k z (sets_mode m) g = record g { mode = m }
lossy_call k z (sets_console on) g = g

pub lossy_call-true : (z : Zone) (c : Call) (g : Log) → lossy_call true z c g ≡ log_call z c g
lossy_call-true z (appends t) g = refl
lossy_call-true z flushes g = refl
lossy_call-true z flushes_sync g = refl
lossy_call-true z does_task g = refl
lossy_call-true z (sets_mode m) g = refl
lossy_call-true z (sets_console on) g = refl

module _ (files : Bytes → Bytes) (path : Bytes) (n : ℕ) (m : MmapFile) where
  -- A call that returns, and what it has lost: something only where the log file cannot be opened.
  pub record Outcome (os : Os) (g : Bool → Log) (a : Appender) (r : Option (Appender × World))
      : Type 0 where
    pub kept : Bool
    pub excuse : kept ≡ false → os.opens_log path ≡ false
    pub next : Next files path n m (g kept) a r

  -- The log file after a write that is kept or lost.
  grown_by :
      (k : Bool) (g : Log) (w : World) (p src : Bytes)
      → w.files ≡ appended_file files path g.stored
      → p ≡ path
      → kept_files k w.files p src ≡ appended_file files path (written k g src).stored
  grown_by true g w p src e at =
      ap₂ (λ fs q. appended_file fs q src) e at ∙ appended_file-append files path g.stored src
  grown_by false g w p src e at = e

  -- What a stream holds back has been written.
  behind_by :
      (k : Bool) (g : Log) (held before : ℕ) (src : Bytes)
      → before ≤ length g.stored
      → held ≤ before + (if k then length src else 0)
      → held ≤ length (written k g src).stored
  behind_by true g held before src h e = omega (arith, h, e, length-append g.stored src)
  behind_by false g held before src h e = omega (arith, h, e)

  pub refused_drain :
      (os : Os) (g : Log) (a : Appender) (w : World) (l : LogBuffer)
      → MayRefuse os
      → os.opens_log path ≡ false
      → Tracked files path n m g a w l
      → Outcome os (λ k. lossy_moved k g) a (drain os a w l)
  refused_drain os g a w l system shut k = elim k.begins [
    | inl nothing ↦ record {
      kept = true;
      excuse = λ h. shut;
      next = drain-blank files path n m os g a w l k nothing;
    }
    | inr s ↦
        let (y, ys, cons, nz) = starts g.pending s in
        let c : Appender = record a { log_buff = some (cleared l) } in
        let (kept, t, d, f, e, on, closes, behind) =
          log2file_refused os c w y ys k.named k.on_log system (ap os.opens_log k.at_path ∙ shut) in
        let most : length (y ∷ ys) ≡ l.buff.len =
          ap length (sym (k.held ∙ cons)) ∙ length-text l k.ready in
        record {
          kept = kept;
          excuse = λ h. shut;
          next = record {
            after = with_stream c t d f;
            world = record w { files = kept_files kept w.files (log_path a a.logdir) (y ∷ ys) };
            log = cleared l;
            returns =
                drain_lem os a w l y ys (IsReady-IsBacked l k.ready) (k.held ∙ cons) nz
                  (record { granted = system.grants _; small = omega (arith, most, k.ready) })
                ∙ ap some e;
            tracked =
                Tracked-moved files path n m g a w _ l t d f (written kept g g.pending).stored k on
                  (λ e'. closes (ap is_async k.mode ∙ (indirect files path n m g e').1))
                  (behind_by kept g (held_back f) (held_back a.logfile) g.pending k.behind (
                    subst
                      (λ xs. held_back f ≤ held_back a.logfile + (if kept then length xs else 0))
                      (sym cons) behind))
                  (ap (kept_files kept w.files (log_path a a.logdir)) (sym cons)
                    ∙ grown_by kept g w (log_path a a.logdir) g.pending k.grown k.at_path)
                  refl;
            close_kept = refl;
          };
        }
  ]

  pub refused_append :
      (os : Os) (g : Log) (a : Appender) (w : World) (l : LogBuffer) (info : Option LogInfo) (x : ℕ)
      (body : Bytes)
      → MayRefuse os
      → os.opens_log path ≡ false
      → Tracked files path n m g a w l
      → a.log_close ≡ false
      → is_async g.mode ≡ false
      → HasHeader info
      → Outcome os
          (λ k. written k g (line_of os.zone info (x ∷ body)))
          a
          (append os a w info (x ∷ body))
  refused_append os g a w l info x body system shut k live direct good =
      let line : Bytes = line_of os.zone info (x ∷ body) in
      let v : World = show_console a w (x ∷ body) in
      let (same_files, same_peers) = show_console_lem a w (x ∷ body) in
      let (y, ys, cons) = some_cons line (line_sizes os.zone info x body good).0 in
      let (kept, t, d, f, e, on, closes, behind) =
        log2file_refused os a v y ys k.named k.on_log system (ap os.opens_log k.at_path ∙ shut) in
      record {
        kept = kept;
        excuse = λ h. shut;
        next = record {
          after = with_stream a t d f;
          world = record v { files = kept_files kept v.files (log_path a a.logdir) (y ∷ ys) };
          log = l;
          returns =
              append-direct os a w info x body live (ap is_async k.mode ∙ direct) good
              ∙ ap (λ xs. some (log2file os a v (some xs))) cons
              ∙ ap some e;
          tracked =
              Tracked-written files path n m g a w _ l t d f (written kept g line).stored k on
                (λ e'. closes (ap is_async k.mode ∙ (indirect files path n m g e').1))
                (behind_by kept g (held_back f) (held_back a.logfile) line k.behind (
                  subst (λ xs. held_back f ≤ held_back a.logfile + (if kept then length xs else 0))
                    (sym cons) behind))
                (ap (kept_files kept v.files (log_path a a.logdir)) (sym cons)
                  ∙ grown_by kept g v (log_path a a.logdir) line (same_files ∙ k.grown) k.at_path)
                same_peers;
          close_kept = refl;
        };
      }
