-- ===== src/Appender/Calls/Refused.antt =====
-- What a call of loglib/mtaf_appender.cpp keeps and loses where the log file may not be opened.
use mtappender_file.Prelude.{
  ℕ, ◌<◌, ◌≡◌, refl, ◌∙◌, sym, ap, Bool, true, false, Bool-cases, inl, inr, Option, some, ◌∷◌, ◌++◌,
  length, ◌*◌, ◌/◌, if_true, if_false, if◌then◌else◌, Bytes,
}
use mathlib.Core.Path.{subst}
use mathlib.Core.Bool.{false≢true}
use mtappender_file.LogBuffer.{LogBuffer}
use mtappender_file.Mmap.{MmapFile}
use mtappender_file.Appender.State.{Appender, World, Os, Entry, is_async}
use mtappender_file.Appender.Tasks.{thread_task}
use mtappender_file.Appender.Api.{append, flush, flush_sync, set_mode, set_console_log}
use mtappender_file.Appender.FileLaws.{AlwaysWorks, MayRefuse}
use mtappender_file.Appender.AppendLaws.{line_of, IsPrintable}
use mtappender_file.Appender.ApiLaws.{starts, at_buffer}
use mtappender_file.Appender.Calls.{
  Call, appends, flushes, flushes_sync, does_task, sets_mode, sets_console, call, Log,
}
use mtappender_file.Appender.Calls.Tracked.{Tracked, Next}
use mtappender_file.Appender.Calls.Appended.{HasRoom, append_async-Next}
use mtappender_file.Appender.Calls.Kept.{
  CanCall, thread_task-Next, flush-Next, set_mode-Next, set_console_log-Next, call-Next,
}
use mtappender_file.Appender.Calls.Lossy.{
  lossy_moved, lossy_put, lossy_call, lossy_call-true, Outcome, refused_drain, refused_append,
}

module _ (files : Bytes → Bytes) (path : Bytes) (n : ℕ) (m : MmapFile) where
  -- With the log file at hand, the system always works.
  works : (os : Os) → MayRefuse os → os.opens_log path ≡ true → AlwaysWorks os path
  works os system opens = record {
    opens = opens;
    tells = system.tells;
    takes = system.takes;
    grants = system.grants;
  }

  whole_Outcome :
      (os : Os) (g : Bool → Log) (a : Appender) (r : Option (Appender × World))
      → Next files path n m (g true) a r
      → Outcome files path n m os g a r
  whole_Outcome os g a r next = record {
    kept = true;
    excuse = λ e. absurd (false≢true (sym e));
    next = next;
  }

  refused_task :
      (os : Os) (g : Log) (a : Appender) (w : World) (l : LogBuffer)
      → MayRefuse os
      → os.opens_log path ≡ false
      → Tracked files path n m g a w l
      → Outcome files path n m os (λ k. lossy_moved k g) a (thread_task os a w)
  unfolding thread_task
  refused_task os g a w l system shut k =
      subst (Outcome files path n m os (λ k. lossy_moved k g) a)
        (sym (at_buffer os a w l a.log_buff k.buffer))
        (refused_drain files path n m os g a w l system shut k)

  pub thread_task-Outcome :
      (os : Os) (g : Log) (a : Appender) (w : World) (l : LogBuffer)
      → MayRefuse os
      → Tracked files path n m g a w l
      → Outcome files path n m os (λ k. lossy_moved k g) a (thread_task os a w)
  thread_task-Outcome os g a w l system k = elim (Bool-cases (os.opens_log path)) [
    | inl opens ↦
        whole_Outcome os (λ k. lossy_moved k g) a (thread_task os a w)
          (thread_task-Next files path n m os g a w l (works os system opens) k)
    | inr shut ↦ refused_task os g a w l system shut k
  ]

  refused_put :
      (os : Os) (g : Log) (a : Appender) (w : World) (l : LogBuffer) (t : Entry)
      → MayRefuse os
      → os.opens_log path ≡ false
      → Tracked files path n m g a w l
      → a.log_close ≡ false
      → IsPrintable t
      → HasRoom n g (line_of os.zone t.info t.body)
      → Outcome files path n m os
          (λ k. lossy_put k g (line_of os.zone t.info t.body))
          a
          (append os a w t.info t.body)
  refused_put os g a w l t system shut k live good room =
      let (x, body, cons, nz) = starts t.body good.0 in
      let line : Bytes → Bytes = line_of os.zone t.info in
      subst
        (λ b. Outcome files path n m os (λ k. lossy_put k g (line b)) a (append os a w t.info b))
        (sym cons)
        (elim (Bool-cases (is_async g.mode)) [
          | inl async ↦
              whole_Outcome os (λ k. lossy_put k g (line (x ∷ body))) a
                (append os a w t.info (x ∷ body))
                (subst (λ h. Next files path n m h a (append os a w t.info (x ∷ body)))
                  (sym (if_true _ _ _ async))
                  (append_async-Next files path n m os g a w l t.info x body k live async good.1 nz
                    (subst (λ b. length (g.pending ++ line b) < n * 4 / 5) cons (room async))))
          | inr direct ↦
              let o =
                refused_append files path n m os g a w l t.info x body system shut k live direct
                  good.1 in
              record {
                kept = o.kept;
                excuse = o.excuse;
                next =
                    subst (λ h. Next files path n m h a (append os a w t.info (x ∷ body)))
                      (sym (if_false _ _ _ direct)) o.next;
              }
        ])

  refused_flush :
      (os : Os) (g : Log) (a : Appender) (w : World) (l : LogBuffer)
      → MayRefuse os
      → os.opens_log path ≡ false
      → Tracked files path n m g a w l
      → Outcome files path n m os
          (λ k. if is_async g.mode then lossy_moved k g else g)
          a
          (flush_sync os a w)
  unfolding flush_sync
  refused_flush os g a w l system shut k = elim (Bool-cases (is_async g.mode)) [
    | inl async ↦
        let o = refused_drain files path n m os g a w l system shut k in
        record {
          kept = o.kept;
          excuse = o.excuse;
          next = record {
            after = o.next.after;
            world = o.next.world;
            log = o.next.log;
            returns =
                if_true _ _ _ (ap is_async k.mode ∙ async)
                ∙ at_buffer os a w l a.log_buff k.buffer
                ∙ o.next.returns;
            tracked =
                subst (λ h. Tracked files path n m h o.next.after o.next.world o.next.log)
                  (sym (if_true _ _ _ async)) o.next.tracked;
            close_kept = o.next.close_kept;
          };
        }
    | inr direct ↦ record {
      kept = true;
      excuse = λ e. shut;
      next = record {
        after = a;
        world = w;
        log = l;
        returns = if_false _ _ _ (ap is_async k.mode ∙ direct);
        tracked = subst (λ h. Tracked files path n m h a w l) (sym (if_false _ _ _ direct)) k;
        close_kept = refl;
      };
    }
  ]

  refused_call :
      (os : Os) (c : Call) (g : Log) (a : Appender) (w : World) (l : LogBuffer)
      → MayRefuse os
      → os.opens_log path ≡ false
      → Tracked files path n m g a w l
      → a.log_close ≡ false
      → CanCall n os.zone c g
      → Outcome files path n m os (λ k. lossy_call k os.zone c g) a (call os c a w)
  unfolding call
  refused_call os (appends t) g a w l system shut k live can =
      refused_put os g a w l t system shut k live can.0 can.1
  refused_call os flushes_sync g a w l system shut k live can =
      refused_flush os g a w l system shut k
  refused_call os does_task g a w l system shut k live can = refused_task os g a w l system shut k
  refused_call os flushes g a w l system shut k live can =
      whole_Outcome os (λ k. g) a (some (flush a w)) (flush-Next files path n m g a w l k)
  refused_call os (sets_mode md) g a w l system shut k live can =
      whole_Outcome os (λ k. record g { mode = md }) a (some (set_mode a w md))
        (set_mode-Next files path n m g a w l md k)
  refused_call os (sets_console on) g a w l system shut k live can =
      whole_Outcome os (λ k. g) a (some (set_console_log a on, w))
        (set_console_log-Next files path n m g a w l on k)

  pub call-Outcome :
      (os : Os) (c : Call) (g : Log) (a : Appender) (w : World) (l : LogBuffer)
      → MayRefuse os
      → Tracked files path n m g a w l
      → a.log_close ≡ false
      → CanCall n os.zone c g
      → Outcome files path n m os (λ k. lossy_call k os.zone c g) a (call os c a w)
  call-Outcome os c g a w l system k live can = elim (Bool-cases (os.opens_log path)) [
    | inl opens ↦ record {
      kept = true;
      excuse = λ e. absurd (false≢true (sym e));
      next =
          subst (λ h. Next files path n m h a (call os c a w)) (sym (lossy_call-true os.zone c g))
            (call-Next files path n m os c g a w l (works os system opens) k live can);
    }
    | inr shut ↦ refused_call os c g a w l system shut k live can
  ]
