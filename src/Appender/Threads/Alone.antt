-- ===== src/Appender/Threads/Alone.antt =====
-- `__log_thread_task`, `mtaf_log_appender_flush_sync` and `__appender_async` of
-- loglib/mtaf_appender.cpp, part by part and as a whole.
use mtappender_file.Prelude.{
  ℕ, zero, suc, ◌≡◌, refl, ◌∙◌, sym, ap, Bool, true, false, ◌||◌, Bool-cases, Option, Option-cases,
  inl, inr, none, some, ◌>>=◌, if◌then◌else◌, Bytes, load,
}
use mtappender_file.AutoBuffer
use mtappender_file.AutoBuffer.{AutoBuffer}
use mtappender_file.LogBuffer
use mtappender_file.LogBuffer.{LogBuffer}
use mtappender_file.Appender.State.{Entry, Appender, World, Os, is_empty}
use mtappender_file.Appender.LogFile.{log2file, write_log, open_logfile}
use mtappender_file.Appender.Tasks.{drain, store_text, thread_task, append_async, append_pending}
use mtappender_file.Appender.ApiLaws.{at_buffer}
use mtappender_file.Appender.Threads.{
  Shared, append, task, flush_sync, Place, outside, wants_buffer, appending, flushing, filled,
  wants_file, act, take_buffer, entered, take_file, filled_place,
}
use mtappender_file.Appender.Threads.Fits.{plain}
use mtappender_file.Appender.Threads.Flow.{enter_free, freed_own}

-- `fuel` parts of one thread, one after the other.
unfoldable pub run : ℕ → Os → ℕ → Shared → Place → Option (Shared × Place)
run zero os i s p = some (s, p)
run (suc fuel) os i s p = act os i s p >>= λ r. run fuel os i r.0 r.1

-- The appender and the world, with both mutexes free.
abbrev pub free : Appender × World → Shared
free r = record { appender = r.0; world = r.1; buffer_mutex = plain none; file_mutex = plain none }

abbrev pub done : Option (Appender × World) → Option (Shared × Place)
done o = o >>= λ r. some (free r, outside)

module _ (os : Os) (i : ℕ) where
  run_outside : (n : ℕ) (s : Shared) → run n os i s outside ≡ some (s, outside)
  unfolding run act
  run_outside zero s = refl
  run_outside (suc n) s = run_outside n s

  -- `__log2file`.
  run_file :
      (n : ℕ) (a : Appender) (w : World) (src : Bytes)
      → run (suc (suc (suc (suc n)))) os i (free (a, w)) (wants_file src)
        ≡ some (free (write_log os a w src), outside)
  unfolding run act take_file write_log
  run_file n a w src = elim (Bool-cases (open_logfile os a a.logdir).1) [
    | inl opened ↦ rw (enter_free i, opened, freed_own i) (run_outside n _)
    | inr refused ↦ rw (enter_free i, refused, freed_own i) (run_outside n _)
  ]

  -- The part between the two mutexes, and `__log2file`.
  run_filled :
      (n : ℕ) (a : Appender) (w : World) (tmp : AutoBuffer)
      → run (suc (suc (suc (suc (suc n))))) os i (free (a, w)) (filled tmp)
        ≡ done (store_text os a w tmp)
  unfolding run act filled_place store_text log2file
  run_filled n a w tmp = elim (Option-cases (load tmp.parray 0 tmp.len)) [
    | inl fault ↦ rw fault
    | inr (src, loaded) ↦ rw loaded (elim (Option-cases tmp.parray) [
      | inl null ↦ rw null (run_outside (suc (suc (suc (suc n)))) _)
      | inr (m, held) ↦ rw held (elim (Bool-cases (is_empty src || is_empty a.logdir)) [
        | inl nothing ↦ rw nothing (run_outside (suc (suc (suc (suc n)))) _)
        | inr more ↦ rw more (run_file n a w src)
      ])
    ])
  ]

  run_flushing :
      (n : ℕ) (a : Appender) (w : World) (l : LogBuffer)
      → run
          (suc (suc (suc (suc (suc (suc n))))))
          os
          i
          (record (free (a, w)) { buffer_mutex = plain (some i) })
          (flushing true l)
        ≡ done (drain os a w l)
  unfolding run act drain
  run_flushing n a w l = elim (Option-cases (LogBuffer.flush os.memory l (AutoBuffer.empty 128))) [
    | inl fault ↦ rw fault
    | inr (r, flushed) ↦
        rw (flushed, freed_own i) (run_filled n (record a { log_buff = some r.0 }) w r.1)
  ]

  pub run-drain :
      (a : Appender) (w : World) (l : LogBuffer) (background : Bool)
      → a.log_buff ≡ some l
      → run 7 os i (free (a, w)) (wants_buffer (if background then task else flush_sync))
        ≡ done (drain os a w l)
  unfolding run act take_buffer entered
  run-drain a w l true here =
      rw (enter_free i, here) (run_flushing 0 (record a { log_buff = some l }) w l)
  run-drain a w l false here =
      rw (enter_free i, here) (run_flushing 0 (record a { log_buff = some l }) w l)

  run_appending :
      (a : Appender) (w : World) (t : Entry) (l : LogBuffer)
      → run 1 os i (record (free (a, w)) { buffer_mutex = plain (some i) }) (appending true t l)
        ≡ done (append_pending os a w t.info (some t.body) l)
  unfolding run act
  run_appending a w t l = elim (Option-cases (append_pending os a w t.info (some t.body) l)) [
    | inl fault ↦ rw fault
    | inr (r, appended) ↦ rw (appended, freed_own i)
  ]

  run-append :
      (a : Appender) (w : World) (t : Entry) (o : Option LogBuffer)
      → run 2 os i (free (record a { log_buff = o }, w)) (wants_buffer (append t))
        ≡ done (append_async os (record a { log_buff = o }) w t.info (some t.body))
  unfolding run act take_buffer entered append_async
  run-append a w t none = rw (enter_free i, freed_own i)
  run-append a w t (some l) =
      rw (enter_free i) (run_appending (record a { log_buff = some l }) w t l)

-- With both mutexes free and a log buffer, the parts of one thread that no other one disturbs are
-- together the whole function, faults included: at most seven parts for `__log_thread_task` and
-- for the flush of `mtaf_log_appender_flush_sync`, and two for `__appender_async`.
pub run-act :
    (os : Os) (i : ℕ) (a : Appender) (w : World) (l : LogBuffer) (t : Entry)
    → a.log_buff ≡ some l
    → (run 7 os i (free (a, w)) (wants_buffer task) ≡ done (thread_task os a w))
      × (run 7 os i (free (a, w)) (wants_buffer flush_sync) ≡ done (thread_task os a w))
      × (run 2 os i (free (a, w)) (wants_buffer (append t))
          ≡ done (append_async os a w t.info (some t.body)))
unfolding thread_task
run-act os i a w l t here = (
  run-drain os i a w l true here ∙ ap done (sym (at_buffer os a w l a.log_buff here)),
  run-drain os i a w l false here ∙ ap done (sym (at_buffer os a w l a.log_buff here)),
  run-append os i a w t a.log_buff,
)
