-- ===== src/Tests/Interleaved.antt =====
-- The theorems on several threads, on concrete schedules.
use mtappender_file.Prelude.{
  update, ℕ, ◌<◌, ◌≡◌, ◌≤◌, ◌*◌, refl, arith, false, ◌&&◌, inr, none, some, List, [], ◌∷◌, ◌++◌,
  Bytes, all_of,
}
use mathlib.Core.List.{flatten, Perm}
use mtappender_file.Appender.State.{Entry, Appender, World, appended_file}
use mtappender_file.Appender.Session.{lines}
use mtappender_file.Appender.Threads.{
  Shared, append, task, flush_sync, Place, outside, wants_buffer, act, System, Continues,
}
use mtappender_file.Appender.Threads.Fits.{chunk}
use mtappender_file.Appender.Threads.Flow.{pending}
use mtappender_file.Appender.Threads.Alone.{free}
use mtappender_file.Appender.Api.{close_log}
use mtappender_file.Appender.Tasks.{thread_task, append_async}
use mtappender_file.Appender.Threads.Fits.{in_buffer, in_file}
use mtappender_file.Appender.Threads.Flow.{rank, wanted}
use mtappender_file.Appender.Threads.Alone.{run, done, run-act}
use mtappender_file.Appender.Threads.Lossless.{Reachable-Perm, Reachable-in_order}
use mtappender_file.Appender.Threads.Progress.{Reachable-excludes, Reachable-runs}
use mtappender_file.Appender.Threads.Durable.{Reachable-stored}
use mtappender_file.Appender.Threads.Race.{Reachable-either_order}
use mtappender_file.Appender.Threads.Closing.{act-close_log}
use mtappender_file.Tests.Samples.{
  appender-IsOpenAsync, appender-IsMapped, os-Grants, os-Works, mapped, os, appender, world,
  pending-IsReady, src, dir,
}
use mtappender_file.Tests.Samples
use mtappender_file.Tests.Schedules.{
  entry, path, shared, shared-IsHealthy, os-AlwaysWorks, away, away-Reachable, race11, Everyone,
  race11-Reachable, one_text-AllFit, race11-AllFit, race11-HaveRoom,
}

Reachable-Perm_example :
    (taken : List Bytes) × (stored : List Bytes) × (flatten taken ++ pending race11.shared
      ≡ pending shared ++ lines os.zone (entry ∷ []))
    × (race11.shared.world.files ≡ appended_file shared.world.files path (flatten stored))
    × Perm taken (stored ++ all_of chunk 2 race11.place)
Reachable-Perm_example =
    Reachable-Perm os 2 Everyone path 40 40 shared race11 (entry ∷ []) os-AlwaysWorks
      shared-IsHealthy refl refl race11-Reachable one_text-AllFit

Reachable-in_order_example :
    (stored : Bytes) × (away.shared.world.files ≡ appended_file shared.world.files path stored)
    × (stored ++ (flatten (all_of chunk 2 away.place) ++ pending away.shared)
        ≡ pending shared ++ lines os.zone [])
Reachable-in_order_example =
    Reachable-in_order os 2 0 path 40 40 shared away [] os-AlwaysWorks shared-IsHealthy refl refl
      away-Reachable ((record { below = omega arith; in_block = omega arith }))

Reachable-excludes_example :
    ((in_buffer (race11.place 0) && in_buffer (race11.place 1)) ≡ false)
    × ((in_file (race11.place 0) && in_file (race11.place 1)) ≡ false)
Reachable-excludes_example =
    Reachable-excludes os 2 Everyone path 40 40 shared race11 (entry ∷ []) 0 1 os-AlwaysWorks
      shared-IsHealthy refl refl race11-Reachable one_text-AllFit (λ e. absurd (omega (arith, e)))

Reachable-runs_example :
    (k : ℕ) × (sh' : Shared) × (p' : Place) × (k < 2)
    × (act os k race11.shared (race11.place k) ≡ some (sh', p'))
    × (rank p' < rank (race11.place k))
Reachable-runs_example =
    Reachable-runs os 2 Everyone path 40 40 shared race11 (entry ∷ []) 1 os-AlwaysWorks
      shared-IsHealthy refl refl race11-Reachable race11-AllFit (λ e. cc e)

Reachable-stored_example :
    (m : System) × (t : System) × (us : List Entry) × (k : ℕ) × Continues os 2 k race11 m us
    × (k ≤ 7 * 2)
    × ((i : ℕ) → m.place i ≡ outside)
    × Continues os 2 7 (record m { place = update m.place 1 (wants_buffer flush_sync) }) t []
    × ((i : ℕ) → t.place i ≡ outside)
    × Perm us (all_of wanted 2 race11.place)
    × (taken : List Bytes) × (stored : List Bytes) × (t.shared.world.files
        ≡ appended_file shared.world.files path (flatten stored))
    × Perm taken stored
    × (flatten taken ≡ pending shared ++ lines os.zone ((entry ∷ []) ++ us))
    × (t.shared.appender.logfile ≡ none)
Reachable-stored_example =
    Reachable-stored os 2 Everyone path 40 40 shared race11 (entry ∷ []) 1 os-AlwaysWorks
      shared-IsHealthy refl refl race11-Reachable race11-HaveRoom (omega arith) tt

Reachable-either_order_example :
    (t : System) × (u : System) × (k : ℕ) × (m : ℕ) × Continues os 2 k race11 t []
    × Continues os 2 m race11 u []
    × (t.shared.world.files
        ≡ appended_file race11.shared.world.files path ((104 ∷ 105 ∷ []) ++ (105 ∷ 10 ∷ [])))
    × (u.shared.world.files
        ≡ appended_file race11.shared.world.files path ((105 ∷ 10 ∷ []) ++ (104 ∷ 105 ∷ [])))
Reachable-either_order_example =
    Reachable-either_order os 2 Everyone path 40 40 shared race11 (entry ∷ []) 0 1 (104 ∷ 105 ∷ [])
      (105 ∷ 10 ∷ []) os-AlwaysWorks shared-IsHealthy refl refl race11-Reachable one_text-AllFit
      (omega arith) (omega arith) (λ e. absurd (omega (arith, e))) refl refl refl

run-act_example :
    (run 7 os 3 (free (appender, world)) (wants_buffer task) ≡ done (thread_task os appender world))
    × (run 7 os 3 (free (appender, world)) (wants_buffer flush_sync)
        ≡ done (thread_task os appender world))
    × (run 2 os 3 (free (appender, world)) (wants_buffer (append entry))
        ≡ done (append_async os appender world none (some src)))
run-act_example = run-act os 3 appender world (Samples.pending) entry refl

act-close_log_example :
    (b : Appender) × (v : World) × (close_log os appender world ≡ some (b, v))
    × (act os 3 (free (b, v)) (wants_buffer task) ≡ none)
    × (act os 3 (free (b, v)) (wants_buffer flush_sync) ≡ some (free (b, v), outside))
    × (act os 3 (free (b, v)) (wants_buffer (append entry)) ≡ some (free (b, v), outside))
act-close_log_example =
    act-close_log os appender world (Samples.pending) mapped 104 src 3 entry appender-IsOpenAsync
      appender-IsMapped (omega arith) (inr refl) refl (λ e. absurd (omega (arith, e)))
      (os-Grants 2 (omega arith)) (os-Works path 2)
