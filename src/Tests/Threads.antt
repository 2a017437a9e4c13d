-- ===== src/Tests/Threads.antt =====
-- Runs of a thread, a condition and a lock.
use mtappender_file.Prelude.{◌≡◌, refl, arith, true, false, none, some, [], ◌∷◌, if◌then◌else◌}
use mtappender_file.Sync.Atomic.{generic}
use mtappender_file.Sync.AtomicLaws.{Swaps}
use mtappender_file.Sync.Mutex.{Mutex}
use mtappender_file.Sync.Mutex
use mtappender_file.Sync.Lock.{ScopedLock, enter, leave, unlock}
use mtappender_file.Sync.LockLaws.{leave-enter}
use mtappender_file.Sync.Condition.{Condition, wait, woken, notify_all}
use mtappender_file.Sync.ConditionLaws.{wait-notify_all}
use mtappender_file.Thread.State.{Reference}
use mtappender_file.Thread.Ops.{create, start, destroy, thread, cancel}
use mtappender_file.Thread.Routine.{init, cleanup, waits, start_routine_after}
use mtappender_file.Thread.System.{
  System, idle, inside, IsSound, started, starts, inits, cleans, destroys, Reachable, constructed,
  stepped,
}
use mtappender_file.Thread.Reach.{Reachable-IsSound}
use mtappender_file.Thread.Delay.{cancel-start_routine_after}

generic-Swaps : Swaps generic
generic-Swaps = record { swap = λ m with_value cmp. refl }

abbrev condition : Condition
condition = record { anyway_notify = 0; waiting = 4 ∷ [] }

abbrev mutex : Mutex
mutex = record { intact = true; recursive = false; holder = some 1; again = 0 }

abbrev running : Reference
running = record (create true []) { tid = 9; count = 2; is_ended = false }

-- A thread that was started, whose `Thread` object is destroyed, and that has ended.
abbrev made : System
made = record { reference = create true []; owned = true; phase = idle }

abbrev launched_system : System
launched_system = started made (thread 9) (start made.reference (thread 9)).0

abbrev orphan : System
orphan = record launched_system { reference = destroy launched_system.reference; owned = false }

abbrev working : System
working = record orphan { reference = (init orphan.reference).0; phase = inside }

abbrev done : System
done = record working { reference = (cleanup working.reference).0; phase = idle }

done-Reachable : Reachable done
done-Reachable =
    stepped working done
      (stepped orphan working
        (stepped launched_system orphan
          (stepped made launched_system (constructed true []) (starts made (thread 9) refl))
          (destroys launched_system refl))
        (inits orphan refl))
      (cleans working refl)

done_deleted : done.reference.deleted ≡ true
unfolding start init cleanup
done_deleted = refl

Reachable-IsSound_example : IsSound done
Reachable-IsSound_example = Reachable-IsSound done-Reachable

cancel-start_routine_after_example :
    ((wait generic (cancel running).condtime 3).1 ≡ false)
    × (start_routine_after running.aftertime false (cancel running).is_cancel_delay_start
        ≡ (if false then [] else waits running.aftertime ∷ []))
cancel-start_routine_after_example =
    cancel-start_routine_after generic running 3 false generic-Swaps refl

wait-notify_all_example :
    let d = (wait generic (notify_all condition true).0 3).0 in
    ((wait generic (notify_all condition true).0 3).1 ≡ false)
    × ((wait generic d 5).1 ≡ true)
    × ((wait generic (woken (notify_all condition true).0) 3).1 ≡ true)
wait-notify_all_example = wait-notify_all generic condition 3 5 generic-Swaps

leave-enter_example :
    (s : ScopedLock) × (enter (Mutex.create false) 1 true ≡ some s)
    × (s.mutex.holder ≡ some 1)
    × (Mutex.lock s.mutex 2 ≡ none)
    × ((Mutex.trylock s.mutex 2).1 ≡ false)
    × (leave s 1 ≡ Mutex.create false)
    × (leave (unlock s 1) 1 ≡ Mutex.create false)
leave-enter_example = leave-enter false 1 2 (λ e. absurd (omega (arith, e)))
