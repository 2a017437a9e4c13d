-- ===== src/Thread/Delay.antt =====
-- The delayed and the periodic start.
use mtappender_file.Prelude.{
  ℕ, zero, suc, ◌≡◌, refl, ap, Bool, true, false, List, [], ◌∷◌, if◌then◌else◌,
}
use mtappender_file.Sync.Atomic.{Ops}
use mtappender_file.Sync.AtomicLaws.{Swaps}
use mtappender_file.Sync.Condition.{wait, notify_all}
use mtappender_file.Thread.State.{Reference}
use mtappender_file.Thread.Ops.{cancel}
use mtappender_file.Thread.Routine.{
  Event, waits, runs, start_routine_after, start_routine_periodic, periodic_loop,
}

-- After a running delayed start has been cancelled, a wait for the delay that begins next ends at
-- once, and the runnable is not run, whether or not the cancelling came before the first look at
-- it. The compare-and-swap must be a proper one.
pub cancel-start_routine_after :
    (o : Ops) (r : Reference) (t : ℕ) (at_first : Bool)
    → Swaps o
    → r.is_ended ≡ false
    → ((wait o (cancel r).condtime t).1 ≡ false)
      × (start_routine_after r.aftertime at_first (cancel r).is_cancel_delay_start
          ≡ (if at_first then [] else waits r.aftertime ∷ []))
unfolding cancel wait notify_all start_routine_after
cancel-start_routine_after o r t at_first s e = (rw (e, s.swap 1 0 1), rw e)

-- The looks of `n` whole rounds in which nothing is cancelled, and then one that finds it cancelled.
abbrev pub rounds : ℕ → List Bool
rounds zero = true ∷ []
rounds (suc n) = false ∷ false ∷ rounds n

-- What `n` whole rounds do.
abbrev pub beats : ℕ → ℕ → List Event
beats periodictime zero = []
beats periodictime (suc n) = runs ∷ waits periodictime ∷ beats periodictime n

beats_lem : (periodictime n : ℕ) → periodic_loop periodictime (rounds n) ≡ beats periodictime n
unfolding periodic_loop
beats_lem periodictime zero = refl
beats_lem periodictime (suc n) =
    ap (λ rest. runs ∷ waits periodictime ∷ rest) (beats_lem periodictime n)

-- A periodic start that is cancelled after `n` rounds waits for the delay once, then runs the runnable
-- `n` times with a wait for the period after each, and ends.
start_routine_periodic_lem :
    (aftertime periodictime n : ℕ)
    → start_routine_periodic aftertime periodictime false (rounds n)
      ≡ waits aftertime ∷ beats periodictime n
unfolding start_routine_periodic
start_routine_periodic_lem aftertime periodictime n =
    ap (λ rest. waits aftertime ∷ rest) (beats_lem periodictime n)
