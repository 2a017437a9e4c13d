-- ===== src/Thread/Reach.antt =====
-- The reachable states of Thread/System.
use mtappender_file.Prelude.{◌≡◌, inl, inr, refl, true, false, Bool-cases, if◌then◌else◌}
use mathlib.Core.Path.{subst}
use mtappender_file.Thread.State.{Reference, is_running, add_ref}
use mtappender_file.Thread.Ops.{
  Created, launch, start, start_op, start_after, start_periodic, prepared_after, undo_after,
  prepared_periodic, undo_periodic,
}
use mtappender_file.Thread.System.{
  System, Step, starts, starts_op, starts_after, starts_periodic, cancels, joins, joins_outside,
  kills, inits, cleans, destroys, Reachable, constructed, stepped, IsSoundAt, IsSound,
}
use mtappender_file.Thread.Count.{
  Alike-same, Alike-IsSoundAt, cancel-Alike, join-Alike, outside_join-Alike, kill-Alike,
  init-IsSoundAt, cleanup-IsSoundAt, destroy-IsSoundAt, started-IsSound, if_fst,
}

start_fst :
    (r : Reference) (p : Created)
    → (start r p).0 ≡ (
        if is_running r then r else (launch (add_ref (record r { is_ended = false })) (λ k. k) p).0)
unfolding start
start_fst r p = elim (Bool-cases (is_running r)) [ inl runs ↦ rw runs | inr rests ↦ rw rests ]

start_op_fst :
    (r : Reference) (p : Created)
    → (start_op r p).0 ≡ (
        if is_running r
        then r
        else (launch (add_ref (record r { target = true; is_ended = false })) (λ k. k) p).0)
unfolding start_op
start_op_fst r p = elim (Bool-cases (is_running r)) [ inl runs ↦ rw runs | inr rests ↦ rw rests ]

Step-IsSound : {s t : System} → Step s t → IsSound s → IsSound t
unfolding start_after start_periodic
Step-IsSound (starts s p o) i =
    started-IsSound s p (add_ref (record s.reference { is_ended = false })) _ (λ k. k) o
      (record { count = refl; is_ended = refl; is_in_thread = refl; deleted = refl }) Alike-same
      (start_fst s.reference p) i
Step-IsSound (starts_op s p o) i =
    started-IsSound s p (add_ref (record s.reference { target = true; is_ended = false })) _
      (λ k. k) o (record { count = refl; is_ended = refl; is_in_thread = refl; deleted = refl })
      Alike-same (start_op_fst s.reference p) i
Step-IsSound (starts_after s p after o) i =
    started-IsSound s p (prepared_after s.reference after) _ undo_after o
      (record { count = refl; is_ended = refl; is_in_thread = refl; deleted = refl })
      (λ k. record { count = refl; is_ended = refl; is_in_thread = refl; deleted = refl })
      (if_fst (is_running s.reference) (s.reference, 0)
        (launch (prepared_after s.reference after) undo_after p))
      i
Step-IsSound (starts_periodic s p after periodic o) i =
    started-IsSound s p (prepared_periodic s.reference after periodic) _ undo_periodic o
      (record { count = refl; is_ended = refl; is_in_thread = refl; deleted = refl })
      (λ k. record { count = refl; is_ended = refl; is_in_thread = refl; deleted = refl })
      (if_fst (is_running s.reference) (s.reference, 0)
        (launch (prepared_periodic s.reference after periodic) undo_periodic p))
      i
Step-IsSound (cancels s o) i = Alike-IsSoundAt _ _ _ _ (cancel-Alike s.reference) i
Step-IsSound (joins s self o) i = Alike-IsSoundAt _ _ _ _ (join-Alike s.reference self) i
Step-IsSound (joins_outside s o) i = Alike-IsSoundAt _ _ _ _ (outside_join-Alike s.reference) i
Step-IsSound (kills s sig o) i = Alike-IsSoundAt _ _ _ _ (kill-Alike s.reference sig) i
Step-IsSound (inits s h) i =
    init-IsSoundAt s.reference s.owned (subst (IsSoundAt s.reference s.owned) h i)
Step-IsSound (cleans s h) i =
    cleanup-IsSoundAt s.reference s.owned (subst (IsSoundAt s.reference s.owned) h i)
Step-IsSound (destroys s o) i = destroy-IsSoundAt s.reference s.owned s.phase o i

-- In every state that any sequence of calls, failed starts and steps of the started thread can
-- reach, the count of the shared record is the number of its users, `isended` and `isinthread` say
-- where the thread is, and the record has been deleted exactly when no user is left.
pub Reachable-IsSound : {s : System} → Reachable s → IsSound s
Reachable-IsSound (constructed target name) = record {
  counted = refl;
  ended = refl;
  in_thread = refl;
  deleted = refl;
}
Reachable-IsSound (stepped s t r step) = Step-IsSound step (Reachable-IsSound r)
