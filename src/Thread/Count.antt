-- ===== src/Thread/Count.antt =====
-- What each call and each step does to the count of the shared record, for Thread/Reach.
use mtappender_file.Prelude.{
  ℕ, suc, ◌+◌, ◌≡◌, inl, inr, refl, ◌∙◌, sym, arith, Bool, true, false, Bool-cases, ◌==◌,
  if◌then◌else◌,
}
use mathlib.Core.Bool.{false≢true}
use mtappender_file.Thread.State.{Reference, is_running, remove_ref}
use mtappender_file.Thread.Ops.{
  Created, thread, error, destroy, launch, cancel, join, outside_join, kill,
}
use mtappender_file.Thread.Routine.{init, cleanup}
use mtappender_file.Thread.System.{
  Phase, idle, launched, inside, System, begun, started, IsSoundAt, IsSound,
}

-- Two records alike in what `IsSoundAt` reads.
pub record Alike (r q : Reference) : Type 0 where
  pub count : q.count ≡ r.count
  pub is_ended : q.is_ended ≡ r.is_ended
  pub is_in_thread : q.is_in_thread ≡ r.is_in_thread
  pub deleted : q.deleted ≡ r.deleted

pub Alike-IsSoundAt :
    (r q : Reference) (owned : Bool) (p : Phase)
    → Alike r q
    → IsSoundAt r owned p
    → IsSoundAt q owned p
Alike-IsSoundAt r q owned p a i = record {
  counted = a.count ∙ i.counted;
  ended = a.is_ended ∙ i.ended;
  in_thread = a.is_in_thread ∙ i.in_thread;
  deleted = a.deleted ∙ i.deleted;
}

pub Alike-if : (r x y : Reference) (b : Bool) → Alike r x → Alike r y → Alike r (if b then x else y)
Alike-if r x y true a c = a
Alike-if r x y false a c = c

pub Alike-if_pair :
    {A : Type 0} (r : Reference) (x y : Reference × A) (b : Bool)
    → Alike r x.0
    → Alike r y.0
    → Alike r (if b then x else y).0
Alike-if_pair r x y true a c = a
Alike-if_pair r x y false a c = c

pub Alike-same : (r : Reference) → Alike r r
Alike-same r = record { count = refl; is_ended = refl; is_in_thread = refl; deleted = refl }

pub cancel-Alike : (r : Reference) → Alike r (cancel r)
unfolding cancel
cancel-Alike r =
    Alike-if r _ r (is_running r)
      (record { count = refl; is_ended = refl; is_in_thread = refl; deleted = refl }) (Alike-same r)

pub join-Alike : (r : Reference) (self : ℕ) → Alike r (join r self).0
unfolding join
join-Alike r self =
    Alike-if_pair r (r, _) _ (r.tid == self) (Alike-same r)
      (Alike-if_pair r (record r { is_joined = true }, _) (r, _) (is_running r)
        (record { count = refl; is_ended = refl; is_in_thread = refl; deleted = refl })
        (Alike-same r))

pub outside_join-Alike : (r : Reference) → Alike r (outside_join r)
unfolding outside_join
outside_join-Alike r = Alike-if r r _ r.is_joined (Alike-same r) (
    Alike-if r r (record r { is_joined = true }) (is_running r) (Alike-same r)
      (record { count = refl; is_ended = refl; is_in_thread = refl; deleted = refl }))

pub kill-Alike : (r : Reference) (sig : ℕ) → Alike r (kill r sig).0
unfolding kill
kill-Alike r sig =
    Alike-if_pair r _ (r, _) (is_running r)
      (Alike-if_pair r (r, _) (record r { killsig = sig }, _) r.is_in_thread (Alike-same r)
        (record { count = refl; is_ended = refl; is_in_thread = refl; deleted = refl }))
      (Alike-same r)

-- What `RemoveRef` makes of a record with a count of at least 1.
record Removed (r q : Reference) (n : ℕ) : Type 0 where
  pub count : q.count ≡ n
  pub is_ended : q.is_ended ≡ r.is_ended
  pub is_in_thread : q.is_in_thread ≡ r.is_in_thread
  pub deleted : q.deleted ≡ (if n == 0 then true else r.deleted)

remove_ref_lem : (r : Reference) (n : ℕ) → r.count ≡ suc n → Removed r (remove_ref r) n
unfolding remove_ref
remove_ref_lem r n e = record { count = rw e; is_ended = rw e; is_in_thread = rw e; deleted = rw e }

-- The record as a start leaves it before `pthread_create`.
pub record Counted (r q : Reference) : Type 0 where
  pub count : q.count ≡ r.count + 1
  pub is_ended : q.is_ended ≡ false
  pub is_in_thread : q.is_in_thread ≡ r.is_in_thread
  pub deleted : q.deleted ≡ r.deleted

launch-IsSoundAt :
    (r q : Reference) (undo : Reference → Reference) (p : Created) (owned : Bool) (phase : Phase)
    → owned ≡ true
    → r.is_ended ≡ true
    → IsSoundAt r owned phase
    → Counted r q
    → ((k : Reference) → Alike k (undo k))
    → IsSoundAt (launch q undo p).0 owned (begun p)
unfolding launch
launch-IsSoundAt r q undo p false phase o e i c u = absurd (false≢true o)
launch-IsSoundAt r q undo p true launched o e i c u = absurd (false≢true (sym i.ended ∙ e))
launch-IsSoundAt r q undo p true inside o e i c u = absurd (false≢true (sym i.ended ∙ e))
launch-IsSoundAt r q undo (thread t) true idle o e i c u = record {
  counted = omega (arith, c.count, i.counted);
  ended = c.is_ended;
  in_thread = c.is_in_thread ∙ i.in_thread;
  deleted = c.deleted ∙ i.deleted;
}
launch-IsSoundAt r q undo (error n) true idle o e i c u =
    let a = u (record q { is_ended = true }) in
    let m =
      remove_ref_lem (undo (record q { is_ended = true })) 1
        (omega (arith, a.count, c.count, i.counted)) in
    record {
      counted = m.count;
      ended = m.is_ended ∙ a.is_ended;
      in_thread = m.is_in_thread ∙ a.is_in_thread ∙ c.is_in_thread ∙ i.in_thread;
      deleted = m.deleted ∙ a.deleted ∙ c.deleted ∙ i.deleted;
    }

pub init-IsSoundAt :
    (r : Reference) (owned : Bool) → IsSoundAt r owned launched → IsSoundAt (init r).0 owned inside
unfolding init
init-IsSoundAt r owned i = record {
  counted = i.counted;
  ended = i.ended;
  in_thread = refl;
  deleted = i.deleted;
}

pub cleanup-IsSoundAt :
    (r : Reference) (owned : Bool) → IsSoundAt r owned inside → IsSoundAt (cleanup r).0 owned idle
unfolding cleanup
cleanup-IsSoundAt r true i =
    let q : Reference = record r {
      is_in_thread = false;
      killsig = 0;
      is_ended = true;
      is_joined = false;
    } in
    let m = remove_ref_lem q 1 i.counted in
    record {
      counted = m.count;
      ended = m.is_ended;
      in_thread = m.is_in_thread;
      deleted = m.deleted ∙ i.deleted;
    }
cleanup-IsSoundAt r false i =
    let q : Reference = record r {
      is_in_thread = false;
      killsig = 0;
      is_ended = true;
      is_joined = false;
    } in
    let m = remove_ref_lem q 0 i.counted in
    record {
      counted = m.count;
      ended = m.is_ended;
      in_thread = m.is_in_thread;
      deleted = m.deleted;
    }

pub destroy-IsSoundAt :
    (r : Reference) (owned : Bool) (p : Phase)
    → owned ≡ true
    → IsSoundAt r owned p
    → IsSoundAt (destroy r) false p
destroy-IsSoundAt r false p o i = absurd (false≢true o)
destroy-IsSoundAt r true idle o i =
    let m = remove_ref_lem r 0 i.counted in
    record {
      counted = m.count;
      ended = m.is_ended ∙ i.ended;
      in_thread = m.is_in_thread ∙ i.in_thread;
      deleted = m.deleted;
    }
destroy-IsSoundAt r true launched o i =
    let m = remove_ref_lem r 1 i.counted in
    record {
      counted = m.count;
      ended = m.is_ended ∙ i.ended;
      in_thread = m.is_in_thread ∙ i.in_thread;
      deleted = m.deleted ∙ i.deleted;
    }
destroy-IsSoundAt r true inside o i =
    let m = remove_ref_lem r 1 i.counted in
    record {
      counted = m.count;
      ended = m.is_ended ∙ i.ended;
      in_thread = m.is_in_thread ∙ i.in_thread;
      deleted = m.deleted ∙ i.deleted;
    }

ended_of : (b : Bool) → (if b then false else true) ≡ false → b ≡ true
ended_of true e = refl
ended_of false e = absurd (false≢true (sym e))

-- Every start: nothing where a thread runs, or the launch.
pub started-IsSound :
    (s : System) (p : Created) (q r : Reference) (undo : Reference → Reference)
    → s.owned ≡ true
    → Counted s.reference q
    → ((k : Reference) → Alike k (undo k))
    → r ≡ (if is_running s.reference then s.reference else (launch q undo p).0)
    → IsSound s
    → IsSound (started s p r)
started-IsSound s p q r undo o c u e i = elim (Bool-cases (is_running s.reference)) [
  | inl runs ↦ rw (e, runs) i
  | inr rests ↦
      rw (e, rests)
        (launch-IsSoundAt s.reference q undo p s.owned s.phase o
          (ended_of s.reference.is_ended rests) i c u)
]

pub if_fst :
    {A B : Type 0} (b : Bool) (x y : A × B) → (if b then x else y).0 ≡ (if b then x.0 else y.0)
if_fst true x y = refl
if_fst false x y = refl
