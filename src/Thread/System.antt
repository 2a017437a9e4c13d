-- ===== src/Thread/System.antt =====
-- The life of the shared record of comm/mtaf_thread.h: what the calls of the owner and the steps of
-- the started thread can make of it, in any order.
use mtappender_file.Prelude.{ℕ, ◌+◌, ◌≡◌, Bool, true, false, not, ◌&&◌, if◌then◌else◌, Bytes}
use mtappender_file.Thread.State.{Reference, is_running}
use mtappender_file.Thread.Ops.{
  Created, thread, error, create, destroy, start, start_op, start_after, start_periodic, cancel,
  join, outside_join, kill,
}
use mtappender_file.Thread.Routine.{init, cleanup}

-- Where the started thread is: there is none, it has not begun, or it is between `init` and `cleanup`.
pub data Phase : Type 0 where
  idle launched inside : Phase

-- The record, whether the `Thread` object exists, and the started thread.
pub record System : Type 0 where
  pub reference : Reference
  pub owned : Bool
  pub phase : Phase

abbrev pub begun : Created → Phase
begun (thread t) = launched
begun (error e) = idle

abbrev pub started : System → Created → Reference → System
started s p r = record s {
  reference = r;
  phase = if is_running s.reference then s.phase else begun p;
}

abbrev pub with_reference : System → Reference → System
with_reference s r = record s { reference = r }

-- The owner's calls need the object; `init` and `cleanup` are steps of the started thread.
pub data Step : System → System → Type 0 where
  starts :
      (s : System) (p : Created) → s.owned ≡ true → Step s (started s p (start s.reference p).0)
  starts_op :
      (s : System) (p : Created) → s.owned ≡ true → Step s (started s p (start_op s.reference p).0)
  starts_after :
      (s : System) (p : Created) (after : ℕ)
      → s.owned ≡ true
      → Step s (started s p (start_after s.reference after p).0)
  starts_periodic :
      (s : System) (p : Created) (after periodic : ℕ)
      → s.owned ≡ true
      → Step s (started s p (start_periodic s.reference after periodic p).0)
  cancels : (s : System) → s.owned ≡ true → Step s (with_reference s (cancel s.reference))
  joins :
      (s : System) (self : ℕ) → s.owned ≡ true → Step s (with_reference s (join s.reference self).0)
  joins_outside :
      (s : System) → s.owned ≡ true → Step s (with_reference s (outside_join s.reference))
  kills :
      (s : System) (sig : ℕ) → s.owned ≡ true → Step s (with_reference s (kill s.reference sig).0)
  inits :
      (s : System)
      → s.phase ≡ launched
      → Step s (record s { reference = (init s.reference).0; phase = inside })
  cleans :
      (s : System)
      → s.phase ≡ inside
      → Step s (record s { reference = (cleanup s.reference).0; phase = idle })
  destroys :
      (s : System)
      → s.owned ≡ true
      → Step s (record s { reference = destroy s.reference; owned = false })

pub data Reachable : System → Type 0 where
  constructed :
      (target : Bool) (name : Bytes)
      → Reachable (record { reference = create target name; owned = true; phase = idle })
  stepped : (s t : System) → Reachable s → Step s t → Reachable t

abbrev pub is_idle : Phase → Bool
is_idle idle = true
is_idle _ = false

abbrev pub is_inside : Phase → Bool
is_inside inside = true
is_inside _ = false

abbrev pub bit : Bool → ℕ
bit true = 1
bit false = 0

-- The count is the number of those that use the record: the object and the started thread. It is
-- deleted exactly when neither does.
pub record IsSoundAt (r : Reference) (owned : Bool) (p : Phase) : Type 0 where
  pub counted : r.count ≡ bit owned + bit (not (is_idle p))
  pub ended : r.is_ended ≡ is_idle p
  pub in_thread : r.is_in_thread ≡ is_inside p
  pub deleted : r.deleted ≡ (not owned && is_idle p)

abbrev pub IsSound : System → Type 0
IsSound s = IsSoundAt s.reference s.owned s.phase
