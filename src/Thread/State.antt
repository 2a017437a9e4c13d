-- ===== src/Thread/State.antt =====
-- `RunnableReference`, and what the system knows of the threads that were started. Every access
-- below is under `splock`, so a member function is one step up to the point where it unlocks.
use mtappender_file.Prelude.{
  ℕ, zero, suc, ◌+◌, ◌-◌, ◌^◌, Bool, true, false, ◌==◌, if◌then◌else◌, Bytes,
}
use mtappender_file.Sync.Condition.{Condition}
use mtappender_file.Sync.Condition

-- `target` is whether there is a runnable. `deleted` is whether `delete this` has been done. A `tid`
-- of 0 is none. LONG_MAX is that of a 64-bit `long`.
pub record Reference : Type 0 where
  pub target : Bool
  pub count : ℕ
  pub tid : ℕ
  pub is_joined : Bool
  pub is_ended : Bool
  pub aftertime : ℕ
  pub periodictime : ℕ
  pub is_cancel_delay_start : Bool
  pub condtime : Condition
  pub is_in_thread : Bool
  pub killsig : ℕ
  pub thread_name : Bytes
  pub deleted : Bool

abbrev pub long_max : ℕ
long_max = 2 ^ 63 - 1

-- The constructor of the record.
abbrev pub new_reference : Bool → Bytes → Reference
new_reference target name = record {
  target = target;
  count = 0;
  tid = 0;
  is_joined = false;
  is_ended = true;
  aftertime = long_max;
  periodictime = long_max;
  is_cancel_delay_start = false;
  condtime = Condition.create;
  is_in_thread = false;
  killsig = 0;
  thread_name = name;
  deleted = false;
}

-- `AddRef`.
abbrev pub add_ref : Reference → Reference
add_ref r = record r { count = r.count + 1 }

-- `RemoveRef`: the count, and the end of the record with the last of it. A count of 0, which is only
-- asserted not to be, is left alone.
unfoldable pub remove_ref : Reference → Reference
remove_ref r = elim r.count [
  | zero ↦ r
  | suc n ↦ record r { count = n; deleted = if n == 0 then true else r.deleted }
]

-- `isruning`.
abbrev pub is_running : Reference → Bool
is_running r = if r.is_ended then false else true
