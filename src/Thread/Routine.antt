-- ===== src/Thread/Routine.antt =====
-- What a started thread does: `init`, one of the three routines, and `cleanup`.
use mtappender_file.Prelude.{
  ℕ, Bool, true, false, Option, none, some, List, [], ◌∷◌, ◌&&◌, ltb, leb, if◌then◌else◌,
}
use mtappender_file.Thread.State.{Reference, remove_ref}

-- `init`: the record, and the signal that the thread sends to itself.
unfoldable pub init : Reference → Reference × Option ℕ
init r = (
  record r { is_in_thread = true },
  if ltb 0 r.killsig && leb r.killsig 32 then some r.killsig else none,
)

-- `cleanup`: the record, and whether the thread is detached.
unfoldable pub cleanup : Reference → Reference × Bool
unfolding remove_ref
cleanup r = (
  remove_ref (record r { is_in_thread = false; killsig = 0; is_ended = true; is_joined = false }),
  if r.is_joined then false else true,
)

-- What a routine does that others can see.
pub data Event : Type 0 where
  waits : ℕ → Event
  runs : Event

-- `start_routine` between `init` and `cleanup`.
abbrev pub start_routine : List Event
start_routine = runs ∷ []

-- `start_routine_after`. `cancelled` is what `iscanceldelaystart` is at each look at it, in order.
unfoldable pub start_routine_after : ℕ → Bool → Bool → List Event
start_routine_after aftertime at_first after_wait =
    if at_first then [] else waits aftertime ∷ (if after_wait then [] else runs ∷ [])

-- The `while` of `start_routine_periodic`, on the looks at `iscanceldelaystart`: two in each round,
-- at its top and before its wait.
unfoldable pub periodic_loop : ℕ → List Bool → List Event
periodic_loop periodictime [] = []
periodic_loop periodictime (true ∷ looks) = []
periodic_loop periodictime (false ∷ []) = runs ∷ []
periodic_loop periodictime (false ∷ true ∷ looks) =
    let rest = periodic_loop periodictime looks in runs ∷ rest
periodic_loop periodictime (false ∷ false ∷ looks) =
    let rest = periodic_loop periodictime looks in runs ∷ waits periodictime ∷ rest

-- `start_routine_periodic`.
unfoldable pub start_routine_periodic : ℕ → ℕ → Bool → List Bool → List Event
unfolding periodic_loop
start_routine_periodic aftertime periodictime at_first looks =
    if at_first then [] else waits aftertime ∷ periodic_loop periodictime looks
