-- ===== src/Sync/Atomic.antt =====
-- comm/mtaf_atomic_oper.h: the operations on a 32-bit word, for each platform. Where the operations of
-- a platform are atomic, they are a value of `Ops`, each one step: the word before it, and after it the
-- word and the result. On PowerPC, AIX and Tru64 an operation is a loop that repeats until its
-- conditional store succeeds, here on a list of rounds. Tru64 (__osf__) has no addition, and its
-- counting is that of two built-in functions.
use mtappender_file.Prelude.{
  ℕ, ◌+◌, ◌-◌, ◌%◌, ◌^◌, Bool, true, false, Option, none, some, List, [], ◌∷◌, ◌==◌, if◌then◌else◌,
}

pub record Ops : Type 0 where
  pub cas : ℕ → ℕ → ℕ → ℕ × ℕ  -- the word, `with` and `cmp`
  pub add : ℕ → ℕ → ℕ × ℕ
  pub inc : ℕ → ℕ × ℕ
  pub dec : ℕ → ℕ × ℕ
  pub read : ℕ → ℕ
  pub write : ℕ → ℕ → ℕ

abbrev pub add32 : ℕ → ℕ → ℕ
add32 m v = (m + v) % 2 ^ 32

abbrev pub sub32 : ℕ → ℕ → ℕ
sub32 m v = (m + 2 ^ 32 - v) % 2 ^ 32

-- `(uint32_t)-1`.
abbrev pub minus_one : ℕ
minus_one = 2 ^ 32 - 1

abbrev pub fetch_add : ℕ → ℕ → ℕ × ℕ
fetch_add m v = (add32 m v, m)

-- The intrinsics of Windows in the order of their documented arguments: `_InterlockedIncrement` and
-- `_InterlockedDecrement` give the new word, the others the old one.
abbrev pub interlocked_increment : ℕ → ℕ × ℕ
interlocked_increment destination = (add32 destination 1, add32 destination 1)

abbrev pub interlocked_decrement : ℕ → ℕ × ℕ
interlocked_decrement destination = (sub32 destination 1, sub32 destination 1)

abbrev pub interlocked_exchange : ℕ → ℕ → ℕ × ℕ
interlocked_exchange destination value = (value, destination)

abbrev pub interlocked_exchange_add : ℕ → ℕ → ℕ × ℕ
interlocked_exchange_add destination value = fetch_add destination value

abbrev pub interlocked_compare_exchange : ℕ → ℕ → ℕ → ℕ × ℕ
interlocked_compare_exchange destination exchange comparand =
    (if destination == comparand then exchange else destination, destination)

-- `atomic_add32` reads the word again; nobody has written it in between here.
abbrev pub windows : Ops
windows = record {
  cas = λ m with_value cmp. interlocked_compare_exchange m with_value cmp;
  add = λ m v. ((interlocked_exchange_add m v).0, (interlocked_exchange_add m v).0);
  inc = λ m. ((interlocked_increment m).0, sub32 (interlocked_increment m).1 1);
  dec = λ m. ((interlocked_decrement m).0, add32 (interlocked_decrement m).1 1);
  read = λ m. m;
  write = λ m v. (interlocked_exchange m v).0;
}

-- `lock cmpxchg %source, destination`, which compares the accumulator with the destination: the
-- destination and the accumulator after it.
abbrev pub cmpxchg : ℕ → ℕ → ℕ → ℕ × ℕ
cmpxchg source destination accumulator =
    if accumulator == destination then (source, accumulator) else (destination, destination)

-- `lock xadd %register, destination`: the destination and the register after it.
abbrev pub xadd : ℕ → ℕ → ℕ × ℕ
xadd register destination = (add32 destination register, destination)

-- `xchgl %register, destination`: the destination and the register after it.
abbrev pub xchgl : ℕ → ℕ → ℕ × ℕ
xchgl register destination = (register, destination)

-- In `atomic_cas32` the accumulator is `prev`, which begins as `cmp`.
abbrev pub x86 : Ops
x86 = record {
  cas = λ m with_value cmp. let prev = cmp in cmpxchg with_value m prev;
  add = λ m v. xadd v m;
  inc = λ m. xadd 1 m;
  dec = λ m. xadd minus_one m;
  read = λ m. m;
  write = λ m v. (xchgl v m).0;
}

-- The functions of <atomic.h> of Solaris in the order of their documented arguments:
-- `atomic_cas_32` gives the old word and `atomic_add_32_nv` the new one.
abbrev pub atomic_cas_32 : ℕ → ℕ → ℕ → ℕ × ℕ
atomic_cas_32 target cmp newval = (if target == cmp then newval else target, target)

abbrev pub atomic_add_32_nv : ℕ → ℕ → ℕ × ℕ
atomic_add_32_nv target delta = (add32 target delta, add32 target delta)

abbrev pub sun : Ops
sun = record {
  cas = λ m with_value cmp. atomic_cas_32 m cmp with_value;
  add = λ m v. ((atomic_add_32_nv m v).0, sub32 (atomic_add_32_nv m v).1 v);
  inc = λ m. ((atomic_add_32_nv m 1).0, sub32 (atomic_add_32_nv m 1).1 1);
  dec = λ m. ((atomic_add_32_nv m minus_one).0, add32 (atomic_add_32_nv m minus_one).1 1);
  read = λ m. m;
  write = λ m v. v;
}

-- The built-in functions of GCC in the order of their documented arguments; both give the old word.
abbrev pub sync_val_compare_and_swap : ℕ → ℕ → ℕ → ℕ × ℕ
sync_val_compare_and_swap m oldval newval = (if m == oldval then newval else m, m)

abbrev pub sync_fetch_and_add : ℕ → ℕ → ℕ × ℕ
sync_fetch_and_add m v = fetch_add m v

abbrev pub generic : Ops
generic = record {
  cas = λ m with_value cmp. sync_val_compare_and_swap m cmp with_value;
  add = λ m v. sync_fetch_and_add m v;
  inc = λ m. sync_fetch_and_add m 1;
  dec = λ m. sync_fetch_and_add m minus_one;
  read = λ m. m;
  write = λ m v. v;
}

-- What one round of a loop gives, for the word that it loads and whether another thread makes its
-- conditional store fail: the word and the result, or nothing where the loop goes on.
abbrev pub Round : Type 0
Round = ℕ → Bool → Option (ℕ × ℕ)

-- A loop on the words that its rounds load, each with whether the store of that round fails.
unfoldable pub loop : Round → List (ℕ × Bool) → Option (ℕ × ℕ)
loop round [] = none
loop round (r ∷ rounds) =
    let rest = loop round rounds in elim (round r.0 r.1) [ some result ↦ some result | none ↦ rest ]

-- `lwarx` and `stwcx.`: a load, and a store that succeeds unless another thread has taken the word
-- in between, with whether it has succeeded.
abbrev pub lwarx : ℕ → ℕ
lwarx m = m

abbrev pub stwcx : ℕ → ℕ → Bool → ℕ × Bool
stwcx m v stolen = if stolen then (m, false) else (v, true)

-- PowerPC: the rounds of the two loops. `bne- 2f` leaves the loop, `bne- 1b` repeats it.
unfoldable pub power_add_round : ℕ → Round
power_add_round v m stolen =
    let prev = lwarx m in
    let stored = stwcx m (add32 prev v) stolen in if stored.1 then some (stored.0, prev) else none

unfoldable pub power_cas_round : ℕ → ℕ → Round
power_cas_round with_value cmp m stolen =
    let prev = lwarx m in
    let stored = stwcx m with_value stolen in
    if prev == cmp then (if stored.1 then some (stored.0, prev) else none) else some (m, prev)

abbrev pub power_add : List (ℕ × Bool) → ℕ → Option (ℕ × ℕ)
power_add rounds v = loop (power_add_round v) rounds

abbrev pub power_cas : List (ℕ × Bool) → ℕ → ℕ → Option (ℕ × ℕ)
power_cas rounds with_value cmp = loop (power_cas_round with_value cmp) rounds

abbrev pub power_inc : List (ℕ × Bool) → Option (ℕ × ℕ)
power_inc rounds = power_add rounds 1

abbrev pub power_dec : List (ℕ × Bool) → Option (ℕ × ℕ)
power_dec rounds = power_add rounds minus_one

abbrev pub power_read : ℕ → ℕ
power_read m = m

abbrev pub power_write : ℕ → ℕ → ℕ
power_write m v = v

-- AIX: `lwarxu` and `stwcxu`, and the rounds of the two loops.
abbrev pub lwarxu : ℕ → ℕ
lwarxu m = lwarx m

abbrev pub stwcxu : ℕ → ℕ → Bool → ℕ × Bool
stwcxu m v stolen = stwcx m v stolen

unfoldable pub aix_add_round : ℕ → Round
aix_add_round v m stolen =
    let old_value = lwarxu m in
    let stored = stwcxu m (add32 old_value v) stolen in
    if stored.1 then some (stored.0, old_value) else none

unfoldable pub aix_cas_round : ℕ → ℕ → Round
aix_cas_round with_value cmp m stolen =
    let old_value = lwarxu m in
    let stored = stwcxu m (if old_value == with_value then cmp else old_value) stolen in
    if stored.1 then some (stored.0, old_value) else none

abbrev pub aix_add : List (ℕ × Bool) → ℕ → Option (ℕ × ℕ)
aix_add rounds v = loop (aix_add_round v) rounds

abbrev pub aix_cas : List (ℕ × Bool) → ℕ → ℕ → Option (ℕ × ℕ)
aix_cas rounds with_value cmp = loop (aix_cas_round with_value cmp) rounds

abbrev pub aix_inc : List (ℕ × Bool) → Option (ℕ × ℕ)
aix_inc rounds = aix_add rounds 1

abbrev pub aix_dec : List (ℕ × Bool) → Option (ℕ × ℕ)
aix_dec rounds = aix_add rounds minus_one

abbrev pub aix_read : ℕ → ℕ
aix_read m = m

abbrev pub aix_write : ℕ → ℕ → ℕ
aix_write m v = v

-- The operations for Tru64. `__ATOMIC_INCREMENT_LONG` and `__ATOMIC_DECREMENT_LONG` are given.
pub record Builtins : Type 0 where
  pub increment_long : ℕ → ℕ × ℕ
  pub decrement_long : ℕ → ℕ × ℕ

abbrev pub osf_dec : Builtins → ℕ → ℕ × ℕ
osf_dec b m = b.decrement_long m

abbrev pub osf_inc : Builtins → ℕ → ℕ × ℕ
osf_inc b m = b.increment_long m

abbrev pub osf_read : ℕ → ℕ
osf_read m = m

abbrev pub osf_write : ℕ → ℕ → ℕ
osf_write m v = v

-- The round of the loop in `atomic_cas32`: the word that is loaded, and where it is the one to compare
-- with the word that is stored, unless the store fails.
unfoldable pub osf_round : ℕ → ℕ → Round
osf_round with_value cmp m stolen =
    if m == cmp then (if stolen then none else some (with_value, m)) else some (m, m)

abbrev pub osf_cas : List (ℕ × Bool) → ℕ → ℕ → Option (ℕ × ℕ)
osf_cas rounds with_value cmp = loop (osf_round with_value cmp) rounds
