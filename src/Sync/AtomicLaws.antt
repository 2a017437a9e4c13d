-- ===== src/Sync/AtomicLaws.antt =====
-- What the comments of the operations say, and which platforms keep it.
use mtappender_file.Prelude.{
  ℕ, zero, suc, ◌+◌, ◌-◌, ◌%◌, ◌^◌, ◌≡◌, refl, ap, arith, Bool, true, false, ◌&&◌, Option, none,
  some, List, [], ◌∷◌, ◌==◌, if◌then◌else◌,
}
use mtappender_file.Sync.Atomic.{
  Ops, windows, x86, sun, generic, Round, loop, power_add_round, power_add, aix_add_round, aix_add,
}

-- Counting gives the old word and wraps around at 2 ^ 32, on the word of any number.
pub record Counts (o : Ops) : Type 0 where
  pub inc_old : (n : ℕ) → o.inc (n % 2 ^ 32) ≡ ((n % 2 ^ 32 + 1) % 2 ^ 32, n % 2 ^ 32)
  pub dec_old : (n : ℕ) → o.dec (n % 2 ^ 32) ≡ ((n % 2 ^ 32 + 2 ^ 32 - 1) % 2 ^ 32, n % 2 ^ 32)
  pub reads : (m v : ℕ) → o.read (o.write m v) ≡ v

-- `with` is stored exactly where the word is `cmp`, and the old word is the result.
pub record Swaps (o : Ops) : Type 0 where
  pub swap :
      (m with_value cmp : ℕ) → o.cas m with_value cmp ≡ (if m == cmp then with_value else m, m)

pub record Adds (o : Ops) : Type 0 where
  pub add_old :
      (n v : ℕ) → o.add (n % 2 ^ 32) (v % 2 ^ 32) ≡ ((n % 2 ^ 32 + v % 2 ^ 32) % 2 ^ 32, n % 2 ^ 32)

abbrev both : ℕ → ℕ → ℕ × ℕ
both a m = (a, m)

pair : {a b m n : ℕ} → a ≡ b → m ≡ n → both a m ≡ both b n
pair e f = rw (e, f)

-- `k` rounds that load `v` and whose store fails, and then a last round.
abbrev lost : ℕ → ℕ → ℕ × Bool → List (ℕ × Bool)
lost zero v r = r ∷ []
lost (suc k) v r = (v, true) ∷ lost k v r

-- A loop that has not ended after rounds that loaded `cmp` and lost their store ends with the round that
-- stores or that loads another word, and then it is a compare-and-swap of the word of that round.
pub record SwapsInRounds (cas : List (ℕ × Bool) → ℕ → ℕ → Option (ℕ × ℕ)) : Type 0 where
  pub swap_at_last :
      (k m with_value cmp : ℕ) (stolen : Bool)
      → cas (lost k cmp (m, stolen)) with_value cmp
        ≡ (if m == cmp && stolen then none else some (if m == cmp then with_value else m, m))

pub record AddsInRounds (add : List (ℕ × Bool) → ℕ → Option (ℕ × ℕ)) : Type 0 where
  pub add_at_last : (k n m v : ℕ) → add (lost k n (m, false)) v ≡ some ((m + v) % 2 ^ 32, m)

-- A loop goes on after a round without a result.
loop-lost :
    (round : Round) (k v : ℕ) (r : ℕ × Bool)
    → round v true ≡ none
    → loop round (lost k v r) ≡ loop round (r ∷ [])
unfolding loop
loop-lost round zero v r e = refl
loop-lost round (suc k) v r e = rw (e, loop-lost round k v r e)

power_add_lem : AddsInRounds power_add
unfolding power_add_round loop
power_add_lem = record {
  add_at_last = λ k n m v. loop-lost (power_add_round v) k n (m, false) refl;
}

aix_add_lem : AddsInRounds aix_add
unfolding aix_add_round loop
aix_add_lem = record { add_at_last = λ k n m v. loop-lost (aix_add_round v) k n (m, false) refl }

-- Where they are one step, the increment and the decrement give the word before them, as their comments
-- say, also where the count wraps around, and a word that is written is the word that is read.
Counts-every : Counts windows × Counts x86 × Counts sun × Counts generic
Counts-every = (
  record {
    inc_old = λ m. pair refl (omega arith);
    dec_old = λ m. pair refl (omega arith);
    reads = λ m v. refl;
  },
  record { inc_old = (λ n. refl); dec_old = λ n. pair (omega arith) refl; reads = λ m v. refl },
  record {
    inc_old = λ m. pair refl (omega arith);
    dec_old = λ m. pair (omega arith) (omega arith);
    reads = λ m v. refl;
  },
  record { inc_old = (λ n. refl); dec_old = λ n. pair (omega arith) refl; reads = λ m v. refl },
)

-- On every platform but Windows the addition gives the word before it; on Windows it does not.
Adds-every :
    Adds x86
    × AddsInRounds power_add
    × Adds sun
    × AddsInRounds aix_add
    × Adds generic
    × (¬ Adds windows)
Adds-every = (
  record { add_old = λ m v. refl },
  power_add_lem,
  record { add_old = λ m v. pair refl (omega arith) },
  aix_add_lem,
  record { add_old = λ m v. refl },
  λ s. absurd (omega (arith, ap (λ r. r.1) (s.add_old 0 1))),
)
