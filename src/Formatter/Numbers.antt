-- ===== src/Formatter/Numbers.antt =====
-- The numbers that `mtaf_log_formater` prints.
use mtappender_file.Prelude.{
  ℕ, zero, suc, ◌+◌, ◌-◌, ◌*◌, ◌/◌, ◌%◌, ◌≤◌, ◌≡◌, ◌∙◌, ap, arith, [], ◌∷◌, ◌==◌, ==_iff,
  Bool-cases, inl, inr, Bytes,
}
use mtappender_file.Formatter.{digits, show_nat}

-- Reading decimal digits behind a number that has been read.
abbrev pub read_from : ℕ → Bytes → ℕ
read_from v [] = v
read_from v (c ∷ cs) = read_from (v * 10 + (c - 48)) cs

digits_lem : (f n : ℕ) (acc : Bytes) → n ≤ f → read_from 0 (digits f n acc) ≡ read_from n acc
unfolding digits
digits_lem zero n acc h = ap (λ v. read_from v acc) (omega arith)
digits_lem (suc f) n acc h = elim (Bool-cases (n == 0)) [
  | inl nothing ↦ rw nothing (ap (λ v. read_from v acc) (omega (arith, (==_iff n 0).0 nothing)))
  | inr more ↦ rw more (
      digits_lem f (n / 10) ((48 + n % 10) ∷ acc) (omega arith)
      ∙ ap (λ v. read_from v acc) (omega arith))
]

-- What "%d" prints of a number is read back as that number.
read_from-show_nat : (n : ℕ) → read_from 0 (show_nat n) ≡ n
unfolding show_nat
read_from-show_nat n = elim (Bool-cases (n == 0)) [
  | inl nothing ↦ rw nothing (omega (arith, (==_iff n 0).0 nothing))
  | inr more ↦ rw more (digits_lem n n [] (omega arith))
]
