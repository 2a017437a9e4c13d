-- ===== src/Prelude/Families.antt =====
-- Families that are indexed by thread: update at one index, and the lists of the first `n` threads
-- one behind the other.
use Prim.Native.Nat.{ℕ, ◌*◌, zero, suc, ◌+◌, ◌<◌, ◌≤◌}
use mathlib.Core.Path.{◌≡◌, refl, sym, ap, ◌∙◌, subst, ap₂}
use mathlib.Core.Logic.{◌≢◌, ◌⊎◌, inl, inr}
use mathlib.Core.Bool.{true, false}
use mathlib.Core.List.{List, [], ◌++◌, append_assoc, append-nil, Perm, perm_append_comm}
use mathlib.Core.List.Perm
use native.Mathlib.Omega.{arith}
use native.Mathlib.Decide.{dec_lt}
use mtappender_file.Prelude.Tests.{◌==◌, if◌then◌else◌, ==_iff, Bool-cases}

abbrev pub update {ℓ} : {A : Type ℓ} → (ℕ → A) → ℕ → A → ℕ → A
update f i p j = if j == i then p else f j

other_than : (j i : ℕ) → (j == i) ≡ false → j ≢ i
other_than j i h e = ground arith

pub update_here {ℓ} : {A : Type ℓ} (f : ℕ → A) (i : ℕ) (p : A) → update f i p i ≡ p
update_here f i p = let here : (i == i) ≡ true = ground arith in rw here

pub update_other {ℓ} :
    {A : Type ℓ} (f : ℕ → A) (i : ℕ) (p : A) (j : ℕ) → j ≢ i → update f i p j ≡ f j
update_other f i p j other = let apart : (j == i) ≡ false = ground arith in rw apart

-- What holds of the new member and of every other one holds of all.
pub update-all {ℓ κ} :
    {A : Type ℓ} (P : ℕ → A → Type κ) (f : ℕ → A) (i : ℕ) (p : A)
    → P i p
    → ((j : ℕ) → j ≢ i → P j (f j))
    → (j : ℕ) → P j (update f i p j)
update-all P f i p h others j = elim (Bool-cases (j == i)) [
  | inl here ↦ rw here (subst (λ k. P k p) (sym ((==_iff j i).0 here)) h)
  | inr other ↦ rw other (others j (other_than j i other))
]

module _ {ℓ κ} {A : Type ℓ} {B : Type κ} (w : A → List B) where
  unfoldable pub all_of : ℕ → (ℕ → A) → List B
  all_of zero f = []
  all_of (suc n) f = all_of n f ++ w (f n)

  -- An index from `n` on changes nothing.
  all_of-update_other :
      (n : ℕ) (f : ℕ → A) (i : ℕ) (p : A) → n ≤ i → all_of n (update f i p) ≡ all_of n f
  unfolding all_of
  all_of-update_other zero f i p h = refl
  all_of-update_other (suc n) f i p h =
      let other : (n == i) ≡ false = ground arith in
      rw other (ap (λ xs. xs ++ w (f n)) (all_of-update_other n f i p (omega arith)))

  swap_ends : (xs ys zs : List B) → Perm (xs ++ (ys ++ zs)) (zs ++ (ys ++ xs))
  swap_ends xs ys zs =
      subst (Perm (xs ++ (ys ++ zs))) (append_assoc zs ys xs) (
        Perm.trans (perm_append_comm xs (ys ++ zs)) (Perm.append_right xs (perm_append_comm ys zs)))

  -- The list of one member is exchanged for that of its successor.
  pub all_of-update :
      (n : ℕ) (f : ℕ → A) (i : ℕ) (p : A)
      → i < n
      → Perm (w (f i) ++ all_of n (update f i p)) (w p ++ all_of n f)
  unfolding all_of
  all_of-update zero f i p h = absurd (omega arith)
  all_of-update (suc n) f i p h = elim (Bool-cases (n == i)) [
    | inl here ↦
        let e : n ≡ i = (==_iff n i).0 here in
        rw (here, all_of-update_other n f i p (omega (arith, e)), e)
          (swap_ends (w (f i)) (all_of i f) (w p))
    | inr other ↦
        let less : i < n = ground arith in
        rw other (
          subst (λ xs. Perm xs (w p ++ (all_of n f ++ w (f n))))
            (append_assoc (w (f i)) (all_of n (update f i p)) (w (f n)))
            (subst (Perm ((w (f i) ++ all_of n (update f i p)) ++ w (f n)))
              (append_assoc (w p) (all_of n f) (w (f n)))
              (Perm.append_right (w (f n)) (all_of-update n f i p less))))
  ]

  pub all_of-update_same :
      (n : ℕ) (f : ℕ → A) (i : ℕ) (p : A) → w p ≡ w (f i) → all_of n (update f i p) ≡ all_of n f
  unfolding all_of
  all_of-update_same zero f i p e = refl
  all_of-update_same (suc n) f i p e =
      ap₂ (λ xs ys. xs ++ ys) (all_of-update_same n f i p e) (last (Bool-cases (n == i)))
    where
      last : (((n == i) ≡ true) ⊎ ((n == i) ≡ false)) → w (update f i p n) ≡ w (f n)
      last (inl here) = rw here (e ∙ ap (λ k. w (f k)) (sym ((==_iff n i).0 here)))
      last (inr other) = rw other

  pub all_of-none : (n : ℕ) (f : ℕ → A) → ((j : ℕ) → j < n → w (f j) ≡ []) → all_of n f ≡ []
  unfolding all_of
  all_of-none zero f h = refl
  all_of-none (suc n) f h =
      ap₂ (λ xs ys. xs ++ ys) (all_of-none n f (λ j lt. h j (omega arith))) (h n (omega arith))

  -- Where all the others are empty.
  pub all_of-sole :
      (n : ℕ) (f : ℕ → A) (i : ℕ) → i < n → ((j : ℕ) → j ≢ i → w (f j) ≡ []) → all_of n f ≡ w (f i)
  unfolding all_of
  all_of-sole zero f i h others = absurd (omega arith)
  all_of-sole (suc n) f i h others = elim (Bool-cases (n == i)) [
    | inl here ↦
        let e : n ≡ i = (==_iff n i).0 here in
        ap₂ (λ xs ys. xs ++ ys)
          (all_of-none n f (λ j lt. others j (λ same. absurd (omega (arith, same, e)))))
          (ap (λ k. w (f k)) e)
    | inr other ↦
        let less : i < n = ground arith in
        ap₂ (λ xs ys. xs ++ ys) (all_of-sole n f i less others) (others n (other_than n i other))
        ∙ append-nil (w (f i))
  ]

module _ {ℓ} {A : Type ℓ} (w : A → ℕ) where
  unfoldable pub total : ℕ → (ℕ → A) → ℕ
  total zero f = 0
  total (suc n) f = total n f + w (f n)

  total-update_other :
      (n : ℕ) (f : ℕ → A) (i : ℕ) (p : A) → n ≤ i → total n (update f i p) ≡ total n f
  unfolding total
  total-update_other zero f i p h = refl
  total-update_other (suc n) f i p h = ground (arith, total-update_other n f i p)

  pub total-update :
      (n : ℕ) (f : ℕ → A) (i : ℕ) (p : A)
      → i < n
      → total n (update f i p) + w (f i) ≡ total n f + w p
  unfolding total
  total-update zero f i p h = absurd (omega arith)
  total-update (suc n) f i p h = elim (dec_lt i n) [
    | yes below ↦ ground (arith, total-update n f i p below)
    | no last ↦ ground (arith, total-update_other n f i p)
  ]

  pub total-member : (n : ℕ) (f : ℕ → A) (i : ℕ) → i < n → w (f i) ≤ total n f
  unfolding total
  total-member zero f i h = absurd (omega arith)
  total-member (suc n) f i h = elim (dec_lt i n) [
    | yes below ↦ omega (arith, total-member n f i below)
    | no last ↦ let e : i ≡ n = omega arith in omega (arith, ap (λ k. w (f k)) e)
  ]

  pub total-some : (n : ℕ) (f : ℕ → A) → 0 < total n f → (i : ℕ) × (0 < w (f i))
  unfolding total
  total-some zero f h = absurd (omega arith)
  total-some (suc n) f h = elim (dec_lt 0 (w (f n))) [
    | yes some_here ↦ (n, some_here)
    | no none_here ↦ total-some n f (omega arith)
  ]

  pub total-bound : (n : ℕ) (f : ℕ → A) (b : ℕ) → ((p : A) → w p ≤ b) → total n f ≤ b * n
  unfolding total
  total-bound zero f b h = omega arith
  total-bound (suc n) f b h = omega (arith, total-bound n f b h, h (f n))
