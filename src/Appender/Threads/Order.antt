-- ===== src/Appender/Threads/Order.antt =====
-- loglib/mtaf_appender.cpp: the order in which texts are taken out of the log buffer, and in which they
-- reach the log file.
use mtappender_file.Prelude.{
  ℕ, ◌<◌, ◌≡◌, ◌≢◌, ◌⊎◌, refl, ◌∙◌, sym, ap, inl, inr, List, [], ◌∷◌, ◌++◌, append_assoc,
  append-nil, Bytes, update, all_of, all_of-update, all_of-sole, all_of-none, update_here,
  update_other,
}
use mathlib.Core.Path.{subst}
use mathlib.Core.List.{Perm, perm_append_comm}
use mathlib.Core.List.Perm
use mtappender_file.Appender.Threads.{Place}
use mtappender_file.Appender.Threads.Fits.{chunk}

-- A relation between the texts that have been taken and those that are stored or on their way which
-- a thread keeps that takes one, or that stores one.
pub record IsKept (n : ℕ) (Flushes : ℕ → Type 0) (R : List Bytes → List Bytes → Type 0)
    : Type 0 where
  pub nothing : R [] (all_of chunk n (λ _. Place.outside))
  pub takes :
      (f : ℕ → Place) (i : ℕ) (p : Place) (c : Bytes) (xs ys : List Bytes)
      → i < n
      → Flushes i
      → ((j : ℕ) → (chunk (f j) ≡ []) ⊎ Flushes j)
      → chunk (f i) ≡ []
      → chunk p ≡ c ∷ []
      → R xs (ys ++ all_of chunk n f)
      → R (xs ++ (c ∷ [])) (ys ++ all_of chunk n (update f i p))
  pub stores :
      (f : ℕ → Place) (i : ℕ) (p : Place) (c : Bytes) (xs ys : List Bytes)
      → i < n
      → Flushes i
      → ((j : ℕ) → (chunk (f j) ≡ []) ⊎ Flushes j)
      → chunk (f i) ≡ c ∷ []
      → chunk p ≡ []
      → R xs (ys ++ all_of chunk n f)
      → R xs ((ys ++ (c ∷ [])) ++ all_of chunk n (update f i p))

all_outside : (n : ℕ) → all_of chunk n (λ _. Place.outside) ≡ []
all_outside n = all_of-none chunk n (λ _. Place.outside) (λ j lt. refl)

-- Whichever threads flush, the texts are the same up to their order.
pub Perm-IsKept : (n : ℕ) (Flushes : ℕ → Type 0) → IsKept n Flushes Perm
Perm-IsKept n Flushes = record {
  nothing = subst (Perm []) (sym (all_outside n)) (Perm.refl []);
  takes = λ f i p c xs ys lt fl others e e' h.
      let step : Perm (all_of chunk n (update f i p)) (c ∷ all_of chunk n f) =
        subst (λ zs. Perm (zs ++ all_of chunk n (update f i p)) (c ∷ all_of chunk n f)) e
          (subst
            (λ zs. Perm (chunk (f i) ++ all_of chunk n (update f i p)) (zs ++ all_of chunk n f)) e'
            (all_of-update chunk n f i p lt)) in
      Perm.trans (Perm.append_right (c ∷ []) h) (
        subst (λ zs. Perm zs (ys ++ all_of chunk n (update f i p)))
          (sym (append_assoc ys (all_of chunk n f) (c ∷ [])))
          (Perm.append_left ys
            (Perm.trans (perm_append_comm (all_of chunk n f) (c ∷ [])) (Perm.symm step))));
  stores = λ f i p c xs ys lt fl others e e' h.
      let step : Perm (c ∷ all_of chunk n (update f i p)) (all_of chunk n f) =
        subst (λ zs. Perm (zs ++ all_of chunk n (update f i p)) (all_of chunk n f)) e
          (subst
            (λ zs. Perm (chunk (f i) ++ all_of chunk n (update f i p)) (zs ++ all_of chunk n f)) e'
            (all_of-update chunk n f i p lt)) in
      Perm.trans h (
        subst (Perm (ys ++ all_of chunk n f))
          (sym (append_assoc ys (c ∷ []) (all_of chunk n (update f i p))))
          (Perm.append_left ys (Perm.symm step)));
}

module _ (n d : ℕ) (f : ℕ → Place) (i : ℕ) (p : Place) (lt : i < n) (fl : i ≡ d)
    (others : (j : ℕ) → (chunk (f j) ≡ []) ⊎ (j ≡ d)) where
  empty_other : (j : ℕ) → j ≢ i → chunk (f j) ≡ []
  empty_other j other = elim (others j) [ inl e ↦ e | inr same ↦ absurd (other (same ∙ sym fl)) ]

  before : all_of chunk n f ≡ chunk (f i)
  before = all_of-sole chunk n f i lt empty_other

  after : all_of chunk n (update f i p) ≡ chunk p
  after =
      all_of-sole chunk n (update f i p) i lt
        (λ j other. ap chunk (update_other f i p j other) ∙ empty_other j other)
      ∙ ap chunk (update_here f i p)

-- With one thread that flushes, they are the same in the same order.
pub sole-IsKept : (n d : ℕ) → IsKept n (λ i. i ≡ d) ◌≡◌
sole-IsKept n d = record {
  nothing = sym (all_outside n);
  takes = λ f i p c xs ys lt fl others e e' h.
      ap (λ zs. zs ++ (c ∷ []))
        (h ∙ ap (λ zs. ys ++ zs) (before n d f i p lt fl others ∙ e) ∙ append-nil ys)
      ∙ ap (λ zs. ys ++ zs) (sym (after n d f i p lt fl others ∙ e'));
  stores = λ f i p c xs ys lt fl others e e' h.
      h
      ∙ ap (λ zs. ys ++ zs) (before n d f i p lt fl others ∙ e)
      ∙ sym (append-nil (ys ++ (c ∷ [])))
      ∙ ap (λ zs. (ys ++ (c ∷ [])) ++ zs) (sym (after n d f i p lt fl others ∙ e'));
}
