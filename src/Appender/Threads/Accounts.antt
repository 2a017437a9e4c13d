-- ===== src/Appender/Threads/Accounts.antt =====
-- Where the texts of interleaved calls (loglib/mtaf_appender.cpp) are: in the log buffer, in the hands
-- of a thread, or stored.
use mtappender_file.Prelude.{
  ℕ, ◌+◌, ◌*◌, ◌/◌, ◌≤◌, ◌<◌, ◌≡◌, ◌⊎◌, refl, ◌∙◌, sym, ap, arith, inl, inr, List, [], ◌∷◌, ◌++◌,
  append_assoc, append-nil, length, length-append, Bytes, update, all_of, all_of-update_same,
}
use mathlib.Core.Path.{subst, ap₂}
use mathlib.Core.List.{flatten}
use mtappender_file.Formatter.{Zone}
use mtappender_file.Appender.State.{Entry, appended_file}
use mtappender_file.Appender.FileLaws.{appended_file-append}
use mtappender_file.Appender.Session.{lines}
use mtappender_file.Appender.AppendLaws.{line_of}
use mtappender_file.Appender.Threads.{Shared, Place, System, appended}
use mtappender_file.Appender.Threads.Fits.{chunk}
use mtappender_file.Appender.Threads.Flow.{pending, Flow, quiet, takes, stores}
use mtappender_file.Appender.Threads.Order.{IsKept}

pub lines-append :
    (zone : Zone) (ts us : List Entry) → lines zone (ts ++ us) ≡ lines zone ts ++ lines zone us
lines-append zone [] us = refl
lines-append zone (t ∷ ts) us =
    ap (λ xs. line_of zone t.info t.body ++ xs) (lines-append zone ts us)
    ∙ sym (append_assoc (line_of zone t.info t.body) (lines zone ts) (lines zone us))

flatten-snoc : (xs : List Bytes) (c : Bytes) → flatten (xs ++ (c ∷ [])) ≡ flatten xs ++ c
unfolding flatten
flatten-snoc [] c = append-nil c
flatten-snoc (x ∷ xs) c =
    ap (λ ys. x ++ ys) (flatten-snoc xs c) ∙ sym (append_assoc x (flatten xs) c)

-- There is room in the block for all the texts of the calls.
pub record AllFit (zone : Zone) (size max : ℕ) (sh₀ : Shared) (ts : List Entry) : Type 0 where
  pub below : length (pending sh₀ ++ lines zone ts) < size * 4 / 5
  pub in_block : length (pending sh₀ ++ lines zone ts) ≤ max

pub before_fit :
    (zone : Zone) (size max : ℕ) (sh₀ : Shared) (ts us : List Entry)
    → AllFit zone size max sh₀ (ts ++ us)
    → AllFit zone size max sh₀ ts
before_fit zone size max sh₀ ts us fit =
    let more : length (pending sh₀ ++ lines zone (ts ++ us))
        ≡ length (pending sh₀ ++ lines zone ts) + length (lines zone us) =
      ap (λ xs. length (pending sh₀ ++ xs)) (lines-append zone ts us)
      ∙ ap length (sym (append_assoc (pending sh₀) (lines zone ts) (lines zone us)))
      ∙ length-append (pending sh₀ ++ lines zone ts) (lines zone us) in
    record { below = omega (arith, more, fit.below); in_block = omega (arith, more, fit.in_block) }

-- The texts of the calls are pending, taken by a thread, or stored.
pub record Accounts (zone : Zone) (path : Bytes) (n : ℕ) (R : List Bytes → List Bytes → Type 0)
    (sh₀ : Shared) (s : System) (ts : List Entry) : Type 0 where
  pub taken : List Bytes
  pub stored : List Bytes
  pub accounted : flatten taken ++ pending s.shared ≡ pending sh₀ ++ lines zone ts
  pub files : s.shared.world.files ≡ appended_file sh₀.world.files path (flatten stored)
  pub order : R taken (stored ++ all_of chunk n s.place)

module _ (zone : Zone) (path : Bytes) (size max : ℕ) (Flushes : ℕ → Type 0) (n : ℕ)
    (R : List Bytes → List Bytes → Type 0) (kept : IsKept n Flushes R) (sh₀ : Shared) (s : System)
    (ts : List Entry) (h : Accounts zone path n R sh₀ s ts)
    (flushers : (j : ℕ) → (chunk (s.place j) ≡ []) ⊎ Flushes j) where
  pub all_here :
      (us : List Entry)
      → flatten h.taken ++ (pending s.shared ++ lines zone us)
        ≡ pending sh₀ ++ lines zone (ts ++ us)
  all_here us =
      sym (append_assoc (flatten h.taken) (pending s.shared) (lines zone us))
      ∙ ap (λ xs. xs ++ lines zone us) h.accounted
      ∙ append_assoc (pending sh₀) (lines zone ts) (lines zone us)
      ∙ ap (λ xs. pending sh₀ ++ xs) (sym (lines-append zone ts us))

  flusher :
      (i : ℕ) (q : Place) (c : Bytes) → (chunk q ≡ []) ⊎ Flushes i → chunk q ≡ c ∷ [] → Flushes i
  flusher i q c (inl e) one = absurd (cc (sym e ∙ one))
  flusher i q c (inr fl) one = fl

  unchanged :
      {us : List Entry}
      → us ≡ []
      → flatten h.taken ++ pending s.shared ≡ pending sh₀ ++ lines zone (ts ++ us)
  unchanged e =
      h.accounted
      ∙ ap (λ us. pending sh₀ ++ lines zone us) (sym (append-nil ts) ∙ ap (λ us. ts ++ us) (sym e))

  pub Flow-Accounts :
      (i : ℕ) (sh : Shared) (p : Place)
      → i < n
      → Flow zone path size max Flushes s.shared sh (s.place i) p
      → (chunk p ≡ []) ⊎ Flushes i
      → Accounts zone path n R sh₀
          (record { shared = sh; place = update s.place i p })
          (ts ++ appended (s.place i))
  Flow-Accounts i sh p lt (quiet files same text) fl = record {
    taken = h.taken;
    stored = h.stored;
    accounted = ap (λ xs. flatten h.taken ++ xs) text ∙ all_here (appended (s.place i));
    files = files ∙ h.files;
    order =
        subst (λ zs. R h.taken (h.stored ++ zs)) (sym (all_of-update_same chunk n s.place i p same))
          h.order;
  }
  Flow-Accounts i sh p lt (takes c files no_chunk one nothing is_c empty) fl = record {
    taken = h.taken ++ (c ∷ []);
    stored = h.stored;
    accounted =
        ap₂ (λ xs ys. xs ++ ys) (flatten-snoc h.taken c) empty
        ∙ append-nil (flatten h.taken ++ c)
        ∙ ap (λ xs. flatten h.taken ++ xs) (sym is_c)
        ∙ unchanged nothing;
    files = files ∙ h.files;
    order =
        kept.takes s.place i p c h.taken h.stored lt (flusher i p c fl one) flushers no_chunk one
          h.order;
  }
  Flow-Accounts i sh p lt (stores c files one no_chunk nothing same) fl = record {
    taken = h.taken;
    stored = h.stored ++ (c ∷ []);
    accounted = ap (λ xs. flatten h.taken ++ xs) same ∙ unchanged nothing;
    files =
        files
        ∙ ap (λ f. appended_file f path c) h.files
        ∙ appended_file-append sh₀.world.files path (flatten h.stored) c
        ∙ ap (appended_file sh₀.world.files path) (sym (flatten-snoc h.stored c));
    order =
        kept.stores s.place i p c h.taken h.stored lt (flusher i (s.place i) c (flushers i) one)
          flushers one no_chunk h.order;
  }
