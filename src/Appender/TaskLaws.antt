-- ===== src/Appender/TaskLaws.antt =====
-- What the background work and the appends do to the pending text and to the log file.
use mtappender_file.Prelude.{
  ℕ, zero, suc, ◌+◌, ◌^◌, ◌<◌, ◌≡◌, refl, ◌∙◌, sym, ap, arith, true, some, [], ◌∷◌, length, take,
  Option-cases, inl, inr, le→leb, Bytes, target, load,
}
use mathlib.Core.Path.{subst}
use mtappender_file.AutoBuffer
use mtappender_file.AutoBuffer.{AutoBuffer, Allocator, round_up}
use mtappender_file.AutoBuffer.Valid.{empty-IsValid}
use mtappender_file.AutoBuffer.Valid
use mtappender_file.LogBuffer.{LogBuffer}
use mtappender_file.LogBuffer.Append.{text, cleared}
use mtappender_file.LogBuffer.Flush.{StartsText, IsBacked, Accepts, flush_text, flush_nothing}
use mtappender_file.Appender.State.{Appender, World, Os}
use mtappender_file.Appender.LogFile.{log2file}
use mtappender_file.Appender.Tasks.{drain, store_text}

-- The allocator grants a buffer for `n` bytes.
pub record Grants (os : Os) (n : ℕ) : Type 0 where
  pub granted : os.memory.grants (round_up 128 (0 + n)) ≡ true
  pub small : n < 2 ^ 62

pub Grants-Accepts : (os : Os) (n : ℕ) → Grants os n → Accepts os.memory (AutoBuffer.empty 128) n
Grants-Accepts os n g = record {
  valid = empty-IsValid 128 (omega arith);
  at_end = refl;
  small = omega (arith, g.small);
  granted = g.granted;
}

pub some_memory :
    (tmp : AutoBuffer) (x : ℕ) (src : Bytes)
    → Valid.contents tmp ≡ x ∷ src
    → (m : Bytes) × (tmp.parray ≡ some m)
some_memory tmp x src e = elim (Option-cases tmp.parray) [
  | inl null ↦
      absurd (cc (sym e ∙ ap (λ p. take tmp.len (target p)) null ∙ take_of_length_le_nil tmp.len))
  | inr held ↦ held
]
  where
    take_of_length_le_nil : (n : ℕ) → take {A = ℕ} n [] ≡ []
    take_of_length_le_nil zero = refl
    take_of_length_le_nil (suc n) = refl

pub load-contents :
    (tmp : AutoBuffer) → Valid.IsValid tmp → load tmp.parray 0 tmp.len ≡ some (Valid.contents tmp)
unfolding load
load-contents tmp v =
    rw (le→leb (0 + tmp.len) (length (target tmp.parray)) (omega (arith, v.fits, v.backed)))

store_text_lem :
    (os : Os) (a : Appender) (w : World) (tmp : AutoBuffer) (x : ℕ) (src : Bytes)
    → Valid.IsValid tmp
    → Valid.contents tmp ≡ x ∷ src
    → store_text os a w tmp ≡ some (log2file os a w (some (x ∷ src)))
unfolding store_text
store_text_lem os a w tmp x src v e =
    let (m, held) = some_memory tmp x src e in rw (load-contents tmp v ∙ ap some e, held)

-- A pending text is flushed to `__log2file`, whole and once, and the buffer is empty after.
pub drain_lem :
    (os : Os) (a : Appender) (w : World) (l : LogBuffer) (x : ℕ) (src : Bytes)
    → IsBacked l
    → text l ≡ x ∷ src
    → StartsText (x ∷ src)
    → Grants os (length (x ∷ src))
    → drain os a w l
      ≡ some (log2file os (record a { log_buff = some (cleared l) }) w (some (x ∷ src)))
unfolding drain
drain_lem os a w l x src b e s g =
    let (d, e', v, at, u, t) =
      flush_text os.memory l (AutoBuffer.empty 128) b (subst StartsText (sym e) s) (
        subst (λ m. Accepts os.memory (AutoBuffer.empty 128) (length m)) (sym e)
          (Grants-Accepts os (length (x ∷ src)) g)) in
    rw e' (store_text_lem os (record a { log_buff = some (cleared l) }) w d x src v (t ∙ e))

-- A buffer without text is only cleared.
pub drain_nothing :
    (os : Os) (a : Appender) (w : World) (l : LogBuffer)
    → IsBacked l
    → ¬ StartsText (text l)
    → drain os a w l ≡ some (record a { log_buff = some (cleared l) }, w)
unfolding drain store_text load log2file
drain_nothing os a w l b s = rw (flush_nothing os.memory l (AutoBuffer.empty 128) b s)
