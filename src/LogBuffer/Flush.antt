-- ===== src/LogBuffer/Flush.antt =====
-- `Flush`: the pending text goes to the end of the other buffer, and the log buffer is empty after.
use mtappender_file.Prelude.{
  ℕ, zero, suc, ◌+◌, ◌^◌, ◌≤◌, ◌<◌, ◌≡◌, ◌≢◌, refl, ◌∙◌, sym, ap, arith, true, false, some, List,
  [], ◌∷◌, ◌++◌, length, take, ◌==◌, Bool-cases, ◌⊎◌, inl, inr, u32, Bytes, target, load, strnlen,
  le→leb, ==_iff, length-take, length-overwrite_ptr, overwrite, target-overwrite_ptr,
  take_of_length_le,
}
use mathlib.Core.List.{flatten}
use mathlib.Core.Path.{ap₂, subst}
use mathlib.Core.Bool.{false≢true}
use mtappender_file.AutoBuffer.{AutoBuffer, Allocator, round_up}
use mtappender_file.AutoBuffer.Valid
use mtappender_file.AutoBuffer.Write.{write_whole as output_write}
use mtappender_file.LogBuffer.{LogBuffer, create, flush}
use mtappender_file.LogBuffer.Append.{
  IsReady, text, cleared, clear_lem, cleared-IsReady, AllShort, write_all, write_all_lem,
}

-- A text that a C string can hold: it is not empty and begins with no zero byte.
abbrev pub StartsText : Bytes → Type 0
StartsText [] = ⊥
StartsText (x ∷ m) = x ≢ 0

pub starts_behind :
    (xs ys : Bytes) → (xs ≡ []) ⊎ StartsText xs → StartsText ys → StartsText (xs ++ ys)
starts_behind [] ys h s = s
starts_behind (x ∷ xs) ys (inl e) s = absurd (omega (arith, ap length e))
starts_behind (x ∷ xs) ys (inr h) s = h

-- What a flush needs of the log buffer: its memory holds the contents, and at least a byte.
pub record IsBacked (l : LogBuffer) : Type 0 where
  pub held : l.buff.len ≤ length (target l.buff.parray)
  pub some_byte : 0 < length (target l.buff.parray)
  pub small_len : l.buff.len < 2 ^ 32
  pub small_max : l.buff.max_len < 2 ^ 32

-- What it needs of the other buffer and of the allocator, for `n` bytes.
pub record Accepts (a : Allocator) (out : AutoBuffer) (n : ℕ) : Type 0 where
  pub valid : Valid.IsValid out
  pub at_end : out.pos ≡ out.len
  pub small : out.len + n + out.unit < 2 ^ 63
  pub granted : a.grants (round_up out.unit (out.len + n)) ≡ true

-- The memory of a log buffer that has been cleared begins with a zero byte.
pub cleared_blank : (l : LogBuffer) → ¬ StartsText (target (cleared l).buff.parray)
cleared_blank l s =
    zero_first (target l.buff.parray)
      (subst StartsText (target-overwrite_ptr l.buff.parray 0 (0 ∷ [])) s)
  where
    zero_first : (m : Bytes) → ¬ StartsText (overwrite m 0 (0 ∷ []))
    zero_first [] s = s
    zero_first (x ∷ m) s = s refl

strnlen-le : (m : Bytes) (n : ℕ) → strnlen m n ≤ n
unfolding strnlen
strnlen-le m zero = omega arith
strnlen-le [] (suc n) = omega arith
strnlen-le (x ∷ m) (suc n) = ground (arith, strnlen-le m n)

strnlen_test :
    (m : Bytes) (n : ℕ) → n < 2 ^ 32 → StartsText (take n m) → (u32 (strnlen m n) == 0) ≡ false
unfolding strnlen
strnlen_test m zero h s = absurd s
strnlen_test [] (suc n) h s = absurd s
strnlen_test (x ∷ m) (suc n) h s = ground (arith, strnlen-le m n)

strnlen_none : (m : Bytes) (n : ℕ) → ¬ StartsText (take n m) → (u32 (strnlen m n) == 0) ≡ true
unfolding strnlen
strnlen_none m zero s = refl
strnlen_none [] (suc n) s = refl
strnlen_none (x ∷ m) (suc n) s = elim (Bool-cases (x == 0)) [
  | inl zero_byte ↦ rw zero_byte
  | inr other ↦ absurd (s (λ e. false≢true (sym other ∙ (==_iff x 0).1 e)))
]

StartsText-take : (m : Bytes) (n : ℕ) → 0 < n → StartsText m → StartsText (take n m)
StartsText-take [] n h s = absurd s
StartsText-take (x ∷ m) zero h s = absurd (omega arith)
StartsText-take (x ∷ m) (suc n) h s = s

-- A pending text that begins with no zero byte is moved, whole, behind what the other buffer holds.
pub flush_text :
    (a : Allocator) (l : LogBuffer) (out : AutoBuffer)
    → IsBacked l
    → StartsText (text l)
    → Accepts a out (length (text l))
    → (d : AutoBuffer) × (flush a l out ≡ some (cleared l, d))
      × Valid.IsValid d
      × (d.pos ≡ d.len)
      × (d.unit ≡ out.unit)
      × (Valid.contents d ≡ Valid.contents out ++ text l)
unfolding flush load
flush_text a l out b s acc =
    let (d, e, v, at, u, t) =
      output_write a out (text l) acc.valid acc.at_end acc.small acc.granted in
    (
      d,
      rw (
        strnlen_test (target l.buff.parray) l.buff.len b.small_len s,
        le→leb (0 + l.buff.len) (length (target l.buff.parray)) (omega (arith, b.held)),
        e,
        clear_lem l b.some_byte b.small_max,
      ),
      v,
      at,
      u,
      t,
    )

-- An empty log buffer, or one whose first byte is zero, gives nothing: it is only cleared.
pub flush_nothing :
    (a : Allocator) (l : LogBuffer) (out : AutoBuffer)
    → IsBacked l
    → ¬ StartsText (text l)
    → flush a l out ≡ some (cleared l, out)
unfolding flush
flush_nothing a l out b s =
    rw (strnlen_none (target l.buff.parray) l.buff.len s, clear_lem l b.some_byte b.small_max)

pub IsReady-IsBacked : (l : LogBuffer) → IsReady l → IsBacked l
IsReady-IsBacked l r = omega (arith, r.valid, r.block, r.bounded)

pub cleared-create-IsReady :
    (m : Bytes) (n : ℕ) → 4 ≤ n → n < 2 ^ 31 → n ≤ length m → IsReady (cleared (create (some m) n))
cleared-create-IsReady m n four small held = record {
  valid = omega (arith, length-overwrite_ptr (some m) 0 (0 ∷ []));
  at_end = refl;
  block = four;
  bounded = small;
}

-- The flush that follows the construction over a block of `n` bytes, from 4 to less than 2 ^ 31,
-- that begins with no zero byte leaves the log buffer ready and empty, and hands on the whole block,
-- also what stands in it behind the end mark. The other buffer must accept `n` bytes.
flush-create :
    (a : Allocator) (m : Bytes) (n : ℕ) (out : AutoBuffer)
    → 4 ≤ n
    → n < 2 ^ 31
    → n ≤ length m
    → StartsText m
    → Accepts a out n
    → (l : LogBuffer) × (d : AutoBuffer) × (flush a (create (some m) n) out ≡ some (l, d))
      × IsReady l
      × (text l ≡ [])
      × (Valid.contents d ≡ Valid.contents out ++ take n m)
flush-create a m n out four small held s acc =
    let (d, e, v, at, u, t) =
      flush_text a (create (some m) n) out (omega arith) (StartsText-take m n (omega arith) s)
        (subst (Accepts a out) (sym whole) acc) in
    (cleared (create (some m) n), d, e, cleared-create-IsReady m n four small held, refl, t)
  where
    whole : length (take n m) ≡ n
    whole = omega (arith, length-take n m)

-- Texts of less than 2 ^ 31 bytes that are written to a ready and empty log buffer, fit into its
-- block and together begin with no zero byte arrive, when they are then flushed, in the other
-- buffer in order, behind what it held; the log buffer is ready and empty again. The allocator
-- must grant the growth.
pub flush-write_all :
    (a : Allocator) (l : LogBuffer) (srcs : List Bytes) (out : AutoBuffer)
    → IsReady l
    → text l ≡ []
    → AllShort srcs
    → length (flatten srcs) ≤ l.buff.max_len
    → StartsText (flatten srcs)
    → Accepts a out (length (flatten srcs))
    → (m : LogBuffer) × (k : LogBuffer) × (d : AutoBuffer) × (write_all l srcs ≡ some m)
      × (flush a m out ≡ some (k, d))
      × IsReady k
      × (text k ≡ [])
      × (Valid.contents d ≡ Valid.contents out ++ flatten srcs)
flush-write_all a l srcs out r none short fits s acc =
    let (m, e, r', k, t) = write_all_lem l srcs r short in
    let all : text m ≡ flatten srcs =
      t
      ∙ ap₂ (λ j xs. take j (xs ++ flatten srcs)) refl none
      ∙ take_of_length_le l.buff.max_len (flatten srcs) fits in
    let (d, e', v, at, u, t') =
      flush_text a m out (IsReady-IsBacked m r') (subst StartsText (sym all) s)
        (subst (λ xs. Accepts a out (length xs)) (sym all) acc) in
    (
      m,
      cleared m,
      d,
      e,
      e',
      cleared-IsReady m r',
      refl,
      t' ∙ ap (λ xs. Valid.contents out ++ xs) all,
    )
