-- ===== src/PtrBuffer/Append.antt =====
-- `Write` at the end of the contents, which is how the log uses the buffer.
use mtappender_file.Prelude.{
  ◌⊎◌, inl, inr, Bool-cases, ltb→lt, ℕ, zero, suc, ◌+◌, ◌-◌, ◌^◌, ◌≤◌, ◌<◌, ◌≡◌, refl, ◌∙◌, sym, ap,
  arith, some, [], ◌∷◌, ◌++◌, length, take, drop, ltb, lt→ltb, Bytes, target, min,
  take_of_length_le,
}
use mtappender_file.PtrBuffer.{PtrBuffer, write, seek, seek_cur}
use mtappender_file.PtrBuffer.Valid.{IsValid, contents, seek_cur_lem}
use mtappender_file.PtrBuffer.Write.{
  room, written_len, written, write_at_lem, contents-written, length-written, terminator-written,
}

-- `c` is `b` with as much of `src` behind its contents as the capacity allows.
pub record Appended (b : PtrBuffer) (src : Bytes) (c : PtrBuffer) : Type 0 where
  pub valid : IsValid c
  pub at_end : c.pos ≡ c.len
  pub same_max : c.max_len ≡ b.max_len
  pub memory : length (target c.parray) ≡ length (target b.parray)
  pub new_len : c.len ≡ min (b.len + length src) b.max_len
  pub text : contents c ≡ contents b ++ take (b.max_len - b.len) src
  pub marked :
      (c.max_len ≤ c.len + 4) ⊎ (take 4 (drop c.len (target c.parray)) ≡ 0 ∷ 0 ∷ 0 ∷ 13 ∷ [])

pub mark_of :
    (b c : PtrBuffer) (src : Bytes)
    → Appended b src c
    → c.len + 4 < c.max_len
    → take 4 (drop c.len (target c.parray)) ≡ 0 ∷ 0 ∷ 0 ∷ 13 ∷ []
mark_of b c src a h = elim a.marked [ inl few ↦ absurd (omega arith) | inr mark ↦ mark ]

abbrev appended : PtrBuffer → Bytes → PtrBuffer
appended b src = record (written b src b.len) { pos = min (b.len + length src) b.max_len }

min-zero : (n : ℕ) → min n 0 ≡ 0
min-zero n = omega arith

pub take-room : (src : Bytes) (k : ℕ) → take (min (length src) k) src ≡ take k src
take-room [] k =
    take_of_length_le (min 0 k) [] (omega arith) ∙ sym (take_of_length_le k [] (omega arith))
take-room (x ∷ src) zero = rw (min-zero (suc (length src)))
take-room (x ∷ src) (suc k) = rw (min-suc (length src) k) (ap (λ r. x ∷ r) (take-room src k))
  where
    min-suc : (n m : ℕ) → min (suc n) (suc m) ≡ suc (min n m)
    min-suc n m = omega arith

module _ (b : PtrBuffer) (src : Bytes) (v : IsValid b) (at : b.pos ≡ b.len) where
  stop_lem : b.len + room b (length src) b.len ≡ written_len b src b.len
  stop_lem = omega (arith, v.fits)

  text_at :
      (n : ℕ)
      → n ≡ b.len + room b (length src) b.len
      → take n (target (written b src b.len).parray) ≡ contents b ++ take (b.max_len - b.len) src
  text_at n e = rw e (
      contents-written b src b.len v v.fits
      ∙ ap (λ r. contents b ++ r) (take-room src (b.max_len - b.len)))

  marked_at :
      (n : ℕ)
      → n ≡ b.len + room b (length src) b.len
      → n + 4 < b.max_len
      → take 4 (drop n (target (written b src b.len).parray)) ≡ 0 ∷ 0 ∷ 0 ∷ 13 ∷ []
  marked_at n e h = rw e (terminator-written b src b.len v (lt→ltb _ _ (omega arith)))

  appended-Appended : Appended b src (appended b src)
  appended-Appended = record {
    valid = record {
      cursor = omega (arith, v.fits);
      fits = omega (arith, v.fits);
      backed = omega (arith, v.backed, length-written b src b.len);
      small = v.small;
    };
    at_end = omega (arith, v.fits);
    same_max = refl;
    memory = length-written b src b.len;
    new_len = omega (arith, v.fits);
    text = text_at _ (sym stop_lem);
    marked = elim (Bool-cases (ltb (written_len b src b.len + 4) b.max_len)) [
      | inl more ↦ inr (marked_at _ (sym stop_lem) (ltb→lt _ _ more))
      | inr few ↦ inl (ground (arith, few))
    ];
  }

-- The buffer as `Write` leaves it, for a cursor `n`.
abbrev moved : PtrBuffer → Bytes → ℕ → PtrBuffer
moved b src n = record (written b src n) { pos = min (n + length src) (written_len b src n) }

-- Appending to a valid buffer of at least four bytes, with the cursor at the end and a length
-- below 2 ^ 32, does not fault; it adds what fits, leaves the cursor at the end, and puts the end
-- mark behind the contents where more than four bytes are left.
pub write_lem :
    (b : PtrBuffer) (src : Bytes)
    → IsValid b
    → b.pos ≡ b.len
    → 4 ≤ b.max_len
    → b.len + length src < 2 ^ 32
    → (c : PtrBuffer) × (write b src ≡ some c) × Appended b src c
unfolding write
write_lem b src v at four h = (
  appended b src,
  rw (write_at_lem b src b.pos v four v.cursor) (ap some (steps ∙ ap (moved b src) at ∙ same)),
  appended-Appended b src v at,
)
  where
    valid : IsValid (written b src b.pos)
    valid = record {
      cursor = omega (arith, v.cursor);
      fits = omega (arith, v.fits, v.cursor);
      backed = omega (arith, v.backed, length-written b src b.pos);
      small = v.small;
    }

    steps : seek (written b src b.pos) (length src) seek_cur ≡ moved b src b.pos
    steps = seek_cur_lem (written b src b.pos) (length src) valid (omega arith) (omega arith)

    same : moved b src b.len ≡ appended b src
    same = ap (λ n. record (written b src b.len) { pos = n }) (omega (arith, v.fits))
