-- ===== src/AutoBuffer/Write.antt =====
-- `AutoBuffer::Write`: what the buffer holds afterwards, and what a refused allocation does.
use mtappender_file.Prelude.{
  ℕ, ◌+◌, ◌^◌, ◌≤◌, ◌<◌, ◌≡◌, refl, ◌∙◌, sym, ap, arith, none, some, true, false, ◌++◌, append-nil,
  length, take, drop, take_of_length_le, drop_of_length_le, min, lt→ltb, add64_lem, Bytes, target,
  overwrite_ptr, target-overwrite_ptr, overwrite_contents, memcpy, memcpy_lem, length-overwrite_ptr,
  max,
}
use mathlib.Core.Path.{ap₂, subst}
use mtappender_file.AutoBuffer.{Allocator, AutoBuffer, round_up, grown, fit_size, write_at, write}
use mtappender_file.AutoBuffer.Valid.{
  IsValid, contents, length-contents, seek_cur_lem, Fitted, fit_size_lem, contents-Fitted,
}

-- `d` is `b` with `src` over the contents from `npos` on.
pub record Wrote (b : AutoBuffer) (src : Bytes) (npos : ℕ) (d : AutoBuffer) : Type 0 where
  pub valid : IsValid d
  pub same_pos : d.pos ≡ b.pos
  pub same_unit : d.unit ≡ b.unit
  pub new_len : d.len ≡ max (npos + length src) b.len
  pub text : contents d ≡ take npos (contents b) ++ (src ++ drop (npos + length src) (contents b))

abbrev after : AutoBuffer → Bytes → ℕ → AutoBuffer
after c src npos = record c {
  parray = overwrite_ptr c.parray npos src;
  len = max (npos + length src) c.len;
}

after-Wrote :
    (b c : AutoBuffer) (src : Bytes) (npos : ℕ)
    → IsValid b
    → npos ≤ b.len
    → Fitted b (npos + length src) c
    → Wrote b src npos (after c src npos)
after-Wrote b c src npos v h f = record {
  valid = record {
    cursor = omega (arith, f.valid);
    fits = omega (arith, f.valid, f.enough);
    backed = omega (arith, f.valid, length-overwrite_ptr c.parray npos src);
    small = f.valid.small;
    unit_pos = f.valid.unit_pos;
  };
  same_pos = f.same_pos;
  same_unit = f.same_unit;
  new_len = omega (arith, f.same_len);
  text =
      ap (take (max (npos + length src) c.len)) (target-overwrite_ptr c.parray npos src)
      ∙ overwrite_contents (target c.parray) npos src c.len _ (npos + length src)
          (omega (arith, f.same_len)) (omega (arith, f.enough, f.valid)) refl refl
      ∙ ap (λ m. take npos m ++ (src ++ drop (npos + length src) m)) (contents-Fitted v f);
}

-- A positioned write within the contents of a valid buffer puts its bytes there and keeps the
-- others, growing the buffer where it has to, if the allocator grants the growth and the sizes stay
-- below 2 ^ 63.
write_at_whole :
    (a : Allocator) (b : AutoBuffer) (src : Bytes) (npos : ℕ)
    → IsValid b
    → npos ≤ b.len
    → npos + length src + b.unit < 2 ^ 63
    → a.grants (round_up b.unit (npos + length src)) ≡ true
    → (d : AutoBuffer) × (write_at a b src npos ≡ some d) × Wrote b src npos d
unfolding write_at
write_at_whole a b src npos v h small g =
    let (c, e, f) = fit_size_lem a b (npos + length src) v small g in
    (
      after c src npos,
      rw (
        add64_lem npos (length src) (omega arith),
        e,
        memcpy_lem c.parray npos src (omega (arith, f.enough, f.valid)),
      ),
      after-Wrote b c src npos v h f,
    )

-- Writing at the end of a valid buffer appends, and leaves the cursor at the new end, if the
-- allocator grants the growth and the sizes stay below 2 ^ 63.
pub write_whole :
    (a : Allocator) (b : AutoBuffer) (src : Bytes)
    → IsValid b
    → b.pos ≡ b.len
    → b.len + length src + b.unit < 2 ^ 63
    → a.grants (round_up b.unit (b.len + length src)) ≡ true
    → (d : AutoBuffer) × (write a b src ≡ some d)
      × IsValid d
      × (d.pos ≡ d.len)
      × (d.unit ≡ b.unit)
      × (contents d ≡ contents b ++ src)
unfolding write
write_whole a b src v at small g =
    let (d, e, w) =
      write_at_whole a b src b.pos v v.cursor (omega arith)
        (subst (λ n. a.grants (round_up b.unit (n + length src)) ≡ true) (sym at) g) in
    (
      record d { pos = min (d.pos + length src) d.len },
      rw (e, seek_cur_lem d (length src) (omega (arith, w.same_pos))),
      record {
        cursor = omega arith;
        fits = w.valid.fits;
        backed = w.valid.backed;
        small = w.valid.small;
        unit_pos = w.valid.unit_pos;
      },
      omega (arith, w.same_pos, w.new_len),
      w.same_unit,
      w.text
          ∙ ap₂ (λ xs ys. xs ++ (src ++ ys))
              (take_of_length_le b.pos (contents b) (omega (arith, held)))
              (drop_of_length_le (b.pos + length src) (contents b) (omega (arith, held)))
          ∙ ap (λ ys. contents b ++ ys) (append-nil src),
    )
  where
    held : length (contents b) ≡ b.len
    held = length-contents b v

-- `Write` does not look at the result of `__FitSize`: when the allocator refuses, a write of at
-- least one byte that needs more room than there is, to an end below 2 ^ 64, goes through NULL.
pub write_at-refused :
    (a : Allocator) (b : AutoBuffer) (src : Bytes) (npos : ℕ)
    → 0 < length src
    → npos + length src < 2 ^ 64
    → b.capacity < npos + length src
    → a.grants (round_up b.unit (npos + length src)) ≡ false
    → write_at a b src npos ≡ none
unfolding write_at fit_size grown memcpy
write_at-refused a b src npos some_byte small more g =
    rw (add64_lem npos (length src) small, lt→ltb _ _ more, g) (ground arith)
