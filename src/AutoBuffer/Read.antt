-- ===== src/AutoBuffer/Read.antt =====
-- `AutoBuffer::Read`, and reading back what was written.
use mtappender_file.Prelude.{
  ℕ, ◌+◌, ◌-◌, ◌≤◌, ◌≡◌, refl, ◌∙◌, sym, ap, arith, some, length, take, drop, min, Bytes, target,
  load, le→leb, length-take, length-drop, length-append, take-drop_of_take, sub64_lem, ◌++◌,
}
use mtappender_file.PtrBuffer.{seek_start}
use mtappender_file.AutoBuffer.{AutoBuffer, read_at, read, seek}
use mtappender_file.AutoBuffer.Valid.{
  IsValid, contents, length-contents, seek_cur_lem, seek_start_lem,
}

-- A positioned read returns as many bytes as lie behind the position, and no more than asked for,
-- but takes them from the cursor on.
pub read_at_lem :
    (b : AutoBuffer) (n npos : ℕ)
    → IsValid b
    → b.pos ≤ npos
    → npos ≤ b.len
    → read_at b n npos ≡ some (take (min (b.len - npos) n) (drop b.pos (target b.parray)))
unfolding read_at load
read_at_lem b n npos v h k = rw (
  sub64_lem b.len npos (omega (arith, v.fits, v.small)) k,
  le→leb (b.pos + min (b.len - npos) n) (length (target b.parray))
      (omega (arith, v.fits, v.backed)),
)

length-slice : (m : Bytes) (off n : ℕ) → off + n ≤ length m → length (take n (drop off m)) ≡ n
length-slice m off n h = omega (arith, length-take n (drop off m), length-drop off m)

-- Reading at the cursor returns the bytes there, as many as asked for and held, and moves the
-- cursor behind them.
pub read_lem :
    (b : AutoBuffer) (n : ℕ)
    → IsValid b
    → read b n
      ≡ some (
        take (min (b.len - b.pos) n) (drop b.pos (target b.parray)),
        record b { pos = b.pos + min (b.len - b.pos) n },
      )
unfolding read
read_lem b n v =
    rw
      (
        read_at_lem b n b.pos v (omega arith) v.cursor,
        length-slice (target b.parray) b.pos (min (b.len - b.pos) n)
            (omega (arith, v.fits, v.cursor, v.backed)),
        seek_cur_lem b (min (b.len - b.pos) n) (omega (arith, v.fits, v.cursor, v.small)),
      )
      (ap
        (λ p.
          some (take (min (b.len - b.pos) n) (drop b.pos (target b.parray)), record b { pos = p }))
        fits)
  where
    fits : min (b.pos + min (b.len - b.pos) n) b.len ≡ b.pos + min (b.len - b.pos) n
    fits = omega (arith, v.cursor)

-- A valid buffer whose contents are `xs` and then `ys` returns `ys` when it is read behind `xs`.
read_tail :
    (d : AutoBuffer) (xs ys : Bytes)
    → IsValid d
    → contents d ≡ xs ++ ys
    → read (seek d (length xs) seek_start) (length ys)
      ≡ some (ys, record d { pos = length xs + length ys })
read_tail d xs ys v e = rw (
  seek_start_lem d (length xs) (omega (arith, total, v.fits, v.small)),
  behind,
  read_lem (record d { pos = length xs }) (length ys) back,
  size,
  take-drop_of_take (length xs) (length ys) (target d.parray) xs ys refl
      (ap (λ n. take n (target d.parray)) total ∙ e),
)
  where
    total : length xs + length ys ≡ d.len
    total = sym (length-append xs ys) ∙ ap length (sym e) ∙ length-contents d v

    behind : min (length xs) d.len ≡ length xs
    behind = omega (arith, total)

    back : IsValid (record d { pos = length xs })
    back = record {
      cursor = omega (arith, total);
      fits = v.fits;
      backed = v.backed;
      small = v.small;
      unit_pos = v.unit_pos;
    }

    size : min (d.len - length xs) (length ys) ≡ length ys
    size = omega (arith, total)
