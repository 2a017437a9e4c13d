-- ===== src/PtrBuffer/Read.antt =====
-- `PtrBuffer::Read`: what it returns, and from where.
use mtappender_file.Prelude.{
  ℕ, ◌+◌, ◌-◌, ◌≤◌, ◌≡◌, ◌∙◌, ap, arith, some, length, ◌++◌, take, drop, min, Bytes, target, load,
  le→leb, length-take, take_of_length_le, take-drop_of_take, sub64_lem, length-drop,
}
use mtappender_file.PtrBuffer.{PtrBuffer, seek, seek_start, read_at, read}
use mtappender_file.PtrBuffer.Valid.{IsValid, contents, seek_cur_lem, seek_start_lem}
use mtappender_file.PtrBuffer.Append.{Appended}

-- The bytes of a valid buffer that a positioned read returns, at a position `npos` from the cursor to
-- the end: as many as lie behind `npos`, and no more than asked for, but from the cursor on.
pub read_at_lem :
    (b : PtrBuffer) (n npos : ℕ)
    → IsValid b
    → b.pos ≤ npos
    → npos ≤ b.len
    → read_at b n npos ≡ some (take (min (b.len - npos) n) (drop b.pos (target b.parray)))
unfolding read_at load
read_at_lem b n npos v h k = rw (
  sub64_lem b.len npos (omega arith) k,
  le→leb (b.pos + min (b.len - npos) n) (length (target b.parray)) (omega arith),
)

length-slice : (m : Bytes) (off n : ℕ) → off + n ≤ length m → length (take n (drop off m)) ≡ n
length-slice m off n h = omega (arith, length-take n (drop off m), length-drop off m)

-- Reading at the cursor returns the bytes there, as many as asked for and held, and moves the
-- cursor behind them.
pub read_lem :
    (b : PtrBuffer) (n : ℕ)
    → IsValid b
    → read b n
      ≡ some (
        take (min (b.len - b.pos) n) (drop b.pos (target b.parray)),
        record b { pos = b.pos + min (b.len - b.pos) n },
      )
unfolding read
read_lem b n v =
    rw
      (
        read_at_lem b n b.pos v (omega arith) v.cursor,
        length-slice (target b.parray) b.pos (min (b.len - b.pos) n) (omega (arith, v.backed)),
        seek_cur_lem b (min (b.len - b.pos) n) v (omega arith) (omega arith),
      )
      (ap
        (λ p.
          some (take (min (b.len - b.pos) n) (drop b.pos (target b.parray)), record b { pos = p }))
        fits)
  where
    fits : min (b.pos + min (b.len - b.pos) n) b.len ≡ b.pos + min (b.len - b.pos) n
    fits = omega arith

-- What was appended to a valid buffer, and fitted, is read back after seeking to where it was put.
read-append :
    (b c : PtrBuffer) (src : Bytes)
    → IsValid b
    → Appended b src c
    → b.len + length src ≤ b.max_len
    → read (seek c b.len seek_start) (length src) ≡ some (src, c)
read-append b c src v a fits =
    rw
      (
        seek_start_lem c b.len a.valid (omega arith),
        read_lem (record c { pos = b.len }) (length src) back,
        size,
        take-drop_of_take b.len (length src) (target c.parray) (contents b) src held whole,
      )
      (ap (λ p. some (src, record c { pos = p })) (omega (arith, a.new_len, a.at_end)))
  where
    back : IsValid (record c { pos = b.len })
    back = omega (arith, a.new_len, v.fits, a.valid)

    size : min (c.len - b.len) (length src) ≡ length src
    size = omega (arith, a.new_len)

    held : length (contents b) ≡ b.len
    held = omega (arith, length-take b.len (target b.parray), v.fits, v.backed)

    whole : take (b.len + length src) (target c.parray) ≡ contents b ++ src
    whole =
        ap (λ n. take n (target c.parray)) (omega (arith, a.new_len))
        ∙ a.text
        ∙ ap (λ r. contents b ++ r) (take_of_length_le (b.max_len - b.len) src (omega arith))
