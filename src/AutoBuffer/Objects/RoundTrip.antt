-- ===== src/AutoBuffer/Objects/RoundTrip.antt =====
-- The objects that are written to an `AutoBuffer` (comm/mtaf_autobuffer.h), read again.
use mtappender_file.Prelude.{
  ℕ, ◌+◌, ◌-◌, ◌*◌, ◌^◌, ◌<◌, ◌≡◌, refl, ◌∙◌, sym, ap, arith, true, some, List, [], ◌∷◌, ◌++◌,
  append_assoc, append-nil, length, length-append, take, take_of_length_le, take-take,
  take-append_add, take-append_left, take-drop_of_take, drop_of_length_le, min, Bytes, Layout,
  target,
}
use mtappender_file.AutoBuffer.{AutoBuffer, Allocator, read, seek, seek_start}
use mtappender_file.AutoBuffer.Valid.{IsValid, contents, length-contents, seek_start_lem}
use mtappender_file.AutoBuffer.Write.{write_whole}
use mtappender_file.AutoBuffer.Read.{read_lem}
use mtappender_file.AutoBuffer.Objects.{
  write_object, read_object, copied_over, write_objects, read_objects,
}

-- A valid buffer with the cursor behind `xs` returns what follows.
read_next :
    (d : AutoBuffer) (xs ys zs : Bytes)
    → IsValid d
    → contents d ≡ xs ++ (ys ++ zs)
    → d.pos ≡ length xs
    → read d (length ys) ≡ some (ys, record d { pos = length xs + length ys })
read_next d xs ys zs v e at =
    rw
      (
        read_lem d (length ys) v,
        size,
        at,
        take-drop_of_take (length xs) (length ys) (target d.parray) xs ys refl front,
      )
      refl
  where
    total : d.len ≡ length xs + (length ys + length zs)
    total =
        sym (length-contents d v)
        ∙ ap length e
        ∙ length-append xs (ys ++ zs)
        ∙ ap (λ n. length xs + n) (length-append ys zs)

    size : min (d.len - d.pos) (length ys) ≡ length ys
    size = omega (arith, total, at)

    front : take (length xs + length ys) (target d.parray) ≡ xs ++ ys
    front =
        sym (take-take (length xs + length ys) d.len (target d.parray) (omega (arith, total)))
        ∙ ap (take (length xs + length ys)) e
        ∙ take-append_add (length ys) xs (ys ++ zs)
        ∙ ap (λ r. xs ++ r)
            (take-append_left (length ys) ys zs (omega arith)
              ∙ take_of_length_le (length ys) ys (omega arith))

module _ {ℓ} {A : Type ℓ} (o : Layout A) where
  -- The bytes of objects, one behind the other.
  abbrev pub encodes : List A → Bytes
  encodes [] = []
  encodes (x ∷ xs) = o.encode x ++ encodes xs

  length-encodes : (xs : List A) → length (encodes xs) ≡ o.size * length xs
  length-encodes [] = omega arith
  length-encodes (x ∷ xs) =
      length-append (o.encode x) (encodes xs) ∙ omega (arith, o.length_kept x, length-encodes xs)

  copied_over-encode : (old x : A) → copied_over o old (o.encode x) ≡ x
  copied_over-encode old x =
      ap (λ r. o.decode (o.encode x ++ r))
        (drop_of_length_le (length (o.encode x)) (o.encode old)
          (omega (arith, o.length_kept x, o.length_kept old)))
      ∙ ap o.decode (append-nil (o.encode x))
      ∙ o.decoded x

  write_objects_lem :
      (a : Allocator) (b : AutoBuffer) (xs : List A)
      → ((n : ℕ) → a.grants n ≡ true)
      → IsValid b
      → b.pos ≡ b.len
      → b.len + o.size * length xs + b.unit < 2 ^ 63
      → (d : AutoBuffer) × (write_objects o a b xs ≡ some d)
        × IsValid d
        × (contents d ≡ contents b ++ encodes xs)
  unfolding write_objects write_object
  write_objects_lem a b [] grants v at small = (b, refl, v, sym (append-nil (contents b)))
  write_objects_lem a b (x ∷ xs) grants v at small =
      let count : o.size * length (x ∷ xs) ≡ o.size + o.size * length xs = omega arith in
      let (c, e, v', at', unit, whole) =
        write_whole a b (o.encode x) v at (omega (arith, small, count, o.length_kept x))
          (grants _) in
      let len : c.len ≡ b.len + length (o.encode x) =
        sym (length-contents c v')
        ∙ ap length whole
        ∙ length-append (contents b) (o.encode x)
        ∙ ap (λ n. n + length (o.encode x)) (length-contents b v) in
      let (d, e', v'', all) =
        write_objects_lem a c xs grants v' at'
          (omega (arith, small, count, len, unit, o.length_kept x)) in
      (
        d,
        rw e e',
        v'',
        all ∙ ap (λ r. r ++ encodes xs) whole ∙ append_assoc (contents b) (o.encode x) (encodes xs),
      )

  read_objects_lem :
      (d : AutoBuffer) (before : Bytes) (xs olds : List A)
      → IsValid d
      → contents d ≡ before ++ encodes xs
      → d.pos ≡ length before
      → length olds ≡ length xs
      → (c : AutoBuffer) × (read_objects o d olds ≡ some (xs, c))
        × (contents c ≡ contents d)
        × (c.pos ≡ c.len)
  unfolding read_objects read_object
  read_objects_lem d before [] [] v e at same = (
    d,
    refl,
    refl,
    at ∙ sym (ap length (append-nil before)) ∙ sym (ap length e) ∙ length-contents d v,
  )
  read_objects_lem d before [] (old ∷ olds) v e at same = absurd (omega arith)
  read_objects_lem d before (x ∷ xs) [] v e at same = absurd (omega arith)
  read_objects_lem d before (x ∷ xs) (old ∷ olds) v e at same =
      let read : read d o.size
          ≡ some (o.encode x, record d { pos = length before + length (o.encode x) }) =
        ap (read d) (sym (o.length_kept x)) ∙ read_next d before (o.encode x) (encodes xs) v e at in
      let c : AutoBuffer = record d { pos = length before + length (o.encode x) } in
      let total : d.len ≡ length before + (length (o.encode x) + length (encodes xs)) =
        sym (length-contents d v)
        ∙ ap length e
        ∙ length-append before (encodes (x ∷ xs))
        ∙ ap (λ n. length before + n) (length-append (o.encode x) (encodes xs)) in
      let (f, e', kept, at') =
        read_objects_lem c (before ++ o.encode x) xs olds
          (record {
            cursor = omega (arith, total);
            fits = v.fits;
            backed = v.backed;
            small = v.small;
            unit_pos = v.unit_pos;
          })
          (e ∙ sym (append_assoc before (o.encode x) (encodes xs)))
          (sym (length-append before (o.encode x))) (omega (arith, same)) in
      (f, rw (read, e', copied_over-encode old x), kept, at')

-- Objects of one type, written one behind the other at the end of a valid buffer whose size stays
-- below 2 ^ 63 and whose allocator grants the growth, are read back in their order, into as many
-- other objects, after seeking to where the first was put; the buffer then holds what it held
-- before and their bytes, and the cursor is at its end.
pub read_objects-write_objects {ℓ} :
    {A : Type ℓ} (o : Layout A) (a : Allocator) (b : AutoBuffer) (xs olds : List A)
    → ((n : ℕ) → a.grants n ≡ true)
    → IsValid b
    → b.pos ≡ b.len
    → b.len + o.size * length xs + b.unit < 2 ^ 63
    → length olds ≡ length xs
    → (d : AutoBuffer) × (c : AutoBuffer) × (write_objects o a b xs ≡ some d)
      × (read_objects o (seek d b.len seek_start) olds ≡ some (xs, c))
      × (contents c ≡ contents b ++ encodes o xs)
      × (c.pos ≡ c.len)
read_objects-write_objects o a b xs olds grants v at small same =
    let (d, e, v', whole) = write_objects_lem o a b xs grants v at small in
    let total : d.len ≡ length (contents b) + length (encodes o xs) =
      sym (length-contents d v') ∙ ap length whole ∙ length-append (contents b) (encodes o xs) in
    let held : length (contents b) ≡ b.len = length-contents b v in
    let back : min b.len d.len ≡ length (contents b) = omega (arith, total, held) in
    let (c, e', kept, at') =
      read_objects_lem o (record d { pos = min b.len d.len }) (contents b) xs olds
        (record {
          cursor = omega arith;
          fits = v'.fits;
          backed = v'.backed;
          small = v'.small;
          unit_pos = v'.unit_pos;
        })
        whole back same in
    (
      d,
      c,
      e,
      ap (λ q. read_objects o q olds) (seek_start_lem d b.len (omega (arith, small))) ∙ e',
      kept ∙ whole,
      at',
    )
