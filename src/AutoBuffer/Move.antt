-- ===== src/AutoBuffer/Move.antt =====
-- `AutoBuffer::Move`, `Attach` and `Detach`.
use mtappender_file.Prelude.{
  ℕ, ◌+◌, ◌-◌, ◌^◌, ◌≤◌, ◌<◌, ◌≡◌, refl, ◌∙◌, sym, ap, arith, some, true, false, ◌++◌, length, take,
  drop, replicate, length-take, length-drop, length-fill, length-overwrite, length-overwrite_ptr,
  is_negative, ◌==◌, ◌||◌, ltb, if◌then◌else◌, add64_lem, sub64, minus, Ptr, target, overwrite,
  overwrite_ptr, target-overwrite_ptr, overwrite_contents, take-overwrite_end, drop-take,
  drop-append, memcpy_lem, memset, load, le→leb, min,
}
use mathlib.Core.Path.{ap₂}
use mtappender_file.AutoBuffer.{
  Allocator, AutoBuffer, round_up, set_length, seek, move_up, move_down, move,
}
use mtappender_file.AutoBuffer.Valid.{
  IsValid, contents, length-contents, Fitted, fit_size_lem, contents-Fitted,
}

set_length_lem :
    (b : AutoBuffer) (p n : ℕ)
    → p ≤ n
    → n < 2 ^ 63
    → set_length b p n ≡ record b { pos = p; len = n }
unfolding set_length seek
set_length_lem b p n h k = ground arith

load_lem :
    (p : Ptr) (off n : ℕ)
    → off + n ≤ length (target p)
    → load p off n ≡ some (take n (drop off (target p)))
unfolding load
load_lem p off n h = rw (le→leb _ _ h)

-- `d` is `b` with `k` zero bytes put in front.
pub record Shifted (b : AutoBuffer) (k : ℕ) (d : AutoBuffer) : Type 0 where
  pub valid : IsValid d
  pub new_pos : d.pos ≡ b.pos + k
  pub new_len : d.len ≡ b.len + k
  pub text : contents d ≡ replicate k 0 ++ contents b

abbrev shifted_up : AutoBuffer → ℕ → AutoBuffer
shifted_up c k = record c {
  parray = overwrite_ptr (overwrite_ptr c.parray k (contents c)) 0 (replicate k 0);
  pos = c.pos + k;
  len = c.len + k;
}

module _ (c : AutoBuffer) (k : ℕ) (v : IsValid c) (room : c.len + k ≤ c.capacity) where
  move_up_lem : move_up c k ≡ some (shifted_up c k)
  unfolding move_up memset
  move_up_lem = rw (
    load_lem c.parray 0 c.len (omega (arith, v.fits, v.backed)),
    memcpy_lem c.parray k (contents c) (omega (arith, length-contents c v, v.backed)),
    memcpy_lem (overwrite_ptr c.parray k (contents c)) 0 (replicate k 0)
        (omega (arith, length-fill k 0, length-overwrite_ptr c.parray k (contents c), v.backed)),
    add64_lem c.pos k (omega (arith, v.cursor, v.small)),
    add64_lem c.len k (omega (arith, v.small)),
    set_length_lem
        (record c {
          parray = overwrite_ptr (overwrite_ptr c.parray k (contents c)) 0 (replicate k 0);
        })
        (c.pos + k) (c.len + k) (omega (arith, v.cursor)) (omega (arith, v.small)),
  )

  text_up : contents (shifted_up c k) ≡ replicate k 0 ++ contents c
  text_up =
      ap (take (c.len + k)) (
        target-overwrite_ptr (overwrite_ptr c.parray k (contents c)) 0 (replicate k 0)
        ∙ ap (λ m. overwrite m 0 (replicate k 0)) (target-overwrite_ptr c.parray k (contents c)))
      ∙ overwrite_contents (overwrite (target c.parray) k (contents c)) 0 (replicate k 0)
          (c.len + k) (c.len + k) k (omega arith)
          (omega
            (arith, length-fill k 0, length-overwrite (target c.parray) k (contents c), v.backed))
          (omega (arith, length-fill k 0)) (omega arith)
      ∙ ap (λ m. replicate k 0 ++ drop k m)
          (take-overwrite_end (target c.parray) k (contents c) (c.len + k)
            (omega (arith, length-contents c v, v.backed)) (omega (arith, length-contents c v)))
      ∙ ap (λ m. replicate k 0 ++ m)
          (ap (λ n. drop n (take k (target c.parray) ++ contents c)) (sym front)
            ∙ drop-append (take k (target c.parray)) (contents c))
    where
      front : length (take k (target c.parray)) ≡ k
      front = omega (arith, length-take k (target c.parray), v.backed)

  shifted_up-Shifted : Shifted c k (shifted_up c k)
  shifted_up-Shifted = record {
    valid = record {
      cursor = omega (arith, v.cursor);
      fits = room;
      backed = omega (
        arith,
        length-overwrite_ptr (overwrite_ptr c.parray k (contents c)) 0 (replicate k 0),
        length-overwrite_ptr c.parray k (contents c),
        v.backed,
      );
      small = v.small;
      unit_pos = v.unit_pos;
    };
    new_pos = refl;
    new_len = refl;
    text = text_up;
  }

-- `Move` of a valid buffer by a positive amount shifts the contents up behind as many zero bytes,
-- with the cursor, and returns the new length, if the allocator grants the growth and the sizes stay
-- below 2 ^ 63.
move_up-Shifted :
    (a : Allocator) (b : AutoBuffer) (k : ℕ)
    → IsValid b
    → 0 < k
    → b.len + k + b.unit < 2 ^ 63
    → a.grants (round_up b.unit (b.len + k)) ≡ true
    → (d : AutoBuffer) × (move a b k ≡ some (d, b.len + k)) × Shifted b k d
unfolding move
move_up-Shifted a b k v pos small g =
    let (c, e, f) = fit_size_lem a b (b.len + k) v small g in
    (
      shifted_up c k,
      rw
          (
            upward k pos (omega arith),
            add64_lem b.len k (omega arith),
            e,
            move_up_lem c k f.valid (omega (arith, f.enough, f.same_len)),
          )
          (ap (λ n. some (shifted_up c k, n)) (omega (arith, f.same_len))),
      carry v f (shifted_up-Shifted c k f.valid (omega (arith, f.enough, f.same_len))),
    )
  where
    upward : (k : ℕ) → 0 < k → k < 2 ^ 63 → (k == 0 || is_negative k) ≡ false
    upward k h l = ground arith

    carry : {c d : AutoBuffer} → IsValid b → Fitted b (b.len + k) c → Shifted c k d → Shifted b k d
    carry v f s = record {
      valid = s.valid;
      new_pos = omega (arith, s.new_pos, f.same_pos);
      new_len = omega (arith, s.new_len, f.same_len);
      text = s.text ∙ ap (λ m. replicate k 0 ++ m) (contents-Fitted v f);
    }

-- `d` is `b` without its first `k` bytes; a cursor among them goes to the start.
pub record Dropped (b : AutoBuffer) (k : ℕ) (d : AutoBuffer) : Type 0 where
  pub valid : IsValid d
  pub new_pos : d.pos ≡ b.pos - k
  pub new_len : d.len ≡ b.len - k
  pub text : contents d ≡ drop k (contents b)

abbrev shifted_down : AutoBuffer → ℕ → AutoBuffer
shifted_down b k = record b {
  parray = overwrite_ptr b.parray 0 (take (b.len - k) (drop k (target b.parray)));
  pos = b.pos - k;
  len = b.len - k;
}

module _ (b : AutoBuffer) (k : ℕ) (v : IsValid b) (low : k ≤ b.len) where
  length-rest : length (take (b.len - k) (drop k (target b.parray))) ≡ b.len - k
  length-rest = omega (
    arith,
    length-take (b.len - k) (drop k (target b.parray)),
    length-drop k (target b.parray),
    v.fits,
    v.backed,
  )

  move_down_lem : move_down b k ≡ some (shifted_down b k)
  unfolding move_down
  move_down_lem = rw (
    load_lem b.parray k (b.len - k) (omega (arith, v.fits, v.backed)),
    memcpy_lem b.parray 0 (take (b.len - k) (drop k (target b.parray)))
        (omega (arith, length-rest, v.fits, v.backed)),
    back,
    set_length_lem
        (record b {
          parray = overwrite_ptr b.parray 0 (take (b.len - k) (drop k (target b.parray)));
        })
        (b.pos - k) (b.len - k) (omega (arith, v.cursor)) (omega (arith, v.fits, v.small)),
  )
    where
      back : (if ltb k b.pos then b.pos - k else 0) ≡ b.pos - k
      back = ground arith

  text_down : contents (shifted_down b k) ≡ drop k (contents b)
  text_down =
      ap (take (b.len - k))
        (target-overwrite_ptr b.parray 0 (take (b.len - k) (drop k (target b.parray))))
      ∙ take-overwrite_end (target b.parray) 0 (take (b.len - k) (drop k (target b.parray)))
          (b.len - k) (omega (arith, length-rest, v.fits, v.backed)) (omega (arith, length-rest))
      ∙ sym (drop-take k (b.len - k) (target b.parray))
      ∙ ap (λ n. drop k (take n (target b.parray))) (omega arith)

  shifted_down-Dropped : Dropped b k (shifted_down b k)
  shifted_down-Dropped = record {
    valid = record {
      cursor = omega (arith, v.cursor);
      fits = omega (arith, v.fits);
      backed = omega (
        arith,
        length-overwrite_ptr b.parray 0 (take (b.len - k) (drop k (target b.parray))),
        v.backed,
      );
      small = v.small;
      unit_pos = v.unit_pos;
    };
    new_pos = refl;
    new_len = refl;
    text = text_down;
  }

-- `Move` of a valid buffer by `-k`, for a positive `k` below 2 ^ 63, drops the first `k` bytes and
-- returns the new length; more than the buffer holds empties it.
move_down-Dropped :
    (a : Allocator) (b : AutoBuffer) (k : ℕ)
    → IsValid b
    → 0 < k
    → k < 2 ^ 63
    → (d : AutoBuffer) × (move a b (minus k) ≡ some (d, b.len - k)) × Dropped b (min k b.len) d
unfolding move
move_down-Dropped a b k v pos small = (
  shifted_down b (min k b.len),
  rw (downward k pos small, amount k pos small, move_down_lem b (min k b.len) v (omega arith))
      (ap (λ n. some (shifted_down b (min k b.len), n)) (omega arith)),
  shifted_down-Dropped b (min k b.len) v (omega arith),
)
  where
    downward : (k : ℕ) → 0 < k → k < 2 ^ 63 → (minus k == 0 || is_negative (minus k)) ≡ true
    downward k h l = ground arith

    amount : (k : ℕ) → 0 < k → k < 2 ^ 63 → sub64 0 (minus k) ≡ k
    amount k h l = omega arith

-- Moving a valid buffer up by a positive amount and back down restores the contents and the
-- cursor, if the allocator grants the growth and the sizes stay below 2 ^ 63.
pub move-move :
    (a : Allocator) (b : AutoBuffer) (k : ℕ)
    → IsValid b
    → 0 < k
    → b.len + k + b.unit < 2 ^ 63
    → a.grants (round_up b.unit (b.len + k)) ≡ true
    → (c : AutoBuffer) × (d : AutoBuffer) × (move a b k ≡ some (c, b.len + k))
      × (move a c (minus k) ≡ some (d, b.len))
      × IsValid d
      × (d.pos ≡ b.pos)
      × (contents d ≡ contents b)
move-move a b k v pos small g =
    let (c, e, s) = move_up-Shifted a b k v pos small g in
    let (d, e', t) = move_down-Dropped a c k s.valid pos (omega arith) in
    (
      c,
      d,
      e,
      e' ∙ ap (λ n. some (d, n)) (omega (arith, s.new_len)),
      t.valid,
      omega (arith, t.new_pos, s.new_pos, s.new_len),
      t.text
          ∙ ap₂ drop (omega (arith, s.new_len, length-fill k 0)) s.text
          ∙ drop-append (replicate k 0) (contents b),
    )
