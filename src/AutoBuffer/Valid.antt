-- ===== src/AutoBuffer/Valid.antt =====
-- The invariant of `AutoBuffer`, and `__FitSize`.
use mtappender_file.Prelude.{
  ℕ, zero, suc, ◌+◌, ◌-◌, ◌^◌, ◌%◌, ◌≤◌, ◌<◌, ◌≡◌, refl, ◌∙◌, sym, ap, arith, some, true, false,
  length, take, drop, replicate, length-take, length-append, length-fill, ◌⊎◌, take-append_left,
  take-take, ltb, ltb→lt, ◌==◌, Bool-cases, inl, inr, sub64_lem, Bytes, target, overwrite, memset,
  memcpy_lem, length-overwrite, take-overwrite, take-drop-overwrite, min,
}
use mtappender_file.AutoBuffer.{
  Allocator, AutoBuffer, fresh, resized, round_up, grown, fit_size, empty, seek,
}
use mtappender_file.PtrBuffer.{Origin, seek_start, seek_cur}
use mtappender_file.AutoBuffer.Round.{round_up_lem}

pub record IsValid (b : AutoBuffer) : Type 0 where
  pub cursor : b.pos ≤ b.len
  pub fits : b.len ≤ b.capacity
  pub backed : b.capacity ≤ length (target b.parray)
  pub small : b.capacity < 2 ^ 63
  pub unit_pos : 0 < b.unit

-- What the buffer holds.
abbrev pub contents : AutoBuffer → Bytes
contents b = take b.len (target b.parray)

-- `c` is `b` with room for `n` bytes: the old bytes are kept, and the new ones are zero.
pub record Fitted (b : AutoBuffer) (n : ℕ) (c : AutoBuffer) : Type 0 where
  pub valid : IsValid c
  pub same_pos : c.pos ≡ b.pos
  pub same_len : c.len ≡ b.len
  pub same_unit : c.unit ≡ b.unit
  pub enough : n ≤ c.capacity
  pub grows : b.capacity ≤ c.capacity
  pub tight : (c.capacity ≡ b.capacity) ⊎ (c.capacity < n + b.unit)
  pub kept : take b.capacity (target c.parray) ≡ take b.capacity (target b.parray)
  pub zeroed :
      take (c.capacity - b.capacity) (drop b.capacity (target c.parray))
      ≡ replicate (c.capacity - b.capacity) 0

pub length-contents : (b : AutoBuffer) → IsValid b → length (contents b) ≡ b.len
length-contents b v = omega (arith, length-take b.len (target b.parray), v.fits, v.backed)

pub seek_cur_lem :
    (b : AutoBuffer) (k : ℕ)
    → b.pos + k < 2 ^ 63
    → seek b k seek_cur ≡ record b { pos = min (b.pos + k) b.len }
unfolding seek
seek_cur_lem b k h = ground arith

pub seek_start_lem :
    (b : AutoBuffer) (k : ℕ) → k < 2 ^ 63 → seek b k seek_start ≡ record b { pos = min k b.len }
unfolding seek
seek_start_lem b k h = ground arith

-- Every seek keeps a valid buffer valid: the cursor is brought back into the contents.
pub seek-IsValid : (b : AutoBuffer) (off : ℕ) (o : Origin) → IsValid b → IsValid (seek b off o)
unfolding seek
seek-IsValid b off o v = ground arith

pub empty-IsValid : (u : ℕ) → 0 < u → IsValid (empty u)
empty-IsValid u h = omega arith

length-fresh : (a : Allocator) (k n : ℕ) → length (fresh a k n) ≡ n
length-fresh a k zero = refl
length-fresh a k (suc n) = ap suc (length-fresh a (suc k) n)

length-resized : (a : Allocator) (m : Bytes) (size : ℕ) → length (resized a m size) ≡ size
length-resized a m size = omega (
  arith,
  length-append (take size m) (fresh a (length m) (size - length m)),
  length-take size m,
  length-fresh a (length m) (size - length m),
)

take-resized :
    (a : Allocator) (m : Bytes) (size k : ℕ)
    → k ≤ size
    → k ≤ length m
    → take k (resized a m size) ≡ take k m
take-resized a m size k h l =
    take-append_left k (take size m) (fresh a (length m) (size - length m))
      (omega (arith, length-take size m))
    ∙ take-take k size m h

ltb_false→le : (k n : ℕ) → ltb k n ≡ false → n ≤ k
ltb_false→le k n e = ground arith

module _ (a : Allocator) (b : AutoBuffer) (size : ℕ) where
  grown_memory : Bytes
  grown_memory =
      overwrite (resized a (target b.parray) size) b.capacity (replicate (size - b.capacity) 0)

  grown_lem :
      b.capacity ≤ size
      → size < 2 ^ 63
      → grown b size (some (resized a (target b.parray) size))
        ≡ some (record b { parray = some grown_memory; capacity = size }, true)
  unfolding grown memset grown_memory
  grown_lem h s = rw (
    sub64_lem size b.capacity (omega arith) h,
    memcpy_lem (some (resized a (target b.parray) size)) b.capacity
        (replicate (size - b.capacity) 0)
        (omega (arith, length-resized a (target b.parray) size, length-fill (size - b.capacity) 0)),
  )

  grown-Fitted :
      (n : ℕ)
      → IsValid b
      → b.capacity < n
      → n ≤ size
      → size < n + b.unit
      → size < 2 ^ 63
      → Fitted b n (record b { parray = some grown_memory; capacity = size })
  unfolding grown_memory
  grown-Fitted n v h k t s = record {
    valid = record {
      cursor = v.cursor;
      fits = omega (arith, v.fits);
      backed = omega (
        arith,
        length-overwrite (resized a (target b.parray) size) b.capacity
            (replicate (size - b.capacity) 0),
        length-resized a (target b.parray) size,
      );
      small = s;
      unit_pos = v.unit_pos;
    };
    same_pos = refl;
    same_len = refl;
    same_unit = refl;
    enough = k;
    grows = omega arith;
    tight = inr t;
    kept =
        take-overwrite b.capacity (resized a (target b.parray) size) b.capacity _ (omega arith)
        ∙ take-resized a (target b.parray) size b.capacity (omega arith) v.backed;
    zeroed =
        ap (λ m. take m (drop b.capacity grown_memory)) (sym (length-fill (size - b.capacity) 0))
        ∙ take-drop-overwrite (resized a (target b.parray) size) b.capacity
            (replicate (size - b.capacity) 0)
            (omega
              (arith, length-resized a (target b.parray) size, length-fill (size - b.capacity) 0));
  }

-- When the allocator grants the size asked for, below 2 ^ 63, `__FitSize` succeeds on a valid buffer
-- and makes room: the contents are kept, and the new bytes are zero.
pub fit_size_lem :
    (a : Allocator) (b : AutoBuffer) (n : ℕ)
    → IsValid b
    → n + b.unit < 2 ^ 63
    → a.grants (round_up b.unit n) ≡ true
    → (c : AutoBuffer) × (fit_size a b n ≡ some (c, true)) × Fitted b n c
unfolding fit_size
fit_size_lem a b n v h g = elim (Bool-cases (ltb b.capacity n)) [
  | inl more ↦ (
    record b { parray = some (grown_memory a b size); capacity = size },
    rw (more, unit_lem, g)
        (grown_lem a b size (omega (arith, ltb→lt _ _ more, round)) (omega (arith, round))),
    grown-Fitted a b size n v (ltb→lt _ _ more) round.0 round.1 (omega (arith, round)),
  )
  | inr fits ↦ (b, rw fits, unchanged (ltb_false→le b.capacity n fits))
]
  where
    size : ℕ
    size = round_up b.unit n

    round : (n ≤ size) × (size < n + b.unit) × (size % b.unit ≡ 0)
    round = round_up_lem b.unit n v.unit_pos (omega arith)

    unit_lem : (b.unit == 0) ≡ false
    unit_lem = ground (arith, v.unit_pos)

    none_new : (k : ℕ) (m : Bytes) → k ≡ 0 → take k m ≡ replicate k 0
    none_new zero m e = refl
    none_new (suc k) m e = absurd (omega arith)

    unchanged : n ≤ b.capacity → Fitted b n b
    unchanged le = record {
      valid = v;
      same_pos = refl;
      same_len = refl;
      same_unit = refl;
      enough = le;
      grows = omega arith;
      tight = inl refl;
      kept = refl;
      zeroed = none_new (b.capacity - b.capacity) _ (omega arith);
    }

pub contents-Fitted :
    {b c : AutoBuffer} {n : ℕ} → IsValid b → Fitted b n c → contents c ≡ contents b
contents-Fitted {b} {c} v f =
    ap (λ n. take n (target c.parray)) f.same_len
    ∙ sym (take-take b.len b.capacity (target c.parray) v.fits)
    ∙ ap (take b.len) f.kept
    ∙ take-take b.len b.capacity (target b.parray) v.fits
