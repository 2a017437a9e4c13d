-- ===== src/PtrBuffer/Valid.antt =====
-- The invariant of `PtrBuffer`, kept by `Seek`, `Length` and `Attach`.
use mtappender_file.Prelude.{
  ℕ, ◌+◌, ◌^◌, ◌%◌, ◌≤◌, ◌<◌, ◌≡◌, arith, length, min, target, Ptr, Bytes, take,
}
use mtappender_file.PtrBuffer.{
  PtrBuffer, Origin, seek_start, seek_cur, seek_end, seek_target, clamp_pos, seek, set_length,
  attach,
}

-- The cursor lies in the contents, the contents in the capacity, and the capacity in the memory.
-- A capacity below 2 ^ 32 is what the casts to `unsigned int` need.
pub record IsValid (b : PtrBuffer) : Type 0 where
  pub cursor : b.pos ≤ b.len
  pub fits : b.len ≤ b.max_len
  pub backed : b.max_len ≤ length (target b.parray)
  pub small : b.max_len < 2 ^ 32

-- What the buffer holds.
abbrev pub contents : PtrBuffer → Bytes
contents b = take b.len (target b.parray)

-- Seeking keeps a valid buffer valid whenever the target is below 2 ^ 32 or negative as an `off_t`.
pub seek-IsValid :
    (b : PtrBuffer) (off : ℕ) (o : Origin)
    → IsValid b
    → seek_target b off o < 2 ^ 32
    → IsValid (seek b off o)
unfolding seek
seek-IsValid b off seek_start v h = ground arith
seek-IsValid b off seek_cur v h = ground arith
seek-IsValid b off seek_end v h = ground arith

pub seek_cur_lem :
    (b : PtrBuffer) (k : ℕ)
    → IsValid b
    → k < 2 ^ 32
    → b.pos + k < 2 ^ 32
    → seek b k seek_cur ≡ record b { pos = min (b.pos + k) b.len }
unfolding seek
seek_cur_lem b k v h g = ground arith

-- `Length(n, n)` sets cursor and length to `n`, cut at the capacity.
pub set_length_lem :
    (b : PtrBuffer) (n : ℕ)
    → b.max_len < 2 ^ 32
    → n < 2 ^ 32
    → set_length b n n ≡ record b { pos = min n b.max_len; len = min n b.max_len }
unfolding set_length
set_length_lem b n h k = ground arith

attach-IsValid :
    (p : Ptr) (n m : ℕ) → n ≤ m → m ≤ length (target p) → m < 2 ^ 32 → IsValid (attach p n m)
attach-IsValid p n m h k s = omega arith

pub seek_start_lem :
    (b : PtrBuffer) (k : ℕ) → IsValid b → k ≤ b.len → seek b k seek_start ≡ record b { pos = k }
unfolding seek
seek_start_lem b k v h = ground arith

-- Seeking a valid buffer to an offset from 2 ^ 32 to below 2 ^ 63 whose low 32 bits lie in the
-- contents leaves the cursor past the end of the contents: the buffer is no longer valid.
pub not-IsValid-seek :
    (b : PtrBuffer) (off : ℕ)
    → IsValid b
    → 2 ^ 32 ≤ off
    → off < 2 ^ 63
    → off % 2 ^ 32 ≤ b.len
    → ¬ IsValid (seek b off seek_start)
unfolding seek
not-IsValid-seek b off v h k low w = absurd (past w.cursor)
  where
    past : clamp_pos b.len off ≤ b.len → ⊥
    past le = ground arith
