-- ===== src/PtrBuffer.antt =====
-- comm/mtaf_ptrbuffer.cc and .h: a cursor over memory that the caller owns. The memory behind
-- `parray_` is the list of its bytes, up to the end of the caller's allocation.
-- The asserts are off in a release build (comm/__mtaf_assert.c) and are left out.
pub mod Valid
pub mod Write
pub mod Append
pub mod Read
pub mod Objects
use mtappender_file.Prelude.{
  ℕ, ◌+◌, ◌≡◌, Bool, Option, none, some, take, drop, ◌∷◌, [], length, ◌==◌, ltb, if◌then◌else◌,
  ◌>>=◌, add64, sub64, u32, is_negative, Bytes, Ptr, memcpy, memset, load, target, min, max,
}

-- `PtrBuffer::TSeek`.
pub data Origin : Type 0 where
  seek_start seek_cur seek_end : Origin

pub record PtrBuffer : Type 0 where
  pub parray : Ptr
  pub pos : ℕ  -- off_t
  pub len : ℕ  -- length_
  pub max_len : ℕ  -- max_length_

-- The default constructor, and `Reset`.
abbrev pub null : PtrBuffer
null = record { parray = none; pos = 0; len = 0; max_len = 0 }

-- `Attach(_pBuffer, _nLen, _maxlen)`, and the constructor of the same arguments.
abbrev pub attach : Ptr → ℕ → ℕ → PtrBuffer
attach p n m = record { parray = p; pos = 0; len = n; max_len = m }

-- The `switch` of `Seek`.
abbrev pub seek_target : PtrBuffer → ℕ → Origin → ℕ
seek_target b off seek_start = off
seek_target b off seek_cur = add64 b.pos off
seek_target b off seek_end = add64 b.len off

-- The two tests at the end of `Seek`. The second compares the low 32 bits only.
abbrev pub clamp_pos : ℕ → ℕ → ℕ
clamp_pos len p = let q = if is_negative p then 0 else p in if ltb len (u32 q) then len else q

unfoldable pub seek : PtrBuffer → ℕ → Origin → PtrBuffer
seek b off origin = record b { pos = clamp_pos b.len (seek_target b off origin) }

-- `Length(_nPos, _nLenght)`.
unfoldable pub set_length : PtrBuffer → ℕ → ℕ → PtrBuffer
unfolding seek
set_length b npos n =
    seek (record b { len = if ltb b.max_len n then b.max_len else n }) npos seek_start

-- Three zero bytes and a carriage return, which mark the end of the log in a mapped file.
abbrev pub terminate : Ptr → ℕ → Option Ptr
terminate p off = memset p off 0 3 >>= λ q. memset q (off + 3) 13 1

-- `Write(_pBuffer, _nLen, _nPos)`.
unfoldable pub write_at : PtrBuffer → Bytes → ℕ → Option PtrBuffer
write_at b src npos = do
  let copylen = min (length src) (sub64 b.max_len npos)
  let n = max b.len (add64 copylen npos)
  p ← memcpy b.parray npos (take copylen src)
  q ← if ltb n (sub64 b.max_len 4) then terminate p (npos + copylen) else some p
  some (record b { parray = q; len = n })

-- `Write(_pBuffer, _nLen)`.
unfoldable pub write : PtrBuffer → Bytes → Option PtrBuffer
write b src = do c ← write_at b src b.pos; some (seek c (length src) seek_cur)

-- `Read(_pBuffer, _nLen, _nPos)`: the bytes copied out. The count is taken from `_nPos`, the bytes
-- from the cursor (`PosPtr()`).
pub read_at : PtrBuffer → ℕ → ℕ → Option Bytes
read_at b n npos = load b.parray b.pos (min (sub64 b.len npos) n)

-- `Read(_pBuffer, _nLen)`.
pub read : PtrBuffer → ℕ → Option (Bytes × PtrBuffer)
read b n = do out ← read_at b n b.pos; some (out, seek b (length out) seek_cur)

abbrev pub pos_length : PtrBuffer → ℕ
pos_length b = sub64 b.len b.pos

-- `strlen(_val)`, with the text that it ends.
abbrev pub c_text : Bytes → Bytes
c_text [] = []
c_text (x ∷ m) = if x == 0 then [] else x ∷ c_text m

-- `Write(_val)` and `Write(_nPos, _val)` of a C string. The length is cast to 32 bits.
pub write_string : PtrBuffer → Bytes → Option PtrBuffer
write_string b val = write b (take (u32 (length (c_text val))) (c_text val))

pub write_string_at : PtrBuffer → ℕ → Bytes → Option PtrBuffer
write_string_at b npos val = write_at b (take (u32 (length (c_text val))) (c_text val)) npos

-- `PosPtr()`.
abbrev pub pos_ptr : PtrBuffer → Bytes
pos_ptr b = drop b.pos (target b.parray)
