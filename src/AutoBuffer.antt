-- ===== src/AutoBuffer.antt =====
-- comm/mtaf_autobuffer.cc and .h: a growing buffer that owns its memory. Whether `realloc` finds
-- memory, and what fresh memory holds, is up to an `Allocator`. `free` is not modelled: a freed
-- block is no longer mentioned by the state. The asserts are off in a release build.
pub mod Round
pub mod Valid
pub mod Write
pub mod Read
pub mod Objects
pub mod Move
use mtappender_file.Prelude.{
  ℕ, zero, suc, ◌+◌, ◌-◌, ◌*◌, ◌/◌, ◌%◌, ◌^◌, Bool, true, false, Option, none, some, List, [], ◌∷◌,
  ◌++◌, length, take, drop, ltb, ◌==◌, ◌||◌, if◌then◌else◌, ◌>>=◌, add64, sub64, is_negative, Bytes,
  Ptr, target, memcpy, memset, load, min, max,
}
use mtappender_file.PtrBuffer.{Origin, seek_start, seek_cur, seek_end}

-- The C library's allocator: which sizes it grants, and the bytes that it leaves in fresh memory.
pub record Allocator : Type 0 where
  pub grants : ℕ → Bool
  pub junk : ℕ → ℕ

pub record AutoBuffer : Type 0 where
  pub parray : Ptr
  pub pos : ℕ  -- off_t
  pub len : ℕ  -- length_
  pub capacity : ℕ
  pub unit : ℕ  -- malloc_unitsize_

-- The constructor `AutoBuffer(_nSize)`.
abbrev pub empty : ℕ → AutoBuffer
empty u = record { parray = none; pos = 0; len = 0; capacity = 0; unit = u }

abbrev pub fresh : Allocator → ℕ → ℕ → Bytes
fresh a k zero = []
fresh a k (suc n) = a.junk k ∷ fresh a (suc k) n

-- A block of `size` bytes that keeps the bytes of `m`, as many as fit.
abbrev pub resized : Allocator → Bytes → ℕ → Bytes
resized a m size = take size m ++ fresh a (length m) (size - length m)

abbrev pub realloc : Allocator → Ptr → ℕ → Ptr
realloc a p size = if a.grants size then some (resized a (target p) size) else none

-- `((_len + malloc_unitsize_ - 1) / malloc_unitsize_) * malloc_unitsize_`.
abbrev pub round_up : ℕ → ℕ → ℕ
round_up u n = sub64 (add64 n u) 1 / u * u % 2 ^ 64

-- The rest of `__FitSize` once `realloc` has returned: `false` for no memory.
unfoldable pub grown : AutoBuffer → ℕ → Ptr → Option (AutoBuffer × Bool)
grown b size none = some (record b { parray = none }, false)
grown b size (some m) = do
  q ← memset (some m) b.capacity 0 (sub64 size b.capacity)
  some (record b { parray = q; capacity = size }, true)

-- `__FitSize(_len)`. A unit of 0 divides by zero.
unfoldable pub fit_size : Allocator → AutoBuffer → ℕ → Option (AutoBuffer × Bool)
fit_size a b n =
    if ltb b.capacity n
    then (if b.unit == 0
        then none
        else grown b (round_up b.unit n) (realloc a b.parray (round_up b.unit n)))
    else some (b, true)

abbrev pub seek_target : AutoBuffer → ℕ → Origin → ℕ
seek_target b off seek_start = off
seek_target b off seek_cur = add64 b.pos off
seek_target b off seek_end = add64 b.len off

abbrev pub clamp_pos : ℕ → ℕ → ℕ
clamp_pos len p = let q = if is_negative p then 0 else p in if ltb len q then len else q

unfoldable pub seek : AutoBuffer → ℕ → Origin → AutoBuffer
seek b off origin = record b { pos = clamp_pos b.len (seek_target b off origin) }

-- `Length(_pos, _lenght)`. Nothing cuts the length at the capacity.
unfoldable pub set_length : AutoBuffer → ℕ → ℕ → AutoBuffer
set_length b npos n = seek (record b { len = n }) npos seek_start

-- `AllocWrite(_readytowrite, _changelength)`.
pub alloc_write : Allocator → AutoBuffer → ℕ → Bool → Option AutoBuffer
alloc_write a b n change = do
  (c, ok) ← fit_size a b (add64 b.pos n)
  some (if change then record c { len = max (add64 b.pos n) c.len } else c)

-- `AddCapacity(_len)`.
pub add_capacity : Allocator → AutoBuffer → ℕ → Option AutoBuffer
add_capacity a b n = do (c, ok) ← fit_size a b (add64 b.capacity n); some c

-- `Write(const off_t &_pos, _pbuffer, _len)`. The result of `__FitSize` is not looked at.
unfoldable pub write_at : Allocator → AutoBuffer → Bytes → ℕ → Option AutoBuffer
write_at a b src npos = do
  (c, ok) ← fit_size a b (add64 npos (length src))
  q ← memcpy c.parray npos src
  some (record c { parray = q; len = max (add64 npos (length src)) c.len })

-- `Write(off_t &_pos, _pbuffer, _len)`, with the position that it leaves.
pub write_advance : Allocator → AutoBuffer → Bytes → ℕ → Option (AutoBuffer × ℕ)
write_advance a b src npos = do c ← write_at a b src npos; some (c, add64 npos (length src))

-- `Write(_pbuffer, _len)`.
unfoldable pub write : Allocator → AutoBuffer → Bytes → Option AutoBuffer
write a b src = do c ← write_at a b src b.pos; some (seek c (length src) seek_cur)

-- `Write(_seek, _pbuffer, _len)`. The cursor stays.
pub write_from : Allocator → AutoBuffer → Bytes → Origin → Option AutoBuffer
write_from a b src origin = do (c, p) ← write_advance a b src (seek_target b 0 origin); some c

-- `Read(const off_t &_pos, _pbuffer, _len)`: the count from `_pos`, the bytes from the cursor.
pub read_at : AutoBuffer → ℕ → ℕ → Option Bytes
read_at b n npos = load b.parray b.pos (min (sub64 b.len npos) n)

-- `Read(off_t &_pos, _pbuffer, _len)`, with the position that it leaves.
pub read_advance : AutoBuffer → ℕ → ℕ → Option (Bytes × ℕ)
read_advance b n npos = do out ← read_at b n npos; some (out, add64 npos (length out))

-- `Read(_pbuffer, _len)`.
pub read : AutoBuffer → ℕ → Option (Bytes × AutoBuffer)
read b n = do out ← read_at b n b.pos; some (out, seek b (length out) seek_cur)

-- `Read(const off_t &_pos, AutoBuffer &_rhs, _len)` and `Read(AutoBuffer &_rhs, _len)`: the source,
-- then the destination.
pub read_buffer_at : Allocator → AutoBuffer → AutoBuffer → ℕ → ℕ → Option (AutoBuffer × ℕ)
read_buffer_at a b rhs n npos = do
  out ← load b.parray b.pos (min (sub64 b.len npos) n)
  r ← write a rhs out
  some (r, length out)

pub read_buffer : Allocator → AutoBuffer → AutoBuffer → ℕ → Option (AutoBuffer × AutoBuffer)
read_buffer a b rhs n = do (r, k) ← read_buffer_at a b rhs n b.pos; some (seek b k seek_cur, r)

-- The two halves of `Move(_move_len)`.
pub move_up : AutoBuffer → ℕ → Option AutoBuffer
move_up b k = do
  old ← load b.parray 0 b.len
  p ← memcpy b.parray k old
  q ← memset p 0 0 k
  some (set_length (record b { parray = q }) (add64 b.pos k) (add64 b.len k))

pub move_down : AutoBuffer → ℕ → Option AutoBuffer
move_down b k = do
  rest ← load b.parray k (b.len - k)
  p ← memcpy b.parray 0 rest
  some (set_length (record b { parray = p }) (if ltb k b.pos then b.pos - k else 0) (b.len - k))

-- `Move(_move_len)`, with the length that it returns.
pub move : Allocator → AutoBuffer → ℕ → Option (AutoBuffer × ℕ)
move a b off = do
  c ←
      (if off == 0 || is_negative off
        then move_down b (min (sub64 0 off) b.len)
        else fit_size a b (add64 b.len off) >>= λ r. if r.1 then move_up r.0 off else some r.0)
  some (c, c.len)

-- `Reset()` keeps the unit.
pub reset : AutoBuffer → AutoBuffer
reset b = empty b.unit

-- `Attach(_pbuffer, _len)`.
pub attach : AutoBuffer → Ptr → ℕ → AutoBuffer
attach b p n = record (reset b) { parray = p; len = n; capacity = n }

-- `Attach(AutoBuffer &_rhs)`: the new buffer, and what is left of `_rhs`.
pub attach_from : AutoBuffer → AutoBuffer → AutoBuffer × AutoBuffer
attach_from b rhs = (
  record (reset b) { parray = rhs.parray; pos = rhs.pos; len = rhs.len; capacity = rhs.capacity },
  reset rhs,
)

-- `Detach(_plen)`: the memory, its length, and the buffer left empty.
pub detach : AutoBuffer → Ptr × ℕ × AutoBuffer
detach b = (b.parray, b.len, reset b)

-- The constructor that takes over a block, and the one that copies it.
pub of_memory : Ptr → ℕ → ℕ → AutoBuffer
of_memory p n u = attach (empty u) p n

pub of_bytes : Allocator → Bytes → ℕ → Option AutoBuffer
of_bytes a src u = write_at a (empty u) src 0

-- `Read(off_t &_pos, AutoBuffer &_rhs, _len)`, with the position that it leaves.
pub read_buffer_advance : Allocator → AutoBuffer → AutoBuffer → ℕ → ℕ → Option (AutoBuffer × ℕ × ℕ)
read_buffer_advance a b rhs n npos = do
  (r, k) ← read_buffer_at a b rhs n npos
  some (r, k, add64 npos k)

-- `copy_wrapper_helper<AutoBuffer>::copy_constructor`: it takes the memory of its source away.
abbrev pub copy_constructor : AutoBuffer → AutoBuffer → AutoBuffer × AutoBuffer
copy_constructor lhs rhs = attach_from lhs rhs

-- `Ptr(_offset)`, `PosPtr()` and `PosLength()`.
abbrev pub ptr_at : AutoBuffer → ℕ → Bytes
ptr_at b off = drop off (target b.parray)

abbrev pub pos_ptr : AutoBuffer → Bytes
pos_ptr b = ptr_at b b.pos

abbrev pub pos_length : AutoBuffer → ℕ
pos_length b = sub64 b.len b.pos
