-- ===== src/Mmap.antt =====
-- loglib/mtaf_mmap_file.cpp and .h: a mapped file. The mapping is shared with the file, so the bytes
-- of `start` are the bytes of the file as long as it is mapped. MAP_FAILED, and `start` after the
-- mapping is gone, is `some []`: not NULL, and nothing may be accessed through it.
pub mod Files
use mtappender_file.Prelude.{
  ℕ, ◌+◌, ◌-◌, ◌%◌, ◌^◌, Bool, true, false, Option, none, some, [], ◌++◌, length, take, replicate,
  if◌then◌else◌, ◌>>=◌, Bytes, Ptr, target, memcpy, load,
}

-- `mtaf_mmapped_file`. A descriptor of -1 is `none`.
pub record MmapFile : Type 0 where
  pub mmap_fd : Option ℕ
  pub offset : ℕ
  pub size : ℕ
  pub is_open : Bool
  pub start : Ptr

-- The operating system at one call of `mtaf_open_mmap`: whether `open` succeeds, with O_CREAT or
-- without, and with which descriptor; what the file holds; whether `ftruncate` and `mmap` succeed.
pub record MmapOs : Type 0 where
  pub opens : Bool → Bytes → Option ℕ
  pub stored : Bytes → Bytes
  pub truncates : Bool
  pub maps : Bool

abbrev pub lost : Ptr
lost = some []

-- `ftruncate`: cut, or lengthened by zero bytes.
abbrev pub truncated : Bytes → ℕ → Bytes
truncated f n = take n f ++ replicate (n - length f) 0

-- What is mapped: the first `n` bytes, as far as the file reaches.
abbrev pub mapping : MmapOs → Bytes → ℕ → Ptr
mapping os path n =
    if os.maps
    then some (take n (if os.truncates then truncated (os.stored path) n else os.stored path))
    else lost

-- `mtaf_close_mmap`.
pub close_mmap : MmapFile → MmapFile
close_mmap mt = record { mmap_fd = none; offset = 0; size = mt.size; is_open = false; start = lost }

abbrev pub opened : MmapOs → MmapFile → Bytes → ℕ → Option ℕ → MmapFile × Bool
opened os mt path n none = (record mt { mmap_fd = none }, false)
opened os mt path n (some fd) = (
  record { mmap_fd = some fd; offset = 0; size = n; is_open = true; start = mapping os path n },
  true,
)

-- `mtaf_open_mmap`: `true` for a result of 0, `false` for -1. The results of `ftruncate` and `mmap`
-- are not looked at.
pub open_mmap : MmapOs → Option MmapFile → Bytes → ℕ → Bool → Option MmapFile × Bool
open_mmap os none path n is_read = (none, false)
open_mmap os (some mt) path n is_read =
    let ready = if mt.is_open then close_mmap mt else mt in
    let (r, done) = opened os ready path n (os.opens (if is_read then false else true) path) in
    (some r, done)

-- `mtaf_write_mmap`.
pub write_mmap : MmapFile → Bytes → Option MmapFile
write_mmap mt src = do
  q ← memcpy mt.start mt.offset src
  some (record mt { start = q; offset = (mt.offset + length src) % 2 ^ 32 })

-- `mtaf_read_mmap`.
pub read_mmap : MmapFile → ℕ → Option (Bytes × MmapFile)
read_mmap mt n = do
  out ← load mt.start mt.offset n
  some (out, record mt { offset = (mt.offset + n) % 2 ^ 32 })
