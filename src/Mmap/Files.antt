-- ===== src/Mmap/Files.antt =====
-- Opening, writing and closing a mapped file.
use mtappender_file.Prelude.{
  ℕ, ◌+◌, ◌-◌, ◌^◌, ◌%◌, ◌≤◌, ◌<◌, ◌≡◌, refl, arith, true, false, if◌then◌else◌, none, some, length,
  length-append, length-take, length-fill, take, replicate, take_of_length_le, le→leb, Bytes,
  target, memcpy, memcpy_lem, load, take-drop-overwrite, length-overwrite_ptr, overwrite_ptr,
  target-overwrite_ptr,
}
use mtappender_file.Mmap.{
  MmapFile, MmapOs, lost, truncated, open_mmap, close_mmap, write_mmap, read_mmap,
}

pub length-truncated : (f : Bytes) (n : ℕ) → length (truncated f n) ≡ n
length-truncated f n = omega (
  arith,
  length-append (take n f) (replicate (n - length f) 0),
  length-take n f,
  length-fill (n - length f) 0,
)

-- If every system call succeeds, a file is mapped at its full size: the bytes that it held, then
-- zero bytes; and it stands open at offset 0.
pub open_mmap_lem :
    (os : MmapOs) (mt : MmapFile) (path : Bytes) (n fd : ℕ)
    → os.opens true path ≡ some fd
    → os.truncates ≡ true
    → os.maps ≡ true
    → (open_mmap os (some mt) path n false ≡ (
      some (record {
        mmap_fd = some fd;
        offset = 0;
        size = n;
        is_open = true;
        start = some (truncated (os.stored path) n);
      }),
      true,
    ))
      × (length (truncated (os.stored path) n) ≡ n)
unfolding open_mmap
open_mmap_lem os mt path n fd o t m = (
  rw (o, t, m)
      (rw (
        take_of_length_le n (truncated (os.stored path) n)
          (omega (arith, length-truncated (os.stored path) n)))),
  length-truncated (os.stored path) n,
)

-- The record of a mapped file whose file could not be opened.
abbrev pub not_mapped : MmapFile → MmapFile
not_mapped mt = record (if mt.is_open then close_mmap mt else mt) { mmap_fd = none }

pub open_mmap-refused :
    (os : MmapOs) (mt : MmapFile) (path : Bytes) (n : ℕ)
    → os.opens true path ≡ none
    → open_mmap os (some mt) path n false ≡ (some (not_mapped mt), false)
unfolding open_mmap
open_mmap-refused os mt path n o = rw o

-- `mtaf_open_mmap` reports success also when the file opens and `mmap` fails: the file counts as
-- open, and a write of at least one byte through its `start` faults.
pub open_mmap-map_failed :
    (os : MmapOs) (mt : MmapFile) (path src : Bytes) (n fd : ℕ)
    → os.opens true path ≡ some fd
    → os.maps ≡ false
    → 0 < length src
    → (r : MmapFile) × (open_mmap os (some mt) path n false ≡ (some r, true))
      × (r.is_open ≡ true)
      × (write_mmap r src ≡ none)
unfolding open_mmap write_mmap memcpy
open_mmap-map_failed os mt path src n fd o m some_byte = (
  record { mmap_fd = some fd; offset = 0; size = n; is_open = true; start = lost },
  rw (o, m),
  refl,
  ground arith,
)

-- What is written at the offset is read back from there.
read_mmap-write_mmap :
    (mt : MmapFile) (src : Bytes)
    → mt.offset + length src ≤ length (target mt.start)
    → length (target mt.start) < 2 ^ 31
    → (w : MmapFile) × (write_mmap mt src ≡ some w)
      × (read_mmap (record w { offset = mt.offset }) (length src) ≡ some (src, w))
unfolding write_mmap read_mmap load
read_mmap-write_mmap mt src h small = (
  record mt {
    start = overwrite_ptr mt.start mt.offset src;
    offset = (mt.offset + length src) % 2 ^ 32;
  },
  rw (memcpy_lem mt.start mt.offset src h),
  rw (
    le→leb (mt.offset + length src) (length (target (overwrite_ptr mt.start mt.offset src)))
        (omega (arith, length-overwrite_ptr mt.start mt.offset src)),
    target-overwrite_ptr,
    take-drop-overwrite (target mt.start) mt.offset src h,
  ),
)
