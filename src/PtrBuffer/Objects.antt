-- ===== src/PtrBuffer/Objects.antt =====
-- The member templates of comm/mtaf_ptrbuffer.h, which write and read the bytes of an object, and the
-- small members of comm/mtaf_ptrbuffer.cc.
use mtappender_file.Prelude.{ℕ, Option, some, length, ◌++◌, drop, ◌>>=◌, Bytes, Ptr, target, Layout}
use mtappender_file.PtrBuffer.{PtrBuffer, write, write_at, read, attach, null}

-- `Attach` of a buffer that is full.
abbrev pub attach_full : Ptr → ℕ → PtrBuffer
attach_full p n = attach p n n

-- `Ptr()`, `Pos()`, `Length()` and `MaxLength()`.
abbrev pub ptr : PtrBuffer → Bytes
ptr b = target b.parray

abbrev pub pos : PtrBuffer → ℕ
pos b = b.pos

abbrev pub length_of : PtrBuffer → ℕ
length_of b = b.len

abbrev pub max_length : PtrBuffer → ℕ
max_length b = b.max_len

module _ {ℓ} {A : Type ℓ} (o : Layout A) where
  -- `Write(_val)` and `Write(_nPos, _val)`.
  pub write_object : PtrBuffer → A → Option PtrBuffer
  write_object b x = write b (o.encode x)

  pub write_object_at : PtrBuffer → ℕ → A → Option PtrBuffer
  write_object_at b npos x = write_at b (o.encode x) npos

  -- `Read(_val)`, into an object that has a value: where fewer bytes are left, its last bytes stay.
  pub read_object : PtrBuffer → A → Option (A × PtrBuffer)
  read_object b old = do
    (out, c) ← read b o.size
    some (o.decode (out ++ drop (length out) (o.encode old)), c)

-- The constructors, and `KNullPtrBuffer`.
abbrev pub construct : Ptr → ℕ → ℕ → PtrBuffer
construct p n m = record { parray = p; pos = 0; len = n; max_len = m }

abbrev pub construct_full : Ptr → ℕ → PtrBuffer
construct_full p n = record { parray = p; pos = 0; len = n; max_len = n }

abbrev pub construct_null : PtrBuffer
construct_null = null
