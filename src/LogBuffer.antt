-- ===== src/LogBuffer.antt =====
-- loglib/mtaf_log_buffer.cpp and .h: the buffer of pending log text, over memory that is a mapped
-- file or a heap block. The constructor clears `cstream_` and no code sets it, so the guarded calls
-- of zlib's `deflateEnd` are never made and the field is left out; `__Flush` and `__Fix` are empty.
pub mod Append
pub mod Flush
pub mod Reader
use mtappender_file.Prelude.{
  ℕ, Bool, true, false, Option, none, some, [], ◌∷◌, length, ◌==◌, if◌then◌else◌, ◌>>=◌, u32, Bytes,
  Ptr, target, memcpy, memset, load, strnlen,
}
use mtappender_file.PtrBuffer.{PtrBuffer}
use mtappender_file.PtrBuffer
use mtappender_file.AutoBuffer.{AutoBuffer, Allocator}
use mtappender_file.AutoBuffer

pub record LogBuffer : Type 0 where
  pub buff : PtrBuffer

-- The constructor: all of the memory counts as contents until the first flush.
abbrev pub create : Ptr → ℕ → LogBuffer
create p n = record { buff = PtrBuffer.attach p n n }

-- `__Clear`.
unfoldable pub clear : LogBuffer → Option LogBuffer
clear l = do
  q ← memset l.buff.parray 0 0 1
  some (record { buff = PtrBuffer.set_length (record l.buff { parray = q }) 0 0 })

-- `__Reset`.
unfoldable pub reset : LogBuffer → Option (LogBuffer × Bool)
reset l = do c ← clear l; some (c, true)

-- The `if` in `Write`, with the return of `false` that it can make.
unfoldable pub prepare : LogBuffer → Option (LogBuffer × Bool)
prepare l = if l.buff.len == 0 then reset l else some (l, true)

unfoldable pub append : LogBuffer → Bytes → Option (LogBuffer × Bool)
append l src = do
  (r, ready) ← prepare l
  if ready
      then (PtrBuffer.write r.buff src >>= λ b. some (record { buff = b }, true))
      else some (r, false)

-- `Write(_data, _length)`: NULL, or the bytes of the text.
unfoldable pub write : LogBuffer → Ptr → Option (LogBuffer × Bool)
write l none = some (l, false)
write l (some []) = some (l, false)
write l (some (x ∷ src)) = append l (x ∷ src)

-- `Flush(_buff)`.
unfoldable pub flush : Allocator → LogBuffer → AutoBuffer → Option (LogBuffer × AutoBuffer)
flush a l out =
    if u32 (strnlen (target l.buff.parray) l.buff.len) == 0
    then (clear l >>= λ c. some (c, out))
    else (load l.buff.parray 0 l.buff.len >>= λ text.
        AutoBuffer.write a out text >>= λ filled. clear l >>= λ c. some (c, filled))

-- The static `Write(_data, _input_len, _output, _output_len)`: the output memory and the length, or
-- `none` inside for a return of `false`.
unfoldable pub write_static : Ptr → Ptr → Option (Option (Ptr × ℕ))
write_static none output = some none
write_static (some []) output = some none
write_static (some (x ∷ src)) none = some none
write_static (some (x ∷ src)) (some m) = do
  q ← memcpy (some m) 0 (x ∷ src)
  some (some (q, length (x ∷ src)))

-- `GetData`.
abbrev pub get_data : LogBuffer → PtrBuffer
get_data l = l.buff
