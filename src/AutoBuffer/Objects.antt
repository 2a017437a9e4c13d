-- ===== src/AutoBuffer/Objects.antt =====
-- The member templates of comm/mtaf_autobuffer.h, which write and read the bytes of an object, those
-- that write a C string, and the small members of comm/mtaf_autobuffer.cc.
pub mod RoundTrip
use mtappender_file.Prelude.{
  ℕ, ◌+◌, ◌≤◌, ◌≡◌, ◌∙◌, sym, ap, arith, Option, some, none, length, ◌++◌, drop, List, [], ◌∷◌,
  ◌>>=◌, Bytes, Layout,
}
use mtappender_file.PtrBuffer.{c_text}
use mtappender_file.AutoBuffer.{
  AutoBuffer, Allocator, reset, write, write_at, write_advance, read, read_at, read_advance,
}

-- `Pos()`, `Length()` and `Capacity()`.
abbrev pub pos : AutoBuffer → ℕ
pos b = b.pos

abbrev pub length_of : AutoBuffer → ℕ
length_of b = b.len

abbrev pub capacity : AutoBuffer → ℕ
capacity b = b.capacity

-- The destructor.
abbrev pub destroy : AutoBuffer → AutoBuffer
destroy b = reset b

-- `Write` of a C string: at the cursor, at a position, and at one that it moves on.
pub write_string : Allocator → AutoBuffer → Bytes → Option AutoBuffer
write_string a b val = write a b (c_text val)

pub write_string_at : Allocator → AutoBuffer → ℕ → Bytes → Option AutoBuffer
write_string_at a b npos val = write_at a b (c_text val) npos

pub write_string_advance : Allocator → AutoBuffer → ℕ → Bytes → Option (AutoBuffer × ℕ)
write_string_advance a b npos val = write_advance a b (c_text val) npos

module _ {ℓ} {A : Type ℓ} (o : Layout A) where
  -- `Write` of an object in the same three ways.
  pub write_object : Allocator → AutoBuffer → A → Option AutoBuffer
  write_object a b x = write a b (o.encode x)

  pub write_object_at : Allocator → AutoBuffer → ℕ → A → Option AutoBuffer
  write_object_at a b npos x = write_at a b (o.encode x) npos

  pub write_object_advance : Allocator → AutoBuffer → ℕ → A → Option (AutoBuffer × ℕ)
  write_object_advance a b npos x = write_advance a b (o.encode x) npos

  -- The object after `out` has been copied over its first bytes.
  abbrev pub copied_over : A → Bytes → A
  copied_over old out = o.decode (out ++ drop (length out) (o.encode old))

  -- `Read` of an object that has a value, with the count that it returns.
  pub read_object : AutoBuffer → A → Option (A × ℕ × AutoBuffer)
  read_object b old = do (out, c) ← read b o.size; some (copied_over old out, length out, c)

  pub read_object_at : AutoBuffer → ℕ → A → Option (A × ℕ)
  read_object_at b npos old = do out ← read_at b o.size npos; some (copied_over old out, length out)

  pub read_object_advance : AutoBuffer → ℕ → A → Option (A × ℕ × ℕ)
  read_object_advance b npos old = do
    (out, next) ← read_advance b o.size npos
    some (copied_over old out, length out, next)

  -- Objects written one behind the other, and read back into others.
  pub write_objects : Allocator → AutoBuffer → List A → Option AutoBuffer
  write_objects a b [] = some b
  write_objects a b (x ∷ xs) = write_object a b x >>= λ c. write_objects a c xs

  pub read_objects : AutoBuffer → List A → Option (List A × AutoBuffer)
  read_objects b [] = some ([], b)
  read_objects b (old ∷ olds) = do
    (x, n, c) ← read_object b old
    (xs, d) ← read_objects c olds
    some (x ∷ xs, d)
