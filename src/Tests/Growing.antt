-- ===== src/Tests/Growing.antt =====
-- Runs of the growing buffer.
use mtappender_file.Prelude.{
  ◌+◌, ◌≡◌, refl, arith, true, false, none, some, [], ◌∷◌, ◌++◌, memset, minus, Bytes, Layout, ℕ,
}
use mtappender_file.PtrBuffer.{seek_start}
use mtappender_file.AutoBuffer.{AutoBuffer, Allocator, grown, move, write, write_at, seek, fit_size}
use mtappender_file.AutoBuffer.Valid.{IsValid, contents}
use mtappender_file.AutoBuffer.Write.{write_at-refused}
use mtappender_file.AutoBuffer.Objects.{write_objects, read_objects}
use mtappender_file.AutoBuffer.Objects.RoundTrip.{encodes, read_objects-write_objects}
use mtappender_file.AutoBuffer.Move.{move-move}

abbrev heap : Allocator
heap = record { grants = λ n. true; junk = λ k. 7 }

abbrev no_heap : Allocator
no_heap = record { grants = λ n. false; junk = λ k. 7 }

-- "abc", in a block of 4 bytes.
abbrev abc : AutoBuffer
abc = record { parray = some (97 ∷ 98 ∷ 99 ∷ 1 ∷ []); pos = 3; len = 3; capacity = 4; unit = 4 }

abbrev de : Bytes
de = 100 ∷ 101 ∷ []

abbrev ab : Bytes
ab = 97 ∷ 98 ∷ []

abbrev c_only : Bytes
c_only = 99 ∷ []

abc-IsValid : IsValid abc
abc-IsValid = omega arith

-- A write past the block makes it longer.
write_run :
    write heap abc de
    ≡ some (record {
      parray = some (97 ∷ 98 ∷ 99 ∷ 100 ∷ 101 ∷ 0 ∷ 0 ∷ 0 ∷ []);
      pos = 5;
      len = 5;
      capacity = 8;
      unit = 4;
    })
unfolding write write_at fit_size grown seek memset
write_run = refl

-- Objects of one byte.
abbrev byte : Layout ℕ
byte = record {
  size = 1;
  encode = λ n. n ∷ [];
  decode = head_of;
  length_kept = λ n. refl;
  decoded = λ n. refl;
}
  where
    head_of : Bytes → ℕ
    head_of [] = 0
    head_of (x ∷ xs) = x

read_objects-write_objects_example :
    (d : AutoBuffer) × (c : AutoBuffer) × (write_objects byte heap abc de ≡ some d)
    × (read_objects byte (seek d abc.len seek_start) ab ≡ some (de, c))
    × (contents c ≡ contents abc ++ encodes byte de)
    × (c.pos ≡ c.len)
read_objects-write_objects_example =
    read_objects-write_objects byte heap abc de ab (λ n. refl) abc-IsValid refl (omega arith) refl

write_at-refused_example : write_at no_heap abc de 3 ≡ none
write_at-refused_example =
    write_at-refused no_heap abc de 3 (omega arith) (omega arith) (omega arith) refl

move-move_example :
    (c : AutoBuffer) × (d : AutoBuffer) × (move heap abc 2 ≡ some (c, abc.len + 2))
    × (move heap c (minus 2) ≡ some (d, abc.len))
    × IsValid d
    × (d.pos ≡ abc.pos)
    × (contents d ≡ contents abc)
move-move_example = move-move heap abc 2 abc-IsValid (omega arith) (omega arith) refl
