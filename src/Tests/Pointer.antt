-- ===== src/Tests/Pointer.antt =====
-- Runs of the two buffers on small memories.
use mtappender_file.Prelude.{◌+◌, ◌^◌, ◌≡◌, refl, arith, some, [], ◌∷◌, inr, memcpy, memset, Bytes}
use mtappender_file.PtrBuffer.{PtrBuffer}
use mtappender_file.PtrBuffer
use mtappender_file.PtrBuffer.Valid
use mtappender_file.PtrBuffer.Valid.{not-IsValid-seek}
use mtappender_file.PtrBuffer.Write.{written, write_at_lem}
use mtappender_file.PtrBuffer.Append.{Appended, write_lem}

-- "abc", in a memory of 12 bytes.
abbrev abc : PtrBuffer
abc = record {
  parray = some (97 ∷ 98 ∷ 99 ∷ 1 ∷ 2 ∷ 3 ∷ 4 ∷ 5 ∷ 6 ∷ 7 ∷ 8 ∷ 9 ∷ []);
  pos = 3;
  len = 3;
  max_len = 12;
}

abbrev abc_read : PtrBuffer
abc_read = record abc { pos = 1 }

abbrev abcde : PtrBuffer
abcde = record {
  parray = some (97 ∷ 98 ∷ 99 ∷ 100 ∷ 101 ∷ 0 ∷ 0 ∷ 0 ∷ 13 ∷ 7 ∷ 8 ∷ 9 ∷ []);
  pos = 5;
  len = 5;
  max_len = 12;
}

abbrev de : Bytes
de = 100 ∷ 101 ∷ []

abc-IsValid : Valid.IsValid abc
abc-IsValid = omega arith

abc_read-IsValid : Valid.IsValid abc_read
abc_read-IsValid = omega arith

abcde-Appended : Appended abc de abcde
abcde-Appended = record {
  valid = omega arith;
  at_end = refl;
  same_max = refl;
  memory = refl;
  new_len = refl;
  text = refl;
  marked = inr refl;
}

-- Writing and reading back: the bytes are added, and the end mark stands behind them.
write_run : PtrBuffer.write abc de ≡ some abcde
unfolding PtrBuffer.write PtrBuffer.write_at PtrBuffer.seek memcpy memset
write_run = refl

write_at_lem_example : PtrBuffer.write_at abc de 1 ≡ some (written abc de 1)
write_at_lem_example = write_at_lem abc de 1 abc-IsValid (omega arith) (omega arith)

write_lem_example : (c : PtrBuffer) × (PtrBuffer.write abc de ≡ some c) × Appended abc de c
write_lem_example = write_lem abc de abc-IsValid refl (omega arith) (omega arith)

not-IsValid-seek_example : ¬ Valid.IsValid (PtrBuffer.seek abc (2 ^ 32 + 1) PtrBuffer.seek_start)
not-IsValid-seek_example =
    not-IsValid-seek abc (2 ^ 32 + 1) abc-IsValid (omega arith) (omega arith) (omega arith)
