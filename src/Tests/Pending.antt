-- ===== src/Tests/Pending.antt =====
-- Runs of the log buffer.
use mtappender_file.Prelude.{◌≡◌, refl, arith, true, some, List, [], ◌∷◌, ◌++◌, Bytes, target}
use mathlib.Core.List.{flatten}
use mtappender_file.AutoBuffer.{AutoBuffer, Allocator}
use mtappender_file.AutoBuffer
use mtappender_file.AutoBuffer.Valid
use mtappender_file.LogBuffer.{LogBuffer, flush}
use mtappender_file.LogBuffer.Append.{IsReady, text, AllShort, write_all}
use mtappender_file.LogBuffer.Flush.{Accepts, flush-write_all}
use mtappender_file.LogBuffer.Reader.{NoZero, read_back, read_back-flush}

abbrev heap : Allocator
heap = record { grants = λ n. true; junk = λ k. 7 }

-- A block of 12 bytes that an earlier run has left: "hi", an end mark, and older bytes.
abbrev block : Bytes
block = 104 ∷ 105 ∷ 0 ∷ 0 ∷ 0 ∷ 13 ∷ 7 ∷ 7 ∷ 7 ∷ 7 ∷ 7 ∷ 7 ∷ []

abbrev pending : LogBuffer
pending = record { buff = record { parray = some block; pos = 2; len = 2; max_len = 12 } }

abbrev nothing : LogBuffer
nothing = record { buff = record { parray = some block; pos = 0; len = 0; max_len = 12 } }

abbrev bang : Bytes
bang = 33 ∷ []

abbrev texts : List Bytes
texts = (97 ∷ []) ∷ (98 ∷ 99 ∷ []) ∷ []

abbrev out : AutoBuffer
out = AutoBuffer.empty 128

pending-IsReady : IsReady pending
pending-IsReady = record {
  valid = omega arith;
  at_end = refl;
  block = omega arith;
  bounded = omega arith;
}

nothing-IsReady : IsReady nothing
nothing-IsReady = record {
  valid = omega arith;
  at_end = refl;
  block = omega arith;
  bounded = omega arith;
}

texts-AllShort : AllShort texts
texts-AllShort = (omega arith, (omega arith, tt))

Accepts-12 : Accepts heap out 12
Accepts-12 = record { valid = omega arith; at_end = refl; small = omega arith; granted = refl }

Accepts-3 : Accepts heap out 3
Accepts-3 = record { valid = omega arith; at_end = refl; small = omega arith; granted = refl }

NoZero-hi : NoZero (104 ∷ 105 ∷ [])
NoZero-hi = (λ e. absurd (omega (arith, e)), (λ e. absurd (omega (arith, e)), tt))

flush-write_all_example :
    (m : LogBuffer) × (k : LogBuffer) × (d : AutoBuffer) × (write_all nothing texts ≡ some m)
    × (flush heap m out ≡ some (k, d))
    × IsReady k
    × (text k ≡ [])
    × (Valid.contents d ≡ Valid.contents out ++ flatten texts)
unfolding flatten
flush-write_all_example =
    flush-write_all heap nothing texts out nothing-IsReady refl texts-AllShort (omega arith)
      (λ e. absurd (omega (arith, e))) Accepts-3

read_back-flush_example :
    (m : LogBuffer) × (d : AutoBuffer) × (flush heap pending out ≡ some (m, d))
    × (Valid.contents d ≡ Valid.contents out ++ (104 ∷ 105 ∷ []))
    × (text m ≡ [])
    × (read_back (target pending.buff.parray) ≡ 104 ∷ 105 ∷ [])
    × (read_back (target m.buff.parray) ≡ 0 ∷ 105 ∷ [])
read_back-flush_example =
    read_back-flush heap pending out 104 105 [] pending-IsReady refl NoZero-hi refl
      (record { valid = omega arith; at_end = refl; small = omega arith; granted = refl })
