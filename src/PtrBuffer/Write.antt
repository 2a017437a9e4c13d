-- ===== src/PtrBuffer/Write.antt =====
-- `PtrBuffer::Write`: no access out of bounds, and what the buffer holds afterwards.
use mtappender_file.Prelude.{
  ℕ, zero, suc, ◌+◌, ◌-◌, ◌≤◌, ◌≡◌, refl, ◌∙◌, arith, some, [], ◌∷◌, ◌++◌, length, take, drop,
  length-take, ltb, if◌then◌else◌, Bool-cases, inl, inr, true, ltb→lt, ◌>>=◌, add64, sub64_lem,
  Bytes, Ptr, target, overwrite_ptr, memset, memcpy_lem, length-overwrite_ptr, target-overwrite_ptr,
  take-overwrite, take-overwrite_end, overwrite, min, max,
}
use mtappender_file.PtrBuffer.{PtrBuffer, terminate, write_at}
use mtappender_file.PtrBuffer.Valid.{IsValid}

-- How much of a text of `n` bytes a write at `npos` takes.
abbrev pub room : PtrBuffer → ℕ → ℕ → ℕ
room b n npos = min n (b.max_len - npos)

abbrev terminated : Ptr → ℕ → Ptr
terminated p off = overwrite_ptr (overwrite_ptr p off (0 ∷ 0 ∷ 0 ∷ [])) (off + 3) (13 ∷ [])

-- The buffer after a write, as total functions give it.
abbrev pub written_len : PtrBuffer → Bytes → ℕ → ℕ
written_len b src npos = max b.len (npos + room b (length src) npos)

abbrev pub copied : PtrBuffer → Bytes → ℕ → Ptr
copied b src npos = overwrite_ptr b.parray npos (take (room b (length src) npos) src)

abbrev pub written : PtrBuffer → Bytes → ℕ → PtrBuffer
written b src npos = record b {
  parray =
      if ltb (written_len b src npos) (b.max_len - 4)
      then terminated (copied b src npos) (npos + room b (length src) npos)
      else copied b src npos;
  len = written_len b src npos;
}

length-terminated : (p : Ptr) (off : ℕ) → length (target (terminated p off)) ≡ length (target p)
length-terminated p off =
    length-overwrite_ptr (overwrite_ptr p off (0 ∷ 0 ∷ 0 ∷ [])) (off + 3) (13 ∷ [])
    ∙ length-overwrite_ptr p off (0 ∷ 0 ∷ 0 ∷ [])

terminate_lem :
    (p : Ptr) (off : ℕ) → off + 4 ≤ length (target p) → terminate p off ≡ some (terminated p off)
unfolding memset
terminate_lem p off h = rw (memcpy_lem p off (0 ∷ 0 ∷ 0 ∷ []) (omega arith)) (
    memcpy_lem (overwrite_ptr p off (0 ∷ 0 ∷ 0 ∷ [])) (off + 3) (13 ∷ [])
      (omega (arith, length-overwrite_ptr p off (0 ∷ 0 ∷ 0 ∷ []))))

zero_add : (n : ℕ) → 0 + n ≡ n
zero_add n = omega arith

shift : (off : ℕ) → suc off + 3 ≡ suc (off + 3)
shift off = omega arith

length-copied :
    (b : PtrBuffer) (src : Bytes) (npos : ℕ)
    → length (target (copied b src npos)) ≡ length (target b.parray)
length-copied b src npos = length-overwrite_ptr b.parray npos (take (room b (length src) npos) src)

-- The last part of `Write`: the terminator, where there is room for it.
finish :
    (b : PtrBuffer) (src : Bytes) (npos : ℕ)
    → IsValid b
    → 4 ≤ b.max_len
    → ((if ltb (written_len b src npos) (b.max_len - 4)
          then terminate (copied b src npos) (npos + room b (length src) npos)
          else some (copied b src npos))
        >>= λ q. some (record b { parray = q; len = written_len b src npos }))
      ≡ some (written b src npos)
finish b src npos v four = elim (Bool-cases (ltb (written_len b src npos) (b.max_len - 4))) [
  | inl yes_room ↦
      rw yes_room
        (rw (terminate_lem (copied b src npos) (npos + room b (length src) npos) (bound yes_room)))
  | inr no_room ↦ rw no_room
]
  where
    bound :
        ltb (written_len b src npos) (b.max_len - 4) ≡ true
        → npos + room b (length src) npos + 4 ≤ length (target (copied b src npos))
    bound e = omega (arith, ltb→lt _ _ e, length-copied b src npos, v.backed)

-- In a valid buffer of at least four bytes, a write at or before the end accesses nothing out of
-- bounds, and does what `written` says: it copies what fits, and puts the end mark behind it where
-- the contents leave more than four bytes.
pub write_at_lem :
    (b : PtrBuffer) (src : Bytes) (npos : ℕ)
    → IsValid b
    → 4 ≤ b.max_len
    → npos ≤ b.len
    → write_at b src npos ≡ some (written b src npos)
unfolding write_at
write_at_lem b src npos v four h =
    rw
      (
        sub64_lem b.max_len npos (omega arith) (omega arith),
        sub64_lem b.max_len 4 (omega arith) four,
        sum,
        memcpy_lem b.parray npos (take (room b (length src) npos) src)
            (omega (arith, length-take (room b (length src) npos) src)),
      )
      (finish b src npos v four)
  where
    sum : add64 (room b (length src) npos) npos ≡ npos + room b (length src) npos
    sum = omega arith

target-terminated-take :
    (p : Ptr) (k off : ℕ) → k ≤ off → take k (target (terminated p off)) ≡ take k (target p)
target-terminated-take p k off h =
    rw
      (
        target-overwrite_ptr,
        take-overwrite k (target (overwrite_ptr p off (0 ∷ 0 ∷ 0 ∷ []))) (off + 3) (13 ∷ [])
            (omega arith),
        target-overwrite_ptr,
      )
      (take-overwrite k (target p) off (0 ∷ 0 ∷ 0 ∷ []) h)

-- A write shows its bytes after what stood before it, whether or not the terminator follows.
pub contents-written :
    (b : PtrBuffer) (src : Bytes) (npos : ℕ)
    → IsValid b
    → npos ≤ b.max_len
    → take (npos + room b (length src) npos) (target (written b src npos).parray)
      ≡ take npos (target b.parray) ++ take (room b (length src) npos) src
contents-written b src npos v h = elim (Bool-cases (ltb (written_len b src npos) (b.max_len - 4))) [
  | inl yes_room ↦
      rw yes_room (target-terminated-take (copied b src npos) stop stop (omega arith) ∙ base)
  | inr no_room ↦ rw no_room base
]
  where
    stop : ℕ
    stop = npos + room b (length src) npos

    base :
        take (npos + room b (length src) npos) (target (copied b src npos))
        ≡ take npos (target b.parray) ++ take (room b (length src) npos) src
    base = rw target-overwrite_ptr (
        take-overwrite_end (target b.parray) npos (take (room b (length src) npos) src) _
          (omega (arith, length-take (room b (length src) npos) src, v.backed))
          (omega (arith, length-take (room b (length src) npos) src)))

-- Where the terminator is written, it stands just behind the bytes of the write.
pub terminator-written :
    (b : PtrBuffer) (src : Bytes) (npos : ℕ)
    → IsValid b
    → ltb (written_len b src npos) (b.max_len - 4) ≡ true
    → take 4 (drop (npos + room b (length src) npos) (target (written b src npos).parray))
      ≡ 0 ∷ 0 ∷ 0 ∷ 13 ∷ []
terminator-written b src npos v e = rw e (
    rw (target-overwrite_ptr, target-overwrite_ptr)
      (mark (target (copied b src npos)) (npos + room b (length src) npos)
        (omega (arith, ltb→lt _ _ e, length-copied b src npos, v.backed))))
  where
    mark_front :
        (m : Bytes)
        → 4 ≤ length m
        → take 4 (overwrite (overwrite m 0 (0 ∷ 0 ∷ 0 ∷ [])) 3 (13 ∷ [])) ≡ 0 ∷ 0 ∷ 0 ∷ 13 ∷ []
    mark_front (x ∷ y ∷ z ∷ w ∷ m) h = refl
    mark_front [] h = absurd (omega arith)
    mark_front (x ∷ []) h = absurd (omega arith)
    mark_front (x ∷ y ∷ []) h = absurd (omega arith)
    mark_front (x ∷ y ∷ z ∷ []) h = absurd (omega arith)

    mark :
        (m : Bytes) (off : ℕ)
        → off + 4 ≤ length m
        → take 4 (drop off (overwrite (overwrite m off (0 ∷ 0 ∷ 0 ∷ [])) (off + 3) (13 ∷ [])))
          ≡ 0 ∷ 0 ∷ 0 ∷ 13 ∷ []
    mark m zero h = rw zero_add (mark_front m (omega arith))
    mark [] (suc off) h = absurd (omega arith)
    mark (x ∷ m) (suc off) h = rw (shift off) (mark m off (omega arith))

pub length-written :
    (b : PtrBuffer) (src : Bytes) (npos : ℕ)
    → length (target (written b src npos).parray) ≡ length (target b.parray)
length-written b src npos = elim (Bool-cases (ltb (written_len b src npos) (b.max_len - 4))) [
  | inl yes_room ↦ rw yes_room (
      length-terminated (copied b src npos) (npos + room b (length src) npos)
      ∙ length-copied b src npos)
  | inr no_room ↦ rw no_room (length-copied b src npos)
]
