-- ===== src/LogBuffer/Reader.antt =====
-- Readme.md, "Attention for reading stored data": how the mapped file is read back. The reader is
-- not in the repository; this is the rule that its users are told to follow.
use mtappender_file.Prelude.{
  ℕ, zero, suc, ◌+◌, ◌^◌, ◌<◌, ◌≡◌, ◌≢◌, refl, ◌∙◌, sym, ap, arith, Bool, true, false, some, [],
  ◌∷◌, ◌++◌, ◌&&◌, length, length-append, take, take_of_length_le, drop, ◌==◌, if◌then◌else◌,
  if_false, Bytes, target, overwrite, target-overwrite_ptr,
}
use mtappender_file.AutoBuffer.{AutoBuffer, Allocator}
use mtappender_file.AutoBuffer.Valid.{contents}
use mathlib.Core.Path.{subst}
use mtappender_file.LogBuffer.{LogBuffer, append, flush}
use mtappender_file.LogBuffer.Flush.{StartsText, Accepts, IsReady-IsBacked, flush_text}
use mtappender_file.LogBuffer.Append.{HasEndMark, IsReady, text, cleared, length-text, append_lem}

abbrev zero_at : Bytes → ℕ → Bool
zero_at [] i = false
zero_at (x ∷ m) zero = x == 0
zero_at (x ∷ m) (suc i) = zero_at m i

-- Three zero bytes: what follows is dirty data.
abbrev is_end_mark : Bytes → Bool
is_end_mark m = zero_at m 0 && zero_at m 1 && zero_at m 2

-- The bytes of a mapped file before the first end mark.
pub read_back : Bytes → Bytes
read_back [] = []
read_back (x ∷ m) = if is_end_mark (x ∷ m) then [] else x ∷ read_back m

abbrev pub NoZero : Bytes → Type 0
NoZero [] = Unit
NoZero (x ∷ m) = (x ≢ 0) × NoZero m

-- A text without zero bytes, followed by an end mark, is read back whole.
read_back_lem :
    (xs m : Bytes)
    → NoZero xs
    → take (length xs) m ≡ xs
    → take 4 (drop (length xs) m) ≡ 0 ∷ 0 ∷ 0 ∷ 13 ∷ []
    → read_back m ≡ xs
unfolding read_back
read_back_lem [] (x ∷ y ∷ z ∷ m) n h e = ground arith
read_back_lem [] [] n h e = refl
read_back_lem [] (x ∷ []) n h e = ground arith
read_back_lem [] (x ∷ y ∷ []) n h e = ground arith
read_back_lem (c ∷ xs) [] n h e = cc
read_back_lem (c ∷ xs) (x ∷ m) n h e = ground (arith, read_back_lem xs m)

pub read_back-text :
    (l : LogBuffer)
    → IsReady l
    → NoZero (text l)
    → HasEndMark l
    → read_back (target l.buff.parray) ≡ text l
read_back-text l r n mark =
    let total : l.buff.len ≡ length (text l) = sym (length-text l r) in
    read_back_lem (text l) (target l.buff.parray) n
      (ap (λ j. take j (target l.buff.parray)) (sym total))
      (ap (λ j. take 4 (drop j (target l.buff.parray))) (sym total) ∙ mark)

read_back-no_mark :
    (x : ℕ) (m : Bytes) → is_end_mark (x ∷ m) ≡ false → read_back (x ∷ m) ≡ x ∷ read_back m
unfolding read_back
read_back-no_mark x m h = if_false _ _ _ h

first_cleared :
    (x y : ℕ) (src m : Bytes)
    → NoZero (x ∷ y ∷ src)
    → take (length (x ∷ y ∷ src)) m ≡ x ∷ y ∷ src
    → take 4 (drop (length (x ∷ y ∷ src)) m) ≡ 0 ∷ 0 ∷ 0 ∷ 13 ∷ []
    → read_back (overwrite m 0 (0 ∷ [])) ≡ 0 ∷ y ∷ src
first_cleared x y src [] n h e = absurd (omega (arith, ap length h))
first_cleared x y src (z ∷ []) n h e = absurd (omega (arith, ap length h))
first_cleared x y src (z ∷ c ∷ m) n h e =
    let same : c ≡ y = ap second h in
    let text : is_end_mark (0 ∷ c ∷ m) ≡ false = ground (arith, same, n.1.0) in
    read_back-no_mark 0 (c ∷ m) text
    ∙ ap (λ xs. 0 ∷ xs) (read_back_lem (y ∷ src) (c ∷ m) n.1 (ap (drop 1) h) e)
  where
    second : Bytes → ℕ
    second [] = 0
    second (x ∷ []) = 0
    second (x ∷ y ∷ src) = y

-- A flush of a ready log buffer, whose text of at least two bytes has no zero byte and is followed
-- by the end mark, hands the text to a buffer that accepts it and leaves nothing pending. The rule
-- of the readme gave exactly the text before; after it the rule gives a zero byte and then the
-- text without its first byte: what has been stored is read once more.
pub read_back-flush :
    (a : Allocator) (l : LogBuffer) (out : AutoBuffer) (x y : ℕ) (src : Bytes)
    → IsReady l
    → text l ≡ x ∷ y ∷ src
    → NoZero (x ∷ y ∷ src)
    → HasEndMark l
    → Accepts a out (length (x ∷ y ∷ src))
    → (m : LogBuffer) × (d : AutoBuffer) × (flush a l out ≡ some (m, d))
      × (contents d ≡ contents out ++ (x ∷ y ∷ src))
      × (text m ≡ [])
      × (read_back (target l.buff.parray) ≡ x ∷ y ∷ src)
      × (read_back (target m.buff.parray) ≡ 0 ∷ y ∷ src)
read_back-flush a l out x y src r e n mark k =
    let whole : length (x ∷ y ∷ src) ≡ l.buff.len = ap length (sym e) ∙ length-text l r in
    let (d, e', v, at, unit, t) =
      flush_text a l out (IsReady-IsBacked l r) (subst StartsText (sym e) n.0)
        (subst (λ xs. Accepts a out (length xs)) (sym e) k) in
    (
      cleared l,
      d,
      e',
      t ∙ ap (λ xs. contents out ++ xs) e,
      refl,
      read_back-text l r (subst NoZero (sym e) n) mark ∙ e,
      ap read_back (target-overwrite_ptr l.buff.parray 0 (0 ∷ []))
          ∙ first_cleared x y src (target l.buff.parray) n
              (ap (λ j. take j (target l.buff.parray)) whole ∙ e)
              (ap (λ j. take 4 (drop j (target l.buff.parray))) whole ∙ mark),
    )

-- After a write to a ready log buffer of a text without zero bytes, behind one without zero bytes,
-- that leaves more than four bytes of the block, the rule of the readme gives exactly the pending
-- text, whatever older data the rest of the block holds.
read_back-append :
    (l : LogBuffer) (src : Bytes)
    → IsReady l
    → NoZero (text l ++ src)
    → length src < 2 ^ 31
    → l.buff.len + length src + 4 < l.buff.max_len
    → (m : LogBuffer) × (append l src ≡ some (m, true))
      × (text m ≡ text l ++ src)
      × (read_back (target m.buff.parray) ≡ text l ++ src)
read_back-append l src r n small fits =
    let (m, e, r', k, t, mark, memory) = append_lem l src r small in
    let whole : text m ≡ text l ++ src =
      t
      ∙ take_of_length_le l.buff.max_len (text l ++ src)
          (omega (arith, length-append (text l) src, length-text l r)) in
    let marked : HasEndMark m = mark (
      omega (
        arith,
        length-text m r',
        ap length whole,
        k,
        length-append (text l) src,
        length-text l r,
      )) in
    (m, e, whole, read_back-text m r' (subst NoZero (sym whole) n) marked ∙ whole)
