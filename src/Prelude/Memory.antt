-- ===== src/Prelude/Memory.antt =====
-- Memory as C reads and writes it. A pointer to an allocation is the list of its bytes from that
-- address to the end, `none` is NULL, and an access out of bounds is a fault.
use Prim.Native.Nat.{ℕ, zero, suc, ◌+◌, ◌≤◌, max}
use mathlib.Core.Path.{◌≡◌, refl, ap, ◌∙◌}
use mathlib.Core.Option.{Option, none, some}
use mathlib.Core.List.{List, [], ◌∷◌, ◌++◌}
use native.Mathlib.Omega.{arith}
use mtappender_file.Prelude.Tests.{leb, ◌==◌, if◌then◌else◌, le→leb}
use mtappender_file.Prelude.Lists.{length, take, drop, replicate}

abbrev pub Bytes : Type 0
Bytes = List ℕ

abbrev pub Ptr : Type 0
Ptr = Option Bytes

-- What may be accessed through a pointer.
abbrev pub target : Ptr → Bytes
target none = []
target (some m) = m

-- Replace the front of a memory; what does not fit is lost (`memcpy` faults before that).
abbrev pub put : Bytes → Bytes → Bytes
put [] m = m
put (s ∷ ss) [] = []
put (s ∷ ss) (x ∷ m) = s ∷ put ss m

abbrev pub overwrite : Bytes → ℕ → Bytes → Bytes
overwrite m zero src = put src m
overwrite [] (suc off) src = []
overwrite (x ∷ m) (suc off) src = x ∷ overwrite m off src

abbrev pub overwrite_ptr : Ptr → ℕ → Bytes → Ptr
overwrite_ptr none off src = none
overwrite_ptr (some m) off src = some (overwrite m off src)

-- `memcpy(p + off, src, len)` for the `len` bytes of `src`. Copying no bytes to NULL is allowed.
unfoldable pub memcpy : Ptr → ℕ → Bytes → Option Ptr
memcpy p off src =
    if leb (off + length src) (length (target p)) then some (overwrite_ptr p off src) else none

-- `memset(p + off, v, n)`.
unfoldable pub memset : Ptr → ℕ → ℕ → ℕ → Option Ptr
unfolding memcpy
memset p off v n = memcpy p off (replicate n v)

-- The `n` bytes that a copy out of `p + off` reads.
unfoldable pub load : Ptr → ℕ → ℕ → Option Bytes
load p off n =
    if leb (off + n) (length (target p)) then some (take n (drop off (target p))) else none

-- `strnlen(p, n)`: the bytes before the first zero byte, at most `n`.
unfoldable pub strnlen : Bytes → ℕ → ℕ
strnlen m zero = 0
strnlen [] (suc n) = 0
strnlen (x ∷ m) (suc n) = if x == 0 then 0 else suc (strnlen m n)

length-put : (src m : Bytes) → length (put src m) ≡ length m
length-put [] m = refl
length-put (s ∷ ss) [] = refl
length-put (s ∷ ss) (x ∷ m) = ap suc (length-put ss m)

pub length-overwrite : (m : Bytes) (off : ℕ) (src : Bytes) → length (overwrite m off src) ≡ length m
length-overwrite m zero src = length-put src m
length-overwrite [] (suc off) src = refl
length-overwrite (x ∷ m) (suc off) src = ap suc (length-overwrite m off src)

pub length-overwrite_ptr :
    (p : Ptr) (off : ℕ) (src : Bytes)
    → length (target (overwrite_ptr p off src)) ≡ length (target p)
length-overwrite_ptr none off src = refl
length-overwrite_ptr (some m) off src = length-overwrite m off src

-- A copy within bounds does not fault.
pub memcpy_lem :
    (p : Ptr) (off : ℕ) (src : Bytes)
    → off + length src ≤ length (target p)
    → memcpy p off src ≡ some (overwrite_ptr p off src)
unfolding memcpy
memcpy_lem p off src h = rw (le→leb _ _ h)

-- A write leaves alone what lies before it.
pub take-overwrite :
    (k : ℕ) (m : Bytes) (off : ℕ) (src : Bytes) → k ≤ off → take k (overwrite m off src) ≡ take k m
take-overwrite zero m off src h = refl
take-overwrite (suc k) m zero src h = absurd (omega arith)
take-overwrite (suc k) [] (suc off) src h = refl
take-overwrite (suc k) (x ∷ m) (suc off) src h =
    ap (λ r. x ∷ r) (take-overwrite k m off src (omega arith))

take-put : (src m : Bytes) → length src ≤ length m → take (length src) (put src m) ≡ src
take-put [] m h = refl
take-put (s ∷ ss) [] h = absurd (omega arith)
take-put (s ∷ ss) (x ∷ m) h = ap (λ r. s ∷ r) (take-put ss m (omega arith))

-- Up to its end a write shows what was before it, then the bytes written.
pub take-overwrite_end :
    (m : Bytes) (off : ℕ) (src : Bytes) (k : ℕ)
    → off + length src ≤ length m
    → k ≡ off + length src
    → take k (overwrite m off src) ≡ take off m ++ src
take-overwrite_end m zero src k h e = rw (e, zero_add (length src)) (take-put src m (omega arith))
  where
    zero_add : (n : ℕ) → 0 + n ≡ n
    zero_add n = omega arith
take-overwrite_end [] (suc off) src k h e = absurd (omega arith)
take-overwrite_end (x ∷ m) (suc off) src zero h e = absurd (omega arith)
take-overwrite_end (x ∷ m) (suc off) src (suc k) h e =
    ap (λ r. x ∷ r) (take-overwrite_end m off src k (omega arith) (omega arith))

drop-put : (src m : Bytes) (k : ℕ) → length src ≤ k → drop k (put src m) ≡ drop k m
drop-put [] m k h = refl
drop-put (s ∷ ss) [] k h = refl
drop-put (s ∷ ss) (x ∷ m) zero h = absurd (omega arith)
drop-put (s ∷ ss) (x ∷ m) (suc k) h = drop-put ss m k (omega arith)

-- A write leaves alone what lies behind it.
drop-overwrite :
    (m : Bytes) (off : ℕ) (src : Bytes) (k : ℕ)
    → off + length src ≤ k
    → drop k (overwrite m off src) ≡ drop k m
drop-overwrite m zero src k h = drop-put src m k (omega arith)
drop-overwrite [] (suc off) src k h = refl
drop-overwrite (x ∷ m) (suc off) src zero h = absurd (omega arith)
drop-overwrite (x ∷ m) (suc off) src (suc k) h = drop-overwrite m off src k (omega arith)

-- What a write has written is read back from there.
pub take-drop-overwrite :
    (m : Bytes) (off : ℕ) (src : Bytes)
    → off + length src ≤ length m
    → take (length src) (drop off (overwrite m off src)) ≡ src
take-drop-overwrite m zero src h = take-put src m (omega arith)
take-drop-overwrite [] (suc off) src h = absurd (omega arith)
take-drop-overwrite (x ∷ m) (suc off) src h = take-drop-overwrite m off src (omega arith)

pub target-overwrite_ptr :
    (p : Ptr) (off : ℕ) (src : Bytes)
    → target (overwrite_ptr p off src) ≡ overwrite (target p) off src
target-overwrite_ptr (some m) off src = refl
target-overwrite_ptr none zero [] = refl
target-overwrite_ptr none zero (x ∷ src) = refl
target-overwrite_ptr none (suc off) src = refl

pub length-fill : (n v : ℕ) → length (replicate n v) ≡ n
length-fill zero v = refl
length-fill (suc n) v = ap suc (length-fill n v)

drop-nil : (n : ℕ) → drop {A = ℕ} n [] ≡ []
drop-nil zero = refl
drop-nil (suc n) = refl

put_contents :
    (src m : Bytes) (k n : ℕ)
    → length src ≤ length m
    → n ≡ max (length src) k
    → take n (put src m) ≡ src ++ drop (length src) (take k m)
put_contents [] m k n h e = ap (λ j. take j m) (omega arith)
put_contents (s ∷ ss) [] k n h e = absurd (omega arith)
put_contents (s ∷ ss) (x ∷ m) k zero h e = absurd (omega arith)
put_contents (s ∷ ss) (x ∷ m) zero (suc n) h e =
    ap (λ r. s ∷ r)
      (put_contents ss m zero n (omega arith) (omega arith)
        ∙ ap (λ r. ss ++ r) (drop-nil (length ss)))
put_contents (s ∷ ss) (x ∷ m) (suc k) (suc n) h e =
    ap (λ r. s ∷ r) (put_contents ss m k n (omega arith) (omega arith))

-- The first bytes of a memory after a write that starts among the first `k`.
pub overwrite_contents :
    (m : Bytes) (off : ℕ) (src : Bytes) (k n stop : ℕ)
    → off ≤ k
    → off + length src ≤ length m
    → stop ≡ off + length src
    → n ≡ max stop k
    → take n (overwrite m off src) ≡ take off (take k m) ++ (src ++ drop stop (take k m))
overwrite_contents m zero src k n stop h b s e =
    put_contents src m k n (omega arith) (omega arith)
    ∙ ap (λ j. src ++ drop j (take k m)) (omega arith)
overwrite_contents [] (suc off) src k n stop h b s e = absurd (omega arith)
overwrite_contents (x ∷ m) (suc off) src zero n stop h b s e = absurd (omega arith)
overwrite_contents (x ∷ m) (suc off) src (suc k) zero stop h b s e = absurd (omega arith)
overwrite_contents (x ∷ m) (suc off) src (suc k) (suc n) zero h b s e = absurd (omega arith)
overwrite_contents (x ∷ m) (suc off) src (suc k) (suc n) (suc stop) h b s e =
    ap (λ r. x ∷ r)
      (overwrite_contents m off src k n stop (omega arith) (omega arith) (omega arith)
        (omega arith))
