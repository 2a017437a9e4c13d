-- ===== src/Formatter/Holds.antt =====
-- What a buffer of `mtaf_log_formater` holds, and how a line is completed in it.
use mtappender_file.Prelude.{
  ℕ, zero, suc, ◌+◌, ◌-◌, ◌^◌, ◌≤◌, ◌<◌, ◌≡◌, refl, ◌∙◌, sym, ap, arith, Bool, false, some, [], ◌∷◌,
  ◌++◌, append_assoc, length, length-append, length-take, get_elem?, take, take_of_length_le, ◌==◌,
  if◌then◌else◌, Bool-cases, inl, inr, Bytes, target,
}
use mathlib.Core.Path.{ap₂}
use mtappender_file.PtrBuffer.{PtrBuffer}
use mtappender_file.PtrBuffer
use mtappender_file.PtrBuffer.Valid.{IsValid, contents}
use mtappender_file.PtrBuffer.Append.{write_lem}
use mtappender_file.Formatter.{last_byte, end_line}

-- A valid buffer with the cursor at its end.
pub record IsOpen (b : PtrBuffer) : Type 0 where
  pub valid : IsValid b
  pub at_end : b.pos ≡ b.len
  pub block : 4 ≤ b.max_len
  pub bounded : b.max_len < 2 ^ 31

abbrev pub ends_line : Bytes → Bool
ends_line [] = false
ends_line (x ∷ []) = x == b'\n'
ends_line (x ∷ y ∷ m) = ends_line (y ∷ m)

-- A text as a line: with a newline at the end, unless it has one.
abbrev pub as_line : Bytes → Bytes
as_line t = if ends_line t then t else t ++ (b'\n' ∷ [])

last_byte_lem :
    (m xs t : Bytes) (x n : ℕ)
    → take (suc n) m ≡ xs ++ (x ∷ t)
    → length (xs ++ (x ∷ t)) ≡ suc n
    → (c : ℕ) × (get_elem? m n ≡ some c) × ((c == b'\n') ≡ ends_line (x ∷ t))
last_byte_lem [] [] t x n e h = absurd (cc e)
last_byte_lem [] (y ∷ xs) t x n e h = absurd (cc e)
last_byte_lem (z ∷ m) [] [] x zero e h = (z, refl, ground arith)
last_byte_lem (z ∷ m) [] [] x (suc n) e h = absurd (omega arith)
last_byte_lem (z ∷ m) [] (y ∷ t) x zero e h = absurd (omega arith)
last_byte_lem (z ∷ m) [] (y ∷ t) x (suc n) e h = last_byte_lem m [] t y n (tail_eq e) (omega arith)
  where
    tail_eq : {a b : ℕ} {xs ys : Bytes} → ◌≡◌ {A = Bytes} (a ∷ xs) (b ∷ ys) → xs ≡ ys
    tail_eq e = cc
last_byte_lem (z ∷ m) (y ∷ xs) t x zero e h = absurd (omega (arith, length-append xs (x ∷ t)))
last_byte_lem (z ∷ m) (y ∷ xs) t x (suc n) e h = last_byte_lem m xs t x n (tail_eq e) (omega arith)
  where
    tail_eq : {a b : ℕ} {xs ys : Bytes} → ◌≡◌ {A = Bytes} (a ∷ xs) (b ∷ ys) → xs ≡ ys
    tail_eq e = cc

pub length-contents : (b : PtrBuffer) → IsValid b → length (contents b) ≡ b.len
length-contents b v = omega (arith, length-take b.len (target b.parray), v.fits, v.backed)

-- `b` holds `xs`, and is open.
pub record Holds (b : PtrBuffer) (xs : Bytes) : Type 0 where
  pub ready : IsOpen b
  pub text : contents b ≡ xs

-- A write that fits is appended whole.
pub write_fits :
    (b : PtrBuffer) (xs src : Bytes)
    → Holds b xs
    → length xs + length src ≤ b.max_len
    → (c : PtrBuffer) × (PtrBuffer.write b src ≡ some c)
      × Holds c (xs ++ src)
      × (c.max_len ≡ b.max_len)
write_fits b xs src h fits =
    let o = h.ready in
    let held : b.len ≡ length xs = sym (length-contents b o.valid) ∙ ap length h.text in
    let (c, e, a) = write_lem b src o.valid o.at_end o.block (omega (arith, o.bounded, held)) in
    (
      c,
      e,
      record {
        ready = record {
          valid = a.valid;
          at_end = a.at_end;
          block = omega (arith, a.same_max, o.block);
          bounded = omega (arith, a.same_max, o.bounded);
        };
        text =
            a.text
            ∙ ap₂ (λ ys zs. ys ++ zs) h.text
                (take_of_length_le (b.max_len - b.len) src (omega (arith, held)));
      },
      a.same_max,
    )

-- After a text of at least one byte, `end_line` completes the line.
pub end_line_lem :
    (b : PtrBuffer) (xs t : Bytes) (x : ℕ)
    → Holds b (xs ++ (x ∷ t))
    → length (xs ++ (x ∷ t)) + 1 ≤ b.max_len
    → (c : PtrBuffer) × (end_line b ≡ some c)
      × Holds c (xs ++ as_line (x ∷ t))
      × (c.max_len ≡ b.max_len)
unfolding end_line
end_line_lem b xs t x h fits =
    let (c, e, l) =
      last_byte_lem (target b.parray) xs t x (b.len - 1)
        (ap (λ n. take n (target b.parray)) back ∙ h.text) (omega (arith, total, some_byte)) in
    let byte : last_byte b ≡ some c =
      rw (later b.pos (omega (arith, some_byte, h.ready.at_end)))
        (ap (λ n. get_elem? (target b.parray) (n - 1)) h.ready.at_end ∙ e) in
    elim (Bool-cases (ends_line (x ∷ t))) [
      | inl done ↦ (
        b,
        rw (byte, l, done),
        record { ready = h.ready; text = h.text ∙ ap (λ ys. xs ++ ys) (rw done) },
        refl,
      )
      | inr more ↦
          let (d, e', h', m) = write_fits b (xs ++ (x ∷ t)) (b'\n' ∷ []) h fits in
          (
            d,
            rw (byte, l, more) e',
            record {
              ready = h'.ready;
              text = h'.text ∙ append_assoc xs (x ∷ t) (b'\n' ∷ []) ∙ ap (λ ys. xs ++ ys) (rw more);
            },
            m,
          )
    ]
  where
    total : b.len ≡ length (xs ++ (x ∷ t))
    total = sym (length-contents b h.ready.valid) ∙ ap length h.text

    some_byte : 0 < b.len
    some_byte = omega (arith, total, length-append xs (x ∷ t))

    back : suc (b.len - 1) ≡ b.len
    back = omega (arith, some_byte)

    later : (n : ℕ) → 0 < n → (n == 0) ≡ false
    later n h = ground arith
