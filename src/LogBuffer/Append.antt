-- ===== src/LogBuffer/Append.antt =====
-- `Write`: the log text as a bounded sequence of bytes.
use mtappender_file.Prelude.{
  ℕ, ◌+◌, ◌-◌, ◌^◌, ◌≤◌, ◌<◌, ◌≡◌, refl, ◌∙◌, sym, ap, arith, Bool, true, false, Option, some, List,
  [], ◌∷◌, ◌++◌, append_assoc, append-nil, length, length-take, take, drop, take-append_add,
  take_of_length_le, take-append_take, ◌==◌, Bool-cases, inl, inr, ◌>>=◌, Bytes, target, memset,
  memcpy_lem, overwrite_ptr, length-overwrite_ptr, ==_iff,
}
use mathlib.Core.List.{flatten}
use mathlib.Core.Path.{ap₂}
use mtappender_file.PtrBuffer.Valid.{contents, set_length_lem}
use mtappender_file.PtrBuffer.Valid
use mtappender_file.PtrBuffer.Append.{mark_of, write_lem as buffer_write}
use mtappender_file.LogBuffer.{LogBuffer, clear, reset, prepare, append, write}

-- A log buffer as it is used after the flush that follows its construction.
pub record IsReady (l : LogBuffer) : Type 0 where
  pub valid : Valid.IsValid l.buff
  pub at_end : l.buff.pos ≡ l.buff.len
  pub block : 4 ≤ l.buff.max_len
  pub bounded : l.buff.max_len < 2 ^ 31

-- The pending text.
abbrev pub text : LogBuffer → Bytes
text l = contents l.buff

pub length-text : (l : LogBuffer) → IsReady l → length (text l) ≡ l.buff.len
length-text l r = omega (arith, length-take l.buff.len (target l.buff.parray), r.valid)

-- The end mark stands behind the pending text.
abbrev pub HasEndMark : LogBuffer → Type 0
HasEndMark l = take 4 (drop l.buff.len (target l.buff.parray)) ≡ 0 ∷ 0 ∷ 0 ∷ 13 ∷ []

-- What `clear` leaves: an empty buffer whose first byte is zero.
abbrev pub cleared : LogBuffer → LogBuffer
cleared l = record {
  buff = record l.buff { parray = overwrite_ptr l.buff.parray 0 (0 ∷ []); pos = 0; len = 0 };
}

pub clear_lem :
    (l : LogBuffer)
    → 0 < length (target l.buff.parray)
    → l.buff.max_len < 2 ^ 32
    → clear l ≡ some (cleared l)
unfolding clear memset
clear_lem l h k = rw (memcpy_lem l.buff.parray 0 (0 ∷ []) (omega arith)) (
    ap (λ b. some (record { buff = b }))
      (set_length_lem (record l.buff { parray = overwrite_ptr l.buff.parray 0 (0 ∷ []) }) 0 k
          (omega arith)
        ∙ ap
            (λ n. record l.buff {
              parray = overwrite_ptr l.buff.parray 0 (0 ∷ []);
              pos = n;
              len = n;
            })
            (omega arith)))

pub cleared-IsReady : (l : LogBuffer) → IsReady l → IsReady (cleared l)
cleared-IsReady l r = record {
  valid = record {
    cursor = omega arith;
    fits = omega arith;
    backed = omega (arith, r.valid, length-overwrite_ptr l.buff.parray 0 (0 ∷ []));
    small = r.valid.small;
  };
  at_end = refl;
  block = r.block;
  bounded = r.bounded;
}

-- A write begins with a buffer that holds the same text.
prepare_lem :
    (l : LogBuffer)
    → IsReady l
    → (r : LogBuffer) × (prepare l ≡ some (r, true))
      × IsReady r
      × (text r ≡ text l)
      × (r.buff.len ≡ l.buff.len)
      × (r.buff.max_len ≡ l.buff.max_len)
      × (length (target r.buff.parray) ≡ length (target l.buff.parray))
unfolding prepare reset
prepare_lem l v = elim (Bool-cases (l.buff.len == 0)) [
  | inl none_yet ↦ (
    cleared l,
    rw (none_yet, clear_lem l (omega (arith, v.valid, v.block)) v.valid.small),
    cleared-IsReady l v,
    ap (λ n. take n (target l.buff.parray)) (sym ((==_iff _ _).0 none_yet)),
    sym ((==_iff _ _).0 none_yet),
    refl,
    length-overwrite_ptr l.buff.parray 0 (0 ∷ []),
  )
  | inr some_text ↦ (l, rw some_text, v, refl, refl, refl, refl)
]

take-append :
    (k : ℕ) (xs ys : Bytes) → length xs ≤ k → take k (xs ++ ys) ≡ xs ++ take (k - length xs) ys
take-append k xs ys h =
    ap (λ n. take n (xs ++ ys)) (omega arith) ∙ take-append_add (k - length xs) xs ys

-- Writing a text appends it to the pending text, cut at the block's length, and succeeds.
pub append_lem :
    (l : LogBuffer) (src : Bytes)
    → IsReady l
    → length src < 2 ^ 31
    → (m : LogBuffer) × (append l src ≡ some (m, true))
      × IsReady m
      × (m.buff.max_len ≡ l.buff.max_len)
      × (text m ≡ take l.buff.max_len (text l ++ src))
      × (m.buff.len + 4 < m.buff.max_len → HasEndMark m)
      × (length (target m.buff.parray) ≡ length (target l.buff.parray))
unfolding append
append_lem l src v small =
    let (r, e, w, t, n, x, y) = prepare_lem l v in
    let (c, e', a) = buffer_write r.buff src w.valid w.at_end w.block (omega (arith, w)) in
    (
      record { buff = c },
      rw (e, e'),
      record {
        valid = a.valid;
        at_end = a.at_end;
        block = omega (arith, a.same_max, w.block);
        bounded = omega (arith, a.same_max, w.bounded);
      },
      a.same_max ∙ x,
      a.text
          ∙ ap₂ (λ xs k. xs ++ take k src) t (omega (arith, x, n, length-text l v))
          ∙ sym (take-append l.buff.max_len (text l) src (omega (arith, length-text l v, v.valid))),
      mark_of _ _ _ a,
      a.memory ∙ y,
    )

-- Texts written one after the other.
pub write_all : LogBuffer → List Bytes → Option LogBuffer
write_all l [] = some l
write_all l (src ∷ rest) = write l (some src) >>= λ r. write_all r.0 rest

-- The sizes that a sequence of writes is stated for.
abbrev pub AllShort : List Bytes → Type 0
AllShort [] = Unit
AllShort (src ∷ rest) = (length src < 2 ^ 31) × AllShort rest

-- `Write` of a text, an empty one included.
pub write_lem :
    (l : LogBuffer) (src : Bytes)
    → IsReady l
    → length src < 2 ^ 31
    → (m : LogBuffer) × (done : Bool) × (write l (some src) ≡ some (m, done))
      × IsReady m
      × (m.buff.max_len ≡ l.buff.max_len)
      × (text m ≡ take l.buff.max_len (text l ++ src))
unfolding write
write_lem l [] v h = (
  l,
  false,
  refl,
  v,
  refl,
  sym (
      ap (take l.buff.max_len) (append-nil (text l))
      ∙ take_of_length_le l.buff.max_len (text l) (omega (arith, length-text l v, v.valid))),
)
write_lem l (x ∷ src) v h =
    let (m, e, r, k, t, mark, memory) = append_lem l (x ∷ src) v h in (m, true, e, r, k, t)

-- A sequence of writes of less than 2 ^ 31 bytes each to a ready log buffer leaves the pending text
-- followed by the texts in order, cut at the length of the block: nothing is reordered, and what does
-- not fit is lost from the end.
pub write_all_lem :
    (l : LogBuffer) (srcs : List Bytes)
    → IsReady l
    → AllShort srcs
    → (m : LogBuffer) × (write_all l srcs ≡ some m)
      × IsReady m
      × (m.buff.max_len ≡ l.buff.max_len)
      × (text m ≡ take l.buff.max_len (text l ++ flatten srcs))
unfolding write_all flatten
write_all_lem l [] v h = (
  l,
  refl,
  v,
  refl,
  sym (
      ap (take l.buff.max_len) (append-nil (text l))
      ∙ take_of_length_le l.buff.max_len (text l) (omega (arith, length-text l v, v.valid))),
)
write_all_lem l (src ∷ rest) v h =
    let (m, done, e, r, k, t) = write_lem l src v h.0 in
    let (n, e', r', k', t') = write_all_lem m rest r h.1 in
    (
      n,
      rw e e',
      r',
      k' ∙ k,
      t'
          ∙ ap₂ (λ j xs. take j (xs ++ flatten rest)) k t
          ∙ take-append_take l.buff.max_len (text l ++ src) (flatten rest)
          ∙ ap (take l.buff.max_len) (append_assoc (text l) src (flatten rest)),
    )

-- `Write` of a text of at least one byte succeeds.
pub write_some :
    (l : LogBuffer) (src : Bytes)
    → IsReady l
    → 0 < length src
    → length src < 2 ^ 31
    → (m : LogBuffer) × (write l (some src) ≡ some (m, true))
      × IsReady m
      × (m.buff.max_len ≡ l.buff.max_len)
      × (text m ≡ take l.buff.max_len (text l ++ src))
      × (length (target m.buff.parray) ≡ length (target l.buff.parray))
      × (m.buff.len + 4 < m.buff.max_len → HasEndMark m)
unfolding write
write_some l [] v some_byte h = absurd (omega arith)
write_some l (x ∷ src) v some_byte h =
    let (m, e, r, k, t, mark, memory) = append_lem l (x ∷ src) v h in (m, e, r, k, t, memory, mark)
