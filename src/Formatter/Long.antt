-- ===== src/Formatter/Long.antt =====
-- A header that is longer than what is printed of it.
use mtappender_file.Prelude.{
  ℕ, ◌+◌, ◌≤◌, ◌≡◌, refl, ◌∙◌, sym, ap, arith, Option, some, [], ◌∷◌, ◌++◌, append_assoc, length,
  length-append, length-take, get_elem?, take, ◌>>=◌, add64_lem, Bytes, target, overwrite_ptr,
  target-overwrite_ptr, take-overwrite_end, memcpy_lem,
}
use mtappender_file.PtrBuffer.{PtrBuffer}
use mtappender_file.PtrBuffer.Valid.{IsValid, contents, set_length_lem}
use mtappender_file.Formatter.{
  Zone, LogInfo, header, level_of, time_text, string_or_empty, snprintf, advance, put_header,
}
use mtappender_file.Formatter.Holds.{IsOpen, length-contents}
use mtappender_file.Formatter.Header.{get_elem?-take, get_elem?-append_last}

print_long :
    (b : PtrBuffer) (s : Bytes)
    → IsOpen b
    → 1024 ≤ length s
    → b.len + length s ≤ b.max_len
    → (c : PtrBuffer) × ((snprintf b.parray b.pos 1024 s >>= λ q.
          some (advance (record b { parray = q }) (length s)))
        ≡ some c)
      × (c.len ≡ b.len + length s)
      × (get_elem? (contents c) (b.len + 1023) ≡ some 0)
unfolding snprintf
print_long b s o long fits = (
  record b {
    parray = overwrite_ptr b.parray b.len (take 1023 s ++ (0 ∷ []));
    pos = b.len + length s;
    len = b.len + length s;
  },
  rw
      (
        memcpy_lem b.parray b.pos (take 1023 s ++ (0 ∷ []))
            (omega (arith, whole, v.backed, o.at_end)),
        add64_lem b.pos (length s) (omega (arith, v.small, o.at_end)),
        add64_lem b.len (length s) (omega (arith, v.small)),
        o.at_end,
        set_length_lem
            (record b {
              parray = overwrite_ptr b.parray b.len (take 1023 s ++ (0 ∷ []));
              pos = b.len;
            })
            (b.len + length s) v.small (omega (arith, v.small)),
      )
      (ap
        (λ n. some (record b {
          parray = overwrite_ptr b.parray b.len (take 1023 s ++ (0 ∷ []));
          pos = n;
          len = n;
        }))
        (omega arith)),
  refl,
  get_elem?-take _ (b.len + length s) (b.len + 1023) (omega arith)
      ∙ ap (λ m. get_elem? m (b.len + 1023))
          (target-overwrite_ptr b.parray b.len (take 1023 s ++ (0 ∷ [])))
      ∙ sym (get_elem?-take _ (b.len + 1024) (b.len + 1023) (omega arith))
      ∙ ap (λ m. get_elem? m (b.len + 1023))
          (take-overwrite_end (target b.parray) b.len (take 1023 s ++ (0 ∷ [])) (b.len + 1024)
              (omega (arith, whole, v.backed)) (omega (arith, whole))
            ∙ sym (append_assoc (contents b) (take 1023 s) (0 ∷ [])))
      ∙ get_elem?-append_last (contents b ++ take 1023 s) 0 (b.len + 1023) (
          omega (
            arith,
            length-append (contents b) (take 1023 s),
            length-contents b v,
            length-take 1023 s,
          )),
)
  where
    v : IsValid b
    v = o.valid

    whole : length (take 1023 s ++ (0 ∷ [])) ≡ 1024
    whole = omega (arith, length-append (take 1023 s) (0 ∷ []), length-take 1023 s)

-- A header of 1024 bytes or more is cut, yet counted in full, if so many bytes are free behind the
-- cursor at the end of the contents: behind its first 1023 bytes the contents have a zero byte.
pub put_header-long :
    (z : Zone) (b : PtrBuffer) (info : LogInfo) (body : Option Bytes) (level : ℕ)
    → IsOpen b
    → level_of info body ≡ some level
    → 1024 ≤ length (header level (time_text z info) (string_or_empty info.tag))
    → b.len + length (header level (time_text z info) (string_or_empty info.tag)) ≤ b.max_len
    → (c : PtrBuffer) × (put_header z b (some info) body ≡ some c)
      × (c.len ≡ b.len + length (header level (time_text z info) (string_or_empty info.tag)))
      × (get_elem? (contents c) (b.len + 1023) ≡ some 0)
unfolding put_header
put_header-long z b info body level o known long fits =
    let s = header level (time_text z info) (string_or_empty info.tag) in
    let (c, e, l, mark) = print_long b s o long fits in (c, rw known e, l, mark)
