-- ===== src/Formatter/Header.antt =====
-- The header that a log info adds.
use mtappender_file.Prelude.{
  ℕ, zero, suc, ◌+◌, ◌-◌, ◌*◌, ◌≤◌, ◌<◌, ◌≡◌, refl, ◌∙◌, sym, ap, arith, some, [], ◌∷◌, ◌++◌,
  length, length-append, get_elem?, take, take_of_length_le, take-take, take-append_left,
  take-append_add, ◌>>=◌, add64_lem, Bytes, target, min, overwrite_ptr, target-overwrite_ptr,
  take-overwrite_end, memcpy_lem, length-overwrite_ptr,
}
use mtappender_file.PtrBuffer.{PtrBuffer}
use mtappender_file.PtrBuffer
use mtappender_file.PtrBuffer.Valid.{IsValid, contents, set_length_lem}
use mtappender_file.Formatter.{
  Zone, Stats, LogInfo, header, level_of, time_text, string_or_empty, snprintf, advance, put_header,
  body_text, end_line, format_line, log_formater,
}
use mtappender_file.Formatter.Holds.{as_line, length-contents, Holds}
use mtappender_file.Formatter.Line.{cut_body, body_line, roomy}

-- A header that fits its 1024 bytes is appended whole.
print_lem :
    (b : PtrBuffer) (xs s : Bytes)
    → Holds b xs
    → length s < 1024
    → length xs + 1024 ≤ b.max_len
    → (c : PtrBuffer) × ((snprintf b.parray b.pos 1024 s >>= λ q.
          some (advance (record b { parray = q }) (length s)))
        ≡ some c)
      × Holds c (xs ++ s)
      × (c.max_len ≡ b.max_len)
unfolding snprintf
print_lem b xs s h short room = (
  done,
  rw
      (
        take_of_length_le 1023 s (omega arith),
        memcpy_lem b.parray b.pos (s ++ (0 ∷ [])) fits,
        add64_lem b.pos (length s) (omega (arith, total, v.small, h.ready.at_end)),
        add64_lem b.len (length s) (omega (arith, total, v.small)),
        h.ready.at_end,
        set_length_lem
            (record b { parray = overwrite_ptr b.parray b.len (s ++ (0 ∷ [])); pos = b.len })
            (b.len + length s) v.small (omega (arith, total, v.small)),
      )
      (ap
        (λ n.
          some
            (record b { parray = overwrite_ptr b.parray b.len (s ++ (0 ∷ [])); pos = n; len = n }))
        (omega (arith, total))),
  record {
    ready = record {
      valid = record {
        cursor = omega arith;
        fits = omega (arith, total);
        backed = omega (arith, v.backed, length-overwrite_ptr b.parray b.len (s ++ (0 ∷ [])));
        small = v.small;
      };
      at_end = refl;
      block = h.ready.block;
      bounded = h.ready.bounded;
    };
    text = shown ∙ ap (λ ys. ys ++ s) h.text;
  },
  refl,
)
  where
    v : IsValid b
    v = h.ready.valid

    total : b.len ≡ length xs
    total = sym (length-contents b v) ∙ ap length h.text

    whole : length (s ++ (0 ∷ [])) ≡ length s + 1
    whole = length-append s (0 ∷ [])

    done : PtrBuffer
    done = record b {
      parray = overwrite_ptr b.parray b.len (s ++ (0 ∷ []));
      pos = b.len + length s;
      len = b.len + length s;
    }

    fits : b.pos + length (s ++ (0 ∷ [])) ≤ length (target b.parray)
    fits = omega (arith, whole, total, v.backed, h.ready.at_end)

    shown : contents done ≡ contents b ++ s
    shown =
        ap (take (b.len + length s)) (target-overwrite_ptr b.parray b.len (s ++ (0 ∷ [])))
        ∙ sym (take-take (b.len + length s) (b.len + length s + 1) _ (omega arith))
        ∙ ap (take (b.len + length s)) (
            take-overwrite_end (target b.parray) b.len (s ++ (0 ∷ [])) _
              (omega (arith, whole, total, v.backed)) (omega (arith, whole)))
        ∙ ap (λ n. take (n + length s) (contents b ++ (s ++ (0 ∷ [])))) (sym (length-contents b v))
        ∙ take-append_add (length s) (contents b) (s ++ (0 ∷ []))
        ∙ ap (λ ys. contents b ++ ys)
            (take-append_left (length s) s (0 ∷ []) (omega arith)
              ∙ take_of_length_le (length s) s (omega arith))

pub header_line :
    (b : PtrBuffer) (xs s body : Bytes) (x : ℕ)
    → Holds b xs
    → length s < 1024
    → length xs + 5 * 1024 < b.max_len
    → (c : PtrBuffer) × (((snprintf b.parray b.pos 1024 s >>= λ q.
            some (advance (record b { parray = q }) (length s)))
          >>= λ h. PtrBuffer.write h (body_text h (some (x ∷ body))) >>= λ d. end_line d)
        ≡ some c)
      × Holds c ((xs ++ s) ++ as_line (cut_body b (xs ++ s) (x ∷ body)))
header_line b xs s body x h short room =
    let (c, e, h', m) = print_lem b xs s h short (omega arith) in
    let (d, e', h'') = body_line c (xs ++ s) body x h' (omega (arith, m, length-append xs s)) in
    (
      d,
      rw e e',
      record {
        ready = h''.ready;
        text =
            h''.text
            ∙ ap
                (λ n.
                  (xs ++ s) ++ as_line (take (min (n - length (xs ++ s) - 130) 0xffff) (x ∷ body)))
                m;
      },
    )

-- With a log info of a known level whose header is shorter than 1024 bytes, the header and then
-- the line of a body of at least one byte are appended, whenever more than 5 KB of the buffer are
-- free and its cursor is at the end.
pub log_formater_info :
    (z : Zone) (st : Stats) (b : PtrBuffer) (info : LogInfo) (xs body : Bytes) (x level : ℕ)
    → Holds b xs
    → length xs + 5 * 1024 < b.max_len
    → level_of info (some (x ∷ body)) ≡ some level
    → length (header level (time_text z info) (string_or_empty info.tag)) < 1024
    → let s = header level (time_text z info) (string_or_empty info.tag) in
      (c : PtrBuffer) × (log_formater z st (some info) (some (x ∷ body)) b ≡ some (c, st))
      × Holds c ((xs ++ s) ++ as_line (cut_body b (xs ++ s) (x ∷ body)))
unfolding log_formater format_line put_header
log_formater_info z st b info xs body x level h room known short =
    let (c, e, h') =
      header_line b xs (header level (time_text z info) (string_or_empty info.tag)) body x h short
        room in
    (c, rw (roomy b xs h room, known) (ap (λ o. o >>= λ d. some (d, st)) e), h')

pub get_elem?-take : (m : Bytes) (n i : ℕ) → i < n → get_elem? (take n m) i ≡ get_elem? m i
get_elem?-take m zero i h = absurd (omega arith)
get_elem?-take [] (suc n) i h = refl
get_elem?-take (x ∷ m) (suc n) zero h = refl
get_elem?-take (x ∷ m) (suc n) (suc i) h = get_elem?-take m n i (omega arith)

pub get_elem?-append_last :
    (xs : Bytes) (c i : ℕ) → i ≡ length xs → get_elem? (xs ++ (c ∷ [])) i ≡ some c
get_elem?-append_last [] c zero e = refl
get_elem?-append_last [] c (suc i) e = absurd (omega arith)
get_elem?-append_last (x ∷ xs) c zero e = absurd (omega arith)
get_elem?-append_last (x ∷ xs) c (suc i) e = get_elem?-append_last xs c i (omega arith)
