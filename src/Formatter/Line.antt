-- ===== src/Formatter/Line.antt =====
-- The line that `mtaf_log_formater` writes without a log info.
use mtappender_file.Prelude.{
  ℕ, suc, ◌+◌, ◌-◌, ◌*◌, ◌<◌, ◌≡◌, ◌∙◌, sym, ap, arith, true, false, none, some, [], ◌∷◌, ◌++◌,
  length, length-append, length-take, take, take_of_length_le, leb, lt→leb_false, ◌==◌, ◌>>=◌,
  add64, sub64_lem, Bytes, min,
}
use mtappender_file.PtrBuffer.{PtrBuffer}
use mtappender_file.PtrBuffer
use mtappender_file.PtrBuffer.Append.{take-room}
use mtappender_file.Formatter.{
  Zone, Stats, put_header, body_limit, body_text, end_line, format_line, log_formater,
}
use mtappender_file.Formatter.Holds.{as_line, length-contents, Holds, write_fits, end_line_lem}

-- The body as it is written: cut to leave 130 bytes free, and never longer than 0xffff.
abbrev pub cut_body : PtrBuffer → Bytes → Bytes → Bytes
cut_body b xs body = take (min (b.max_len - length xs - 130) 0xffff) body

body_text_lem :
    (b : PtrBuffer) (xs body : Bytes)
    → Holds b xs
    → length xs + 130 < b.max_len
    → body_text b (some body) ≡ cut_body b xs body
body_text_lem b xs body h room = take-room body (body_limit b) ∙ ap (λ n. take n body) limit
  where
    total : b.len ≡ length xs
    total = sym (length-contents b h.ready.valid) ∙ ap length h.text

    limit : body_limit b ≡ min (b.max_len - length xs - 130) 0xffff
    limit =
        rw (sub64_lem b.max_len b.len (omega (arith, h.ready.bounded)) (omega (arith, total, room)))
          (ground (arith, total, room))

-- A body of at least one byte is written as a line behind what the buffer holds, cut to leave 130
-- bytes free.
pub body_line :
    (b : PtrBuffer) (xs body : Bytes) (x : ℕ)
    → Holds b xs
    → length xs + 130 < b.max_len
    → (c : PtrBuffer) × ((PtrBuffer.write b (body_text b (some (x ∷ body))) >>= end_line) ≡ some c)
      × Holds c (xs ++ as_line (cut_body b xs (x ∷ body)))
body_line b xs body x h room =
    let t : Bytes = take (min (b.max_len - length xs - 130) 0xffff - 1) body in
    let cut : cut_body b xs (x ∷ body) ≡ x ∷ t =
      ap (λ n. take n (x ∷ body)) (first (b.max_len - length xs - 130) (omega arith)) in
    let (c, e, h', m) =
      write_fits b xs (x ∷ t) h
        (omega (arith, length-take (min (b.max_len - length xs - 130) 0xffff - 1) body)) in
    let (d, e', h'', m') = end_line_lem c xs t x h' (
      omega (
        arith,
        m,
        length-append xs (x ∷ t),
        length-take (min (b.max_len - length xs - 130) 0xffff - 1) body,
      )) in
    (
      d,
      rw (body_text_lem b xs (x ∷ body) h room, cut, e) e',
      record { ready = h''.ready; text = h''.text ∙ ap (λ ys. xs ++ as_line ys) (sym cut) },
    )
  where
    first : (k : ℕ) → 0 < k → min k 0xffff ≡ suc (min k 0xffff - 1)
    first k h = omega arith

pub roomy :
    (b : PtrBuffer) (xs : Bytes)
    → Holds b xs
    → length xs + 5 * 1024 < b.max_len
    → leb b.max_len (add64 b.len (5 * 1024)) ≡ false
roomy b xs h room = lt→leb_false _ _ (omega (arith, total, h.ready.bounded))
  where
    total : b.len ≡ length xs
    total = sym (length-contents b h.ready.valid) ∙ ap length h.text

-- Without a log info, a body of at least one byte is appended as a line, cut to leave 130 bytes of
-- the buffer free and at 65535 bytes, whenever more than 5 KB of the buffer are free and its
-- cursor is at the end.
pub log_formater_plain :
    (z : Zone) (st : Stats) (b : PtrBuffer) (xs body : Bytes) (x : ℕ)
    → Holds b xs
    → length xs + 5 * 1024 < b.max_len
    → (c : PtrBuffer) × (log_formater z st none (some (x ∷ body)) b ≡ some (c, st))
      × Holds c (xs ++ as_line (cut_body b xs (x ∷ body)))
unfolding log_formater format_line put_header
log_formater_plain z st b xs body x h room =
    let (c, e, h') = body_line b xs body x h (omega arith) in
    (c, rw (roomy b xs h room) (ap (λ o. o >>= λ d. some (d, st)) e), h')

-- An empty body without a log info makes the function look at the byte before the memory, if the
-- buffer is empty and has more than 5 KB.
pub log_formater-empty :
    (z : Zone) (st : Stats) (b : PtrBuffer)
    → Holds b []
    → 5 * 1024 < b.max_len
    → log_formater z st none (some []) b ≡ none
unfolding log_formater format_line put_header end_line
log_formater-empty z st b h room =
    let (c, e, h', m) = write_fits b [] [] h (omega arith) in
    rw (
      roomy b [] h (omega arith),
      body_text_nil (body_limit b),
      e,
      at_start c.pos
          (omega (arith, h'.ready.at_end, length-contents c h'.ready.valid, ap length h'.text)),
    )
  where
    body_text_nil : (n : ℕ) → take {A = ℕ} (min 0 n) [] ≡ []
    body_text_nil n = take_of_length_le (min 0 n) [] (omega arith)

    at_start : (n : ℕ) → n ≡ 0 → (n == 0) ≡ true
    at_start n e = ground arith
