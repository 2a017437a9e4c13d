-- ===== src/Appender/LineLaws.antt =====
-- The line that the formatter makes of a text, as loglib/mtaf_appender.cpp calls it.
use mtappender_file.Prelude.{
  ℕ, zero, suc, ◌+◌, ◌-◌, ◌==◌, get_elem?, min, ◌≤◌, ◌<◌, ◌≡◌, ◌≢◌, refl, ◌∙◌, sym, ap, arith,
  Option, none, some, [], ◌∷◌, ◌++◌, length, length-fill, length-append, length-take, take, le→leb,
  Bool-cases, inl, inr, Bytes, target, load,
}
use mtappender_file.PtrBuffer
use mtappender_file.PtrBuffer.{PtrBuffer}
use mtappender_file.LogBuffer.Flush.{StartsText}
use mtappender_file.Formatter.{
  Zone, LogInfo, Stats, header, level_strings, time_text, string_or_empty, log_formater,
}
use mtappender_file.Formatter.Holds.{Holds, as_line, ends_line}
use mtappender_file.Formatter.Line.{log_formater_plain}
use mtappender_file.Formatter.Header.{log_formater_info}
use mathlib.Core.Path.{subst}
use mtappender_file.Appender.State.{Os, Entry, temp_size, zero_array}

-- The header that a log info adds, with a level of the table.
abbrev pub head_at : Zone → LogInfo → Option ℕ → Bytes
head_at z info none = []
head_at z info (some level) = header level (time_text z info) (string_or_empty info.tag)

abbrev pub head_of : Zone → Option LogInfo → Bytes
head_of z none = []
head_of z (some info) = head_at z info (get_elem? level_strings info.level)

-- The line that a text of a log becomes: the header, as many bytes of the text as leave the whole
-- below 16255, and a newline at the end.
abbrev pub line_of : Zone → Option LogInfo → Bytes → Bytes
line_of z info body = head_of z info ++ as_line (take (16254 - length (head_of z info)) body)

-- A level of the table, and a tag with which the header stays below 1024 bytes.
abbrev pub HasHeader : Option LogInfo → Type 0
HasHeader none = Unit
HasHeader (some info) = (info.level < 6) × (length (string_or_empty info.tag) < 952)

-- A text that does not begin with a zero byte, and so is not empty, with such a log info.
abbrev pub IsPrintable : Entry → Type 0
IsPrintable e = StartsText e.body × HasHeader e.info

pub length-zero_array : (n : ℕ) → length (zero_array n) ≡ n
unfolding zero_array
length-zero_array n = length-fill n 0

abbrev pub temp : PtrBuffer
temp = PtrBuffer.attach (some (zero_array temp_size)) 0 temp_size

temp-Holds : Holds temp []
temp-Holds = record {
  ready = record {
    valid = omega (arith, length-zero_array temp_size);
    at_end = refl;
    block = omega arith;
    bounded = omega arith;
  };
  text = refl;
}

elem_lem : (xs : Bytes) (n : ℕ) → n < length xs → (c : ℕ) × (get_elem? xs n ≡ some c)
elem_lem [] n h = absurd (omega arith)
elem_lem (x ∷ xs) zero h = (x, refl)
elem_lem (x ∷ xs) (suc n) h = elem_lem xs n (omega arith)

length-header :
    (level : ℕ) (time tag : Bytes) → length (header level time tag) ≡ length time + length tag + 9
length-header level time tag =
    let front : Bytes = b'[' ∷ level ∷ b']' ∷ b'[' ∷ time in
    let middle : Bytes = b']' ∷ b'[' ∷ tag in
    let end : Bytes = b']' ∷ b':' ∷ b' ' ∷ [] in
    length-append (front ++ middle) end
    ∙ ap (λ n. n + length end) (length-append front middle)
    ∙ omega arith

take_63 : (xs : Bytes) → length (take 63 xs) ≤ 63
take_63 xs = omega (arith, length-take 63 xs)

short_time : (z : Zone) (info : LogInfo) → length (time_text z info) ≤ 63
unfolding time_text
short_time z info = elim (Bool-cases (info.tv_sec == 0)) [
  | inl nothing ↦ rw nothing (omega arith)
  | inr some_time ↦ rw some_time (take_63 _)
]

short_head : (z : Zone) (info : Option LogInfo) → HasHeader info → length (head_of z info) < 1024
short_head z none h = omega arith
short_head z (some info) h =
    let (level, known) = elem_lem level_strings info.level (omega (arith, h.0)) in
    rw known (
      omega (
        arith,
        length-header level (time_text z info) (string_or_empty info.tag),
        short_time z info,
        h.1,
      ))

-- The formatter, as the appender calls it.
pub format_temp :
    (os : Os) (st : Stats) (info : Option LogInfo) (x : ℕ) (body : Bytes)
    → HasHeader info
    → (c : PtrBuffer) × (log_formater os.zone st info (some (x ∷ body)) temp ≡ some (c, st))
      × Holds c (line_of os.zone info (x ∷ body))
format_temp os st none x body h =
    log_formater_plain os.zone st temp [] body x temp-Holds (omega arith)
format_temp os st (some info) x body h =
    let (level, known) = elem_lem level_strings info.level (omega (arith, h.0)) in
    let s : Bytes = header level (time_text os.zone info) (string_or_empty info.tag) in
    let short : length s < 1024 = omega (
      arith,
      length-header level (time_text os.zone info) (string_or_empty info.tag),
      short_time os.zone info,
      h.1,
    ) in
    let (c, e, holds) =
      log_formater_info os.zone st temp info [] body x level temp-Holds (omega arith) known short in
    let cut : min (temp_size - length s - 130) 0xffff ≡ 16254 - length s = omega (arith, short) in
    let same : s ++ as_line (take (min (temp_size - length s - 130) 0xffff) (x ∷ body))
        ≡ line_of os.zone (some info) (x ∷ body) =
      ap (λ n. s ++ as_line (take n (x ∷ body))) cut
      ∙ sym (
          ap
            (λ o.
              head_at os.zone info o
              ++ as_line (take (16254 - length (head_at os.zone info o)) (x ∷ body)))
            known) in
    (c, e, subst (Holds c) same holds)

pub load_line : (c : PtrBuffer) (xs : Bytes) → Holds c xs → load c.parray 0 c.len ≡ some xs
unfolding load
load_line c xs h =
    rw (le→leb (0 + c.len) (length (target c.parray)) (omega (arith, h.ready.valid)))
      (ap some h.text)

some_line : (t : Bytes) → 0 < length t → 0 < length (as_line t)
some_line t h = elim (Bool-cases (ends_line t)) [
  | inl done ↦ rw done h
  | inr more ↦ rw more (omega (arith, length-append t (b'\n' ∷ [])))
]

short_line : (t : Bytes) → length (as_line t) ≤ length t + 1
short_line t = elim (Bool-cases (ends_line t)) [
  | inl done ↦ rw done (omega arith)
  | inr more ↦ rw more (omega (arith, length-append t (b'\n' ∷ [])))
]

pub line_sizes :
    (z : Zone) (info : Option LogInfo) (x : ℕ) (body : Bytes)
    → HasHeader info
    → (0 < length (line_of z info (x ∷ body))) × (length (line_of z info (x ∷ body)) ≤ 16255)
line_sizes z info x body h =
    let t : Bytes = take (16254 - length (head_of z info)) (x ∷ body) in
    let whole : length (line_of z info (x ∷ body)) ≡ length (head_of z info) + length (as_line t) =
      length-append (head_of z info) (as_line t) in
    let cut : length t ≡ min (16254 - length (head_of z info)) (length (x ∷ body)) =
      length-take (16254 - length (head_of z info)) (x ∷ body) in
    let short : length (head_of z info) < 1024 = short_head z info h in
    (
      omega (arith, whole, some_line t (omega (arith, cut, short))),
      omega (arith, whole, short_line t, cut, short),
    )

pub starts_line :
    (z : Zone) (info : Option LogInfo) (x : ℕ) (body : Bytes)
    → HasHeader info
    → x ≢ 0
    → StartsText (line_of z info (x ∷ body))
starts_line z none x body h nz = elim (Bool-cases (ends_line (take 16254 (x ∷ body)))) [
  | inl done ↦ rw done nz
  | inr more ↦ rw more nz
]
starts_line z (some info) x body h nz =
    let (level, known) = elem_lem level_strings info.level (omega (arith, h.0)) in
    rw known (λ e. absurd (omega (arith, e)))
