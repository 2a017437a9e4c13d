-- ===== src/Formatter.antt =====
-- loglib/mtaf_formatter.cpp and mtaf_base.h: one line of the log. A C string is its bytes before the
-- terminator, and NULL is `none`.
pub mod Numbers
pub mod Holds
pub mod Line
pub mod Header
pub mod Long
use Prim.Native.Nat.{compare}
use mtappender_file.Prelude.{
  ℕ, zero, suc, ◌+◌, ◌-◌, ◌*◌, ◌/◌, ◌%◌, ◌^◌, Bool, true, false, Option, none, some, List, [], ◌∷◌,
  ◌++◌, length, take, replicate, get_elem?, ltb, leb, ◌==◌, if◌then◌else◌, ◌>>=◌, add64, sub64,
  Bytes, Ptr, target, memcpy, load, min,
}
use mtappender_file.PtrBuffer.{PtrBuffer}
use mtappender_file.PtrBuffer

-- `mtaf_log_info`, with the fields of its `timeval`. A negative level is a large pattern.
pub record LogInfo : Type 0 where
  pub level : ℕ
  pub tag : Option Bytes
  pub tv_sec : ℕ
  pub tv_usec : ℕ

-- The fields of `struct tm` that are printed.
pub record Tm : Type 0 where
  pub year : ℕ  -- from 1900
  pub month : ℕ  -- from 0
  pub mday : ℕ
  pub hour : ℕ
  pub minute : ℕ
  pub second : ℕ

-- The time zone: `localtime`, and what "%+.1f" prints for the offset in hours, a floating number.
pub record Zone : Type 0 where
  pub localtime : ℕ → Tm
  pub show_offset : ℕ → Bytes

-- The statics `error_count` and `error_size`.
pub record Stats : Type 0 where
  pub error_count : ℕ
  pub error_size : ℕ

-- Decimal digits, by as many divisions as the fuel allows; `n` never needs more than `n` of them.
pub digits : ℕ → ℕ → Bytes → Bytes
digits zero n acc = acc
digits (suc f) n acc =
    let rest = digits f (n / 10) ((48 + n % 10) ∷ acc) in if n == 0 then acc else rest

-- "%d" of a number that is not negative.
unfoldable pub show_nat : ℕ → Bytes
unfolding digits
show_nat n = if n == 0 then b'0' ∷ [] else digits n n []

-- "%0wd", and "%.wd": zeros in front up to the width.
pub show_padded : ℕ → ℕ → Bytes
unfolding show_nat
show_padded w n = replicate (w - length (show_nat n)) b'0' ++ show_nat n

-- `levelStrings`.
abbrev pub level_strings : Bytes
level_strings = b'V' ∷ b'D' ∷ b'I' ∷ b'W' ∷ b'E' ∷ b'F' ∷ []

abbrev pub level_fatal : ℕ
level_fatal = 5

-- `snprintf(p + off, size, …)` of a text: cut to leave room for the terminator.
pub snprintf : Ptr → ℕ → ℕ → Bytes → Option Ptr
snprintf p off size s = memcpy p off (take (size - 1) s ++ (0 ∷ []))

-- `temp_time`, an array of 64 bytes.
unfoldable pub time_text : Zone → LogInfo → Bytes
unfolding show_nat show_padded
time_text z info =
    if info.tv_sec == 0
    then []
    else (let tm = z.localtime info.tv_sec in
        take 63 (
          show_nat (1900 + tm.year)
          ++ (b'-' ∷ show_padded 2 (1 + tm.month))
          ++ (b'-' ∷ show_padded 2 tm.mday)
          ++ (b' ' ∷ z.show_offset info.tv_sec)
          ++ (b' ' ∷ show_padded 2 tm.hour)
          ++ (b':' ∷ show_padded 2 tm.minute)
          ++ (b':' ∷ show_padded 2 tm.second)
          ++ (b'.' ∷ show_padded 3 (info.tv_usec / 1000))))

abbrev pub string_or_empty : Option Bytes → Bytes
string_or_empty none = []
string_or_empty (some s) = s

-- "[%s][%s][%s]: ".
abbrev pub header : ℕ → Bytes → Bytes → Bytes
header level time tag =
    (b'[' ∷ level ∷ b']' ∷ b'[' ∷ time) ++ (b']' ∷ b'[' ∷ tag) ++ (b']' ∷ b':' ∷ b' ' ∷ [])

-- The length that is printed into is added in full, also where the text was cut.
abbrev pub advance : PtrBuffer → ℕ → PtrBuffer
advance b ret = PtrBuffer.set_length b (add64 b.pos ret) (add64 b.len ret)

-- A level outside the table is an access out of bounds.
abbrev pub level_of : LogInfo → Option Bytes → Option ℕ
level_of info none = some b'F'
level_of info (some body) = get_elem? level_strings info.level

unfoldable pub put_header : Zone → PtrBuffer → Option LogInfo → Option Bytes → Option PtrBuffer
put_header z b none body = some b
put_header z b (some info) body = do
  level ← level_of info body
  let s = header level (time_text z info) (string_or_empty info.tag)
  q ← snprintf b.parray b.pos 1024 s
  some (advance (record b { parray = q }) (length s))

-- How much of the body is written: 130 bytes are kept free.
abbrev pub body_limit : PtrBuffer → ℕ
body_limit b =
    min (if ltb 130 (sub64 b.max_len b.len) then sub64 b.max_len b.len - 130 else 0) 0xffff

abbrev pub null_text : Bytes
null_text =
    b'e' ∷ b'r' ∷ b'r' ∷ b'o' ∷ b'r' ∷ b'!' ∷ b'!' ∷ b' ' ∷ b'N' ∷ b'U' ∷ b'L' ∷ b'L' ∷ b'=' ∷ b'='
    ∷ b'_' ∷ b'l' ∷ b'o' ∷ b'g' ∷ b'b' ∷ b'o' ∷ b'd' ∷ b'y' ∷ []

abbrev pub body_text : PtrBuffer → Option Bytes → Bytes
body_text b none = null_text
body_text b (some body) = take (min (length body) (body_limit b)) body

-- `*((char *)_log.PosPtr() - 1)`. At position 0 this is the byte before the memory: a fault.
abbrev pub last_byte : PtrBuffer → Option ℕ
last_byte b = if b.pos == 0 then none else get_elem? (target b.parray) (b.pos - 1)

unfoldable pub end_line : PtrBuffer → Option PtrBuffer
end_line b = do c ← last_byte b; if c == b'\n' then some b else PtrBuffer.write b (b'\n' ∷ [])

abbrev pub small_text : Stats → Bytes
small_text st =
    (b'[' ∷ b'F' ∷ b']' ∷ b'l' ∷ b'o' ∷ b'g' ∷ b'_' ∷ b's' ∷ b'i' ∷ b'z' ∷ b'e' ∷ b' ' ∷ b'<' ∷ b'='
      ∷ b' ' ∷ b'5' ∷ b'*' ∷ b'1' ∷ b'0' ∷ b'2' ∷ b'4' ∷ b',' ∷ b' ' ∷ b'e' ∷ b'r' ∷ b'r' ∷ b'('
      ∷ [])
    ++ show_nat st.error_count
    ++ (b',' ∷ b' ' ∷ show_nat st.error_size)
    ++ (b')' ∷ b'\n' ∷ [])

-- The branch for a buffer with too little room: the log text is not written.
pub too_small : Stats → PtrBuffer → Bytes → Option (PtrBuffer × Stats)
too_small st b body =
    let counted = record st {
      error_count = st.error_count + 1;
      error_size = min (length body) (1024 * 1024);
    } in
    if leb (add64 b.len 128) b.max_len
    then (snprintf b.parray b.pos 1024 (small_text counted) >>= λ q.
        PtrBuffer.write (advance (record b { parray = q }) (length (small_text counted))) []
        >>= λ c. some (c, record { error_count = 0; error_size = 0 }))
    else some (b, counted)

-- The rest of the function once there is room.
unfoldable pub format_line : Zone → PtrBuffer → Option LogInfo → Option Bytes → Option PtrBuffer
format_line z b info body = do
  h ← put_header z b info body
  c ← PtrBuffer.write h (body_text h body)
  end_line c

-- `mtaf_log_formater`.
unfoldable pub log_formater :
    Zone → Stats → Option LogInfo → Option Bytes → PtrBuffer → Option (PtrBuffer × Stats)
log_formater z st info body b =
    if leb b.max_len (add64 b.len (5 * 1024))
    then (body >>= too_small st b)
    else (format_line z b info body >>= λ c. some (c, st))
