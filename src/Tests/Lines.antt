-- ===== src/Tests/Lines.antt =====
-- Runs of the formatter, into an array of 6000 bytes.
use mtappender_file.Prelude.{
  ◌+◌, ◌≡◌, refl, arith, none, some, [], ◌∷◌, ◌++◌, length, get_elem?, replicate, length-fill,
  length-append, Bytes,
}
use mtappender_file.PtrBuffer.{PtrBuffer}
use mtappender_file.PtrBuffer.Valid.{contents}
use mtappender_file.Formatter.{
  LogInfo, Zone, Stats, header, time_text, string_or_empty, put_header, log_formater,
}
use mtappender_file.Formatter.Holds.{IsOpen, Holds, as_line}
use mtappender_file.Formatter.Line.{cut_body, log_formater_plain, log_formater-empty}
use mtappender_file.Formatter.Long.{put_header-long}
use mtappender_file.Formatter.Header.{log_formater_info}

-- The epoch in every zone.
abbrev zone : Zone
zone = record {
  localtime = λ t. record { year = 70; month = 0; mday = 1; hour = 0; minute = 0; second = 0 };
  show_offset = λ t. b'+' ∷ b'0' ∷ [];
}

abbrev no_errors : Stats
no_errors = record { error_count = 0; error_size = 0 }

abbrev array : PtrBuffer
array = record { parray = some (replicate 6000 0); pos = 0; len = 0; max_len = 6000 }

array-IsOpen : IsOpen array
array-IsOpen = record {
  valid = omega (arith, length-fill 6000 0);
  at_end = refl;
  block = omega arith;
  bounded = omega arith;
}

array-Holds : Holds array []
array-Holds = record { ready = array-IsOpen; text = refl }

-- A log info of level W, without a time.
abbrev info : LogInfo
info = record { level = 3; tag = some (b'n' ∷ b'e' ∷ b't' ∷ []); tv_sec = 0; tv_usec = 0 }

-- The same with a tag of 1100 bytes.
abbrev long_tag : Bytes
long_tag = replicate 1100 b't'

abbrev long_info : LogInfo
long_info = record info { tag = some long_tag }

abbrev bang : Bytes
bang = b'!' ∷ []

long_header : length (header b'F' (time_text zone long_info) long_tag) ≡ 1109
unfolding time_text
long_header = omega (arith, length-fill 1100 b't', length-append long_tag (b']' ∷ b':' ∷ b' ' ∷ []))

log_formater_plain_example :
    (c : PtrBuffer) × (log_formater zone no_errors none (some (104 ∷ bang)) array
      ≡ some (c, no_errors))
    × Holds c ([] ++ as_line (cut_body array [] (104 ∷ bang)))
log_formater_plain_example =
    log_formater_plain zone no_errors array [] bang 104 array-Holds (omega arith)

log_formater_info_example :
    let s = header b'W' (time_text zone info) (string_or_empty info.tag) in
    (c : PtrBuffer) × (log_formater zone no_errors (some info) (some (104 ∷ bang)) array
      ≡ some (c, no_errors))
    × Holds c (([] ++ s) ++ as_line (cut_body array ([] ++ s) (104 ∷ bang)))
unfolding time_text
log_formater_info_example =
    log_formater_info zone no_errors array info [] bang 104 b'W' array-Holds (omega arith) refl
      (omega arith)

put_header-long_example :
    (c : PtrBuffer) × (put_header zone array (some long_info) none ≡ some c)
    × (c.len
        ≡ array.len
          + length (header b'F' (time_text zone long_info) (string_or_empty long_info.tag)))
    × (get_elem? (contents c) (array.len + 1023) ≡ some 0)
put_header-long_example =
    put_header-long zone array long_info none b'F' array-IsOpen refl (omega (arith, long_header))
      (omega (arith, long_header))

log_formater-empty_example : log_formater zone no_errors none (some []) array ≡ none
log_formater-empty_example = log_formater-empty zone no_errors array array-Holds (omega arith)
