-- ===== src/Appender/SyncLaws.antt =====
-- Appending in the synchronous mode.
use mtappender_file.Prelude.{
  Option, ℕ, ◌+◌, ◌≤◌, ◌<◌, ◌≡◌, ◌∙◌, arith, false, none, some, [], ◌∷◌, length, if_false, le→leb,
  Bytes, load, memcpy_lem, overwrite, length-overwrite, take-drop-overwrite,
}
use mtappender_file.LogBuffer.{write_static}
use mtappender_file.Formatter.{LogInfo}
use mtappender_file.Appender.State.{
  Appender, World, Os, is_async, is_empty, appended_file, zero_array, temp_size,
}
use mtappender_file.Appender.LogFile.{log_path, log2file}
use mtappender_file.Appender.Tasks.{append_sync}
use mtappender_file.Appender.Api.{append, show_console}
use mtappender_file.Appender.FileLaws.{Works, left_by_write, log2file_lem}
use mtappender_file.Appender.AppendLaws.{
  line_of, HasHeader, format_temp, load_line, line_sizes, length-zero_array,
}

-- The copy that is written: the bytes of the text.
abbrev copy : Bytes → Bytes
copy t = overwrite (zero_array temp_size) 0 t

load-copy : (t : Bytes) → length t ≤ temp_size → load (some (copy t)) 0 (length t) ≡ some t
unfolding load
load-copy t h = rw (
  le→leb (0 + length t) (length (copy t))
      (omega (arith, length-overwrite (zero_array temp_size) 0 t, length-zero_array temp_size)),
  take-drop-overwrite (zero_array temp_size) 0 t (omega (arith, length-zero_array temp_size)),
)

static_lem :
    (t : Bytes)
    → 0 < length t
    → length t ≤ temp_size
    → write_static (some t) (some (zero_array temp_size)) ≡ some (some (some (copy t), length t))
unfolding write_static
static_lem [] some_byte h = absurd (omega arith)
static_lem (y ∷ ys) some_byte h = rw (
    memcpy_lem (some (zero_array temp_size)) 0 (y ∷ ys)
      (omega (arith, length-zero_array temp_size)))

log2file_line :
    (os : Os) (a : Appender) (w : World) (t : Bytes)
    → 0 < length t
    → is_empty a.logdir ≡ false
    → a.logfile ≡ none
    → Works os (log_path a a.logdir) (length t)
    → log2file os a w (some t)
      ≡ (left_by_write os a t, record w { files = appended_file w.files (log_path a a.logdir) t })
log2file_line os a w [] some_byte named stream k = absurd (omega arith)
log2file_line os a w (y ∷ ys) some_byte named stream k = log2file_lem os a w y ys named stream k

pub append_sync-log2file :
    (os : Os) (a : Appender) (w : World) (info : Option LogInfo) (x : ℕ) (body : Bytes)
    → HasHeader info
    → append_sync os a w info (some (x ∷ body))
      ≡ some (log2file os a w (some (line_of os.zone info (x ∷ body))))
unfolding append_sync
append_sync-log2file os a w info x body good =
    let (c, e, h) = format_temp os w.stats info x body good in
    let (some_byte, most) = line_sizes os.zone info x body good in
    let short : length (line_of os.zone info (x ∷ body)) ≤ temp_size = omega (arith, most) in
    rw (
      e,
      load_line c (line_of os.zone info (x ∷ body)) h,
      static_lem (line_of os.zone info (x ∷ body)) some_byte short,
      load-copy (line_of os.zone info (x ∷ body)) short,
    )

pub append-direct :
    (os : Os) (a : Appender) (w : World) (info : Option LogInfo) (x : ℕ) (body : Bytes)
    → a.log_close ≡ false
    → is_async a.mode ≡ false
    → HasHeader info
    → append os a w info (x ∷ body)
      ≡ some (log2file os a (show_console a w (x ∷ body)) (some (line_of os.zone info (x ∷ body))))
unfolding append
append-direct os a w info x body live direct good =
    if_false _ _ _ live
    ∙ if_false _ _ _ direct
    ∙ append_sync-log2file os a (show_console a w (x ∷ body)) info x body good
