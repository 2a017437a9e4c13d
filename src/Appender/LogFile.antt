-- ===== src/Appender/LogFile.antt =====
-- The log file: `__make_logfilename`, `__openlogfile`, `__writefile`, `__closelogfile`, `__log2file`.
use mtappender_file.Prelude.{
  ℕ, ◌+◌, ◌-◌, Bool, true, false, not, Option, none, some, [], ◌∷◌, ◌++◌, ◌&&◌, ◌||◌, ◌==◌, length,
  take, leb, if◌then◌else◌, Bytes,
}
use mtappender_file.Formatter.{Tm}
use mtappender_file.Appender.State.{
  Appender, Stream, World, Os, bytes_eq, is_empty, appended_file, is_async,
}

-- "mtlog".
abbrev pub log_ext : Bytes
log_ext = b'm' ∷ b't' ∷ b'l' ∷ b'o' ∷ b'g' ∷ []

-- `__make_logfilename`, for a path array of `len` bytes.
abbrev pub make_logfilename : Bytes → Bytes → Bytes → ℕ → Bytes
make_logfilename dir name ext len = take (len - 1) (dir ++ (b'/' ∷ (name ++ (b'.' ∷ ext))))

abbrev pub same_day : Tm → Tm → Bool
same_day f c = f.year == c.year && f.month == c.month && f.mday == c.mday

abbrev pub log_path : Appender → Bytes → Bytes
log_path a dir = make_logfilename dir a.logfilename log_ext 1024

-- `fopen(path, "ab")`.
abbrev pub fresh : Bytes → Stream
fresh path = record { path = path; buffered = 0 }

-- The rest of `__openlogfile` once no stream is open.
unfoldable pub reopen : Os → Appender → Bytes → Appender × Bool
reopen os a dir =
    if os.opens_log (log_path a dir)
    then (
      record a {
        openfiletime = os.now;
        current_dir = dir;
        logfile = some (fresh (log_path a dir));
      },
      true,
    )
    else (record a { openfiletime = os.now; current_dir = dir; logfile = none }, false)

abbrev pub is_current : Os → Appender → Bytes → Bool
is_current os a dir =
    same_day (os.zone.localtime a.openfiletime) (os.zone.localtime os.now)
    && bytes_eq a.current_dir dir

-- `fclose` writes what the stream holds back, and the stream is gone.
unfoldable pub open_stream : Os → Appender → Bytes → Option Stream → Appender × Bool
unfolding reopen
open_stream os a dir none = reopen os a dir
open_stream os a dir (some f) =
    if is_current os a dir then (a, true) else reopen os (record a { logfile = none }) dir

-- `__openlogfile`.
unfoldable pub open_logfile : Os → Appender → Bytes → Appender × Bool
unfolding open_stream
open_logfile os a dir = if is_empty a.logdir then (a, false) else open_stream os a dir a.logfile

-- A stream that has taken some bytes: it holds back no more than it has held and been given.
abbrev pub holding : Os → Stream → Bytes → Stream
holding os f taken = record f {
  buffered =
      if leb (f.buffered + length taken) os.holds then f.buffered + length taken else os.holds;
}

-- `__writefile`: the world, the result, and the stream.
unfoldable pub write_file : Os → World → Bytes → Option Stream → World × Bool × Option Stream
write_file os w src none = (w, false, none)
write_file os w src (some f) =
    let taken = take (os.takes (length src)) src in
    if os.tells
    then (
      record w { files = appended_file w.files f.path taken },
      leb (length src) (os.takes (length src)),
      some (holding os f taken),
    )
    else (w, false, some f)

-- How many bytes a stream holds back.
abbrev pub held_back : Option Stream → ℕ
held_back none = 0
held_back (some f) = f.buffered

-- The log files as they are on the disk, without what a stream holds back: what another process reads,
-- and what is left when this one is killed.
abbrev pub on_disk : Option Stream → (Bytes → Bytes) → Bytes → Bytes
on_disk none files path = files path
on_disk (some f) files path =
    if bytes_eq f.path path
    then take (length (files path) - f.buffered) (files path)
    else files path

unfoldable pub close_stream : Appender → Option Stream → Appender
close_stream a none = a
close_stream a (some f) = record a { openfiletime = 0; logfile = none }

-- `__closelogfile`.
unfoldable pub close_logfile : Appender → Appender
unfolding close_stream
close_logfile a = close_stream a a.logfile

abbrev pub after_write : Appender → Bool → Appender
after_write a wrote =
    let b = if is_async a.mode then close_logfile a else a in
    if not wrote && not (is_async b.mode) then close_logfile b else b

-- The part of `__log2file` under the mutex.
unfoldable pub write_log : Os → Appender → World → Bytes → Appender × World
unfolding open_logfile write_file
write_log os a w src =
    let (b, opened) = open_logfile os a a.logdir in
    let (v, wrote, f) = write_file os w src b.logfile in
    if opened then (after_write (record b { logfile = f }) wrote, v) else (b, w)

-- `__log2file`.
unfoldable pub log2file : Os → Appender → World → Option Bytes → Appender × World
unfolding write_log
log2file os a w none = (a, w)
log2file os a w (some src) =
    if is_empty src || is_empty a.logdir then (a, w) else write_log os a w src
