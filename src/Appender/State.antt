-- ===== src/Appender/State.antt =====
-- The state of an appender (`mtaf_log_appender_t`), of what it shares with the rest of the program,
-- and of the system under it. One call runs at a time here: each function below is the body of a
-- call, whose parts the code runs under the mutexes of the appender.
use mtappender_file.Prelude.{
  ℕ, ◌*◌, Bool, true, false, Option, none, List, [], ◌∷◌, ◌++◌, ◌&&◌, ◌==◌, replicate,
  if◌then◌else◌, Bytes,
}
use mtappender_file.AutoBuffer.{Allocator}
use mtappender_file.LogBuffer.{LogBuffer}
use mtappender_file.Mmap.{MmapFile, MmapOs}
use mtappender_file.Formatter.{Zone, Stats, LogInfo}

-- `mtaf_append_mode`.
pub data Mode : Type 0 where
  async sync : Mode

-- `sg_thread_async`: the thread that all appenders may share, or one of its own.
pub data Worker : Type 0 where
  shared own : Worker

-- `sg_logfile`, an open stream: the path of its file, and how many of the last bytes that were written
-- to it are still in the buffer of stdio.
pub record Stream : Type 0 where
  pub path : Bytes
  pub buffered : ℕ

pub record Appender : Type 0 where
  pub logdir : Bytes
  pub logfilename : Bytes
  pub block_length : ℕ  -- sg_bufferblock_length
  pub log_close : Bool
  pub mmap_file : Option MmapFile
  pub log_buff : Option LogBuffer
  pub logfile : Option Stream
  pub openfiletime : ℕ
  pub current_dir : Bytes
  pub worker : Worker
  pub running : Bool  -- whether a thread of its own runs
  pub mode : Mode
  pub consolelog_open : Bool

-- What the calls change outside the appender.
pub record World : Type 0 where
  pub files : Bytes → Bytes  -- the log files, by path, with what open streams still hold back
  pub cache : Bytes  -- the mapped file, once it has been unmapped
  pub console : List Bytes
  pub own_signals : ℕ  -- `notifyAll` on the appender's condition
  pub shared_signals : ℕ  -- `notifyAll` on the shared condition
  pub shared_running : Bool
  pub peers : List Appender  -- the other appenders of the shared thread
  pub stats : Stats  -- the statics of the formatter

-- The system during one call. A stream takes some of the bytes that it is given, and `fwrite`
-- succeeds if it takes all; after a write it still holds back as many bytes as the system decides.
pub record Os : Type 0 where
  pub now : ℕ
  pub zone : Zone
  pub opens_log : Bytes → Bool
  pub tells : Bool  -- `ftell` succeeds
  pub takes : ℕ → ℕ
  pub holds : ℕ
  pub memory : Allocator
  pub mmap : MmapOs
  pub heap_junk : ℕ → Bytes  -- what `new char[n]` finds

abbrev pub bytes_eq : Bytes → Bytes → Bool
bytes_eq [] [] = true
bytes_eq (x ∷ xs) (y ∷ ys) = x == y && bytes_eq xs ys
bytes_eq _ _ = false

abbrev pub is_empty : Bytes → Bool
is_empty [] = true
is_empty (x ∷ xs) = false

-- The file at `path` with `more` behind what it holds.
abbrev pub appended_file : (Bytes → Bytes) → Bytes → Bytes → Bytes → Bytes
appended_file files path more other =
    if bytes_eq path other then files other ++ more else files other

abbrev pub is_async : Mode → Bool
is_async async = true
is_async sync = false

abbrev pub is_own : Worker → Bool
is_own own = true
is_own shared = false

-- What `mtaf_log_appender_append_ex` is given; `mtaf_log_appender_append` has no log info.
pub record Entry : Type 0 where
  pub info : Option LogInfo
  pub body : Bytes

-- `kBufferBlockLength`.
abbrev pub default_block : ℕ
default_block = 150 * 1024

-- The size of the arrays `temp` and `buffer_crypt`.
abbrev pub temp_size : ℕ
temp_size = 16 * 1024

-- `char temp[n] = {0}`.
unfoldable pub zero_array : ℕ → Bytes
zero_array n = replicate n 0

-- `mtaf_log_appender_create`: `new mtaf_log_appender()` clears what the code does not set.
abbrev pub created : Worker → Appender
created k = record {
  logdir = [];
  logfilename = [];
  block_length = 0;
  log_close = true;
  mmap_file = none;
  log_buff = none;
  logfile = none;
  openfiletime = 0;
  current_dir = [];
  worker = k;
  running = false;
  mode = async;
  consolelog_open = false;
}
