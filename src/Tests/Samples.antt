-- ===== src/Tests/Samples.antt =====
-- An appender whose block has 40 bytes, and systems for its runs.
use mtappender_file.Prelude.{
  Option, ℕ, ◌^◌, ◌<◌, refl, arith, true, false, none, some, List, [], ◌∷◌, length-fill, replicate,
  Bytes,
}
use mtappender_file.LogBuffer.{LogBuffer}
use mtappender_file.LogBuffer.Append.{IsReady}
use mtappender_file.Mmap.{MmapFile, MmapOs}
use mtappender_file.Formatter.{LogInfo}
use mtappender_file.Appender.State.{Appender, World, Os, async, own}
use mtappender_file.Appender.FileLaws.{Works}
use mtappender_file.Appender.TaskLaws.{Grants}
use mtappender_file.Appender.ApiLaws.{IsOpenAsync}
use mtappender_file.Appender.SharedLaws.{AllServed, IsServed, waiting}
use mtappender_file.Appender.CloseLaws.{IsMapped}
use mtappender_file.Appender.OpenLaws.{Maps}

-- "hi" is pending, or nothing; behind it stand older bytes.
abbrev pub block : Bytes
block = 104 ∷ 105 ∷ replicate 38 7

abbrev pub pending : LogBuffer
pending = record { buff = record { parray = some block; pos = 2; len = 2; max_len = 40 } }

abbrev pub mapped : MmapFile
mapped = record { mmap_fd = some 5; offset = 0; size = 40; is_open = true; start = some block }

abbrev pub dir : Bytes
dir = b'd' ∷ []

abbrev pub name : Bytes
name = b'n' ∷ []

abbrev pub src : Bytes
src = 105 ∷ []

abbrev pub appender : Appender
appender = record {
  logdir = dir;
  logfilename = name;
  block_length = 40;
  log_close = false;
  mmap_file = some mapped;
  log_buff = some pending;
  logfile = none;
  openfiletime = 0;
  current_dir = [];
  worker = own;
  running = true;
  mode = async;
  consolelog_open = false;
}

abbrev pub closed : Appender
closed = record appender { log_close = true; mmap_file = none; log_buff = none; running = false }

abbrev pub world : World
world = record {
  files = λ path. [];
  cache = [];
  console = [];
  own_signals = 0;
  shared_signals = 0;
  shared_running = false;
  peers = [];
  stats = record { error_count = 0; error_size = 0 };
}

-- A system that works, with the given bytes in the mapped file.
abbrev pub system : Bytes → Os
system left = record {
  now = 1;
  zone = record {
    localtime = λ t. record { year = 70; month = 0; mday = 1; hour = 0; minute = 0; second = 0 };
    show_offset = λ t. b'+' ∷ b'0' ∷ [];
  };
  opens_log = λ path. true;
  tells = true;
  takes = λ n. n;
  holds = 4096;
  memory = record { grants = λ n. true; junk = λ k. 7 };
  mmap = record {
    opens = λ creates path. some 5;
    stored = λ path. left;
    truncates = true;
    maps = true;
  };
  heap_junk = λ n. replicate n 7;
}

abbrev pub os : Os
os = system block

-- A system whose mapped file is empty.
abbrev pub clean : Os
clean = system []

pub pending-IsReady : IsReady pending
pending-IsReady = record {
  valid = omega (arith, length-fill 38 7);
  at_end = refl;
  block = omega arith;
  bounded = omega arith;
}

pub appender-IsOpenAsync : IsOpenAsync appender pending
appender-IsOpenAsync = record {
  live = refl;
  mode = refl;
  buffer = refl;
  ready = pending-IsReady;
  named = refl;
  no_stream = refl;
}

pub appender-IsMapped : IsMapped appender pending mapped
appender-IsMapped = record {
  file = refl;
  file_open = refl;
  whole = omega (arith, length-fill 38 7);
}

pub os-Grants : (n : ℕ) → n < 2 ^ 62 → Grants os n
os-Grants n h = record { granted = refl; small = h }

pub os-Works : (path : Bytes) (n : ℕ) → Works os path n
os-Works path n = record { opens = refl; tells = refl; takes = omega arith }

pub os-Maps : (path : Bytes) → Maps os path 5
os-Maps path = record { opens = refl; lengthens = refl; maps = refl }

pub clean-Maps : (path : Bytes) → Maps clean path 5
clean-Maps path = record { opens = refl; lengthens = refl; maps = refl }

-- A log info without a time and a tag: "[I][][]: ".
abbrev pub info : Option LogInfo
info = some (record { level = 2; tag = none; tv_sec = 0; tv_usec = 0 })

-- A second appender, to another file, and one that is closed.
abbrev pub other : Appender
other = record appender { logfilename = b'o' ∷ [] }

abbrev pub peers : List Appender
peers = appender ∷ closed ∷ other ∷ []

other-IsOpenAsync : IsOpenAsync other pending
other-IsOpenAsync = record {
  live = refl;
  mode = refl;
  buffer = refl;
  ready = pending-IsReady;
  named = refl;
  no_stream = refl;
}

pub peers-AllServed : AllServed os peers
peers-AllServed = (
  waiting pending 104 src appender-IsOpenAsync refl (λ e. absurd (omega (arith, e)))
      (os-Grants _ (omega arith)) (os-Works _ _),
  (
    IsServed.closed refl,
    (
      waiting pending 104 src other-IsOpenAsync refl (λ e. absurd (omega (arith, e)))
          (os-Grants _ (omega arith)) (os-Works _ _),
      tt,
    ),
  ),
)

abbrev pub no_maps : MmapOs
no_maps = record {
  opens = λ creates path. some 5;
  stored = λ path. [];
  truncates = true;
  maps = false;
}

abbrev pub small_map : MmapFile
small_map = record {
  mmap_fd = some 5;
  offset = 1;
  size = 4;
  is_open = true;
  start = some (1 ∷ 2 ∷ 3 ∷ 4 ∷ []);
}
