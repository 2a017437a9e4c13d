-- ===== src/Appender/Api.antt =====
-- The functions of mtaf_appender.h.
use mtappender_file.Prelude.{
  ℕ, ◌+◌, Bool, true, false, not, Option, none, some, List, [], ◌∷◌, ◌++◌, ◌&&◌, ◌==◌, take,
  if◌then◌else◌, ◌>>=◌, Bytes, Ptr, memset,
}
use mtappender_file.AutoBuffer
use mtappender_file.AutoBuffer.{AutoBuffer}
use mtappender_file.LogBuffer
use mtappender_file.LogBuffer.{LogBuffer}
use mtappender_file.Mmap.{MmapFile, open_mmap, lost}
use mtappender_file.Formatter.{LogInfo}
use mtappender_file.Appender.State.{
  Appender, World, Os, Mode, Worker, own, shared, is_async, is_own, default_block,
}
use mtappender_file.Appender.LogFile.{close_logfile}
use mtappender_file.Appender.Tasks.{thread_task, drain, store_text, append_async, append_sync}

-- `mtaf_log_appender_flush`.
unfoldable pub flush : Appender → World → Appender × World
flush a w = (a, record w { own_signals = w.own_signals + 1; shared_signals = w.shared_signals + 1 })

-- `mtaf_log_appender_setmode`. A thread of its own is started for the asynchronous mode.
unfoldable pub set_mode : Appender → World → Mode → Appender × World
set_mode a w m = (
  record a { mode = m; running = if is_async m && is_own a.worker then true else a.running },
  record w { own_signals = w.own_signals + 1; shared_signals = w.shared_signals + 1 },
)

-- `mtaf_log_appender_set_console_log`.
abbrev pub set_console_log : Appender → Bool → Appender
set_console_log a on = record a { consolelog_open = on }

-- `malloc` of the mapped file's record.
abbrev pub new_mmap_file : MmapFile
new_mmap_file = record { mmap_fd = none; offset = 0; size = 0; is_open = false; start = lost }

abbrev pub or_new : Option MmapFile → MmapFile
or_new none = new_mmap_file
or_new (some mt) = mt

-- "%s/%s.mmap2", in an array of 512 bytes.
abbrev pub mmap_path : Bytes → Bytes → Bytes
mmap_path dir name =
    take 511 (dir ++ (b'/' ∷ (name ++ (b'.' ∷ b'm' ∷ b'm' ∷ b'a' ∷ b'p' ∷ b'2' ∷ []))))

-- The memory of the log buffer: the mapped file, or a block of the heap, which nothing clears.
abbrev pub block_of : Os → Option MmapFile → Bool → ℕ → Ptr
block_of os (some mt) true n = mt.start
block_of os mt mapped n = some (os.heap_junk n)

-- The rest of `mtaf_log_appender_open` from the flush on. What an earlier run has left in the mapped
-- file goes to the log file.
unfoldable pub start_log :
    Os → Appender → World → LogBuffer → Mode → Bytes → Bytes → Option (Appender × World)
unfolding set_mode store_text
start_log os a w l m dir name = do
  (k, tmp) ← LogBuffer.flush os.memory l (AutoBuffer.empty 128)
  let b = record a { log_buff = some k; logdir = dir; logfilename = name; log_close = false }
  let (c, v) = set_mode b w m
  store_text os c v tmp

abbrev pub block_size : ℕ → ℕ
block_size n = if n == 0 then default_block else n

-- `mtaf_log_appender_open`. The test for a NULL block is left out: neither kind of block is NULL.
unfoldable pub open_log : Os → Appender → World → Mode → Bytes → Bytes → Option (Appender × World)
unfolding start_log
open_log os a w m dir name =
    if not a.log_close
    then some (a, w)
    else (let n = block_size a.block_length in
        let (mt, mapped) =
          open_mmap os.mmap (some (or_new a.mmap_file)) (mmap_path dir name) n false in
        let l = LogBuffer.create (block_of os mt mapped n) n in
        start_log os (record a { block_length = n; mmap_file = mt; log_buff = some l }) w l m dir
          name)

abbrev pub show_console : Appender → World → Bytes → World
show_console a w text = if a.consolelog_open then record w { console = text ∷ w.console } else w

-- `mtaf_log_appender_append_ex`, and with no log info `mtaf_log_appender_append`. The console is
-- given the text, which must not be NULL then.
unfoldable pub append : Os → Appender → World → Option LogInfo → Bytes → Option (Appender × World)
append os a w info text =
    if a.log_close
    then some (a, w)
    else (if is_async a.mode
        then append_async os a (show_console a w text) info (some text)
        else append_sync os a (show_console a w text) info (some text))

-- `mtaf_log_appender_flush_sync`.
unfoldable pub flush_sync : Os → Appender → World → Option (Appender × World)
flush_sync os a w =
    if is_async a.mode
    then elim a.log_buff [ none ↦ some (a, w) | some l ↦ drain os a w l ]
    else some (a, w)

-- The last of the background work when an appender closes. A thread of its own that runs makes its
-- last round before it is joined; without one the text stays where it is. For the shared thread the
-- caller does the work.
unfoldable pub last_task : Os → Appender → World → Option (Appender × World)
last_task os a w =
    if is_own a.worker
    then (if a.running
        then (thread_task os a w >>= λ r. some (record r.0 { running = false }, r.1))
        else some (a, w))
    else thread_task os a w

-- The block is cleared and given back. A mapped block is the file's memory.
unfoldable pub release_block : Appender → World → Option (Appender × World)
release_block a w = do
  mt ← a.mmap_file
  l ← a.log_buff
  cache ←
      (if mt.is_open then (memset l.buff.parray 0 0 a.block_length >>= λ q. q) else some w.cache)
  some (record a { mmap_file = none; log_buff = none }, record w { cache = cache })

-- `mtaf_log_appender_close`.
unfoldable pub close_log : Os → Appender → World → Option (Appender × World)
unfolding last_task release_block
close_log os a w = if a.log_close then some (a, w) else (do
  let v = record w { own_signals = w.own_signals + 1; shared_signals = w.shared_signals + 1 }
  (b, u) ← last_task os (record a { log_close = true }) v
  (c, t) ← release_block b u
  some (close_logfile c, t))

-- `shared_appenders()`, a vector of pointers: `push_back` in `mtaf_log_appender_create`, and the
-- loop of `mtaf_log_appender_destroy`, which erases the first entry for the appender.
pub register : List ℕ → ℕ → Worker → List ℕ
register ids i own = ids
register ids i shared = ids ++ (i ∷ [])

pub unregister : List ℕ → ℕ → List ℕ
unregister [] i = []
unregister (j ∷ ids) i = if j == i then ids else j ∷ unregister ids i

-- `mtaf_log_appender_destroy`, on the list of the shared thread and the appender's place in it. The
-- objects are deleted after.
unfoldable pub destroy : Os → Appender → World → List ℕ → ℕ → Option (Appender × World × List ℕ)
unfolding close_log
destroy os a w ids i = close_log os a w >>= λ r. some (r.0, r.1, unregister ids i)
