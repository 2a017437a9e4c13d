-- ===== src/Appender/HeapBlock.antt =====
-- `mtaf_log_appender_open` of loglib/mtaf_appender.cpp where no file can be mapped: the log buffer stands
-- on the heap.
use mtappender_file.Prelude.{
  ℕ, ◌^◌, ◌≤◌, ◌<◌, ◌≡◌, ◌≢◌, refl, ◌∙◌, sym, ap, arith, true, false, not, none, some, [], ◌∷◌,
  length, if_false, Bytes, take_of_length_le,
}
use mathlib.Core.Path.{subst}
use mtappender_file.LogBuffer
use mtappender_file.LogBuffer.{LogBuffer}
use mtappender_file.LogBuffer.Append.{text, cleared}
use mtappender_file.LogBuffer.Flush.{cleared-create-IsReady}
use mtappender_file.Mmap.Files.{not_mapped, open_mmap-refused}
use mtappender_file.Appender.State.{Appender, World, Os, async, is_empty, appended_file}
use mtappender_file.Appender.LogFile.{log_path}
use mtappender_file.Appender.Tasks.{drain}
use mtappender_file.Appender.Api.{open_log, start_log, set_mode, block_size, or_new, mmap_path}
use mtappender_file.Appender.FileLaws.{Works}
use mtappender_file.Appender.TaskLaws.{Grants}
use mtappender_file.Appender.ApiLaws.{IsOpenAsync, drained, stored, drain_async}

module _ (os : Os) (a : Appender) (w : World) (dir name : Bytes) where
  abbrev size : ℕ
  size = block_size a.block_length

  abbrev on_heap : LogBuffer
  on_heap = LogBuffer.create (some (os.heap_junk size)) size

  -- The appender just before its first flush.
  abbrev prepared : Appender
  prepared = record a {
    block_length = size;
    mmap_file = some (not_mapped (or_new a.mmap_file));
    log_buff = some on_heap;
    logdir = dir;
    logfilename = name;
    log_close = false;
  }

  open_log-drain :
      a.log_close ≡ true
      → os.mmap.opens true (mmap_path dir name) ≡ none
      → let p = set_mode prepared w async in
        open_log os a w async dir name ≡ drain os p.0 p.1 on_heap
  unfolding open_log start_log drain
  open_log-drain closed refused =
      if_false _ _ _ (ap not closed)
      ∙ rw (open_mmap-refused os.mmap (or_new a.mmap_file) (mmap_path dir name) size refused)

-- Where the file to be mapped cannot be opened, opening a closed appender without a stream, in the
-- asynchronous mode and with a block of 4 to less than 2 ^ 31 bytes, takes a block of the heap for
-- the log buffer, and flushes it before anything has been written: whatever the heap block holds,
-- if it does not begin with a zero byte, comes whole to the end of the log file, if the rest of
-- the system works. The appender is then open with nothing pending.
pub open_log-heap_junk :
    (os : Os) (a : Appender) (w : World) (dir name : Bytes) (x : ℕ) (src : Bytes)
    → a.log_close ≡ true
    → a.logfile ≡ none
    → is_empty dir ≡ false
    → 4 ≤ block_size a.block_length
    → block_size a.block_length < 2 ^ 31
    → os.mmap.opens true (mmap_path dir name) ≡ none
    → os.heap_junk (block_size a.block_length) ≡ x ∷ src
    → length (x ∷ src) ≡ block_size a.block_length
    → x ≢ 0
    → Grants os (block_size a.block_length)
    → Works os
        (log_path (record a { logdir = dir; logfilename = name }) dir)
        (block_size a.block_length)
    → (b : Appender) × (v : World) × (l : LogBuffer) × (open_log os a w async dir name
        ≡ some (b, v))
      × IsOpenAsync b l
      × (text l ≡ [])
      × (v.files
          ≡ appended_file w.files
              (log_path (record a { logdir = dir; logfilename = name }) dir)
              (x ∷ src))
unfolding set_mode
open_log-heap_junk os a w dir name x src closed stream named four small refused junk whole nz g k =
    let l : LogBuffer = on_heap os a w dir name in
    let p = set_mode (prepared os a w dir name) w async in
    let n : ℕ = block_size a.block_length in
    let all : length (os.heap_junk n) ≡ n = ap length junk ∙ whole in
    (
      drained p.0 l,
      stored p.0 p.1 (x ∷ src),
      cleared l,
      open_log-drain os a w dir name closed refused
          ∙ drain_async os p.0 p.1 l x src refl (omega (arith, all, four, small)) named stream
              (take_of_length_le n (os.heap_junk n) (omega (arith, all)) ∙ junk) nz
              (subst (Grants os) (sym whole) g) (subst (Works os (log_path p.0 dir)) (sym whole) k),
      record {
        live = refl;
        mode = refl;
        buffer = refl;
        ready = cleared-create-IsReady (os.heap_junk n) n four small (omega (arith, all));
        named = named;
        no_stream = refl;
      },
      refl,
      refl,
    )
