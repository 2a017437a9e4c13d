-- ===== src/Appender/OpenLaws.antt =====
-- `mtaf_log_appender_open` over a mapped file.
use mtappender_file.Prelude.{
  ℕ, ◌≤◌, ◌<◌, ◌^◌, ◌≡◌, ◌≢◌, refl, ◌∙◌, sym, ap, arith, Bool, true, false, not, ◌&&◌, ◌⊎◌, inl,
  inr, if◌then◌else◌, none, some, [], ◌∷◌, length, if_false, Bytes, take_of_length_le, target,
  length-overwrite_ptr,
}
use mathlib.Core.Path.{subst}
use mtappender_file.LogBuffer
use mtappender_file.LogBuffer.{LogBuffer}
use mtappender_file.LogBuffer.Append.{text, cleared}
use mtappender_file.LogBuffer.Flush.{StartsText, cleared_blank, IsBacked, cleared-create-IsReady}
use mtappender_file.Mmap.{MmapFile, truncated}
use mtappender_file.Mmap.Files.{open_mmap_lem, length-truncated}
use mtappender_file.Appender.State.{
  Appender, World, Os, async, is_async, Worker, own, shared, is_own, is_empty, appended_file,
}
use mtappender_file.Appender.LogFile.{log_path}
use mtappender_file.Appender.Tasks.{drain}
use mtappender_file.Appender.Api.{open_log, start_log, set_mode, block_size, or_new, mmap_path}
use mtappender_file.Appender.FileLaws.{Works}
use mtappender_file.Appender.TaskLaws.{Grants, drain_nothing}
use mtappender_file.Appender.ApiLaws.{IsOpenAsync, drained, stored, drain_async}
use mtappender_file.Appender.CloseLaws.{IsMapped, HasThread}

-- The system maps the file at `path`, with descriptor `fd`.
pub record Maps (os : Os) (path : Bytes) (fd : ℕ) : Type 0 where
  pub opens : os.mmap.opens true path ≡ some fd
  pub lengthens : os.mmap.truncates ≡ true
  pub maps : os.mmap.maps ≡ true

-- The mapped file once it is open.
abbrev pub mapped_file : Bytes → ℕ → ℕ → MmapFile
mapped_file block n fd = record {
  mmap_fd = some fd;
  offset = 0;
  size = n;
  is_open = true;
  start = some block;
}

-- The appender just before its first flush.
abbrev pub prepared : Appender → Bytes → Bytes → Bytes → ℕ → Appender
prepared a dir name block fd = record a {
  block_length = block_size a.block_length;
  mmap_file = some (mapped_file block (block_size a.block_length) fd);
  log_buff = some (LogBuffer.create (some block) (block_size a.block_length));
  logdir = dir;
  logfilename = name;
  log_close = false;
}

-- The block that the mapped file gives: what it held, cut or lengthened by zero bytes.
abbrev pub block_at : Os → Appender → Bytes → Bytes → Bytes
block_at os a dir name = truncated (os.mmap.stored (mmap_path dir name)) (block_size a.block_length)

-- With the file mapped, the rest of the opening is the flush of a log buffer over the whole block.
open_log-drain :
    (os : Os) (a : Appender) (w : World) (dir name : Bytes) (fd : ℕ)
    → a.log_close ≡ true
    → Maps os (mmap_path dir name) fd
    → let p = set_mode (prepared a dir name (block_at os a dir name) fd) w async in
      open_log os a w async dir name
      ≡ drain os p.0 p.1
          (LogBuffer.create (some (block_at os a dir name)) (block_size a.block_length))
unfolding open_log start_log drain
open_log-drain os a w dir name fd closed m =
    if_false _ _ _ (ap not closed)
    ∙ rw
        (open_mmap_lem os.mmap (or_new a.mmap_file) (mmap_path dir name) (block_size a.block_length)
          fd m.opens m.lengthens m.maps).0

-- What an appender `a` is once it is opened: `b`, with a ready and empty log buffer over the block of
-- its open mapped file, and a thread.
pub record Opened (a b : Appender) (dir name : Bytes) (l : LogBuffer) (m : MmapFile) : Type 0 where
  pub open_async : IsOpenAsync b l
  pub nothing : text l ≡ []
  pub blank : ¬ StartsText (target l.buff.parray)
  pub mapped : IsMapped b l m
  pub dir_kept : b.logdir ≡ dir
  pub name_kept : b.logfilename ≡ name
  pub size : b.block_length ≡ block_size a.block_length
  pub buffer_size : l.buff.max_len ≡ block_size a.block_length
  pub console_kept : b.consolelog_open ≡ a.consolelog_open
  pub thread : HasThread b

started_thread :
    (k : Worker) (r : Bool)
    → (is_own k ≡ false) ⊎ ((if is_async async && is_own k then true else r) ≡ true)
started_thread own r = inr refl
started_thread shared r = inl refl

IsBacked-create :
    (m : Bytes) (n : ℕ) → 4 ≤ n → n < 2 ^ 31 → length m ≡ n → IsBacked (LogBuffer.create (some m) n)
IsBacked-create m n four small whole = omega (arith, whole)

length-block :
    (os : Os) (a : Appender) (dir name : Bytes)
    → length (block_at os a dir name) ≡ block_size a.block_length
length-block os a dir name =
    length-truncated (os.mmap.stored (mmap_path dir name)) (block_size a.block_length)

module _ (os : Os) (a : Appender) (w : World) (dir name : Bytes) (fd : ℕ) where
  abbrev block : Bytes
  block = block_at os a dir name

  abbrev pub made : LogBuffer
  made = LogBuffer.create (some block) (block_size a.block_length)

  made-Opened :
      (b : Appender)
      → 4 ≤ block_size a.block_length
      → block_size a.block_length < 2 ^ 31
      → is_empty dir ≡ false
      → b.log_close ≡ false
      → b.mode ≡ async
      → b.log_buff ≡ some (cleared made)
      → b.logfile ≡ none
      → b.logdir ≡ dir
      → b.logfilename ≡ name
      → b.mmap_file ≡ some (mapped_file block (block_size a.block_length) fd)
      → b.block_length ≡ block_size a.block_length
      → b.consolelog_open ≡ a.consolelog_open
      → HasThread b
      → Opened a b dir name (cleared made) (mapped_file block (block_size a.block_length) fd)
  made-Opened b four small named live m buffer stream d n f size console thread = record {
    open_async = record {
      live = live;
      mode = m;
      buffer = buffer;
      ready =
          cleared-create-IsReady block (block_size a.block_length) four small
            (omega (arith, length-block os a dir name));
      named = ap is_empty d ∙ named;
      no_stream = stream;
    };
    nothing = refl;
    blank = cleared_blank made;
    mapped = record {
      file = f;
      file_open = refl;
      whole =
          omega
            (arith, size, length-block os a dir name, length-overwrite_ptr (some block) 0 (0 ∷ []));
    };
    dir_kept = d;
    name_kept = n;
    size = size;
    buffer_size = refl;
    console_kept = console;
    thread = thread;
  }

-- Opening a closed appender without a stream, in the asynchronous mode and with a block of 4 to
-- less than 2 ^ 31 bytes, over a mapped file that begins with a text, which an earlier run has
-- left there, puts the whole block of the file at the end of the log file, if the system works;
-- the appender is then open, with an empty log buffer over the mapped file.
pub open_log_lem :
    (os : Os) (a : Appender) (w : World) (dir name : Bytes) (fd x : ℕ) (src : Bytes)
    → a.log_close ≡ true
    → a.logfile ≡ none
    → is_empty dir ≡ false
    → 4 ≤ block_size a.block_length
    → block_size a.block_length < 2 ^ 31
    → Maps os (mmap_path dir name) fd
    → block_at os a dir name ≡ x ∷ src
    → x ≢ 0
    → Grants os (block_size a.block_length)
    → Works os
        (log_path (record a { logdir = dir; logfilename = name }) dir)
        (block_size a.block_length)
    → (b : Appender) × (v : World) × (l : LogBuffer) × (m : MmapFile) × (open_log os a w async dir
          name
        ≡ some (b, v))
      × Opened a b dir name l m
      × (v.files
          ≡ appended_file w.files
              (log_path (record a { logdir = dir; logfilename = name }) dir)
              (x ∷ src))
      × (v.peers ≡ w.peers)
unfolding set_mode
open_log_lem os a w dir name fd x src closed stream named four small m e nz g k =
    let l = made os a w dir name fd in
    let p = set_mode (prepared a dir name (block_at os a dir name) fd) w async in
    let whole : text l ≡ x ∷ src =
      take_of_length_le (block_size a.block_length) (block_at os a dir name)
        (omega (arith, length-block os a dir name))
      ∙ e in
    let size : length (x ∷ src) ≡ block_size a.block_length =
      ap length (sym e) ∙ length-block os a dir name in
    (
      drained p.0 l,
      stored p.0 p.1 (x ∷ src),
      cleared l,
      mapped_file (block_at os a dir name) (block_size a.block_length) fd,
      open_log-drain os a w dir name fd closed m
          ∙ drain_async os p.0 p.1 l x src refl
              (IsBacked-create (block_at os a dir name) (block_size a.block_length) four small
                (length-block os a dir name))
              named stream whole nz (subst (Grants os) (sym size) g)
              (subst (Works os (log_path p.0 dir)) (sym size) k),
      made-Opened os a w dir name fd (drained p.0 l) four small named refl refl refl refl refl refl
          refl refl refl (started_thread a.worker a.running),
      refl,
      refl,
    )

-- Where the mapped file is empty, or begins with a zero byte, opening a closed appender without a
-- stream, in the asynchronous mode and with a block of 4 to less than 2 ^ 31 bytes, changes no log
-- file; the appender is then open, with an empty log buffer over the mapped file.
pub open_log-clean :
    (os : Os) (a : Appender) (w : World) (dir name : Bytes) (fd : ℕ)
    → a.log_close ≡ true
    → a.logfile ≡ none
    → is_empty dir ≡ false
    → 4 ≤ block_size a.block_length
    → block_size a.block_length < 2 ^ 31
    → Maps os (mmap_path dir name) fd
    → ¬ StartsText (block_at os a dir name)
    → (b : Appender) × (v : World) × (l : LogBuffer) × (m : MmapFile) × (open_log os a w async dir
          name
        ≡ some (b, v))
      × Opened a b dir name l m
      × (v.files ≡ w.files)
      × (v.peers ≡ w.peers)
unfolding set_mode
open_log-clean os a w dir name fd closed stream named four small m clean =
    let l = made os a w dir name fd in
    let p = set_mode (prepared a dir name (block_at os a dir name) fd) w async in
    let whole : text l ≡ block_at os a dir name =
      take_of_length_le (block_size a.block_length) (block_at os a dir name)
        (omega (arith, length-block os a dir name)) in
    (
      record p.0 { log_buff = some (cleared l) },
      p.1,
      cleared l,
      mapped_file (block_at os a dir name) (block_size a.block_length) fd,
      open_log-drain os a w dir name fd closed m
          ∙ drain_nothing os p.0 p.1 l
              (IsBacked-create (block_at os a dir name) (block_size a.block_length) four small
                (length-block os a dir name))
              (λ s. clean (subst StartsText whole s)),
      made-Opened os a w dir name fd (record p.0 { log_buff = some (cleared l) }) four small named
          refl refl refl stream refl refl refl refl refl (started_thread a.worker a.running),
      refl,
      refl,
    )
