-- ===== src/Appender/CloseLaws.antt =====
-- `mtaf_log_appender_close`.
use mtappender_file.Prelude.{
  ℕ, ◌+◌, ◌<◌, ◌≡◌, ◌≢◌, ◌⊎◌, refl, ◌∙◌, sym, ap, arith, true, false, none, some, [], ◌∷◌, length,
  take_of_length_le, if_true, if_false, Bool-cases, inl, inr, ◌>>=◌, Bytes, Ptr, target, memset,
  memcpy_lem, length-fill, replicate, overwrite, overwrite_ptr, length-overwrite,
  take-overwrite_end, length-overwrite_ptr,
}
use mtappender_file.LogBuffer.{LogBuffer}
use mtappender_file.LogBuffer.Append.{text, cleared}
use mtappender_file.LogBuffer.Flush.{IsReady-IsBacked}
use mtappender_file.Mmap.{MmapFile}
use mtappender_file.Appender.State.{Appender, World, Os, is_own, appended_file}
use mtappender_file.Appender.LogFile.{log_path, close_logfile}
use mtappender_file.Appender.Tasks.{thread_task}
use mtappender_file.Appender.Api.{close_log, last_task, release_block}
use mtappender_file.Appender.FileLaws.{Works}
use mtappender_file.Appender.TaskLaws.{Grants}
use mtappender_file.Appender.ApiLaws.{IsOpenAsync, drained, stored, drain_async, at_buffer}

-- There is a thread to do the last of the background work: the shared one, or one that runs.
abbrev pub HasThread : Appender → Type 0
HasThread a = (is_own a.worker ≡ false) ⊎ (a.running ≡ true)

-- The block of the log buffer is the whole of an open mapped file.
pub record IsMapped (a : Appender) (l : LogBuffer) (m : MmapFile) : Type 0 where
  pub file : a.mmap_file ≡ some m
  pub file_open : m.is_open ≡ true
  pub whole : length (target l.buff.parray) ≡ a.block_length

-- What the last of the background work leaves: `b` and `v`.
pub record Stored (a : Appender) (w : World) (l : LogBuffer) (src : Bytes) (b : Appender)
    (v : World) : Type 0 where
  pub closed : b.log_close ≡ a.log_close
  pub file : b.mmap_file ≡ a.mmap_file
  pub size : b.block_length ≡ a.block_length
  pub buffer : b.log_buff ≡ some (cleared l)
  pub no_stream : b.logfile ≡ none
  pub files : v.files ≡ appended_file w.files (log_path a a.logdir) src
  pub peers : v.peers ≡ w.peers

module _ (os : Os) (a : Appender) (w : World) (l : LogBuffer) (x : ℕ) (src : Bytes) where
  pub last_task_lem :
      IsOpenAsync (record a { log_close = false }) l
      → HasThread a
      → text l ≡ x ∷ src
      → x ≢ 0
      → Grants os (length (x ∷ src))
      → Works os (log_path a a.logdir) (length (x ∷ src))
      → (b : Appender) × (v : World) × (last_task os a w ≡ some (b, v)) × Stored a w l (x ∷ src) b v
  unfolding last_task thread_task
  last_task_lem o thread e nz g s = elim thread [
    | inl common ↦ (
      drained a l,
      stored a w (x ∷ src),
      if_false _ _ _ common ∙ task,
      record {
        closed = refl;
        file = refl;
        size = refl;
        buffer = refl;
        no_stream = refl;
        files = refl;
        peers = refl;
      },
    )
    | inr runs ↦ elim (Bool-cases (is_own a.worker)) [
      | inl alone ↦ (
        record (drained a l) { running = false },
        stored a w (x ∷ src),
        if_true _ _ _ alone
            ∙ if_true _ _ _ runs
            ∙ ap (λ r. r >>= λ (p : Appender × World). some (record p.0 { running = false }, p.1))
                task,
        record {
          closed = refl;
          file = refl;
          size = refl;
          buffer = refl;
          no_stream = refl;
          files = refl;
          peers = refl;
        },
      )
      | inr common ↦ (
        drained a l,
        stored a w (x ∷ src),
        if_false _ _ _ common ∙ task,
        record {
          closed = refl;
          file = refl;
          size = refl;
          buffer = refl;
          no_stream = refl;
          files = refl;
          peers = refl;
        },
      )
    ]
  ]
    where
      task : thread_task os a w ≡ some (drained a l, stored a w (x ∷ src))
      task =
          at_buffer os a w l a.log_buff o.buffer
          ∙ drain_async os a w l x src o.mode (IsReady-IsBacked l o.ready) o.named o.no_stream e nz
              g s

wiped : (m : Bytes) (n : ℕ) → length m ≡ n → overwrite m 0 (replicate n 0) ≡ replicate n 0
wiped m n h =
    sym (take_of_length_le n _ (omega (arith, length-overwrite m 0 (replicate n 0))))
    ∙ take-overwrite_end m 0 (replicate n 0) n (omega (arith, length-fill n 0))
        (omega (arith, length-fill n 0))

wiped_ptr :
    (p : Ptr) (n : ℕ)
    → 0 < n
    → length (target p) ≡ n
    → overwrite_ptr p 0 (replicate n 0) ≡ some (replicate n 0)
wiped_ptr none n pos h = absurd (omega arith)
wiped_ptr (some m) n pos h = ap some (wiped m n h)

pub release_block_lem :
    (b : Appender) (v : World) (k : LogBuffer) (m : MmapFile)
    → 0 < b.block_length
    → b.log_buff ≡ some k
    → b.mmap_file ≡ some m
    → m.is_open ≡ true
    → length (target k.buff.parray) ≡ b.block_length
    → release_block b v
      ≡ some (
        record b { mmap_file = none; log_buff = none },
        record v { cache = replicate b.block_length 0 },
      )
unfolding release_block memset
release_block_lem b v k m pos buffer file is_open whole = rw (
  file,
  buffer,
  is_open,
  memcpy_lem k.buff.parray 0 (replicate b.block_length 0)
      (omega (arith, length-fill b.block_length 0, whole)),
  wiped_ptr k.buff.parray b.block_length pos whole,
)

pub close_logfile_lem :
    (c : Appender)
    → ((close_logfile c).log_close ≡ c.log_close)
      × ((close_logfile c).log_buff ≡ c.log_buff)
      × ((close_logfile c).mmap_file ≡ c.mmap_file)
      × ((close_logfile c).logfile ≡ none)
unfolding close_logfile
close_logfile_lem c = ground arith

-- Closing an open appender in the asynchronous mode over a mapped file, with a thread to do the
-- work and a working system, moves the pending text, which begins with no zero byte, whole to the
-- end of the log file; the appender is then closed, without buffer, mapped file or stream, and the
-- file that was mapped holds zero bytes only.
pub close_log_lem :
    (os : Os) (a : Appender) (w : World) (l : LogBuffer) (m : MmapFile) (x : ℕ) (src : Bytes)
    → IsOpenAsync a l
    → IsMapped a l m
    → 0 < a.block_length
    → HasThread a
    → text l ≡ x ∷ src
    → x ≢ 0
    → Grants os (length (x ∷ src))
    → Works os (log_path a a.logdir) (length (x ∷ src))
    → (b : Appender) × (v : World) × (close_log os a w ≡ some (b, v))
      × (b.log_close ≡ true)
      × (b.log_buff ≡ none)
      × (b.mmap_file ≡ none)
      × (b.logfile ≡ none)
      × (v.files ≡ appended_file w.files (log_path a a.logdir) (x ∷ src))
      × (v.cache ≡ replicate a.block_length 0)
unfolding close_log
close_log_lem os a w l m x src o mapped pos thread e nz g s =
    let closing : Appender = record a { log_close = true } in
    let told : World = record w {
      own_signals = w.own_signals + 1;
      shared_signals = w.shared_signals + 1;
    } in
    let (b, v, e', t) =
      last_task_lem os closing told l x src
        (record {
          live = refl;
          mode = o.mode;
          buffer = o.buffer;
          ready = o.ready;
          named = o.named;
          no_stream = o.no_stream;
        })
        thread e nz g s in
    let released : Appender = record b { mmap_file = none; log_buff = none } in
    let (c1, c2, c3, c4) = close_logfile_lem released in
    (
      close_logfile released,
      record v { cache = replicate b.block_length 0 },
      if_false _ _ _ o.live
          ∙ rw (
            e',
            release_block_lem b v (cleared l) m (omega (arith, t.size)) t.buffer
                (t.file ∙ mapped.file) mapped.file_open
                (length-overwrite_ptr l.buff.parray 0 (0 ∷ []) ∙ mapped.whole ∙ sym t.size),
          ),
      c1 ∙ t.closed,
      c2,
      c3,
      c4,
      t.files,
      ap (λ n. replicate n 0) t.size,
    )
