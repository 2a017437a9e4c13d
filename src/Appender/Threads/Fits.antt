-- ===== src/Appender/Threads/Fits.antt =====
-- What a thread in its place may rely on, whatever the other threads do.
use mtappender_file.Prelude.{
  ℕ, ◌<◌, ◌^◌, ◌≡◌, ◌≢◌, ◌⊎◌, ◌∙◌, sym, inl, inr, Bool, true, false, Option, none, some, [], ◌∷◌,
  Bytes, Ptr, List,
}
use mathlib.Core.Path.{subst}
use mtappender_file.AutoBuffer
use mtappender_file.AutoBuffer.{AutoBuffer}
use mtappender_file.AutoBuffer.Valid
use mtappender_file.LogBuffer.{LogBuffer}
use mtappender_file.LogBuffer.Append.{IsReady, text}
use mtappender_file.LogBuffer.Flush.{StartsText}
use mtappender_file.Sync.Mutex.{Mutex}
pub use mtappender_file.Appender.FileLaws.{AlwaysWorks}
use mtappender_file.Appender.State.{Mode, Stream, async, is_empty}
use mtappender_file.Appender.LogFile.{make_logfilename, log_ext, fresh}
use mtappender_file.Appender.AppendLaws.{HaveBuffers, IsPrintable}
use mtappender_file.Appender.Threads.{
  Shared, append, task, flush_sync, Place, outside, wants_buffer, appending, flushing, filled,
  wants_file, opening, writing, closing,
}

abbrev pub in_buffer : Place → Bool
in_buffer (appending _ _ _) = true
in_buffer (flushing _ _) = true
in_buffer _ = false

abbrev pub in_file : Place → Bool
in_file (opening _ _) = true
in_file (writing _ _ _) = true
in_file (closing _ _ _) = true
in_file _ = false

abbrev pub of_memory : Ptr → Bytes → List Bytes
of_memory none c = []
of_memory (some p) c = c ∷ []

-- The text that a thread has taken out of the log buffer and has not written to the log file yet.
abbrev pub chunk : Place → List Bytes
chunk (filled tmp) = of_memory tmp.parray (Valid.contents tmp)
chunk (wants_file src) = src ∷ []
chunk (opening _ src) = src ∷ []
chunk (writing _ src _) = src ∷ []
chunk _ = []

-- A thread holds a mutex exactly in the places between its lock and its unlock.
abbrev pub Holds : Bool → Option ℕ → ℕ → Type 0
Holds true h i = h ≡ some i
Holds false h i = h ≢ some i

-- An error checking mutex, by its holder.
abbrev pub plain : Option ℕ → Mutex
plain h = record { intact = true; recursive = false; holder = h; again = 0 }

-- Thread `i` may take the mutex, or has it.
abbrev pub IsMine : Option ℕ → ℕ → Type 0
IsMine h i = (h ≡ none) ⊎ (h ≡ some i)

not_mine : (h : Option ℕ) (i j : ℕ) → j ≢ i → IsMine h i → h ≢ some j
not_mine h i j other (inl free) e = cc (sym free ∙ e)
not_mine h i j other (inr held) e = other (cc (sym e ∙ held))

module _ (path : Bytes) (Flushes : ℕ → Type 0) where
  -- What a thread has read is still so.
  abbrev pub Local : Option LogBuffer → Option Stream → ℕ → Place → Type 0
  Local log file i outside = Unit
  Local log file i (wants_buffer (append t)) = IsPrintable t
  Local log file i (wants_buffer task) = Flushes i
  Local log file i (wants_buffer flush_sync) = Flushes i
  Local log file i (appending b t l) = (b ≡ true) × (log ≡ some l) × IsPrintable t
  Local log file i (flushing b l) = (b ≡ true) × (log ≡ some l) × Flushes i
  Local log file i (filled tmp) =
      Valid.IsValid tmp
      × ((tmp ≡ AutoBuffer.empty 128) ⊎ StartsText (Valid.contents tmp))
      × Flushes i
  Local log file i (wants_file src) = StartsText src × Flushes i
  Local log file i (opening b src) = (b ≡ true) × (file ≡ none) × StartsText src × Flushes i
  Local log file i (writing b src opened) =
      (b ≡ true) × (opened ≡ true) × (file ≡ some (fresh path)) × StartsText src × Flushes i
  Local log file i (closing b opened wrote) =
      (b ≡ true)
      × (opened ≡ true)
      × (wrote ≡ true)
      × (k : ℕ) × (file ≡ some (record { path = path; buffered = k }))

  pub record Fits (sh : Shared) (i : ℕ) (p : Place) : Type 0 where
    pub buffer : Holds (in_buffer p) sh.buffer_mutex.holder i
    pub file : Holds (in_file p) sh.file_mutex.holder i
    pub local : Local sh.appender.log_buff sh.appender.logfile i p

  module _ (sh sh' : Shared) (i j : ℕ) (other : j ≢ i) where
    -- A step of thread `i` in the buffer's section, or into it or out of it.
    pub Fits-buffer :
        IsMine sh.buffer_mutex.holder i
        → IsMine sh'.buffer_mutex.holder i
        → sh'.file_mutex ≡ sh.file_mutex
        → sh'.appender.logfile ≡ sh.appender.logfile
        → (p : Place) → Fits sh j p
        → Fits sh' j p
    Fits-buffer m m' f e p h = record {
      buffer = holds (in_buffer p) h.buffer;
      file = subst (λ q. Holds (in_file p) q.holder j) (sym f) h.file;
      local = keeps p h.buffer h.local;
    }
      where
        holds : (b : Bool) → Holds b sh.buffer_mutex.holder j → Holds b sh'.buffer_mutex.holder j
        holds true h = absurd (not_mine _ i j other m h)
        holds false h = not_mine _ i j other m'

        keeps :
            (p : Place)
            → Holds (in_buffer p) sh.buffer_mutex.holder j
            → Local sh.appender.log_buff sh.appender.logfile j p
            → Local sh'.appender.log_buff sh'.appender.logfile j p
        keeps outside b h = h
        keeps (wants_buffer (append t)) b h = h
        keeps (wants_buffer task) b h = h
        keeps (wants_buffer flush_sync) b h = h
        keeps (appending _ t l) b h = absurd (not_mine _ i j other m b)
        keeps (flushing _ l) b h = absurd (not_mine _ i j other m b)
        keeps (filled tmp) b h = h
        keeps (wants_file src) b h = h
        keeps (opening _ src) b h = (h.0, e ∙ h.1, h.2, h.3)
        keeps (writing _ src o) b h = (h.0, h.1, e ∙ h.2, h.3, h.4)
        keeps (closing _ o w) b h = (h.0, h.1, h.2, h.3, e ∙ h.4)

    -- A step of thread `i` in the file's section, or into it or out of it.
    pub Fits-file :
        IsMine sh.file_mutex.holder i
        → IsMine sh'.file_mutex.holder i
        → sh'.buffer_mutex ≡ sh.buffer_mutex
        → sh'.appender.log_buff ≡ sh.appender.log_buff
        → (p : Place) → Fits sh j p
        → Fits sh' j p
    Fits-file m m' f e p h = record {
      buffer = subst (λ q. Holds (in_buffer p) q.holder j) (sym f) h.buffer;
      file = holds (in_file p) h.file;
      local = keeps p h.file h.local;
    }
      where
        holds : (b : Bool) → Holds b sh.file_mutex.holder j → Holds b sh'.file_mutex.holder j
        holds true h = absurd (not_mine _ i j other m h)
        holds false h = not_mine _ i j other m'

        keeps :
            (p : Place)
            → Holds (in_file p) sh.file_mutex.holder j
            → Local sh.appender.log_buff sh.appender.logfile j p
            → Local sh'.appender.log_buff sh'.appender.logfile j p
        keeps outside b h = h
        keeps (wants_buffer (append t)) b h = h
        keeps (wants_buffer task) b h = h
        keeps (wants_buffer flush_sync) b h = h
        keeps (appending _ t l) b h = (h.0, e ∙ h.1, h.2)
        keeps (flushing _ l) b h = (h.0, e ∙ h.1, h.2)
        keeps (filled tmp) b h = h
        keeps (wants_file src) b h = h
        keeps (opening _ src) b h = absurd (not_mine _ i j other m b)
        keeps (writing _ src o) b h = absurd (not_mine _ i j other m b)
        keeps (closing _ o w) b h = absurd (not_mine _ i j other m b)

-- An open appender in the asynchronous mode with the log file at `path` and a block of `size` bytes,
-- by its fields.
pub record IsOpenAt (path : Bytes) (size : ℕ) (log_close : Bool) (m : Mode) (dir name : Bytes)
    (block_length : ℕ) : Type 0 where
  pub live : log_close ≡ false
  pub mode : m ≡ async
  pub named : is_empty dir ≡ false
  pub at_path : make_logfilename dir name log_ext 1024 ≡ path
  pub block : block_length ≡ size
  pub small : size < 2 ^ 29

-- A log buffer of `max` bytes with a text that begins with no zero byte, if there is any.
pub record HasLog (max : ℕ) (o : Option LogBuffer) : Type 0 where
  pub log : LogBuffer
  pub log_here : o ≡ some log
  pub ready : IsReady log
  pub max_len : log.buff.max_len ≡ max
  pub starts : (text log ≡ []) ⊎ StartsText (text log)

-- What holds of the appender whatever the threads do.
pub record IsHealthy (path : Bytes) (size max : ℕ) (sh : Shared) : Type 0 where
  pub open_at :
      IsOpenAt path size sh.appender.log_close sh.appender.mode sh.appender.logdir
        sh.appender.logfilename sh.appender.block_length
  pub open open_at use *
  pub has_log : HasLog max sh.appender.log_buff
  pub open has_log use *
  pub buffer_mutex : sh.buffer_mutex ≡ plain sh.buffer_mutex.holder
  pub file_mutex : sh.file_mutex ≡ plain sh.file_mutex.holder
  pub no_stream : sh.file_mutex.holder ≡ none → sh.appender.logfile ≡ none
  pub peers : HaveBuffers sh.world.peers
