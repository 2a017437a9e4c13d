-- ===== src/Appender/Threads/InFile.antt =====
-- The parts of `__log2file`, under the mutex of the log file.
use mtappender_file.Prelude.{
  ℕ, ◌≤◌, ◌≡◌, ◌≢◌, refl, ◌∙◌, sym, ap, arith, inl, inr, Bool, true, Option, none, some, append-nil,
  length, take_of_length_le, Bytes, Option-cases, le→leb,
}
use mathlib.Core.Path.{ap₂}
use mtappender_file.Sync.Lock.{enter}
use mtappender_file.Appender.State.{Os, is_async, appended_file}
use mtappender_file.Appender.LogFile.{
  open_logfile, open_stream, reopen, write_file, close_logfile, log_path, fresh, holding,
}
use mtappender_file.Appender.Threads.{
  Shared, Place, outside, wants_file, opening, writing, closing, freed, act, take_file,
}
use mtappender_file.Appender.Threads.Fits.{plain, Fits, IsMine, Fits-file, IsHealthy, AlwaysWorks}
use mtappender_file.Appender.Threads.Flow.{
  enter_free, enter_busy, freed_own, pending, quiet, stores, stays, Goes,
}

-- The shared state after each part, for a system that works.
abbrev pub locked_by : ℕ → Shared → Shared
locked_by i sh = record sh { file_mutex = plain (some i) }

abbrev pub opened_by : Os → Shared → Shared
opened_by os sh = record sh {
  appender = record sh.appender {
    openfiletime = os.now;
    current_dir = sh.appender.logdir;
    logfile = some (fresh (log_path sh.appender sh.appender.logdir));
  };
}

abbrev pub written_by : Os → Bytes → Bytes → Shared → Shared
written_by os path src sh = record sh {
  appender = record sh.appender { logfile = some (holding os (fresh path) src) };
  world = record sh.world { files = appended_file sh.world.files path src };
}

abbrev pub closed_by : Shared → Shared
closed_by sh = record sh {
  appender = record sh.appender { openfiletime = 0; logfile = none };
  file_mutex = plain none;
}

module _ (path : Bytes) (size max : ℕ) (Flushes : ℕ → Type 0) (os : Os)
    (works : AlwaysWorks os path) (sh : Shared) (i : ℕ) (g : IsHealthy path size max sh) where
  with_file_mutex :
      (h : Option ℕ)
      → (h ≡ none → sh.appender.logfile ≡ none)
      → IsHealthy path size max (record sh { file_mutex = plain h })
  with_file_mutex h closed = record {
    open_at = g.open_at;
    has_log = g.has_log;
    buffer_mutex = g.buffer_mutex;
    file_mutex = refl;
    no_stream = closed;
    peers = g.peers;
  }

  file_freed :
      (b : Bool) → b ≡ true → sh.file_mutex.holder ≡ some i → freed sh.file_mutex b i ≡ plain none
  file_freed b locked held =
      ap₂ (λ m c. freed m c i) (g.file_mutex ∙ ap plain held) locked ∙ freed_own i

  file_others :
      (sh' : Shared)
      → IsMine sh.file_mutex.holder i
      → IsMine sh'.file_mutex.holder i
      → sh'.buffer_mutex ≡ sh.buffer_mutex
      → sh'.appender.log_buff ≡ sh.appender.log_buff
      → (j : ℕ) → j ≢ i
      → (q : Place) → Fits path Flushes sh j q
      → Fits path Flushes sh' j q
  file_others sh' m m' e e' j other = Fits-file path Flushes sh sh' i j other m m' e e'

  pub act-wants_file :
      (src : Bytes)
      → sh.file_mutex.holder ≡ none
      → act os i sh (wants_file src) ≡ some (locked_by i sh, opening true src)
  unfolding act take_file
  act-wants_file src free =
      let e : enter sh.file_mutex i true
          ≡ some (record { mutex = plain (some i); is_locked = true }) =
        ap (λ m. enter m i true) (g.file_mutex ∙ ap plain free) ∙ enter_free i in
      rw e

  pub act-opening :
      (b : Bool) (src : Bytes)
      → sh.appender.logfile ≡ none
      → act os i sh (opening b src) ≡ some (opened_by os sh, writing b src true)
  unfolding act open_logfile open_stream reopen
  act-opening b src no_stream = rw (g.named, no_stream, ap os.opens_log g.at_path ∙ works.opens)

  pub act-writing :
      (b : Bool) (src : Bytes) (opened : Bool)
      → opened ≡ true
      → sh.appender.logfile ≡ some (fresh path)
      → act os i sh (writing b src opened) ≡ some (written_by os path src sh, closing b true true)
  unfolding act write_file
  act-writing b src opened done stream =
      let fits : length src ≤ os.takes (length src) = works.takes (length src) in
      rw (
        done,
        stream,
        works.tells,
        take_of_length_le (os.takes (length src)) src fits,
        le→leb (length src) (os.takes (length src)) fits,
      )

  pub act-closing :
      (b opened wrote : Bool) (k : ℕ)
      → b ≡ true
      → opened ≡ true
      → wrote ≡ true
      → sh.file_mutex.holder ≡ some i
      → sh.appender.logfile ≡ some (record { path = path; buffered = k })
      → act os i sh (closing b opened wrote) ≡ some (closed_by sh, outside)
  unfolding act close_logfile
  act-closing b opened wrote k locked done all held stream =
      rw (done, all, ap is_async g.mode, stream, file_freed b locked held)

  pub wants_file_lem :
      (src : Bytes)
      → Fits path Flushes sh i (wants_file src)
      → Goes os.zone path size max Flushes os sh i (wants_file src)
  unfolding act take_file
  wants_file_lem src f = elim (Option-cases sh.file_mutex.holder) [
    | inl free ↦ (
      locked_by i sh,
      opening true src,
      act-wants_file src free,
      record {
        healthy = with_file_mutex (some i) (λ e. cc e);
        fits = record {
          buffer = f.buffer;
          file = refl;
          local = (refl, g.no_stream free, f.local.0, f.local.1);
        };
        others = file_others (locked_by i sh) (inl free) (inr refl) refl refl;
        flow = quiet refl refl (sym (append-nil (pending sh)));
        moves = inl (omega arith);
        wants = inl (refl, refl);
      },
    )
    | inr (j, held) ↦
        let busy : enter sh.file_mutex i true ≡ none =
          ap (λ m. enter m i true) (g.file_mutex ∙ ap plain held)
          ∙ enter_busy i j (λ same. f.file (held ∙ ap some same)) in
        (
          sh,
          wants_file src,
          rw busy,
          stays os.zone path size max Flushes sh i g (wants_file src) f refl (j, held),
        )
  ]

  pub opening_lem :
      (b : Bool) (src : Bytes)
      → Fits path Flushes sh i (opening b src)
      → Goes os.zone path size max Flushes os sh i (opening b src)
  opening_lem b src f = (
    opened_by os sh,
    writing b src true,
    act-opening b src f.local.1,
    record {
      healthy = record {
        open_at = g.open_at;
        has_log = g.has_log;
        buffer_mutex = g.buffer_mutex;
        file_mutex = g.file_mutex;
        no_stream = λ free. cc (sym f.file ∙ free);
        peers = g.peers;
      };
      fits = record {
        buffer = f.buffer;
        file = f.file;
        local = (f.local.0, refl, ap (λ p. some (fresh p)) g.at_path, f.local.2, f.local.3);
      };
      others = file_others _ (inr f.file) (inr f.file) refl refl;
      flow = quiet refl refl (sym (append-nil (pending sh)));
      moves = inl (omega arith);
      wants = inl (refl, refl);
    },
  )

  pub writing_lem :
      (b : Bool) (src : Bytes) (opened : Bool)
      → Fits path Flushes sh i (writing b src opened)
      → Goes os.zone path size max Flushes os sh i (writing b src opened)
  writing_lem b src opened f = (
    written_by os path src sh,
    closing b true true,
    act-writing b src opened f.local.1 f.local.2,
    record {
      healthy = record {
        open_at = g.open_at;
        has_log = g.has_log;
        buffer_mutex = g.buffer_mutex;
        file_mutex = g.file_mutex;
        no_stream = λ free. cc (sym f.file ∙ free);
        peers = g.peers;
      };
      fits = record { buffer = f.buffer; file = f.file; local = (f.local.0, refl, refl, _, refl) };
      others = file_others _ (inr f.file) (inr f.file) refl refl;
      flow = stores src refl refl refl refl refl;
      moves = inl (omega arith);
      wants = inl (refl, refl);
    },
  )

  pub closing_lem :
      (b opened wrote : Bool)
      → Fits path Flushes sh i (closing b opened wrote)
      → Goes os.zone path size max Flushes os sh i (closing b opened wrote)
  closing_lem b opened wrote f = (
    closed_by sh,
    outside,
    act-closing b opened wrote f.local.3 f.local.0 f.local.1 f.local.2 f.file f.local.4,
    record {
      healthy = record {
        open_at = g.open_at;
        has_log = g.has_log;
        buffer_mutex = g.buffer_mutex;
        file_mutex = refl;
        no_stream = λ free. refl;
        peers = g.peers;
      };
      fits = record { buffer = f.buffer; file = λ e. cc e; local = tt };
      others = file_others _ (inr f.file) (inl refl) refl refl;
      flow = quiet refl refl (sym (append-nil (pending sh)));
      moves = inl (omega arith);
      wants = inl (refl, refl);
    },
  )
