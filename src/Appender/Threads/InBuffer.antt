-- ===== src/Appender/Threads/InBuffer.antt =====
-- The parts in front of the buffer's mutex and, for an append, under it.
use mtappender_file.Prelude.{
  ℕ, ◌+◌, ◌<◌, ◌≡◌, ◌≢◌, ◌⊎◌, refl, ◌∙◌, sym, ap, arith, inl, inr, Bool, true, Option, none, some,
  [], ◌∷◌, ◌++◌, append-nil, length, length-append, take_of_length_le, Bytes, Option-cases,
}
use mathlib.Core.Path.{subst, ap₂}
use mtappender_file.LogBuffer.{LogBuffer}
use mtappender_file.LogBuffer.Append.{IsReady, text, length-text}
use mtappender_file.LogBuffer.Flush.{starts_behind, StartsText}
use mtappender_file.Sync.Lock.{enter}
use mtappender_file.Appender.State.{Entry, Os}
use mtappender_file.Appender.AppendLaws.{line_of, starts_line, HaveBuffers, append_pending_lem}
use mtappender_file.Appender.Threads.{
  Shared, Job, append, task, flush_sync, Place, outside, wants_buffer, appending, flushing, freed,
  act, take_buffer, entered,
}
use mtappender_file.Appender.Threads.Fits.{
  chunk, plain, Local, Fits, IsMine, Fits-buffer, IsHealthy, AlwaysWorks,
}
use mtappender_file.Appender.Threads.Flow.{
  enter_free, enter_busy, freed_own, pending, quiet, rank, wanted, After, HasRoom, stays, Goes,
}

pub some_text : (xs : Bytes) → StartsText xs → (y : ℕ) × (ys : Bytes) × (xs ≡ y ∷ ys)
some_text [] s = absurd s
some_text (x ∷ xs) s = (x, xs, refl)

module _ (path : Bytes) (size max : ℕ) (Flushes : ℕ → Type 0) (os : Os)
    (works : AlwaysWorks os path) (sh : Shared) (i : ℕ) (g : IsHealthy path size max sh) where
  -- The buffer's mutex has another holder, one that thread `i` is or none.
  with_buffer_mutex :
      (h : Option ℕ) → IsHealthy path size max (record sh { buffer_mutex = plain h })
  with_buffer_mutex h = record {
    open_at = g.open_at;
    has_log = g.has_log;
    buffer_mutex = refl;
    file_mutex = g.file_mutex;
    no_stream = g.no_stream;
    peers = g.peers;
  }

  pub buffer_freed :
      (b : Bool)
      → b ≡ true
      → sh.buffer_mutex.holder ≡ some i
      → freed sh.buffer_mutex b i ≡ plain none
  buffer_freed b locked held =
      ap₂ (λ m c. freed m c i) (g.buffer_mutex ∙ ap plain held) locked ∙ freed_own i

  pub buffer_others :
      (sh' : Shared)
      → IsMine sh.buffer_mutex.holder i
      → IsMine sh'.buffer_mutex.holder i
      → sh'.file_mutex ≡ sh.file_mutex
      → sh'.appender.logfile ≡ sh.appender.logfile
      → (j : ℕ) → j ≢ i
      → (q : Place) → Fits path Flushes sh j q
      → Fits path Flushes sh' j q
  buffer_others sh' m m' e e' j other = Fits-buffer path Flushes sh sh' i j other m m' e e'

  -- A thread takes the free mutex.
  goes_in :
      (job : Job) (p : Place)
      → sh.buffer_mutex.holder ≡ none
      → Fits path Flushes (record sh { buffer_mutex = plain (some i) }) i p
      → chunk p ≡ []
      → rank p < 7
      → wanted p ≡ wanted (wants_buffer job)
      → After os.zone path size max Flushes sh i
          (wants_buffer job)
          (record sh { buffer_mutex = plain (some i) })
          p
  goes_in job p free fits nothing less same = record {
    healthy = with_buffer_mutex (some i);
    fits = fits;
    others =
        buffer_others (record sh { buffer_mutex = plain (some i) }) (inl free) (inr refl) refl refl;
    flow = quiet refl nothing (sym (append-nil (pending sh)));
    moves = inl less;
    wants = inl (refl, same);
  }

  pub wants_buffer_lem :
      (job : Job)
      → Fits path Flushes sh i (wants_buffer job)
      → Goes os.zone path size max Flushes os sh i (wants_buffer job)
  unfolding act take_buffer entered
  wants_buffer_lem job f = elim (Option-cases sh.buffer_mutex.holder) [
    | inl free ↦
        let e : enter sh.buffer_mutex i true
            ≡ some (record { mutex = plain (some i); is_locked = true }) =
          ap (λ m. enter m i true) (g.buffer_mutex ∙ ap plain free) ∙ enter_free i in
        go job f.local free e
    | inr (j, held) ↦
        let busy : enter sh.buffer_mutex i true ≡ none =
          ap (λ m. enter m i true) (g.buffer_mutex ∙ ap plain held)
          ∙ enter_busy i j (λ same. f.buffer (held ∙ ap some same)) in
        (
          sh,
          wants_buffer job,
          rw busy,
          stays os.zone path size max Flushes sh i g (wants_buffer job) f refl (j, held),
        )
  ]
    where
      go :
          (job : Job)
          → Local path Flushes sh.appender.log_buff sh.appender.logfile i (wants_buffer job)
          → sh.buffer_mutex.holder ≡ none
          → enter sh.buffer_mutex i true
            ≡ some (record { mutex = plain (some i); is_locked = true })
          → Goes os.zone path size max Flushes os sh i (wants_buffer job)
      go (append t) s free e = (
        record sh { buffer_mutex = plain (some i) },
        appending true t g.log,
        rw (e, g.log_here),
        goes_in (append t) (appending true t g.log) free
            (record { buffer = refl; file = f.file; local = (refl, g.log_here, s) }) refl
            (omega arith) refl,
      )
      go task s free e = (
        record sh { buffer_mutex = plain (some i) },
        flushing true g.log,
        rw (e, g.log_here),
        goes_in task (flushing true g.log) free
            (record { buffer = refl; file = f.file; local = (refl, g.log_here, s) }) refl
            (omega arith) refl,
      )
      go flush_sync s free e = (
        record sh { buffer_mutex = plain (some i) },
        flushing true g.log,
        rw (e, g.log_here),
        goes_in flush_sync (flushing true g.log) free
            (record { buffer = refl; file = f.file; local = (refl, g.log_here, s) }) refl
            (omega arith) refl,
      )

  pub appending_lem :
      (b : Bool) (t : Entry) (l : LogBuffer)
      → Fits path Flushes sh i (appending b t l)
      → HasRoom os.zone path size max Flushes sh (appending b t l)
      → Goes os.zone path size max Flushes os sh i (appending b t l)
  unfolding act
  appending_lem b t l f room =
      let log : g.log ≡ l = cc (sym g.log_here ∙ f.local.1) in
      let ready : IsReady l = subst IsReady log g.ready in
      let line : Bytes = line_of os.zone t.info t.body in
      let all : pending sh ++ (line ++ []) ≡ text l ++ line = rw (f.local.1, append-nil line) in
      let sizes : length (text l ++ line) ≡ length (text l) + length line =
        length-append (text l) line in
      let (x, body, cons) = some_text t.body f.local.2.0 in
      let (k, v, e, r, m, memory, held, files, peers, third, mark) =
        append_pending_lem os sh.appender sh.world t.info t.body l (omega (arith, ap length cons))
          f.local.2.1 ready (omega (arith, g.block, g.small))
          (omega (arith, room.below, ap length all, sizes, length-text l ready, g.block)) g.peers in
      let whole : text k ≡ text l ++ line =
        held
        ∙ take_of_length_le l.buff.max_len (text l ++ line) (
            omega (arith, room.in_block, ap length all, g.max_len, ap (λ q. q.buff.max_len) log)) in
      (
        record sh {
          appender = record sh.appender { log_buff = some k };
          world = v;
          buffer_mutex = plain none;
        },
        outside,
        rw e (
            ap
              (λ mu. some (
                record sh {
                  appender = record sh.appender { log_buff = some k };
                  world = v;
                  buffer_mutex = mu;
                },
                outside,
              ))
              (buffer_freed b f.local.0 f.buffer)),
        record {
          healthy = record {
            open_at = g.open_at;
            has_log = record {
              log = k;
              log_here = refl;
              ready = r;
              max_len = m ∙ ap (λ q. q.buff.max_len) (sym log) ∙ g.max_len;
              starts = inr (
                  subst StartsText (sym whole) (
                    starts_behind (text l) line
                      (subst (λ q. (text q ≡ []) ⊎ StartsText (text q)) log g.starts)
                      (subst (λ q. StartsText (line_of os.zone t.info q)) (sym cons)
                        (starts_line os.zone t.info x body f.local.2.1
                          (subst StartsText cons f.local.2.0)))));
            };
            buffer_mutex = refl;
            file_mutex = g.file_mutex;
            no_stream = g.no_stream;
            peers = subst HaveBuffers (sym peers) g.peers;
          };
          fits = record { buffer = λ e. cc e; file = f.file; local = tt };
          others =
              buffer_others
                (record sh {
                  appender = record sh.appender { log_buff = some k };
                  world = v;
                  buffer_mutex = plain none;
                })
                (inr f.buffer) (inl refl) refl refl;
          flow = quiet files refl (whole ∙ sym all);
          moves = inl (omega arith);
          wants = inr (refl, refl);
        },
      )
