-- ===== src/Appender/Threads/Safe.antt =====
-- loglib/mtaf_appender.cpp: what is kept by every step of several threads.
use mtappender_file.Prelude.{
  some-injective, ℕ, ◌+◌, ◌≤◌, Bool, ◌<◌, ◌≡◌, ◌≢◌, ◌⊎◌, refl, ◌∙◌, sym, ap, arith, inl, inr,
  Bool-cases, none, List, [], ◌++◌, append-nil, length, length-append, Bytes, update, update-all,
  all_of-update_same, update_other,
}
use mathlib.Core.Path.{subst}
use mathlib.Core.List.{flatten}
use mtappender_file.Formatter.{Zone}
use mtappender_file.Appender.State.{Entry, Appender, World, Os}
use mtappender_file.Appender.Api.{show_console, flush}
use mtappender_file.Appender.Session.{lines}
use mtappender_file.Appender.AppendLaws.{HaveBuffers}
use mtappender_file.Appender.Threads.{
  Shared, Job, Place, outside, wants_buffer, append, task, flush_sync, appending, flushing, filled,
  wants_file, opening, writing, closing, System, Step, appends, tasks, flushes, notifies,
  sets_console, acts, texts_of, Reachable, begins, stepped, appended,
}
use mtappender_file.Appender.Threads.Fits.{chunk, Local, Fits, IsHealthy, AlwaysWorks}
use mtappender_file.Appender.Threads.Flow.{pending, After, HasRoom}
use mtappender_file.Appender.Threads.Moves.{act_lem}
use mtappender_file.Appender.Threads.Order.{IsKept}
use mtappender_file.Appender.FileLaws.{appended_file-nil}
use mtappender_file.Appender.Threads.Accounts.{
  AllFit, before_fit, Accounts, all_here, Flow-Accounts,
}

console_files : (a : Appender) (w : World) (t : Bytes) → (show_console a w t).files ≡ w.files
console_files a w t = elim (Bool-cases a.consolelog_open) [ inl on ↦ rw on | inr off ↦ rw off ]

console_peers : (a : Appender) (w : World) (t : Bytes) → (show_console a w t).peers ≡ w.peers
console_peers a w t = elim (Bool-cases a.consolelog_open) [ inl on ↦ rw on | inr off ↦ rw off ]

pub record IsSafe (zone : Zone) (path : Bytes) (size max : ℕ) (Flushes : ℕ → Type 0) (n : ℕ)
    (R : List Bytes → List Bytes → Type 0) (sh₀ : Shared) (s : System) (ts : List Entry)
    : Type 0 where
  pub healthy : IsHealthy path size max s.shared
  pub fits : (j : ℕ) → Fits path Flushes s.shared j (s.place j)
  pub beyond : (j : ℕ) → n ≤ j → s.place j ≡ outside
  pub accounts : Accounts zone path n R sh₀ s ts
  pub open accounts use *

chunk-Flushes :
    (path : Bytes) (Flushes : ℕ → Type 0) (sh : Shared) (j : ℕ) (p : Place)
    → Fits path Flushes sh j p
    → (chunk p ≡ []) ⊎ Flushes j
chunk-Flushes path Flushes sh j (filled tmp) f = inr f.local.2
chunk-Flushes path Flushes sh j (wants_file src) f = inr f.local.1
chunk-Flushes path Flushes sh j (opening _ src) f = inr f.local.3
chunk-Flushes path Flushes sh j (writing _ src _) f = inr f.local.4
chunk-Flushes path Flushes sh j outside f = inl refl
chunk-Flushes path Flushes sh j (wants_buffer job) f = inl refl
chunk-Flushes path Flushes sh j (appending _ t l) f = inl refl
chunk-Flushes path Flushes sh j (flushing _ l) f = inl refl
chunk-Flushes path Flushes sh j (closing _ o w) f = inl refl

module _ (path : Bytes) (size max : ℕ) (Flushes : ℕ → Type 0) (os : Os) (n : ℕ)
    (R : List Bytes → List Bytes → Type 0) (kept : IsKept n Flushes R) (works : AlwaysWorks os path)
    (sh₀ : Shared) where
  module _ (s : System) (ts : List Entry)
      (h : IsSafe os.zone path size max Flushes n R sh₀ s ts) where
    flushers : (j : ℕ) → (chunk (s.place j) ≡ []) ⊎ Flushes j
    flushers j = chunk-Flushes path Flushes s.shared j (s.place j) (h.fits j)

    pub room :
        (p : Place)
        → AllFit os.zone size max sh₀ (ts ++ appended p)
        → HasRoom os.zone path size max Flushes s.shared p
    room p f =
        let total : length (flatten h.taken)
              + length (pending s.shared ++ lines os.zone (appended p))
            ≡ length (pending sh₀ ++ lines os.zone (ts ++ appended p)) =
          sym (length-append (flatten h.taken) (pending s.shared ++ lines os.zone (appended p)))
          ∙ ap length (
              all_here os.zone path size max Flushes n R kept sh₀ s ts h.accounts flushers
                (appended p)) in
        omega (arith, total, f.below, f.in_block)

    below_it : (i j : ℕ) → i < n → n ≤ j → j ≢ i
    below_it i j lt le e = omega arith

    After-act :
        (i : ℕ) (sh : Shared) (p : Place)
        → i < n
        → After os.zone path size max Flushes s.shared i (s.place i) sh p
        → IsSafe os.zone path size max Flushes n R sh₀
            (record { shared = sh; place = update s.place i p })
            (ts ++ appended (s.place i))
    After-act i sh p lt a = record {
      healthy = a.healthy;
      fits =
          update-all (Fits path Flushes sh) s.place i p a.fits
            (λ j other. a.others j other (s.place j) (h.fits j));
      beyond = λ j le. update_other s.place i p j (below_it i j lt le) ∙ h.beyond j le;
      accounts =
          Flow-Accounts os.zone path size max Flushes n R kept sh₀ s ts h.accounts flushers i sh p
            lt a.flow (chunk-Flushes path Flushes sh i p a.fits);
    }

    -- A thread that was outside wants something.
    enters :
        (i : ℕ) (w : World) (job : Job)
        → i < n
        → s.place i ≡ outside
        → w.files ≡ s.shared.world.files
        → w.peers ≡ s.shared.world.peers
        → Fits path Flushes s.shared i (wants_buffer job)
        → IsSafe os.zone path size max Flushes n R sh₀
            (record {
              shared = record s.shared { world = w };
              place = update s.place i (wants_buffer job);
            })
            ts
    enters i w job lt e files peers f = record {
      healthy = record {
        open_at = h.healthy.open_at;
        has_log = h.healthy.has_log;
        buffer_mutex = h.healthy.buffer_mutex;
        file_mutex = h.healthy.file_mutex;
        no_stream = h.healthy.no_stream;
        peers = subst HaveBuffers (sym peers) h.healthy.peers;
      };
      fits =
          update-all (Fits path Flushes (record s.shared { world = w })) s.place i
            (wants_buffer job) (record { buffer = f.buffer; file = f.file; local = f.local })
            (λ j other. record {
              buffer = (h.fits j).buffer;
              file = (h.fits j).file;
              local = (h.fits j).local;
            });
      beyond =
          λ j le. update_other s.place i (wants_buffer job) j (below_it i j lt le) ∙ h.beyond j le;
      accounts = record {
        taken = h.taken;
        stored = h.stored;
        accounted = h.accounted;
        files = files ∙ h.files;
        order =
            subst (λ zs. R h.taken (h.stored ++ zs))
              (sym (all_of-update_same chunk n s.place i (wants_buffer job) (sym (ap chunk e))))
              h.order;
      };
    }

    -- Notifications and the console leave the texts alone.
    beside :
        (on : Bool) (w : World)
        → w.files ≡ s.shared.world.files
        → w.peers ≡ s.shared.world.peers
        → IsSafe os.zone path size max Flushes n R sh₀
            (record s {
              shared = record s.shared {
                appender = record s.shared.appender { consolelog_open = on };
                world = w;
              };
            })
            ts
    beside on w files peers = record {
      healthy = record {
        open_at = h.healthy.open_at;
        has_log = h.healthy.has_log;
        buffer_mutex = h.healthy.buffer_mutex;
        file_mutex = h.healthy.file_mutex;
        no_stream = h.healthy.no_stream;
        peers = subst HaveBuffers (sym peers) h.healthy.peers;
      };
      fits = λ j. record {
        buffer = (h.fits j).buffer;
        file = (h.fits j).file;
        local = (h.fits j).local;
      };
      beyond = h.beyond;
      accounts = record {
        taken = h.taken;
        stored = h.stored;
        accounted = h.accounted;
        files = files ∙ h.files;
        order = h.order;
      };
    }

    was_outside :
        (i : ℕ) (job : Job)
        → s.place i ≡ outside
        → Local path Flushes s.shared.appender.log_buff s.shared.appender.logfile i
            (wants_buffer job)
        → Fits path Flushes s.shared i (wants_buffer job)
    was_outside i job e l =
        let f : Fits path Flushes s.shared i outside =
          subst (Fits path Flushes s.shared i) e (h.fits i) in
        record { buffer = f.buffer; file = f.file; local = l }

    step_lem :
        (t : System) (st : Step os n Flushes s t)
        → AllFit os.zone size max sh₀ (ts ++ texts_of st)
        → IsSafe os.zone path size max Flushes n R sh₀ t (ts ++ texts_of st)
    unfolding texts_of flush
    step_lem t (appends i text lt e live mode st) fit =
        subst (IsSafe os.zone path size max Flushes n R sh₀ _) (sym (append-nil ts)) (
          enters i (show_console s.shared.appender s.shared.world text.body) (append text) lt e
            (console_files s.shared.appender s.shared.world text.body)
            (console_peers s.shared.appender s.shared.world text.body)
            (was_outside i (append text) e st))
    step_lem t (tasks i lt e fl here) fit =
        subst (IsSafe os.zone path size max Flushes n R sh₀ _) (sym (append-nil ts))
          (enters i s.shared.world task lt e refl refl (was_outside i task e fl))
    step_lem t (flushes i lt e fl mode) fit =
        subst (IsSafe os.zone path size max Flushes n R sh₀ _) (sym (append-nil ts))
          (enters i s.shared.world flush_sync lt e refl refl (was_outside i flush_sync e fl))
    step_lem t notifies fit =
        subst (IsSafe os.zone path size max Flushes n R sh₀ _) (sym (append-nil ts)) (
          beside s.shared.appender.consolelog_open (flush s.shared.appender s.shared.world).1 refl
            refl)
    step_lem t (sets_console on) fit =
        subst (IsSafe os.zone path size max Flushes n R sh₀ _) (sym (append-nil ts))
          (beside on s.shared.world refl refl)
    step_lem t (acts i sh p lt e) fit =
        let (sh', p', e', a) =
          act_lem path size max Flushes os works s.shared i h.healthy (s.place i) (h.fits i)
            (room (s.place i) fit) in
        subst
          (λ (r : Shared × Place).
            IsSafe os.zone path size max Flushes n R sh₀
              (record { shared = r.0; place = update s.place i r.1 }) (ts ++ appended (s.place i)))
          (some-injective (sym e' ∙ e)) (After-act i sh' p' lt a)

  -- At the beginning nothing is on its way.
  module _ (h : IsHealthy path size max sh₀) (b : sh₀.buffer_mutex.holder ≡ none)
      (f : sh₀.file_mutex.holder ≡ none) where
    begins_lem :
        IsSafe os.zone path size max Flushes n R sh₀
          (record { shared = sh₀; place = λ _. outside })
          []
    unfolding flatten
    begins_lem = record {
      healthy = h;
      fits = λ j. record { buffer = λ e. cc (sym b ∙ e); file = λ e. cc (sym f ∙ e); local = tt };
      beyond = λ j le. refl;
      accounts = record {
        taken = [];
        stored = [];
        accounted = sym (append-nil (pending sh₀));
        files = sym (appended_file-nil sh₀.world.files path);
        order = kept.nothing;
      };
    }

    pub Reachable-IsSafe :
        (s : System) (ts : List Entry)
        → Reachable os n Flushes sh₀ s ts
        → AllFit os.zone size max sh₀ ts
        → IsSafe os.zone path size max Flushes n R sh₀ s ts
    Reachable-IsSafe s ts begins fit = begins_lem
    Reachable-IsSafe t us (stepped {s = s} {ts = ts} r st) fit =
        step_lem s ts
          (Reachable-IsSafe s ts r (before_fit os.zone size max sh₀ ts (texts_of st) fit)) t st fit
