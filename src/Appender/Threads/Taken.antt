-- ===== src/Appender/Threads/Taken.antt =====
-- The flush of the log buffer under its mutex, and the part that follows it.
use mtappender_file.Prelude.{
  ℕ, ◌≡◌, ◌⊎◌, refl, ◌∙◌, sym, ap, arith, inl, inr, Bool, true, none, some, [], ◌∷◌, append-nil,
  length, Bytes,
}
use mathlib.Core.Path.{subst}
use mtappender_file.AutoBuffer
use mtappender_file.AutoBuffer.{AutoBuffer}
use mtappender_file.AutoBuffer.Valid.{empty-IsValid}
use mtappender_file.AutoBuffer.Valid
use mtappender_file.LogBuffer
use mtappender_file.LogBuffer.{LogBuffer}
use mtappender_file.LogBuffer.Append.{IsReady, text, cleared, cleared-IsReady, length-text}
use mtappender_file.LogBuffer.Flush.{StartsText, IsReady-IsBacked, flush_text, flush_nothing}
use mtappender_file.Appender.State.{Os}
use mtappender_file.Appender.TaskLaws.{Grants-Accepts, some_memory, load-contents}
use mtappender_file.Appender.Threads.{
  Shared, outside, flushing, filled, wants_file, act, filled_place,
}
use mtappender_file.Appender.Threads.Fits.{chunk, of_memory, plain, Fits, IsHealthy, AlwaysWorks}
use mtappender_file.Appender.Threads.Flow.{pending, quiet, takes, After, Goes}
use mtappender_file.Appender.Threads.InBuffer.{some_text, buffer_freed, buffer_others}

chunk-filled :
    (d : AutoBuffer) → StartsText (Valid.contents d) → chunk (filled d) ≡ Valid.contents d ∷ []
chunk-filled d s =
    let (x, xs, cons) = some_text (Valid.contents d) s in
    let (m, held) = some_memory d x xs cons in ap (λ o. of_memory o (Valid.contents d)) held

-- A flush into a fresh buffer takes the whole text, or nothing where there is none.
flush_lem :
    (os : Os)
    → ((n : ℕ) → os.memory.grants n ≡ true)
    → (l : LogBuffer) → IsReady l
    → (text l ≡ []) ⊎ StartsText (text l)
    → (d : AutoBuffer) × (LogBuffer.flush os.memory l (AutoBuffer.empty 128) ≡ some (cleared l, d))
      × Valid.IsValid d
      × (((d ≡ AutoBuffer.empty 128) × (text l ≡ []))
          ⊎ ((Valid.contents d ≡ text l) × StartsText (text l)))
flush_lem os grants l r (inl nothing) = (
  AutoBuffer.empty 128,
  flush_nothing os.memory l (AutoBuffer.empty 128) (IsReady-IsBacked l r)
      (λ s. subst StartsText nothing s),
  empty-IsValid 128 (omega arith),
  inl (refl, nothing),
)
flush_lem os grants l r (inr s) =
    let (d, e, v, at, u, t) =
      flush_text os.memory l (AutoBuffer.empty 128) (IsReady-IsBacked l r) s (
        Grants-Accepts os (length (text l)) (record {
          granted = grants _;
          small = omega (arith, length-text l r, r.valid, r.bounded);
        })) in
    (d, e, v, inr (t, s))

module _ (path : Bytes) (size max : ℕ) (Flushes : ℕ → Type 0) (os : Os)
    (works : AlwaysWorks os path) (sh : Shared) (i : ℕ) (g : IsHealthy path size max sh) where
  pub flushing_lem :
      (b : Bool) (l : LogBuffer)
      → Fits path Flushes sh i (flushing b l)
      → Goes os.zone path size max Flushes os sh i (flushing b l)
  unfolding act
  flushing_lem b l f =
      let log : g.log ≡ l = cc (sym g.log_here ∙ f.local.1) in
      let ready : IsReady l = subst IsReady log g.ready in
      let (d, e, v, c) =
        flush_lem os works.grants l ready
          (subst (λ q. (text q ≡ []) ⊎ StartsText (text q)) log g.starts) in
      let here : pending sh ≡ text l = rw f.local.1 in
      (
        record sh {
          appender = record sh.appender { log_buff = some (cleared l) };
          buffer_mutex = plain none;
        },
        filled d,
        rw e (
            ap
              (λ mu. some (
                record sh {
                  appender = record sh.appender { log_buff = some (cleared l) };
                  buffer_mutex = mu;
                },
                filled d,
              ))
              (buffer_freed path size max Flushes os works sh i g b f.local.0 f.buffer)),
        record {
          healthy = record {
            open_at = g.open_at;
            has_log = record {
              log = cleared l;
              log_here = refl;
              ready = cleared-IsReady l ready;
              max_len = ap (λ q. q.buff.max_len) (sym log) ∙ g.max_len;
              starts = inl refl;
            };
            buffer_mutex = refl;
            file_mutex = g.file_mutex;
            no_stream = g.no_stream;
            peers = g.peers;
          };
          fits = record {
            buffer = λ e. cc e;
            file = f.file;
            local = (
              v,
              elim c [ inl n ↦ inl n.0 | inr t ↦ inr (subst StartsText (sym t.0) t.1) ],
              f.local.2,
            );
          };
          others =
              buffer_others path size max Flushes os works sh i g _ (inr f.buffer) (inl refl) refl
                refl;
          flow = elim c [
            | inl n ↦
                quiet refl (ap (λ q. chunk (filled q)) n.0)
                  (sym (append-nil (pending sh) ∙ here ∙ n.1))
            | inr t ↦
                takes (text l) refl refl
                  (chunk-filled d (subst StartsText (sym t.0) t.1) ∙ ap (λ c. c ∷ []) t.0) refl here
                  refl
          ];
          moves = inl (omega arith);
          wants = inl (refl, refl);
        },
      )

  pub filled_lem :
      (tmp : AutoBuffer)
      → Fits path Flushes sh i (filled tmp)
      → Goes os.zone path size max Flushes os sh i (filled tmp)
  unfolding act filled_place
  filled_lem tmp f = elim f.local.1 [
    | inl nothing ↦ (
      sh,
      outside,
      rw (load-contents tmp f.local.0, ap (λ (q : AutoBuffer). q.parray) nothing),
      leaves_file (ap (λ q. chunk (filled q)) nothing),
    )
    | inr starts ↦
        let (x, xs, cons) = some_text (Valid.contents tmp) starts in
        let (m, held) = some_memory tmp x xs cons in
        (
          sh,
          wants_file (x ∷ xs),
          rw (load-contents tmp f.local.0 ∙ ap some cons, held, g.named),
          record {
            healthy = g;
            fits = record {
              buffer = f.buffer;
              file = f.file;
              local = (subst StartsText cons starts, f.local.2);
            };
            others = λ j other q h. h;
            flow =
                quiet refl (sym (chunk-filled tmp starts ∙ ap (λ c. c ∷ []) cons))
                  (sym (append-nil (pending sh)));
            moves = inl (omega arith);
            wants = inl (refl, refl);
          },
        )
  ]
    where
      leaves_file :
          chunk (filled tmp) ≡ [] → After os.zone path size max Flushes sh i (filled tmp) sh outside
      leaves_file e = record {
        healthy = g;
        fits = record { buffer = f.buffer; file = f.file; local = tt };
        others = λ j other q h. h;
        flow = quiet refl (sym e) (sym (append-nil (pending sh)));
        moves = inl (omega arith);
        wants = inl (refl, refl);
      }
