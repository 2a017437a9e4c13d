-- ===== src/Appender/Threads/Runs.antt =====
-- loglib/mtaf_appender.cpp: one thread that runs while the others rest.
use mtappender_file.Prelude.{
  some-injective, ℕ, zero, suc, ◌<◌, ◌≡◌, ◌≢◌, refl, ◌∙◌, sym, ap, inl, inr, Option-cases, none,
  some, List, [], ◌++◌, append_assoc, append-nil, Bytes, update, update_here, update_other, ◌>>=◌,
}
use mathlib.Core.Path.{subst}
use mathlib.Core.List.{Perm}
use mtappender_file.Appender.State.{Entry, Os}
use mtappender_file.Appender.Threads.{
  Shared, Place, outside, wants_buffer, appending, flushing, filled, wants_file, opening, writing,
  closing, System, act, acts, Continues, rests, goes_on, texts_of, Reachable, stepped, appended,
}
use mtappender_file.Appender.Threads.Fits.{IsHealthy, AlwaysWorks}
use mtappender_file.Appender.Threads.Flow.{wanted, Wants}
use mtappender_file.Appender.Threads.Moves.{act_lem}
use mtappender_file.Appender.Threads.Order.{Perm-IsKept}
use mtappender_file.Appender.Threads.Accounts.{AllFit}
use mtappender_file.Appender.Threads.Safe.{IsSafe, Reachable-IsSafe, room}
use mtappender_file.Appender.Threads.Alone.{run}

pub Reachable-Continues :
    {os : Os} {n : ℕ} {Flushes : ℕ → Type 0} {sh : Shared} {k : ℕ} {s t : System}
    {ts us : List Entry}
    → Reachable os n Flushes sh s ts
    → Continues os n k s t us
    → Reachable os n Flushes sh t (ts ++ us)
unfolding texts_of
Reachable-Continues {ts = ts} r (rests s) = subst (Reachable _ _ _ _ s) (sym (append-nil ts)) r
Reachable-Continues {os = os} {n = n} {Flushes = Flushes} {sh = sh} {t = t} {ts = ts} r
      (goes_on {s = s} {us = us} i sh' p lt e c) =
    subst (Reachable os n Flushes sh t) (append_assoc ts (appended (s.place i)) us)
      (Reachable-Continues (stepped r (acts i sh' p lt e)) c)

-- What becomes of a system where one thread runs alone.
pub record Ran (os : Os) (n fuel : ℕ) (s : System) (i : ℕ) (sh : Shared) (p : Place) : Type 0 where
  pub after : System
  pub continues : Continues os n fuel s after []
  pub shared : after.shared ≡ sh
  pub place : after.place i ≡ p
  pub others : (j : ℕ) → j ≢ i → after.place j ≡ s.place j

wanted-appended : (p : Place) → wanted p ≡ [] → appended p ≡ []
wanted-appended (appending _ t l) e = absurd (cc e)
wanted-appended outside e = refl
wanted-appended (wants_buffer job) e = refl
wanted-appended (flushing _ l) e = refl
wanted-appended (filled tmp) e = refl
wanted-appended (wants_file src) e = refl
wanted-appended (opening _ src) e = refl
wanted-appended (writing _ src o) e = refl
wanted-appended (closing _ o k) e = refl

still_none : (p p' : Place) → Wants p p' → wanted p ≡ [] → wanted p' ≡ []
still_none p p' (inl w) e = w.1 ∙ e
still_none p p' (inr w) e = w.1

module _ (os : Os) (n : ℕ) (Flushes : ℕ → Type 0) (path : Bytes) (size max : ℕ) (sh : Shared)
    (works : AlwaysWorks os path) (h : IsHealthy path size max sh)
    (b : sh.buffer_mutex.holder ≡ none) (f : sh.file_mutex.holder ≡ none) (ts : List Entry)
    (fit : AllFit os.zone size max sh ts) where
  pub IsSafe-at :
      (s : System)
      → Reachable os n Flushes sh s ts
      → IsSafe os.zone path size max Flushes n Perm sh s ts
  IsSafe-at s r =
      Reachable-IsSafe path size max Flushes os n Perm (Perm-IsKept n Flushes) works sh h b f s ts r
        fit

  -- One part of a thread that has no text to append.
  keeps_none :
      (s : System) (i : ℕ) (q : Shared × Place)
      → Reachable os n Flushes sh s ts
      → wanted (s.place i) ≡ []
      → act os i s.shared (s.place i) ≡ some q
      → wanted q.1 ≡ []
  keeps_none s i q r none_wanted acted =
      let safe = IsSafe-at s r in
      let here : AllFit os.zone size max sh (ts ++ appended (s.place i)) =
        subst (AllFit os.zone size max sh)
          (sym (append-nil ts)
            ∙ ap (λ us. ts ++ us) (sym (wanted-appended (s.place i) none_wanted)))
          fit in
      let (sh', p', e, a) =
        act_lem path size max Flushes os works s.shared i safe.healthy (s.place i) (safe.fits i) (
          room path size max Flushes os n Perm (Perm-IsKept n Flushes) works sh s ts safe
            (s.place i) here) in
      let same : p' ≡ q.1 = ap (λ (o : Shared × Place). o.1) (some-injective (sym e ∙ acted)) in
      subst (λ p. wanted p ≡ []) same (still_none (s.place i) p' a.wants none_wanted)

  pub run-Ran :
      (fuel : ℕ) (s : System) (i : ℕ) (sh' : Shared) (p : Place)
      → Reachable os n Flushes sh s ts
      → i < n
      → wanted (s.place i) ≡ []
      → run fuel os i s.shared (s.place i) ≡ some (sh', p)
      → Ran os n fuel s i sh' p
  unfolding run texts_of
  run-Ran zero s i sh' p r lt none_wanted e = record {
    after = s;
    continues = rests s;
    shared = cc e;
    place = cc e;
    others = λ j other. refl;
  }
  run-Ran (suc fuel) s i sh' p r lt none_wanted e =
      elim (Option-cases (act os i s.shared (s.place i))) [
        | inl fault ↦ absurd (cc (sym e ∙ ap (λ o. o >>= λ q. run fuel os i q.0 q.1) fault))
        | inr (q, acted) ↦
            let nothing : appended (s.place i) ≡ [] = wanted-appended (s.place i) none_wanted in
            let next : System = record { shared = q.0; place = update s.place i q.1 } in
            let here : q.1 ≡ next.place i = sym (update_here s.place i q.1) in
            let ran =
              run-Ran fuel next i sh' p
                (subst (Reachable os n Flushes sh next)
                  (ap (λ us. ts ++ us) nothing ∙ append-nil ts)
                  (stepped r (acts i q.0 q.1 lt acted)))
                lt (subst (λ p. wanted p ≡ []) here (keeps_none s i q r none_wanted acted))
                (ap (run fuel os i q.0) (sym here)
                  ∙ sym (ap (λ o. o >>= λ q. run fuel os i q.0 q.1) acted)
                  ∙ e) in
            record {
              after = ran.after;
              continues =
                  subst (Continues os n (suc fuel) s ran.after)
                    (append-nil (appended (s.place i)) ∙ nothing)
                    (goes_on i q.0 q.1 lt acted ran.continues);
              shared = ran.shared;
              place = ran.place;
              others = λ j other. ran.others j other ∙ update_other s.place i q.1 j other;
            }
      ]
