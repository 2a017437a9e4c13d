-- ===== src/Appender/Threads/Race.antt =====
-- `__log2file` of loglib/mtaf_appender.cpp in two threads that have taken texts.
use mtappender_file.Prelude.{
  ℕ, ◌<◌, ◌≡◌, ◌≢◌, refl, ◌∙◌, sym, ap, none, some, List, ◌++◌, append-nil, append_assoc, ◌+◌, suc,
  arith, Bytes, true, update, update_here, update_other, [],
}
use mathlib.Core.Path.{subst}
use mathlib.Core.List.{Perm}
use mtappender_file.Appender.State.{Entry, Os, appended_file}
use mtappender_file.Appender.LogFile.{fresh, holding}
use mtappender_file.Appender.Threads.{
  Shared, Place, outside, wants_file, opening, writing, closing, System, acts, texts_of, Reachable,
  stepped, act, appended, Continues, rests, goes_on,
}
use mtappender_file.Appender.Threads.Fits.{IsHealthy, AlwaysWorks}
use mtappender_file.Appender.Threads.Order.{Perm-IsKept}
use mtappender_file.Appender.FileLaws.{appended_file-append}
use mtappender_file.Appender.Threads.Accounts.{AllFit}
use mtappender_file.Appender.Threads.Safe.{Reachable-IsSafe}
use mtappender_file.Appender.Threads.InFile.{
  locked_by, opened_by, written_by, closed_by, act-wants_file, act-opening, act-writing,
  act-closing,
}

Continues-append :
    (os : Os) (n : ℕ) {k m : ℕ} {s t v : System} {us vs : List Entry}
    → Continues os n k s t us
    → Continues os n m t v vs
    → Continues os n (k + m) s v (us ++ vs)
Continues-append os n {m = m} {v = v} {vs = vs} (rests s) d =
    let none_before : m ≡ 0 + m = omega arith in subst (λ q. Continues os n q s v vs) none_before d
Continues-append os n {m = m} {v = v} {vs = vs} (goes_on {s = s} {k = k} {us = us} i sh p lt e c)
      d =
    let one_before : suc (k + m) ≡ suc k + m = omega arith in
    subst (λ q. Continues os n q s v ((appended (s.place i) ++ us) ++ vs)) one_before
      (subst (Continues os n (suc (k + m)) s v) (sym (append_assoc (appended (s.place i)) us vs))
        (goes_on i sh p lt e (Continues-append os n c d)))

module _ (os : Os) (n : ℕ) (Flushes : ℕ → Type 0) (path : Bytes) (size max : ℕ) (sh : Shared)
    (works : AlwaysWorks os path) (h : IsHealthy path size max sh)
    (b : sh.buffer_mutex.holder ≡ none) (f : sh.file_mutex.holder ≡ none) (ts : List Entry)
    (fit : AllFit os.zone size max sh ts) where
  -- A part that appends nothing.
  record Later (s s' : System) : Type 0 where
    reached : Reachable os n Flushes sh s' ts
    parts : ℕ
    continues : Continues os n parts s s' []

  later : {s s' s'' : System} → Later s s' → Later s' s'' → Later s s''
  later a c = record {
    reached = c.reached;
    parts = a.parts + c.parts;
    continues = Continues-append os n a.continues c.continues;
  }

  go_on :
      (s : System) (i : ℕ) (p p' : Place) (sh' : Shared)
      → Reachable os n Flushes sh s ts
      → i < n
      → s.place i ≡ p
      → appended p ≡ []
      → act os i s.shared p ≡ some (sh', p')
      → Later s (record { shared = sh'; place = update s.place i p' })
  unfolding texts_of
  go_on s i p p' sh' r lt here none_appended e =
      let nothing : appended (s.place i) ≡ [] = ap appended here ∙ none_appended in
      let acted : act os i s.shared (s.place i) ≡ some (sh', p') =
        ap (act os i s.shared) here ∙ e in
      record {
        reached =
            subst (Reachable os n Flushes sh _) (ap (λ us. ts ++ us) nothing ∙ append-nil ts)
              (stepped r (acts i sh' p' lt acted));
        parts = 1;
        continues =
            subst (Continues os n 1 s _) (append-nil (appended (s.place i)) ∙ nothing)
              (goes_on i sh' p' lt acted (rests _));
      }

  healthy : (s : System) → Reachable os n Flushes sh s ts → IsHealthy path size max s.shared
  healthy s r =
      (Reachable-IsSafe path size max Flushes os n Perm (Perm-IsKept n Flushes) works sh h b f s ts
        r fit).healthy

  -- What a thread that is on its way to the log file leaves, if it is not interrupted.
  record Stored (s : System) (i : ℕ) (src : Bytes) : Type 0 where
    after : System
    there : Later s after
    files : after.shared.world.files ≡ appended_file s.shared.world.files path src
    others : (j : ℕ) → j ≢ i → after.place j ≡ s.place j
    file_free : after.shared.file_mutex.holder ≡ none

  store_one :
      (s : System) (i : ℕ) (src : Bytes)
      → Reachable os n Flushes sh s ts
      → i < n
      → s.place i ≡ wants_file src
      → s.shared.file_mutex.holder ≡ none
      → Stored s i src
  store_one s i src r lt here free =
      let g = healthy s r in
      let s1 : System = record {
        shared = locked_by i s.shared;
        place = update s.place i (opening true src);
      } in
      let l1 : Later s s1 =
        go_on s i (wants_file src) (opening true src) s1.shared r lt here refl
          (act-wants_file path size max Flushes os works s.shared i g src free) in
      let s2 : System = record {
        shared = opened_by os s1.shared;
        place = update s1.place i (writing true src true);
      } in
      let l2 : Later s1 s2 =
        go_on s1 i (opening true src) (writing true src true) s2.shared l1.reached lt
          (update_here s.place i (opening true src)) refl
          (act-opening path size max Flushes os works s1.shared i (healthy s1 l1.reached) true src
            (g.no_stream free)) in
      let s3 : System = record {
        shared = written_by os path src s2.shared;
        place = update s2.place i (closing true true true);
      } in
      let l3 : Later s2 s3 =
        go_on s2 i (writing true src true) (closing true true true) s3.shared l2.reached lt
          (update_here s1.place i (writing true src true)) refl
          (act-writing path size max Flushes os works s2.shared i (healthy s2 l2.reached) true src
            true refl (ap (λ p. some (fresh p)) g.at_path)) in
      record {
        after = record { shared = closed_by s3.shared; place = update s3.place i outside };
        there = later l1 (
            later l2 (
              later l3 (
                go_on s3 i (closing true true true) outside (closed_by s3.shared) l3.reached lt
                  (update_here s2.place i (closing true true true)) refl
                  (act-closing path size max Flushes os works s3.shared i (healthy s3 l3.reached)
                    true true true (holding os (fresh path) src).buffered refl refl refl refl
                    refl))));
        files = refl;
        others = λ j other.
            update_other s3.place i outside j other
            ∙ update_other s2.place i (closing true true true) j other
            ∙ update_other s1.place i (writing true src true) j other
            ∙ update_other s.place i (opening true src) j other;
        file_free = refl;
      }

  store_both :
      (s : System) (i j : ℕ) (x y : Bytes)
      → Reachable os n Flushes sh s ts
      → i < n
      → j < n
      → j ≢ i
      → s.place i ≡ wants_file x
      → s.place j ≡ wants_file y
      → s.shared.file_mutex.holder ≡ none
      → (t : System) × Later s t
        × (t.shared.world.files ≡ appended_file s.shared.world.files path (x ++ y))
  store_both s i j x y r lt lt' other first second free =
      let one = store_one s i x r lt first free in
      let two =
        store_one one.after j y one.there.reached lt' (one.others j other ∙ second) one.file_free in
      (
        two.after,
        later one.there two.there,
        two.files
            ∙ ap (λ fs. appended_file fs path y) one.files
            ∙ appended_file-append s.shared.world.files path x y,
      )

-- Any threads append to one appender, flush it in both ways, and turn its console output on and
-- off, each text with or without a log info of a known level and a tag of less than 952 bytes, in
-- any interleaving of their parts; at first it is open in the asynchronous mode, with free
-- mutexes, no stream, a block of less than 2 ^ 29 bytes, a ready log buffer whose text begins with
-- no zero byte, and appenders beside it that have their buffers; the system always works. In every
-- state that they reach, as long as the text pending at first and the lines appended stay together
-- below four fifths of the block and fit into the log buffer, and where two threads have each
-- taken a text and come to the free mutex of the log file: they can go on, without a new call, so
-- that the one text comes before the other at the end of the log file, and so that it comes behind
-- it.
pub Reachable-either_order :
    (os : Os) (n : ℕ) (Flushes : ℕ → Type 0) (path : Bytes) (size max : ℕ) (sh : Shared)
    (s : System) (ts : List Entry) (i j : ℕ) (x y : Bytes)
    → AlwaysWorks os path
    → IsHealthy path size max sh
    → sh.buffer_mutex.holder ≡ none
    → sh.file_mutex.holder ≡ none
    → Reachable os n Flushes sh s ts
    → AllFit os.zone size max sh ts
    → i < n
    → j < n
    → i ≢ j
    → s.place i ≡ wants_file x
    → s.place j ≡ wants_file y
    → s.shared.file_mutex.holder ≡ none
    → (t : System) × (u : System) × (k : ℕ) × (m : ℕ) × Continues os n k s t []
      × Continues os n m s u []
      × (t.shared.world.files ≡ appended_file s.shared.world.files path (x ++ y))
      × (u.shared.world.files ≡ appended_file s.shared.world.files path (y ++ x))
Reachable-either_order os n Flushes path size max sh s ts i j x y works h b f r fit lt lt' other
      first second free =
    let (t, r', e) =
      store_both os n Flushes path size max sh works h b f ts fit s i j x y r lt lt'
        (λ same. other (sym same)) first second free in
    let (u, r'', e') =
      store_both os n Flushes path size max sh works h b f ts fit s j i y x r lt' lt other second
        first free in
    (t, u, r'.parts, r''.parts, r'.continues, r''.continues, e, e')
