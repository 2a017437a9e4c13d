-- ===== src/Appender/Threads/Progress.antt =====
-- loglib/mtaf_appender.cpp: the two mutexes of an appender under several threads.
use mtappender_file.Prelude.{
  some-injective, ℕ, ◌<◌, ◌≡◌, ◌≢◌, ◌⊎◌, refl, ◌∙◌, sym, ap, arith, inl, inr, Bool, true, false,
  ◌&&◌, Option, none, some, List, ◌++◌, Bytes,
}
use mathlib.Core.List.{Perm}
use mathlib.Core.Bool.{false≢true}
use native.Mathlib.Decide.{dec_lt}
use mtappender_file.Appender.State.{Entry, Os}
use mtappender_file.Appender.Threads.{
  Shared, Place, outside, wants_buffer, appending, flushing, filled, wants_file, opening, writing,
  closing, System, Reachable, act, appended,
}
use mtappender_file.Appender.Threads.Fits.{in_buffer, in_file, Holds, IsHealthy, AlwaysWorks}
use mtappender_file.Appender.Threads.Flow.{rank, Waits, Wants}
use mtappender_file.Appender.Threads.Moves.{act_lem}
use mtappender_file.Appender.Threads.Order.{Perm-IsKept}
use mtappender_file.Appender.Threads.Accounts.{AllFit, before_fit}
use mtappender_file.Appender.Threads.Safe.{IsSafe, Reachable-IsSafe, room}

not_both :
    (h : Option ℕ) (i j : ℕ) (b c : Bool) → i ≢ j → Holds b h i → Holds c h j → (b && c) ≡ false
not_both h i j true true other x y = absurd (other (some-injective (sym x ∙ y)))
not_both h i j true false other x y = refl
not_both h i j false c other x y = refl

held_inside : (h : Option ℕ) (j : ℕ) (b : Bool) → h ≡ some j → Holds b h j → b ≡ true
held_inside h j true e x = refl
held_inside h j false e x = absurd (x e)

buffer_busy : (sh : Shared) (p : Place) → in_buffer p ≡ true → ¬ Waits sh p
buffer_busy sh outside e w = absurd (false≢true e)
buffer_busy sh (wants_buffer job) e w = absurd (false≢true e)
buffer_busy sh (wants_file src) e w = absurd (false≢true e)
buffer_busy sh (appending _ t l) e w = w
buffer_busy sh (flushing _ l) e w = w
buffer_busy sh (filled tmp) e w = w
buffer_busy sh (opening _ src) e w = w
buffer_busy sh (writing _ src o) e w = w
buffer_busy sh (closing _ o k) e w = w

file_busy : (sh : Shared) (p : Place) → in_file p ≡ true → ¬ Waits sh p
file_busy sh outside e w = absurd (false≢true e)
file_busy sh (wants_buffer job) e w = absurd (false≢true e)
file_busy sh (wants_file src) e w = absurd (false≢true e)
file_busy sh (appending _ t l) e w = w
file_busy sh (flushing _ l) e w = w
file_busy sh (filled tmp) e w = w
file_busy sh (opening _ src) e w = w
file_busy sh (writing _ src o) e w = w
file_busy sh (closing _ o k) e w = w

module _ (os : Os) (n : ℕ) (Flushes : ℕ → Type 0) (path : Bytes) (size max : ℕ) (sh : Shared)
    (s : System) (ts : List Entry) (works : AlwaysWorks os path) (h : IsHealthy path size max sh)
    (b : sh.buffer_mutex.holder ≡ none) (f : sh.file_mutex.holder ≡ none)
    (r : Reachable os n Flushes sh s ts) where
  IsSafe-here : AllFit os.zone size max sh ts → IsSafe os.zone path size max Flushes n Perm sh s ts
  IsSafe-here fit =
      Reachable-IsSafe path size max Flushes os n Perm (Perm-IsKept n Flushes) works sh h b f s ts r
        fit

  -- A part that thread `j` can run now, and that brings its call forward.
  abbrev pub CanRun : ℕ → Type 0
  CanRun j =
      (sh' : Shared) × (p' : Place) × (j < n)
      × (act os j s.shared (s.place j) ≡ some (sh', p'))
      × (rank p' < rank (s.place j))
      × Wants (s.place j) p'

  module _ (fits : (j : ℕ) → AllFit os.zone size max sh (ts ++ appended (s.place j)))
      (safe : IsSafe os.zone path size max Flushes n Perm sh s ts) where
    runs_or_Waits : (j : ℕ) → s.place j ≢ outside → CanRun j ⊎ Waits s.shared (s.place j)
    runs_or_Waits j busy =
        let (sh', p', e, a) =
          act_lem path size max Flushes os works s.shared j safe.healthy (s.place j) (safe.fits j) (
            room path size max Flushes os n Perm (Perm-IsKept n Flushes) works sh s ts safe
              (s.place j) (fits j)) in
        elim a.moves [
          | inl less ↦ inl (sh', p', in_range j busy (dec_lt j n), e, less, a.wants)
          | inr waits ↦ inr waits
        ]
      where
        in_range : (j : ℕ) → s.place j ≢ outside → Dec (j < n) → j < n
        in_range j busy (yes lt) = lt
        in_range j busy (no ge) = absurd (busy (safe.beyond j (omega arith)))

    holder_runs :
        (j : ℕ) → (in_buffer (s.place j) ≡ true) ⊎ (in_file (s.place j) ≡ true) → (k : ℕ) × CanRun k
    holder_runs j (inl inside) =
        elim (runs_or_Waits j (λ e. false≢true (sym (ap in_buffer e) ∙ inside))) [
          | inl runs ↦ (j, runs)
          | inr waits ↦ absurd (buffer_busy s.shared (s.place j) inside waits)
        ]
    holder_runs j (inr inside) =
        elim (runs_or_Waits j (λ e. false≢true (sym (ap in_file e) ∙ inside))) [
          | inl runs ↦ (j, runs)
          | inr waits ↦ absurd (file_busy s.shared (s.place j) inside waits)
        ]

    waits_for : (p : Place) → p ≢ outside → Waits s.shared p → (k : ℕ) × CanRun k
    waits_for outside busy w = absurd (busy refl)
    waits_for (wants_buffer job) busy (j, held) = holder_runs j (
        inl (
          held_inside s.shared.buffer_mutex.holder j (in_buffer (s.place j)) held
            (safe.fits j).buffer))
    waits_for (wants_file src) busy (j, held) = holder_runs j (
        inr
          (held_inside s.shared.file_mutex.holder j (in_file (s.place j)) held (safe.fits j).file))
    waits_for (appending _ t l) busy w = absurd w
    waits_for (flushing _ l) busy w = absurd w
    waits_for (filled tmp) busy w = absurd w
    waits_for (opening _ src) busy w = absurd w
    waits_for (writing _ src o) busy w = absurd w
    waits_for (closing _ o k) busy w = absurd w

    pub some_runs : (i : ℕ) → s.place i ≢ outside → (k : ℕ) × CanRun k
    some_runs i busy = elim (runs_or_Waits i busy) [
      | inl runs ↦ (i, runs)
      | inr waits ↦ waits_for (s.place i) busy waits
    ]

-- No deadlock. Any threads append to one appender, flush it in both ways, and turn its console
-- output on and off, each text with or without a log info of a known level and a tag of less than
-- 952 bytes, in any interleaving of their parts; at first it is open in the asynchronous mode,
-- with free mutexes, no stream, a block of less than 2 ^ 29 bytes, a ready log buffer whose text
-- begins with no zero byte, and appenders beside it that have their buffers; the system always
-- works. In every state that they reach and where some thread is in a call, as long as the text
-- pending at first and the lines appended stay together below four fifths of the block and fit
-- into the log buffer, also with the line that any one thread is about to append: one of the
-- threads can run its next part without a fault, and is then nearer to the end of its call.
pub Reachable-runs :
    (os : Os) (n : ℕ) (Flushes : ℕ → Type 0) (path : Bytes) (size max : ℕ) (sh : Shared)
    (s : System) (ts : List Entry) (i : ℕ)
    → AlwaysWorks os path
    → IsHealthy path size max sh
    → sh.buffer_mutex.holder ≡ none
    → sh.file_mutex.holder ≡ none
    → Reachable os n Flushes sh s ts
    → ((j : ℕ) → AllFit os.zone size max sh (ts ++ appended (s.place j)))
    → s.place i ≢ outside
    → (k : ℕ) × (sh' : Shared) × (p' : Place) × (k < n)
      × (act os k s.shared (s.place k) ≡ some (sh', p'))
      × (rank p' < rank (s.place k))
Reachable-runs os n Flushes path size max sh s ts i works h b f r fits busy =
    let (k, runs) =
      some_runs os n Flushes path size max sh s ts works h b f r fits
        (IsSafe-here os n Flushes path size max sh s ts works h b f r
          (before_fit os.zone size max sh ts (appended (s.place i)) (fits i)))
        i busy in
    (k, runs.0, runs.1, runs.2, runs.3, runs.4)

-- Any threads append to one appender, flush it in both ways, and turn its console output on and
-- off, each text with or without a log info of a known level and a tag of less than 952 bytes, in
-- any interleaving of their parts; at first it is open in the asynchronous mode, with free
-- mutexes, no stream, a block of less than 2 ^ 29 bytes, a ready log buffer whose text begins with
-- no zero byte, and appenders beside it that have their buffers; the system always works. In every
-- state that they reach, as long as the text pending at first and the lines appended stay together
-- below four fifths of the block and fit into the log buffer, no two threads are at once between
-- the lock and the unlock of the buffer's mutex, nor of the file's mutex.
pub Reachable-excludes :
    (os : Os) (n : ℕ) (Flushes : ℕ → Type 0) (path : Bytes) (size max : ℕ) (sh : Shared)
    (s : System) (ts : List Entry) (i j : ℕ)
    → AlwaysWorks os path
    → IsHealthy path size max sh
    → sh.buffer_mutex.holder ≡ none
    → sh.file_mutex.holder ≡ none
    → Reachable os n Flushes sh s ts
    → AllFit os.zone size max sh ts
    → i ≢ j
    → ((in_buffer (s.place i) && in_buffer (s.place j)) ≡ false)
      × ((in_file (s.place i) && in_file (s.place j)) ≡ false)
Reachable-excludes os n Flushes path size max sh s ts i j works h b f r fit other =
    let safe = IsSafe-here os n Flushes path size max sh s ts works h b f r fit in
    (
      not_both s.shared.buffer_mutex.holder i j (in_buffer (s.place i)) (in_buffer (s.place j))
          other (safe.fits i).buffer (safe.fits j).buffer,
      not_both s.shared.file_mutex.holder i j (in_file (s.place i)) (in_file (s.place j)) other
          (safe.fits i).file (safe.fits j).file,
    )
