-- ===== src/Appender/Threads/Flow.antt =====
-- What a step of a thread changes: whom it disturbs, and where the texts go.
use mtappender_file.Prelude.{
  ℕ, ◌*◌, ◌/◌, ◌≤◌, ◌<◌, ◌≡◌, ◌≢◌, ◌⊎◌, refl, ◌∙◌, sym, ap, arith, inl, inr, true, false, none,
  some, [], ◌∷◌, ◌++◌, append-nil, length, Bytes, List, ◌==◌,
}
use mtappender_file.LogBuffer.Append.{text}
use mtappender_file.Sync.Mutex.{Mutex}
use mtappender_file.Sync.Mutex
use mtappender_file.Sync.Lock.{enter, leave, unlock}
use mtappender_file.Formatter.{Zone}
use mtappender_file.Appender.State.{Entry, Os, appended_file}
use mtappender_file.Appender.Session.{lines}
use mtappender_file.Appender.Threads.{
  Shared, append, Place, outside, wants_buffer, appending, flushing, filled, wants_file, opening,
  writing, closing, freed, act, appended,
}
use mtappender_file.Appender.Threads.Fits.{chunk, plain, Fits, IsHealthy}

same : (t : ℕ) → (t == t) ≡ true
same t = ground arith

different : (t u : ℕ) → t ≢ u → (t == u) ≡ false
different t u h = ground arith

pub enter_free :
    (i : ℕ) → enter (plain none) i true ≡ some (record { mutex = plain (some i); is_locked = true })
unfolding enter Mutex.lock
enter_free i = refl

pub enter_busy : (i j : ℕ) → j ≢ i → enter (plain (some j)) i true ≡ none
unfolding enter Mutex.lock
enter_busy i j other = rw (different j i other)

pub freed_own : (i : ℕ) → freed (plain (some i)) true i ≡ plain none
unfolding leave unlock Mutex.unlock
freed_own i = rw (same i)

-- The text in the log buffer.
abbrev pub pending : Shared → Bytes
pending sh = elim sh.appender.log_buff [ none ↦ [] | some l ↦ text l ]

-- How far a call has got: a bound for the parts that are left of it.
abbrev pub rank : Place → ℕ
rank outside = 0
rank (wants_buffer _) = 7
rank (flushing _ _) = 6
rank (filled _) = 5
rank (wants_file _) = 4
rank (opening _ _) = 3
rank (writing _ _ _) = 2
rank (closing _ _ _) = 1
rank (appending _ _ _) = 1

-- The texts that a thread is still to append.
abbrev pub wanted : Place → List Entry
wanted (wants_buffer (append t)) = t ∷ []
wanted (appending _ t l) = t ∷ []
wanted _ = []

-- A part appends what was wanted, or leaves it wanted.
abbrev pub Wants : Place → Place → Type 0
Wants p p' =
    ((appended p ≡ []) × (wanted p' ≡ wanted p)) ⊎ ((wanted p ≡ appended p) × (wanted p' ≡ []))

-- A thread has nothing to do, or is in front of a mutex that a thread holds.
abbrev pub Waits : Shared → Place → Type 0
Waits sh outside = Unit
Waits sh (wants_buffer job) = (j : ℕ) × (sh.buffer_mutex.holder ≡ some j)
Waits sh (wants_file src) = (j : ℕ) × (sh.file_mutex.holder ≡ some j)
Waits sh _ = ⊥

module _ (zone : Zone) (path : Bytes) (size max : ℕ) (Flushes : ℕ → Type 0) where
  -- Where the texts go in a step: nowhere but behind the pending text, out of the log buffer, or to
  -- the end of the log file.
  pub data Flow (sh sh' : Shared) (p p' : Place) : Type 0 where
    quiet :
        sh'.world.files ≡ sh.world.files
        → chunk p' ≡ chunk p
        → pending sh' ≡ pending sh ++ lines zone (appended p)
        → Flow sh sh' p p'
    takes :
        (c : Bytes)
        → sh'.world.files ≡ sh.world.files
        → chunk p ≡ []
        → chunk p' ≡ c ∷ []
        → appended p ≡ []
        → pending sh ≡ c
        → pending sh' ≡ []
        → Flow sh sh' p p'
    stores :
        (c : Bytes)
        → sh'.world.files ≡ appended_file sh.world.files path c
        → chunk p ≡ c ∷ []
        → chunk p' ≡ []
        → appended p ≡ []
        → pending sh' ≡ pending sh
        → Flow sh sh' p p'

  pub record After (sh : Shared) (i : ℕ) (p : Place) (sh' : Shared) (p' : Place) : Type 0 where
    pub healthy : IsHealthy path size max sh'
    pub fits : Fits path Flushes sh' i p'
    pub others :
        (j : ℕ) → j ≢ i → (q : Place) → Fits path Flushes sh j q → Fits path Flushes sh' j q
    pub flow : Flow sh sh' p p'
    pub moves : (rank p' < rank p) ⊎ Waits sh p
    pub wants : Wants p p'

  -- There is room for the texts that are appended.
  pub record HasRoom (sh : Shared) (p : Place) : Type 0 where
    pub below : length (pending sh ++ lines zone (appended p)) < size * 4 / 5
    pub in_block : length (pending sh ++ lines zone (appended p)) ≤ max

  pub stays :
      (sh : Shared) (i : ℕ)
      → IsHealthy path size max sh
      → (p : Place) → Fits path Flushes sh i p
      → appended p ≡ []
      → Waits sh p
      → After sh i p sh p
  stays sh i g p f e w = record {
    healthy = g;
    fits = f;
    others = λ j other q h. h;
    flow =
        quiet refl refl
          (sym (append-nil (pending sh)) ∙ ap (λ xs. pending sh ++ lines zone xs) (sym e));
    moves = inr w;
    wants = inl (e, refl);
  }

  -- What follows a step of thread `i`.
  abbrev pub Goes : Os → Shared → ℕ → Place → Type 0
  Goes os sh i p =
      (sh' : Shared) × (p' : Place) × (act os i sh p ≡ some (sh', p')) × After sh i p sh' p'
