-- ===== src/Appender/Calls/Lifetime.antt =====
-- Runs of a program one after the other: each opens the log of loglib/mtaf_appender.cpp, makes its calls
-- and closes the log; the files stay.
use mtappender_file.Prelude.{
  ℕ, zero, suc, ◌-◌, ◌==◌, ◌^◌, ◌≤◌, ◌<◌, ◌≡◌, refl, ◌∙◌, sym, ap, arith, true, false, Bool-cases,
  inl, inr, ==_iff, Option, none, some, List, [], ◌∷◌, ◌++◌, length, replicate, ◌>>=◌, if_false,
  Bytes,
}
use mathlib.Core.Path.{subst}
use mtappender_file.LogBuffer.Flush.{StartsText}
use mtappender_file.Mmap.{truncated}
use mtappender_file.Appender.State.{Appender, World, Os, is_empty, appended_file}
use mtappender_file.Appender.LogFile.{log_path}
use mtappender_file.Appender.Api.{block_size, mmap_path}
use mtappender_file.Appender.FileLaws.{AlwaysWorks, appended_file-nil, appended_file-append}
use mtappender_file.Appender.AppendLaws.{HaveBuffers}
use mtappender_file.Appender.OpenLaws.{Maps}
use mtappender_file.Appender.Calls.{Call}
use mtappender_file.Appender.Calls.Kept.{CanCalls}
use mtappender_file.Appender.Calls.Session.{
  mixed_session, nothing_logged, logged, mixed_session-Ended,
}

-- One run: the system at its opening, its calls, and the system at its end.
pub record Run : Type 0 where
  pub first : Os
  pub history : List (Os × Call)
  pub last : Os

-- The mapped file is what the run before has left of it.
abbrev pub remembering : Os → World → Os
remembering os w = record os { mmap = record os.mmap { stored = λ path. w.cache } }

pub runs : Bytes → Bytes → List Run → Appender → World → Option (Appender × World)
runs dir name [] a w = some (a, w)
runs dir name (r ∷ rs) a w =
    mixed_session (remembering r.first w) a w dir name r.history r.last >>= λ q.
    runs dir name rs q.0 q.1

-- What the runs log.
abbrev pub logged_by : List Run → Bytes
logged_by [] = []
logged_by (r ∷ rs) = logged r.history ++ logged_by rs

-- The system maps the file in each run, and does what the calls ask of it.
abbrev pub CanRunAll : ℕ → Bytes → Bytes → List Run → Type 0
CanRunAll n mmap path [] = Unit
CanRunAll n mmap path (r ∷ rs) =
    (((fd : ℕ) × Maps r.first mmap fd)
      × CanCalls n path r.history nothing_logged
      × AlwaysWorks r.last path)
    × CanRunAll n mmap path rs

starts_zeros : (n : ℕ) → ¬ StartsText (replicate n 0)
starts_zeros zero s = s
starts_zeros (suc n) s = s refl

starts_truncated : (f : Bytes) (n : ℕ) → ¬ StartsText f → ¬ StartsText (truncated f n)
starts_truncated [] zero h s = starts_zeros (zero - 0) s
starts_truncated [] (suc n) h s = starts_zeros (suc n - 0) s
starts_truncated (x ∷ f) zero h s = starts_zeros (zero - length (x ∷ f)) s
starts_truncated (x ∷ f) (suc n) h s = h s

same_size : (n : ℕ) → 0 < n → block_size n ≡ n
same_size n h = elim (Bool-cases (n == 0)) [
  | inl nothing ↦ absurd (omega (arith, (==_iff n 0).0 nothing))
  | inr some_bytes ↦ if_false _ _ _ some_bytes
]

-- A program runs any number of times on an appender that is closed at first, without a stream and
-- beside appenders that have their buffers, with a block of 4 to less than 2 ^ 29 bytes and a
-- mapped file that does not begin with a text. Each run opens the log in the asynchronous mode
-- over the mapped file as the run before has left it, makes any sequence of calls, and closes the
-- log; the system maps the file and always works, the texts begin with no zero byte and have no
-- log info or one of a known level and a tag of less than 952 bytes, and what is pending in the
-- asynchronous mode stays below four fifths of the block. No call faults, the log file has grown
-- by what the calls of each run make of a log that only knows its mode, what is stored and what is
-- pending, in the order of the runs, no other file has changed, and at the end the appender is
-- closed without a stream and the mapped file does not begin with a text.
pub runs_lem :
    (dir name : Bytes) (rs : List Run) (a : Appender) (w : World)
    → a.log_close ≡ true
    → a.logfile ≡ none
    → is_empty dir ≡ false
    → 4 ≤ block_size a.block_length
    → block_size a.block_length < 2 ^ 29
    → ¬ StartsText w.cache
    → HaveBuffers w.peers
    → CanRunAll
        (block_size a.block_length)
        (mmap_path dir name)
        (log_path (record a { logdir = dir; logfilename = name }) dir)
        rs
    → (b : Appender) × (v : World) × (runs dir name rs a w ≡ some (b, v))
      × (b.log_close ≡ true)
      × (b.logfile ≡ none)
      × (v.files
          ≡ appended_file w.files
              (log_path (record a { logdir = dir; logfilename = name }) dir)
              (logged_by rs))
      × ¬ StartsText v.cache
unfolding runs
runs_lem dir name [] a w closed stream named four small blank h can = (
  a,
  w,
  refl,
  closed,
  stream,
  sym (appended_file-nil w.files (log_path (record a { logdir = dir; logfilename = name }) dir)),
  blank,
)
runs_lem dir name (r ∷ rs) a w closed stream named four small blank h can =
    let path : Bytes = log_path (record a { logdir = dir; logfilename = name }) dir in
    let n : ℕ = block_size a.block_length in
    let (fd, maps) = can.0.0 in
    let e =
      mixed_session-Ended (remembering r.first w) a w dir name fd r.history r.last closed stream
        named four small
        (record { opens = maps.opens; lengthens = maps.lengthens; maps = maps.maps })
        (starts_truncated w.cache n blank) h can.0.1 can.0.2 in
    let same : block_size e.after.block_length ≡ n =
      ap block_size e.size ∙ same_size n (omega (arith, four)) in
    let (b, v, e', shut, no_stream, grown, blank') =
      runs_lem dir name rs e.after e.world e.closed e.no_stream named (omega (arith, same, four))
        (omega (arith, same, small)) (λ s. starts_zeros n (subst StartsText e.wiped s)) e.peers
        (subst (λ k. CanRunAll k (mmap_path dir name) path rs) (sym same) can.1) in
    (
      b,
      v,
      rw e.returns e',
      shut,
      no_stream,
      grown
          ∙ ap (λ fs. appended_file fs path (logged_by rs)) e.grown
          ∙ appended_file-append w.files path (logged r.history) (logged_by rs),
      blank',
    )
