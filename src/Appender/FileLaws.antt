-- ===== src/Appender/FileLaws.antt =====
-- What `__log2file` does to the log file.
use mtappender_file.Prelude.{
  Bool, ℕ, ◌+◌, ◌≤◌, ◌≡◌, ◌⊎◌, refl, ◌∙◌, sym, arith, true, false, Option, none, some, [], ◌∷◌,
  length, append-nil, append_assoc, ◌++◌, Bool-cases, inl, inr, take_of_length_le, le→leb,
  if◌then◌else◌, Bytes,
}
use mathlib.Core.Path.{fun_ext}
use mtappender_file.Appender.State.{
  Appender, Stream, World, Os, is_async, is_empty, appended_file, bytes_eq,
}
use mtappender_file.Appender.LogFile.{
  log_path, is_current, fresh, holding, held_back, close_logfile, log2file,
}

-- The system does what the code asks of it, on the log file at `path` and for `n` bytes.
pub record Works (os : Os) (path : Bytes) (n : ℕ) : Type 0 where
  pub opens : os.opens_log path ≡ true
  pub tells : os.tells ≡ true
  pub takes : n ≤ os.takes n

-- The system does all that the code asks of it.
pub record AlwaysWorks (os : Os) (path : Bytes) : Type 0 where
  pub opens : os.opens_log path ≡ true
  pub tells : os.tells ≡ true
  pub takes : (n : ℕ) → n ≤ os.takes n
  pub grants : (n : ℕ) → os.memory.grants n ≡ true

pub always_works : (os : Os) (path : Bytes) (n : ℕ) → AlwaysWorks os path → Works os path n
always_works os path n k = record { opens = k.opens; tells = k.tells; takes = k.takes n }

pub appended_file-nil : (f : Bytes → Bytes) (path : Bytes) → appended_file f path [] ≡ f
appended_file-nil f path = fun_ext λ other. elim (Bool-cases (bytes_eq path other)) [
  | inl here ↦ rw here (append-nil (f other))
  | inr apart ↦ rw apart
]

pub appended_file-append :
    (f : Bytes → Bytes) (path xs ys : Bytes)
    → appended_file (appended_file f path xs) path ys ≡ appended_file f path (xs ++ ys)
appended_file-append f path xs ys = fun_ext λ other. elim (Bool-cases (bytes_eq path other)) [
  | inl here ↦ rw here (append_assoc (f other) xs ys)
  | inr apart ↦ rw apart
]

-- The appender after a write to a stream that was opened for it: closed again in the asynchronous
-- mode, left open in the other.
abbrev pub left_by_write : Os → Appender → Bytes → Appender
left_by_write os a src =
    if is_async a.mode
    then record a { openfiletime = 0; current_dir = a.logdir; logfile = none }
    else record a {
      openfiletime = os.now;
      current_dir = a.logdir;
      logfile = some (holding os (fresh (log_path a a.logdir)) src);
    }

-- With no stream open, a directory, at least one byte to write and a working system, `__log2file`
-- appends exactly the bytes to the file that is named after the directory and the name, and to no
-- other; it closes the stream in the asynchronous mode and leaves it open in the other.
pub log2file_lem :
    (os : Os) (a : Appender) (w : World) (x : ℕ) (src : Bytes)
    → is_empty a.logdir ≡ false
    → a.logfile ≡ none
    → Works os (log_path a a.logdir) (length (x ∷ src))
    → log2file os a w (some (x ∷ src)) ≡ (
      left_by_write os a (x ∷ src),
      record w { files = appended_file w.files (log_path a a.logdir) (x ∷ src) },
    )
unfolding log2file close_logfile
log2file_lem os a w x src dir none_open g =
    rw
      (
        dir,
        none_open,
        g.opens,
        g.tells,
        le→leb (length (x ∷ src)) (os.takes (length (x ∷ src))) g.takes,
        take_of_length_le (os.takes (length (x ∷ src))) (x ∷ src) g.takes,
      )
      (ground arith)

-- No stream is open, or one on the log file.
abbrev pub OnLog : Appender → Option Stream → Type 0
OnLog a f = (f ≡ none) ⊎ (k : ℕ) × (f ≡ some (record { path = log_path a a.logdir; buffered = k }))

-- The appender with what it keeps of its stream.
abbrev pub with_stream : Appender → ℕ → Bytes → Option Stream → Appender
with_stream a t d f = record a { openfiletime = t; current_dir = d; logfile = f }

holding_lem :
    (os : Os) (f : Stream) (src : Bytes) → (holding os f src).buffered ≤ f.buffered + length src
holding_lem os f src = ground arith

-- Also with a stream open, of that day or of another: the bytes come to the end of the log file.
pub log2file_any :
    (os : Os) (a : Appender) (w : World) (x : ℕ) (src : Bytes)
    → is_empty a.logdir ≡ false
    → OnLog a a.logfile
    → Works os (log_path a a.logdir) (length (x ∷ src))
    → (t : ℕ) × (d : Bytes) × (f : Option Stream) × (log2file os a w (some (x ∷ src)) ≡ (
      with_stream a t d f,
      record w { files = appended_file w.files (log_path a a.logdir) (x ∷ src) },
    ))
      × OnLog a f
      × (is_async a.mode ≡ true → f ≡ none)
      × (held_back f ≤ held_back a.logfile + length (x ∷ src))
unfolding log2file close_logfile
log2file_any os a w x src dir on k =
    let all = le→leb (length (x ∷ src)) (os.takes (length (x ∷ src))) k.takes in
    let whole = take_of_length_le (os.takes (length (x ∷ src))) (x ∷ src) k.takes in
    elim (Bool-cases (is_async a.mode)) [
      | inl async ↦ elim on [
        | inl closed ↦ (
          0,
          a.logdir,
          none,
          rw (dir, closed, k.opens, k.tells, all, whole, async),
          inl refl,
          λ e. refl,
          omega arith,
        )
        | inr (h, opened) ↦ elim (Bool-cases (is_current os a a.logdir)) [
          | inl current ↦ (
            0,
            a.current_dir,
            none,
            rw (dir, opened, current, k.tells, all, whole, async),
            inl refl,
            λ e. refl,
            omega arith,
          )
          | inr stale ↦ (
            0,
            a.logdir,
            none,
            rw (dir, opened, stale, k.opens, k.tells, all, whole, async),
            inl refl,
            λ e. refl,
            omega arith,
          )
        ]
      ]
      | inr synchronous ↦ elim on [
        | inl closed ↦ (
          os.now,
          a.logdir,
          some (holding os (fresh (log_path a a.logdir)) (x ∷ src)),
          rw (dir, closed, k.opens, k.tells, all, whole, synchronous),
          inr (_, refl),
          λ e. absurd (cc (sym e ∙ synchronous)),
          omega (arith, holding_lem os (fresh (log_path a a.logdir)) (x ∷ src)),
        )
        | inr (h, opened) ↦ elim (Bool-cases (is_current os a a.logdir)) [
          | inl current ↦ (
            a.openfiletime,
            a.current_dir,
            some (holding os (record { path = log_path a a.logdir; buffered = h }) (x ∷ src)),
            rw (dir, opened, current, k.tells, all, whole, synchronous),
            inr (_, refl),
            λ e. absurd (cc (sym e ∙ synchronous)),
            rw opened
                (holding_lem os (record { path = log_path a a.logdir; buffered = h }) (x ∷ src)),
          )
          | inr stale ↦ (
            os.now,
            a.logdir,
            some (holding os (fresh (log_path a a.logdir)) (x ∷ src)),
            rw (dir, opened, stale, k.opens, k.tells, all, whole, synchronous),
            inr (_, refl),
            λ e. absurd (cc (sym e ∙ synchronous)),
            omega (arith, holding_lem os (fresh (log_path a a.logdir)) (x ∷ src)),
          )
        ]
      ]
    ]

-- The system does all but open the log file: that it may refuse.
pub record MayRefuse (os : Os) : Type 0 where
  pub tells : os.tells ≡ true
  pub takes : (n : ℕ) → n ≤ os.takes n
  pub grants : (n : ℕ) → os.memory.grants n ≡ true

-- A write that is lost, or not.
abbrev pub kept_files : Bool → (Bytes → Bytes) → Bytes → Bytes → Bytes → Bytes
kept_files k files path src = if k then appended_file files path src else files

-- Where the log file cannot be opened, the bytes still come to its end if a stream of the day is
-- open, and are lost otherwise.
pub log2file_refused :
    (os : Os) (a : Appender) (w : World) (x : ℕ) (src : Bytes)
    → is_empty a.logdir ≡ false
    → OnLog a a.logfile
    → MayRefuse os
    → os.opens_log (log_path a a.logdir) ≡ false
    → (k : Bool) × (t : ℕ) × (d : Bytes) × (f : Option Stream) × (log2file os a w (some (x ∷ src))
        ≡ (
          with_stream a t d f,
          record w { files = kept_files k w.files (log_path a a.logdir) (x ∷ src) },
        ))
      × OnLog a f
      × (is_async a.mode ≡ true → f ≡ none)
      × (held_back f ≤ held_back a.logfile + (if k then length (x ∷ src) else 0))
unfolding log2file close_logfile
log2file_refused os a w x src dir on m shut = elim on [
  | inl closed ↦
      (false, os.now, a.logdir, none, rw (dir, closed, shut), inl refl, λ e. refl, omega arith)
  | inr (h, opened) ↦ elim (Bool-cases (is_current os a a.logdir)) [
    | inr stale ↦ (
      false,
      os.now,
      a.logdir,
      none,
      rw (dir, opened, stale, shut),
      inl refl,
      λ e. refl,
      omega arith,
    )
    | inl current ↦
        let all = le→leb (length (x ∷ src)) (os.takes (length (x ∷ src))) (m.takes _) in
        let whole = take_of_length_le (os.takes (length (x ∷ src))) (x ∷ src) (m.takes _) in
        elim (Bool-cases (is_async a.mode)) [
          | inl async ↦ (
            true,
            0,
            a.current_dir,
            none,
            rw (dir, opened, current, m.tells, all, whole, async),
            inl refl,
            λ e. refl,
            omega arith,
          )
          | inr direct ↦ (
            true,
            a.openfiletime,
            a.current_dir,
            some (holding os (record { path = log_path a a.logdir; buffered = h }) (x ∷ src)),
            rw (dir, opened, current, m.tells, all, whole, direct),
            inr (_, refl),
            λ e. absurd (cc (sym e ∙ direct)),
            rw opened
                (holding_lem os (record { path = log_path a a.logdir; buffered = h }) (x ∷ src)),
          )
        ]
  ]
]

-- Where the file cannot be opened, nothing is written, and the caller is told nothing.
pub log2file-refused :
    (os : Os) (a : Appender) (w : World) (src : Bytes)
    → a.logfile ≡ none
    → os.opens_log (log_path a a.logdir) ≡ false
    → (log2file os a w (some src)).1 ≡ w
unfolding log2file
log2file-refused os a w [] none_open g = refl
log2file-refused os a w (x ∷ src) none_open g = rw (none_open, g) (ground arith)

-- Writing to the log file leaves the pending text and the name of the log alone.
pub log2file-log_buff :
    (os : Os) (a : Appender) (w : World) (src : Option Bytes)
    → (log2file os a w src).0.log_buff ≡ a.log_buff
unfolding log2file close_logfile
log2file-log_buff os a w none = refl
log2file-log_buff os a w (some src) = ground arith
