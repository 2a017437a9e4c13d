-- ===== src/Appender/AppendLaws.antt =====
-- `__appender_async`: which line is stored, and where.
use mtappender_file.Prelude.{
  ◌+◌, ◌*◌, ◌/◌, ◌^◌, ◌<◌, ◌≡◌, ◌≢◌, refl, ◌∙◌, sym, arith, Bool, true, false, Option, none, some,
  List, [], ◌∷◌, ◌++◌, ◌||◌, length, take, lt→leb_false, ltb, if◌then◌else◌, Bool-cases,
  Option-cases, inl, inr, Bytes, target,
}
use mtappender_file.PtrBuffer.{PtrBuffer}
use mtappender_file.LogBuffer.{LogBuffer}
use mtappender_file.LogBuffer.Append.{HasEndMark, IsReady, text, write_some}
use mtappender_file.Formatter.{LogInfo}
use mtappender_file.Appender.State.{Appender, World, Os, is_own, Worker, own, shared}
use mtappender_file.Appender.Tasks.{
  append_pending, choose_line, notify, wakes_shared, registered, is_third, is_fatal,
}
pub use mtappender_file.Appender.LineLaws.{
  line_of, HasHeader, IsPrintable, length-zero_array, temp, format_temp, load_line, line_sizes,
  starts_line,
}

-- Every open appender of the shared thread has a buffer.
abbrev pub HaveBuffers : List Appender → Type 0
HaveBuffers [] = Unit
HaveBuffers (a ∷ rest) = (a.log_close ≡ false → a.log_buff ≢ none) × HaveBuffers rest

wakes_lem :
    (peers : List Appender) (fatal : Bool)
    → HaveBuffers peers
    → (b : Bool) × (wakes_shared peers fatal ≡ some b)
unfolding wakes_shared
wakes_lem [] fatal h = (false, refl)
wakes_lem (a ∷ rest) fatal h =
    let (later, e) = wakes_lem rest fatal h.1 in
    elim (Bool-cases a.log_close) [
      | inl closed ↦ (later, rw closed e)
      | inr live ↦ elim (Option-cases a.log_buff) [
        | inl missing ↦ absurd (h.0 live missing)
        | inr (l, buffer) ↦ elim (Bool-cases (is_third a l || fatal)) [
          | inl wake ↦ (true, rw (live, buffer, wake))
          | inr quiet ↦ (later, rw (live, buffer, quiet) e)
        ]
      ]
    ]

-- What the notifications change: nothing but the counts of signals and the shared thread.
pub record Notified (w v : World) : Type 0 where
  pub files : v.files ≡ w.files
  pub cache : v.cache ≡ w.cache
  pub peers : v.peers ≡ w.peers
  pub started : v.shared_running ≡ true

abbrev notified : Appender → World → LogBuffer → Option LogInfo → Bool → World
notified a w l info wakes = record w {
  own_signals = if is_third a l || is_fatal info then w.own_signals + 1 else w.own_signals;
  shared_running = true;
  shared_signals = if wakes then w.shared_signals + 1 else w.shared_signals;
}

notify_lem :
    (a : Appender) (w : World) (l : LogBuffer) (info : Option LogInfo)
    → a.log_buff ≡ some l
    → HaveBuffers w.peers
    → (v : World) × (notify a w l info ≡ some (a, v))
      × Notified w v
      × (v.own_signals
          ≡ (if is_third a l || is_fatal info then w.own_signals + 1 else w.own_signals))
unfolding notify
notify_lem a w l info buffer h =
    let (b, e) = wakes_lem (registered a w) (is_fatal info) (all a.worker) in
    (
      notified a w l info b,
      rw e,
      record { files = refl; cache = refl; peers = refl; started = refl },
      refl,
    )
  where
    present : a.log_close ≡ false → a.log_buff ≢ none
    present live missing = cc (sym buffer ∙ missing)

    all : (k : Worker) → HaveBuffers (if is_own k then w.peers else a ∷ w.peers)
    all own = h
    all shared = (present, h)

choose_line_lem :
    (a : Appender) (l : LogBuffer) (log : PtrBuffer)
    → a.block_length < 2 ^ 29
    → l.buff.len < a.block_length * 4 / 5
    → choose_line a l log ≡ some log
unfolding choose_line
choose_line_lem a l log small h =
    let in_range : ltb (a.block_length * 4) (2 ^ 31) ≡ true = ground arith in
    rw (in_range, lt→leb_false _ _ h)

-- With a block of less than 2 ^ 29 bytes and a ready log buffer below four fifths of it, and
-- beside appenders that have their buffers, `__appender_async` puts the line of a text of at least
-- one byte, with or without a log info of a known level and a tag of less than 952 bytes, behind
-- the pending text, cut at the length of the buffer, with the end mark behind it where more than
-- four bytes are left, and the memory keeps its size; the log files and the other appenders are as
-- before, and the appender's condition is notified from a third of the block on, and for a log
-- info of the fatal level, and in no other case.
pub append_pending_lem :
    (os : Os) (a : Appender) (w : World) (info : Option LogInfo) (body : Bytes) (l : LogBuffer)
    → 0 < length body
    → HasHeader info
    → IsReady l
    → a.block_length < 2 ^ 29
    → l.buff.len < a.block_length * 4 / 5
    → HaveBuffers w.peers
    → (k : LogBuffer) × (v : World) × (append_pending os a w info (some body) l
        ≡ some (record a { log_buff = some k }, v))
      × IsReady k
      × (k.buff.max_len ≡ l.buff.max_len)
      × (length (target k.buff.parray) ≡ length (target l.buff.parray))
      × (text k ≡ take l.buff.max_len (text l ++ line_of os.zone info body))
      × (v.files ≡ w.files)
      × (v.peers ≡ w.peers)
      × (v.own_signals
          ≡ (if is_third a k || is_fatal info then w.own_signals + 1 else w.own_signals))
      × (k.buff.len + 4 < k.buff.max_len → HasEndMark k)
unfolding append_pending
append_pending_lem os a w info [] l some_byte good r small below h = absurd (omega arith)
append_pending_lem os a w info (x ∷ body) l some_byte good r small below h =
    let (c, e, h') = format_temp os w.stats info x body good in
    let (k, e', r', m, t, memory, mark) =
      write_some l (line_of os.zone info (x ∷ body)) r (line_sizes os.zone info x body good).0
        (omega (arith, (line_sizes os.zone info x body good).1)) in
    let (v, e'', n, third) =
      notify_lem (record a { log_buff = some k }) (record w { stats = w.stats }) k info refl h in
    (
      k,
      v,
      rw
          (
            e,
            choose_line_lem a l c small below,
            load_line c (line_of os.zone info (x ∷ body)) h',
            e',
          )
          e'',
      r',
      m,
      memory,
      t,
      n.files,
      n.peers,
      third,
      mark,
    )
