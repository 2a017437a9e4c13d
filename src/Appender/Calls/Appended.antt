-- ===== src/Appender/Calls/Appended.antt =====
-- An append of loglib/mtaf_appender.cpp puts its line into the log, in either mode.
use mtappender_file.Prelude.{
  ℕ, ◌*◌, ◌/◌, ◌<◌, ◌≤◌, ◌≡◌, ◌≢◌, inl, inr, refl, ◌∙◌, sym, ap, arith, true, false, Bool-cases,
  Option, none, some, [], ◌∷◌, ◌++◌, length, length-append, take, take_of_length_le, ◌+◌, if_true,
  if_false, Bytes,
}
use mathlib.Core.Path.{subst, ap₂}
use mtappender_file.LogBuffer.{LogBuffer}
use mtappender_file.LogBuffer.Append.{length-text}
use mtappender_file.LogBuffer.Flush.{starts_behind}
use mtappender_file.Mmap.{MmapFile}
use mtappender_file.Formatter.{LogInfo}
use mtappender_file.Appender.State.{Appender, Stream, World, Os, is_async, Entry, appended_file}
use mtappender_file.Appender.LogFile.{log_path, log2file, held_back}
use mtappender_file.Appender.Api.{append, show_console}
use mtappender_file.Appender.FileLaws.{
  AlwaysWorks, OnLog, always_works, appended_file-append, with_stream, log2file_any,
}
use mtappender_file.Appender.AppendLaws.{
  line_of, HasHeader, IsPrintable, HaveBuffers, append_pending_lem, line_sizes, starts_line,
}
use mtappender_file.Appender.ApiLaws.{starts, append-async}
use mtappender_file.Appender.SyncLaws.{append-direct}
use mtappender_file.Appender.Calls.{Log, directly, put}
use mtappender_file.Appender.Calls.Tracked.{Tracked, Next, indirect}

pub some_cons : (xs : Bytes) → 0 < length xs → (y : ℕ) × (ys : Bytes) × (xs ≡ y ∷ ys)
some_cons [] h = absurd (omega arith)
some_cons (y ∷ ys) h = (y, ys, refl)

pub show_console_lem :
    (a : Appender) (w : World) (t : Bytes)
    → ((show_console a w t).files ≡ w.files) × ((show_console a w t).peers ≡ w.peers)
show_console_lem a w t = elim (Bool-cases a.consolelog_open) [
  | inl shown ↦ rw shown (refl, refl)
  | inr quiet ↦ rw quiet (refl, refl)
]

-- Room for a line, in the asynchronous mode.
abbrev pub HasRoom : ℕ → Log → Bytes → Type 0
HasRoom n g line = is_async g.mode ≡ true → length (g.pending ++ line) < n * 4 / 5

module _ (files : Bytes → Bytes) (path : Bytes) (n : ℕ) (m : MmapFile) where
  pub append_async-Next :
      (os : Os) (g : Log) (a : Appender) (w : World) (l : LogBuffer) (info : Option LogInfo) (x : ℕ)
      (body : Bytes)
      → Tracked files path n m g a w l
      → a.log_close ≡ false
      → is_async g.mode ≡ true
      → HasHeader info
      → x ≢ 0
      → length (g.pending ++ line_of os.zone info (x ∷ body)) < n * 4 / 5
      → Next files path n m
          (record g { pending = g.pending ++ line_of os.zone info (x ∷ body) })
          a
          (append os a w info (x ∷ body))
  append_async-Next os g a w l info x body k live async good nz room =
      let line : Bytes = line_of os.zone info (x ∷ body) in
      let (same_files, same_peers) = show_console_lem a w (x ∷ body) in
      let sizes : length (g.pending ++ line) ≡ l.buff.len + length line =
        length-append g.pending line
        ∙ ap (λ xs. length xs + length line) (sym k.held)
        ∙ ap (λ i. i + length line) (length-text l k.ready) in
      let (b, v, e, ready, most, memory, whole, f, p, third, mark) =
        append_pending_lem os a (show_console a w (x ∷ body)) info (x ∷ body) l (omega arith) good
          k.ready (omega (arith, k.size, k.small)) (omega (arith, sizes, room, k.size))
          (subst HaveBuffers (sym same_peers) k.peers) in
      record {
        after = record a { log_buff = some b };
        world = v;
        log = b;
        returns =
            append-async os a w l info (x ∷ body) live (ap is_async k.mode ∙ async) k.buffer ∙ e;
        tracked = record {
          mode = k.mode;
          buffer = refl;
          ready = ready;
          named = k.named;
          at_path = k.at_path;
          on_log = k.on_log;
          shut = k.shut;
          behind = k.behind;
          size = k.size;
          small = k.small;
          room = most ∙ k.room;
          held =
              whole
              ∙ ap (λ xs. take l.buff.max_len (xs ++ line)) k.held
              ∙ take_of_length_le l.buff.max_len (g.pending ++ line) (omega (arith, room, k.room));
          begins =
              inr (starts_behind g.pending line k.begins (starts_line os.zone info x body good nz));
          blank = λ nothing.
              absurd
                (omega (arith, ap length nothing, sizes, (line_sizes os.zone info x body good).0));
          below = inr room;
          marked = λ s. mark;
          grown = f ∙ same_files ∙ k.grown;
          peers = subst HaveBuffers (sym (p ∙ same_peers)) k.peers;
          mapped = record {
            file = k.mapped.file;
            file_open = k.mapped.file_open;
            whole = memory ∙ k.mapped.whole;
          };
          thread = k.thread;
        };
        close_kept = refl;
      }

  -- What is stored when a line has been written at once.
  pub Tracked-written :
      (g : Log) (a : Appender) (w v : World) (l : LogBuffer) (t : ℕ) (d : Bytes) (f : Option Stream)
      (src : Bytes)
      → Tracked files path n m g a w l
      → OnLog a f
      → (directly g ≡ false → f ≡ none)
      → held_back f ≤ length src
      → v.files ≡ appended_file files path src
      → v.peers ≡ w.peers
      → Tracked files path n m
          (record g { stored = src; direct = directly g })
          (with_stream a t d f)
          v
          l
  Tracked-written g a w v l t d f src k on closes behind e p = record {
    mode = k.mode;
    buffer = k.buffer;
    ready = k.ready;
    named = k.named;
    at_path = k.at_path;
    on_log = on;
    shut = closes;
    behind = behind;
    size = k.size;
    small = k.small;
    room = k.room;
    held = k.held;
    begins = k.begins;
    blank = k.blank;
    below = k.below;
    marked = k.marked;
    grown = e;
    peers = subst HaveBuffers (sym p) k.peers;
    mapped = record {
      file = k.mapped.file;
      file_open = k.mapped.file_open;
      whole = k.mapped.whole;
    };
    thread = k.thread;
  }

  append_sync-Next :
      (os : Os) (g : Log) (a : Appender) (w : World) (l : LogBuffer) (info : Option LogInfo) (x : ℕ)
      (body : Bytes)
      → AlwaysWorks os path
      → Tracked files path n m g a w l
      → a.log_close ≡ false
      → is_async g.mode ≡ false
      → HasHeader info
      → Next files path n m
          (record g { stored = g.stored ++ line_of os.zone info (x ∷ body); direct = directly g })
          a
          (append os a w info (x ∷ body))
  append_sync-Next os g a w l info x body system k live direct good =
      let line : Bytes = line_of os.zone info (x ∷ body) in
      let v : World = show_console a w (x ∷ body) in
      let (same_files, same_peers) = show_console_lem a w (x ∷ body) in
      let (y, ys, cons) = some_cons line (line_sizes os.zone info x body good).0 in
      let (t, d, f, e, on, closes, behind) = log2file_any os a v y ys k.named k.on_log (
        always_works os (log_path a a.logdir) (length (y ∷ ys))
          (subst (AlwaysWorks os) (sym k.at_path) system)) in
      record {
        after = with_stream a t d f;
        world = record v { files = appended_file v.files (log_path a a.logdir) (y ∷ ys) };
        log = l;
        returns =
            append-direct os a w info x body live (ap is_async k.mode ∙ direct) good
            ∙ ap (λ xs. some (log2file os a v (some xs))) cons
            ∙ ap some e;
        tracked =
            Tracked-written g a w _ l t d f (g.stored ++ line) k on
              (λ e'. closes (ap is_async k.mode ∙ (indirect files path n m g e').1))
              (omega (arith, behind, k.behind, length-append g.stored line, ap length cons))
              (ap₂ (λ fs p. appended_file fs p (y ∷ ys)) (same_files ∙ k.grown) k.at_path
                ∙ appended_file-append files path g.stored (y ∷ ys)
                ∙ ap (λ xs. appended_file files path (g.stored ++ xs)) (sym cons))
              same_peers;
        close_kept = refl;
      }

  pub append-Next :
      (os : Os) (g : Log) (a : Appender) (w : World) (l : LogBuffer) (t : Entry)
      → AlwaysWorks os path
      → Tracked files path n m g a w l
      → a.log_close ≡ false
      → IsPrintable t
      → HasRoom n g (line_of os.zone t.info t.body)
      → Next files path n m (put g (line_of os.zone t.info t.body)) a (append os a w t.info t.body)
  append-Next os g a w l t system k live good room =
      let (x, body, cons, nz) = starts t.body good.0 in
      let line : Bytes → Bytes = line_of os.zone t.info in
      subst (λ b. Next files path n m (put g (line b)) a (append os a w t.info b)) (sym cons)
        (elim (Bool-cases (is_async g.mode)) [
          | inl async ↦
              subst (λ h. Next files path n m h a (append os a w t.info (x ∷ body)))
                (sym (if_true _ _ _ async))
                (append_async-Next os g a w l t.info x body k live async good.1 nz
                  (subst (λ b. length (g.pending ++ line b) < n * 4 / 5) cons (room async)))
          | inr direct ↦
              subst (λ h. Next files path n m h a (append os a w t.info (x ∷ body)))
                (sym (if_false _ _ _ direct))
                (append_sync-Next os g a w l t.info x body system k live direct good.1)
        ])
