-- ===== src/Appender/ApiLaws.antt =====
-- What a user of an appender may rely on: no text is lost on the way from a call to the log file.
use mtappender_file.Prelude.{
  ℕ, ◌≡◌, ◌≢◌, refl, ◌∙◌, ap, false, true, Option, none, some, [], ◌∷◌, length, if_true, if_false,
  if◌then◌else◌, Bytes,
}
use mtappender_file.LogBuffer.{LogBuffer}
use mtappender_file.LogBuffer.Append.{IsReady, text, cleared, cleared-IsReady}
use mtappender_file.LogBuffer.Flush.{StartsText, IsBacked, IsReady-IsBacked}
use mtappender_file.Appender.State.{
  Appender, World, Os, Mode, async, is_empty, is_async, appended_file,
}
use mtappender_file.Appender.LogFile.{log_path, fresh, holding, log2file}
use mtappender_file.Appender.Tasks.{drain, append_async, append_pending}
use mtappender_file.Appender.Api.{flush_sync, append, show_console}
use mtappender_file.Appender.FileLaws.{Works, log2file_lem, log2file-refused, log2file-log_buff}
use mtappender_file.Appender.TaskLaws.{Grants, drain_lem}
use mtappender_file.Formatter.{LogInfo}

-- An appender that is open, between two calls, in the asynchronous mode.
pub record IsOpenAsync (a : Appender) (l : LogBuffer) : Type 0 where
  pub live : a.log_close ≡ false
  pub mode : a.mode ≡ async
  pub buffer : a.log_buff ≡ some l
  pub ready : IsReady l
  pub named : is_empty a.logdir ≡ false
  pub no_stream : a.logfile ≡ none

-- The appender once its pending text has been stored.
abbrev pub drained : Appender → LogBuffer → Appender
drained a l = record a {
  openfiletime = 0;
  current_dir = a.logdir;
  logfile = none;
  log_buff = some (cleared l);
}

abbrev pub stored : Appender → World → Bytes → World
stored a w src = record w { files = appended_file w.files (log_path a a.logdir) src }

pub drain_async :
    (os : Os) (a : Appender) (w : World) (l : LogBuffer) (x : ℕ) (src : Bytes)
    → a.mode ≡ async
    → IsBacked l
    → is_empty a.logdir ≡ false
    → a.logfile ≡ none
    → text l ≡ x ∷ src
    → x ≢ 0
    → Grants os (length (x ∷ src))
    → Works os (log_path a a.logdir) (length (x ∷ src))
    → drain os a w l ≡ some (drained a l, stored a w (x ∷ src))
drain_async os a w l x src m r named none_open e nz g s =
    drain_lem os a w l x src r e nz g
    ∙ ap some (
        log2file_lem os (record a { log_buff = some (cleared l) }) w x src named none_open s
        ∙ ap (λ b. (b, stored a w (x ∷ src))) (closes a.mode m))
  where
    closes :
        (m : Mode)
        → m ≡ async
        → (if is_async m then drained a l else record a {
          openfiletime = os.now;
          current_dir = a.logdir;
          logfile = some (holding os (fresh (log_path a a.logdir)) (x ∷ src));
          log_buff = some (cleared l);
        })
          ≡ drained a l
    closes m e = rw e

pub at_buffer :
    (os : Os) (a : Appender) (w : World) (l : LogBuffer) (o : Option LogBuffer)
    → o ≡ some l
    → (elim o [ none ↦ some (a, w) | some k ↦ drain os a w k ]) ≡ drain os a w l
at_buffer os a w l o e = rw e

drained-IsOpenAsync :
    (a : Appender) (l : LogBuffer) → IsOpenAsync a l → IsOpenAsync (drained a l) (cleared l)
drained-IsOpenAsync a l o = record {
  live = o.live;
  mode = o.mode;
  buffer = refl;
  ready = cleared-IsReady l o.ready;
  named = o.named;
  no_stream = refl;
}

-- For an open appender in the asynchronous mode whose pending text is not empty and begins with no
-- zero byte, and with a working system, `mtaf_log_appender_flush_sync` moves the pending text, whole,
-- to the end of the log file, and leaves the appender open with nothing pending.
flush_sync_lem :
    (os : Os) (a : Appender) (w : World) (l : LogBuffer) (x : ℕ) (src : Bytes)
    → IsOpenAsync a l
    → text l ≡ x ∷ src
    → x ≢ 0
    → Grants os (length (x ∷ src))
    → Works os (log_path a a.logdir) (length (x ∷ src))
    → (flush_sync os a w ≡ some (drained a l, stored a w (x ∷ src)))
      × IsOpenAsync (drained a l) (cleared l)
      × (text (cleared l) ≡ [])
unfolding flush_sync
flush_sync_lem os a w l x src o e nz g s = (
  if_true _ _ _ (ap is_async o.mode)
      ∙ at_buffer os a w l a.log_buff o.buffer
      ∙ drain_async os a w l x src o.mode (IsReady-IsBacked l o.ready) o.named o.no_stream e nz g s,
  drained-IsOpenAsync a l o,
  refl,
)

-- Where the log file of an open appender in the asynchronous mode cannot be opened,
-- `mtaf_log_appender_flush_sync` changes nothing outside the appender and drops a pending text
-- that begins with no zero byte: the buffer has been cleared before the file is opened.
flush_sync-refused :
    (os : Os) (a : Appender) (w : World) (l : LogBuffer) (x : ℕ) (src : Bytes)
    → IsOpenAsync a l
    → text l ≡ x ∷ src
    → x ≢ 0
    → Grants os (length (x ∷ src))
    → os.opens_log (log_path a a.logdir) ≡ false
    → (b : Appender) × (flush_sync os a w ≡ some (b, w))
      × (b.log_buff ≡ some (cleared l))
      × (text (cleared l) ≡ [])
unfolding flush_sync
flush_sync-refused os a w l x src o e nz g s =
    let emptied : Appender = record a { log_buff = some (cleared l) } in
    let r : Appender × World = log2file os emptied w (some (x ∷ src)) in
    (
      r.0,
      if_true _ _ _ (ap is_async o.mode)
          ∙ at_buffer os a w l a.log_buff o.buffer
          ∙ drain_lem os a w l x src (IsReady-IsBacked l o.ready) e nz g
          ∙ ap (λ v. some (r.0, v)) (log2file-refused os emptied w (x ∷ src) o.no_stream s),
      log2file-log_buff os emptied w (some (x ∷ src)),
      refl,
    )

pub starts : (t : Bytes) → StartsText t → (y : ℕ) × (ys : Bytes) × (t ≡ y ∷ ys) × (y ≢ 0)
starts [] s = absurd s
starts (y ∷ ys) s = (y, ys, refl, s)

pub append-async :
    (os : Os) (a : Appender) (w : World) (l : LogBuffer) (info : Option LogInfo) (text : Bytes)
    → a.log_close ≡ false
    → is_async a.mode ≡ true
    → a.log_buff ≡ some l
    → append os a w info text ≡ append_pending os a (show_console a w text) info (some text) l
unfolding append append_async
append-async os a w l info text live m buffer =
    if_false _ _ _ live ∙ if_true _ _ _ m ∙ pending a.log_buff buffer
  where
    pending :
        (b : Option LogBuffer)
        → b ≡ some l
        → (elim b [
          | none ↦ some (a, show_console a w text)
          | some k ↦ append_pending os a (show_console a w text) info (some text) k
        ])
          ≡ append_pending os a (show_console a w text) info (some text) l
    pending b e = rw e

pub append_lem :
    (os : Os) (a : Appender) (w : World) (l : LogBuffer) (info : Option LogInfo) (text : Bytes)
    → IsOpenAsync a l
    → a.consolelog_open ≡ false
    → append os a w info text ≡ append_pending os a w info (some text) l
append_lem os a w l info text o quiet =
    append-async os a w l info text o.live (ap is_async o.mode) o.buffer
    ∙ ap (λ v. append_pending os a v info (some text) l)
        (if_false _ (record w { console = text ∷ w.console }) w quiet)
