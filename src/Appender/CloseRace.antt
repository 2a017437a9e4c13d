-- ===== src/Appender/CloseRace.antt =====
-- `mtaf_log_appender_close` of loglib/mtaf_appender.cpp while another thread appends.
use mtappender_file.Prelude.{
  ℕ, ◌+◌, ◌^◌, ◌<◌, ◌≡◌, ◌≢◌, refl, ◌∙◌, sym, ap, arith, true, Option, none, some, [], ◌∷◌, length,
  if_false, ◌>>=◌, if◌then◌else◌, Bytes, replicate, length-overwrite_ptr,
}
use mathlib.Core.Path.{subst}
use mtappender_file.LogBuffer.{LogBuffer}
use mtappender_file.LogBuffer.Append.{text, cleared, cleared-IsReady}
use mtappender_file.Mmap.{MmapFile}
use mtappender_file.Appender.State.{Appender, World, Os, Entry, appended_file}
use mtappender_file.Appender.LogFile.{log_path, close_logfile}
use mtappender_file.Appender.Tasks.{append_async, append_pending}
use mtappender_file.Appender.Api.{close_log, last_task, release_block}
use mtappender_file.Appender.FileLaws.{Works}
use mtappender_file.Appender.TaskLaws.{Grants}
use mtappender_file.Appender.ApiLaws.{IsOpenAsync}
use mtappender_file.Appender.AppendLaws.{HasHeader, HaveBuffers, append_pending_lem}
use mtappender_file.Appender.CloseLaws.{
  HasThread, IsMapped, last_task_lem, release_block_lem, close_logfile_lem,
}

-- Closing, with what another thread does to the appender between the last task and the lock of the
-- buffer's mutex.
unfoldable pub close_beside :
    Os
    → Appender
    → World
    → (Appender → World → Option (Appender × World))
    → Option (Appender × World)
close_beside os a w other = if a.log_close then some (a, w) else (do
  let v = record w { own_signals = w.own_signals + 1; shared_signals = w.shared_signals + 1 }
  (b, u) ← last_task os (record a { log_close = true }) v
  (d, s) ← other b u
  (c, t) ← release_block d s
  some (close_logfile c, t))

append_async_lem :
    (os : Os) (b : Appender) (v : World) (t : Entry) (l : LogBuffer)
    → b.log_buff ≡ some l
    → append_async os b v t.info (some t.body) ≡ append_pending os b v t.info (some t.body) l
unfolding append_async
append_async_lem os b v t l e = at b.log_buff e
  where
    at :
        (o : Option LogBuffer)
        → o ≡ some l
        → (elim o [ none ↦ some (b, v) | some k ↦ append_pending os b v t.info (some t.body) k ])
          ≡ append_pending os b v t.info (some t.body) l
    at o e = rw e

close_beside_alone :
    (os : Os) (a : Appender) (w : World)
    → close_beside os a w (λ b v. some (b, v)) ≡ close_log os a w
unfolding close_beside close_log
close_beside_alone os a w = refl

-- An open appender in the asynchronous mode over a mapped file, with a block of more than one and
-- less than 2 ^ 29 bytes, a pending text that begins with no zero byte, a thread to do the work, a
-- working system and appenders beside it that have their buffers, is closed, and another thread
-- appends an entry, whose body has at least one byte and which has no log info or one of a known
-- level and a tag of less than 952 bytes, between the last task and the release of the buffer: the
-- line of the entry is then neither in the log file, which has grown by the pending text only, nor
-- in the file that was mapped, which holds zero bytes. Without the append the two halves are the
-- whole of `mtaf_log_appender_close`.
pub close_beside-append_async :
    (os : Os) (a : Appender) (w : World) (l : LogBuffer) (m : MmapFile) (x : ℕ) (src : Bytes)
    (t : Entry)
    → IsOpenAsync a l
    → IsMapped a l m
    → 1 < a.block_length
    → a.block_length < 2 ^ 29
    → HasThread a
    → text l ≡ x ∷ src
    → x ≢ 0
    → Grants os (length (x ∷ src))
    → Works os (log_path a a.logdir) (length (x ∷ src))
    → HaveBuffers w.peers
    → 0 < length t.body
    → HasHeader t.info
    → (c : Appender) × (u : World) × (close_beside os a w
          (λ b v. append_async os b v t.info (some t.body))
        ≡ some (c, u))
      × (close_beside os a w (λ b v. some (b, v)) ≡ close_log os a w)
      × (c.log_close ≡ true)
      × (c.log_buff ≡ none)
      × (u.files ≡ appended_file w.files (log_path a a.logdir) (x ∷ src))
      × (u.cache ≡ replicate a.block_length 0)
unfolding close_beside
close_beside-append_async os a w l m x src t o mapped pos small thread e nz g s h some_byte good =
    let closing : Appender = record a { log_close = true } in
    let told : World = record w {
      own_signals = w.own_signals + 1;
      shared_signals = w.shared_signals + 1;
    } in
    let (b, v, done, st) =
      last_task_lem os closing told l x src
        (record {
          live = refl;
          mode = o.mode;
          buffer = o.buffer;
          ready = o.ready;
          named = o.named;
          no_stream = o.no_stream;
        })
        thread e nz g s in
    let (k, z, e', r, max, memory, held, files, peers, third, mark) =
      append_pending_lem os b v t.info t.body (cleared l) some_byte good (cleared-IsReady l o.ready)
        (omega (arith, small, st.size)) (omega (arith, pos, st.size))
        (subst HaveBuffers (sym st.peers) h) in
    let late : Appender = record b { log_buff = some k } in
    let released : Appender = record late { mmap_file = none; log_buff = none } in
    let (c1, c2, c3, c4) = close_logfile_lem released in
    (
      close_logfile released,
      record z { cache = replicate b.block_length 0 },
      if_false _ _ _ o.live
          ∙ rw (
            done,
            append_async_lem os b v t (cleared l) st.buffer,
            e',
            release_block_lem late z k m (omega (arith, pos, st.size)) refl (st.file ∙ mapped.file)
                mapped.file_open
                (memory
                  ∙ length-overwrite_ptr l.buff.parray 0 (0 ∷ [])
                  ∙ mapped.whole
                  ∙ sym st.size),
          ),
      close_beside_alone os a w,
      c1 ∙ st.closed,
      c2,
      files ∙ st.files,
      ap (λ n. replicate n 0) st.size,
    )
