-- ===== src/Appender/Tasks.antt =====
-- The background work, and the two ways to append.
use mtappender_file.Prelude.{
  ℕ, ◌+◌, ◌*◌, ◌/◌, ◌^◌, Bool, true, false, not, Option, none, some, List, [], ◌∷◌, ◌++◌, ◌||◌,
  ◌==◌, length, leb, ltb, if◌then◌else◌, ◌>>=◌, Bytes, load,
}
use mtappender_file.PtrBuffer
use mtappender_file.PtrBuffer.{PtrBuffer}
use mtappender_file.AutoBuffer
use mtappender_file.AutoBuffer.{AutoBuffer}
use mtappender_file.LogBuffer
use mtappender_file.LogBuffer.{LogBuffer}
use mtappender_file.Formatter.{LogInfo, log_formater, snprintf, show_nat}
use mtappender_file.Appender.State.{Appender, World, Os, temp_size, zero_array, is_own}
use mtappender_file.Appender.LogFile.{log2file}

-- The call of `__log2file` on what a flush has filled, if it has allocated anything.
unfoldable pub store_text : Os → Appender → World → AutoBuffer → Option (Appender × World)
store_text os a w tmp = do
  text ← load tmp.parray 0 tmp.len
  some (log2file os a w (tmp.parray >>= λ p. some text))

-- Flush the pending text to the log file: what `__log_thread_task` and
-- `mtaf_log_appender_flush_sync` do with a buffer.
unfoldable pub drain : Os → Appender → World → LogBuffer → Option (Appender × World)
unfolding store_text
drain os a w l = do
  (k, tmp) ← LogBuffer.flush os.memory l (AutoBuffer.empty 128)
  store_text os (record a { log_buff = some k }) w tmp

-- `__log_thread_task`.
unfoldable pub thread_task : Os → Appender → World → Option (Appender × World)
thread_task os a w = elim a.log_buff [ none ↦ some (a, w) | some l ↦ drain os a w l ]

-- One round of `__async_log_thread_operation`, and whether the thread goes on to wait.
pub thread_round : Os → Appender → World → Option (Appender × World × Bool)
thread_round os a w = elim a.log_buff [
  | none ↦ some (record a { running = false }, w, false)
  | some l ↦ drain os a w l >>= λ r.
      some (record r.0 { running = not r.0.log_close }, r.1, not r.0.log_close)
]

-- The `for` of `__async_log_shared_thread_operation`: closed appenders are passed over.
unfoldable pub shared_round : Os → List Appender → World → Option (List Appender × World)
shared_round os [] w = some ([], w)
shared_round os (a ∷ rest) w = do
  (b, v) ← (if a.log_close then some (a, w) else thread_task os a w)
  (bs, u) ← shared_round os rest v
  some (b ∷ bs, u)

abbrev pub is_fatal : Option LogInfo → Bool
is_fatal none = false
is_fatal (some info) = info.level == 5

abbrev pub is_third : Appender → LogBuffer → Bool
is_third a l = leb (a.block_length * 1 / 3) l.buff.len

-- The loop at the end of `__appender_async`: whether the shared condition is notified. An appender
-- that is open without a buffer is a call through NULL.
unfoldable pub wakes_shared : List Appender → Bool → Option Bool
wakes_shared [] fatal = some false
wakes_shared (a ∷ rest) fatal =
    let later = wakes_shared rest fatal in
    if a.log_close
    then later
    else (a.log_buff >>= λ l. if is_third a l || fatal then some true else later)

-- The list of the shared thread, with this appender in it if it uses that thread.
abbrev pub registered : Appender → World → List Appender
registered a w = if is_own a.worker then w.peers else a ∷ w.peers

-- "[F][ sg_buffer_async.Length() >= BUFFER_BLOCK_LENTH*4/5, len: %d\n".
abbrev pub full_text : ℕ → Bytes
full_text n =
    (b'[' ∷ b'F' ∷ b']' ∷ b'[' ∷ b' ' ∷ b's' ∷ b'g' ∷ b'_' ∷ b'b' ∷ b'u' ∷ b'f' ∷ b'f' ∷ b'e' ∷ b'r'
      ∷ b'_' ∷ b'a' ∷ b's' ∷ b'y' ∷ b'n' ∷ b'c' ∷ b'.' ∷ b'L' ∷ b'e' ∷ b'n' ∷ b'g' ∷ b't' ∷ b'h'
      ∷ b'(' ∷ b')' ∷ b' ' ∷ b'>' ∷ b'=' ∷ b' ' ∷ b'B' ∷ b'U' ∷ b'F' ∷ b'F' ∷ b'E' ∷ b'R' ∷ b'_'
      ∷ b'B' ∷ b'L' ∷ b'O' ∷ b'C' ∷ b'K' ∷ b'_' ∷ b'L' ∷ b'E' ∷ b'N' ∷ b'T' ∷ b'H' ∷ b'*' ∷ b'4'
      ∷ b'/' ∷ b'5' ∷ b',' ∷ b' ' ∷ b'l' ∷ b'e' ∷ b'n' ∷ b':' ∷ b' ' ∷ [])
    ++ show_nat n
    ++ (b'\n' ∷ [])

-- `sg_bufferblock_length * 4 / 5` on `int`: a product that is out of range is undefined.
abbrev pub four_fifths : ℕ → Option ℕ
four_fifths n = if ltb (n * 4) (2 ^ 31) then some (n * 4 / 5) else none

-- From four fifths of the block on, a warning takes the place of the line.
unfoldable pub choose_line : Appender → LogBuffer → PtrBuffer → Option PtrBuffer
choose_line a l log = do
  limit ← four_fifths a.block_length
  (if leb limit l.buff.len
      then (snprintf log.parray 0 temp_size (full_text l.buff.len) >>= λ q. some (
          PtrBuffer.set_length (record log { parray = q }) (length (full_text l.buff.len))
            (length (full_text l.buff.len))))
      else some log)

-- The notifications at the end of `__appender_async`.
unfoldable pub notify : Appender → World → LogBuffer → Option LogInfo → Option (Appender × World)
notify a w l info = do
  let v = record w {
    own_signals = if is_third a l || is_fatal info then w.own_signals + 1 else w.own_signals;
    shared_running = true;
  }
  wakes ← wakes_shared (registered a v) (is_fatal info)
  some (a, record v { shared_signals = if wakes then v.shared_signals + 1 else v.shared_signals })

-- `__appender_async` with a buffer.
unfoldable pub append_pending :
    Os → Appender → World → Option LogInfo → Option Bytes → LogBuffer → Option (Appender × World)
append_pending os a w info body l = do
  (log, st) ←
      log_formater os.zone w.stats info body
        (PtrBuffer.attach (some (zero_array temp_size)) 0 temp_size)
  line ← choose_line a l log
  text ← load line.parray 0 line.len
  (k, done) ← LogBuffer.write l (some text)
  (if done
      then notify (record a { log_buff = some k }) (record w { stats = st }) k info
      else some (record a { log_buff = some k }, record w { stats = st }))

-- `__appender_async`.
unfoldable pub append_async :
    Os → Appender → World → Option LogInfo → Option Bytes → Option (Appender × World)
append_async os a w info body = elim a.log_buff [
  | none ↦ some (a, w)
  | some l ↦ append_pending os a w info body l
]

-- `__appender_sync`.
unfoldable pub append_sync :
    Os → Appender → World → Option LogInfo → Option Bytes → Option (Appender × World)
append_sync os a w info body = do
  (log, st) ←
      log_formater os.zone w.stats info body
        (PtrBuffer.attach (some (zero_array temp_size)) 0 temp_size)
  text ← load log.parray 0 log.len
  copied ← LogBuffer.write_static (some text) (some (zero_array temp_size))
  (elim copied [
    | none ↦ some (a, record w { stats = st })
    | some (buffer, n) ↦
        load buffer 0 n >>= λ out. some (log2file os a (record w { stats = st }) (some out))
  ])
