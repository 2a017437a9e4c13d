-- ===== src/Appender/SharedLaws.antt =====
-- One round of the shared thread over its appenders.
use mtappender_file.Prelude.{
  ℕ, ◌≡◌, ◌≢◌, true, false, none, some, List, [], ◌∷◌, length, if◌then◌else◌, Bytes,
}
use mtappender_file.LogBuffer.{LogBuffer}
use mtappender_file.LogBuffer.Append.{text}
use mtappender_file.Appender.State.{Appender, World, Os, appended_file}
use mtappender_file.Appender.LogFile.{log_path}
use mtappender_file.Appender.Tasks.{thread_task}
use mtappender_file.Appender.FileLaws.{Works}
use mtappender_file.Appender.TaskLaws.{Grants}
use mtappender_file.Appender.ApiLaws.{IsOpenAsync}

-- What is pending in an appender that is open, and nothing in one that is closed.
abbrev pub pending : Appender → Bytes
pending a = if a.log_close then [] else elim a.log_buff [ none ↦ [] | some l ↦ text l ]

-- The log files with a text of `a` stored, if there is one.
abbrev pub with_pending : Appender → (Bytes → Bytes) → Bytes → Bytes → Bytes
with_pending a files [] = files
with_pending a files (x ∷ src) = appended_file files (log_path a a.logdir) (x ∷ src)

-- The log files after a round: every pending text stands at the end of its appender's file.
abbrev pub stored_files : List Appender → (Bytes → Bytes) → Bytes → Bytes
stored_files [] files = files
stored_files (a ∷ rest) files = stored_files rest (with_pending a files (pending a))

-- An appender is closed, or open in the asynchronous mode with nothing pending, or with a text that
-- begins with no zero byte and a system that works on its file.
pub data IsServed (os : Os) (a : Appender) : Type 0 where
  closed : a.log_close ≡ true → IsServed os a
  idle : (l : LogBuffer) → IsOpenAsync a l → text l ≡ [] → IsServed os a
  waiting :
      (l : LogBuffer) (x : ℕ) (src : Bytes)
      → IsOpenAsync a l
      → text l ≡ x ∷ src
      → x ≢ 0
      → Grants os (length (x ∷ src))
      → Works os (log_path a a.logdir) (length (x ∷ src))
      → IsServed os a

abbrev pub AllServed : Os → List Appender → Type 0
AllServed os [] = Unit
AllServed os (a ∷ rest) = IsServed os a × AllServed os rest

abbrev pub NothingPending : List Appender → Type 0
NothingPending [] = Unit
NothingPending (a ∷ rest) = (pending a ≡ []) × NothingPending rest

-- No open appender has a stream.
abbrev pub NoStreams : List Appender → Type 0
NoStreams [] = Unit
NoStreams (a ∷ rest) = (a.log_close ≡ false → a.logfile ≡ none) × NoStreams rest

-- What a round does to one appender: it becomes `b`, and the files become `files`.
record Served (os : Os) (a : Appender) (w : World) : Type 0 where
  appender : Appender
  world : World
  runs : (if a.log_close then some (a, w) else thread_task os a w) ≡ some (appender, world)
  nothing : pending appender ≡ []
  shut : appender.log_close ≡ false → appender.logfile ≡ none
  files : (rest : List Appender) → stored_files rest world.files ≡ stored_files (a ∷ rest) w.files
