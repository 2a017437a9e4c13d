-- ===== src/Appender/Session.antt =====
-- The lines of several texts.
use mtappender_file.Prelude.{List, [], ◌∷◌, ◌++◌, Bytes}
use mtappender_file.Formatter.{Zone}
use mtappender_file.Appender.State.{Entry}
use mtappender_file.Appender.AppendLaws.{line_of}

-- The lines of the texts, one behind the other.
abbrev pub lines : Zone → List Entry → Bytes
lines z [] = []
lines z (t ∷ ts) = line_of z t.info t.body ++ lines z ts
