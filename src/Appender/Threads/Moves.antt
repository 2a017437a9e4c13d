-- ===== src/Appender/Threads/Moves.antt =====
-- The parts that a thread runs, together.
use mtappender_file.Prelude.{ℕ, refl, Bytes}
use mtappender_file.Appender.State.{Os}
use mtappender_file.Appender.Threads.{
  Shared, Place, outside, wants_buffer, appending, flushing, filled, wants_file, opening, writing,
  closing, act,
}
use mtappender_file.Appender.Threads.Fits.{Fits, IsHealthy, AlwaysWorks}
use mtappender_file.Appender.Threads.Flow.{HasRoom, stays, Goes}
use mtappender_file.Appender.Threads.InBuffer.{wants_buffer_lem, appending_lem}
use mtappender_file.Appender.Threads.Taken.{flushing_lem, filled_lem}
use mtappender_file.Appender.Threads.InFile.{wants_file_lem, opening_lem, writing_lem, closing_lem}

module _ (path : Bytes) (size max : ℕ) (Flushes : ℕ → Type 0) (os : Os)
    (works : AlwaysWorks os path) (sh : Shared) (i : ℕ) (g : IsHealthy path size max sh) where
  -- Every part goes through, does no harm and loses nothing.
  pub act_lem :
      (p : Place)
      → Fits path Flushes sh i p
      → HasRoom os.zone path size max Flushes sh p
      → Goes os.zone path size max Flushes os sh i p
  unfolding act
  act_lem outside f r =
      (sh, outside, refl, stays os.zone path size max Flushes sh i g outside f refl tt)
  act_lem (wants_buffer job) f r = wants_buffer_lem path size max Flushes os works sh i g job f
  act_lem (appending b t l) f r = appending_lem path size max Flushes os works sh i g b t l f r
  act_lem (flushing b l) f r = flushing_lem path size max Flushes os works sh i g b l f
  act_lem (filled tmp) f r = filled_lem path size max Flushes os works sh i g tmp f
  act_lem (wants_file src) f r = wants_file_lem path size max Flushes os works sh i g src f
  act_lem (opening b src) f r = opening_lem path size max Flushes os works sh i g b src f
  act_lem (writing b src opened) f r =
      writing_lem path size max Flushes os works sh i g b src opened f
  act_lem (closing b opened wrote) f r =
      closing_lem path size max Flushes os works sh i g b opened wrote f
