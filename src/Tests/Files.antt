-- ===== src/Tests/Files.antt =====
-- Runs of an appender whose block has 40 bytes.
use mtappender_file.Prelude.{
  ◌+◌, ◌<◌, ◌≡◌, refl, arith, true, false, none, some, [], ◌∷◌, ◌++◌, if◌then◌else◌, ◌||◌, inr,
  length, take, replicate, target,
}
use mtappender_file.LogBuffer.{LogBuffer}
use mtappender_file.LogBuffer.Append.{HasEndMark, IsReady, text}
use mtappender_file.Mmap.{MmapFile, open_mmap, write_mmap}
use mtappender_file.Mmap.Files.{open_mmap-map_failed}
use mtappender_file.Appender.State.{Appender, World, Os, Entry, async, appended_file}
use mtappender_file.Appender.LogFile.{log_path}
use mtappender_file.Appender.Tasks.{append_pending, append_async, is_third, is_fatal}
use mtappender_file.Appender.Api.{close_log, open_log}
use mtappender_file.Appender.AppendLaws.{line_of, append_pending_lem}
use mtappender_file.Appender.CloseRace.{close_beside, close_beside-append_async}
use mtappender_file.Appender.OpenLaws.{Opened, open_log_lem}
use mtappender_file.Appender.ApiLaws.{IsOpenAsync}
use mtappender_file.Appender.HeapBlock.{open_log-heap_junk}
use mtappender_file.Tests.Samples.{
  pending, mapped, dir, name, src, appender, closed, world, os, pending-IsReady,
  appender-IsOpenAsync, appender-IsMapped, os-Grants, os-Works, os-Maps, info, peers, no_maps,
  small_map,
}

-- A system that cannot open the mapped file.
abbrev unmapped : Os
unmapped = record os { mmap = record os.mmap { opens = λ creates path. none } }

open_log-heap_junk_example :
    (b : Appender) × (v : World) × (l : LogBuffer) × (open_log unmapped closed world async dir name
      ≡ some (b, v))
    × IsOpenAsync b l
    × (text l ≡ [])
    × (v.files
        ≡ appended_file world.files
            (log_path (record closed { logdir = dir; logfilename = name }) dir)
            (7 ∷ replicate 39 7))
open_log-heap_junk_example =
    open_log-heap_junk unmapped closed world dir name 7 (replicate 39 7) refl refl refl
      (omega arith) (omega arith) refl refl refl (λ e. absurd (omega (arith, e)))
      (record { granted = refl; small = omega arith })
      (record { opens = refl; tells = refl; takes = omega arith })

abbrev short_text : Entry
short_text = record { info = info; body = 33 ∷ [] }

close_beside-append_async_example :
    (c : Appender) × (u : World) × (close_beside os appender world
        (λ b v. append_async os b v short_text.info (some short_text.body))
      ≡ some (c, u))
    × (close_beside os appender world (λ b v. some (b, v)) ≡ close_log os appender world)
    × (c.log_close ≡ true)
    × (c.log_buff ≡ none)
    × (u.files ≡ appended_file world.files (log_path appender appender.logdir) (104 ∷ src))
    × (u.cache ≡ replicate appender.block_length 0)
close_beside-append_async_example =
    close_beside-append_async os appender world pending mapped 104 src short_text
      appender-IsOpenAsync appender-IsMapped (omega arith) (omega arith) (inr refl) refl
      (λ e. absurd (omega (arith, e))) (os-Grants _ (omega arith)) (os-Works _ _) tt (omega arith)
      (omega arith, omega arith)

open_log_lem_example :
    (b : Appender) × (v : World) × (l : LogBuffer) × (m : MmapFile) × (open_log os closed world
        async dir name
      ≡ some (b, v))
    × Opened closed b dir name l m
    × (v.files
        ≡ appended_file world.files
            (log_path (record closed { logdir = dir; logfilename = name }) dir)
            (104 ∷ ((105 ∷ replicate 38 7))))
    × (v.peers ≡ world.peers)
open_log_lem_example =
    open_log_lem os closed world dir name 5 104 ((105 ∷ replicate 38 7)) refl refl refl
      (omega arith) (omega arith) (os-Maps _) refl (λ e. absurd (omega (arith, e)))
      (os-Grants _ (omega arith)) (os-Works _ _)

append_pending_lem_example :
    (k : LogBuffer) × (v : World) × (append_pending os appender world info (some (33 ∷ [])) pending
      ≡ some (record appender { log_buff = some k }, v))
    × IsReady k
    × (k.buff.max_len ≡ pending.buff.max_len)
    × (length (target k.buff.parray) ≡ length (target pending.buff.parray))
    × (text k ≡ take pending.buff.max_len (text pending ++ line_of os.zone info (33 ∷ [])))
    × (v.files ≡ world.files)
    × (v.peers ≡ world.peers)
    × (v.own_signals ≡ (
        if is_third appender k || is_fatal info then world.own_signals + 1 else world.own_signals))
    × (k.buff.len + 4 < k.buff.max_len → HasEndMark k)
append_pending_lem_example =
    append_pending_lem os appender world info (33 ∷ []) pending (omega arith)
      (omega arith, omega arith) pending-IsReady (omega arith) (omega arith) tt

open_mmap-map_failed_example :
    (r : MmapFile) × (open_mmap no_maps (some small_map) dir 40 false ≡ (some r, true))
    × (r.is_open ≡ true)
    × (write_mmap r src ≡ none)
open_mmap-map_failed_example =
    open_mmap-map_failed no_maps small_map dir src 40 5 refl refl (omega arith)
