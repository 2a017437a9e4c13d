-- ===== src/Appender/Crash.antt =====
-- The opening after a kill of the process: the mapped file keeps what was in the log buffer.
use mtappender_file.Prelude.{
  ℕ, zero, suc, ◌-◌, ◌^◌, ◌≤◌, ◌<◌, ◌≡◌, ◌≢◌, refl, ◌∙◌, sym, ap, arith, true, false, none, some,
  [], ◌∷◌, ◌++◌, length, take, drop, replicate, take_of_length_le, append-nil, Bytes, target,
}
use mathlib.Core.Path.{ap₂}
use mtappender_file.LogBuffer.{LogBuffer}
use mtappender_file.LogBuffer.Append.{text}
use mtappender_file.LogBuffer.Flush.{StartsText}
use mtappender_file.Mmap.{MmapFile, truncated}
use mtappender_file.Appender.State.{Appender, World, Os, async, is_empty, appended_file}
use mtappender_file.Appender.LogFile.{log_path}
use mtappender_file.Appender.Api.{open_log, block_size, mmap_path}
use mtappender_file.Appender.FileLaws.{Works}
use mtappender_file.Appender.TaskLaws.{Grants}
use mtappender_file.Appender.OpenLaws.{Maps, Opened, block_at, open_log_lem}

-- The system after the kill: every mapped file holds the memory of the log buffer.
abbrev pub killed : Os → LogBuffer → Os
killed os l = record os { mmap = record os.mmap { stored = λ path. target l.buff.parray } }

pub take-drop : (n : ℕ) (xs : Bytes) → take n xs ++ drop n xs ≡ xs
take-drop zero xs = refl
take-drop (suc n) [] = refl
take-drop (suc n) (x ∷ xs) = ap (λ r. x ∷ r) (take-drop n xs)

pub truncated-same : (m : Bytes) (n : ℕ) → length m ≡ n → truncated m n ≡ m
truncated-same m n e =
    let none_more : n - length m ≡ 0 = omega arith in
    ap₂ (λ xs k. xs ++ replicate k 0) (take_of_length_le n m (omega arith)) none_more ∙ append-nil m

starts_append :
    (xs ys : Bytes) → StartsText xs → (z : ℕ) × (zs : Bytes) × (xs ++ ys ≡ z ∷ zs) × (z ≢ 0)
starts_append [] ys s = absurd s
starts_append (x ∷ xs) ys s = (x, xs ++ ys, refl, s)

module _ (os : Os) (l : LogBuffer) where
  pub killed-Maps : (path : Bytes) (fd : ℕ) → Maps os path fd → Maps (killed os l) path fd
  killed-Maps path fd m = record { opens = m.opens; lengthens = m.lengthens; maps = m.maps }

  killed-Grants : (n : ℕ) → Grants os n → Grants (killed os l) n
  killed-Grants n g = record { granted = g.granted; small = g.small }

  pub killed-Works : (path : Bytes) (n : ℕ) → Works os path n → Works (killed os l) path n
  killed-Works path n k = record { opens = k.opens; tells = k.tells; takes = k.takes }

-- The opening after a kill moves the pending text to the log file, and the rest of the block with it.
pub reopen_lem :
    (os : Os) (c : Appender) (w : World) (l : LogBuffer) (dir name : Bytes) (fd : ℕ)
    → c.log_close ≡ true
    → c.logfile ≡ none
    → is_empty dir ≡ false
    → 4 ≤ block_size c.block_length
    → block_size c.block_length < 2 ^ 31
    → Maps os (mmap_path dir name) fd
    → length (target l.buff.parray) ≡ block_size c.block_length
    → StartsText (text l)
    → Grants os (block_size c.block_length)
    → Works os
        (log_path (record c { logdir = dir; logfilename = name }) dir)
        (block_size c.block_length)
    → (d : Appender) × (u : World) × (k : LogBuffer) × (m : MmapFile) × (open_log
          (killed os l)
          c
          w
          async
          dir
          name
        ≡ some (d, u))
      × Opened c d dir name k m
      × (u.files
          ≡ appended_file w.files
              (log_path (record c { logdir = dir; logfilename = name }) dir)
              (text l ++ drop l.buff.len (target l.buff.parray)))
reopen_lem os c w l dir name fd closed stream named four small maps size s g k =
    let (z, zs, cons, nz) = starts_append (text l) (drop l.buff.len (target l.buff.parray)) s in
    let block : block_at (killed os l) c dir name ≡ z ∷ zs =
      truncated-same (target l.buff.parray) (block_size c.block_length) size
      ∙ sym (take-drop l.buff.len (target l.buff.parray))
      ∙ cons in
    let (d, u, k', m, e, o, files, peers) =
      open_log_lem (killed os l) c w dir name fd z zs closed stream named four small
        (killed-Maps os l (mmap_path dir name) fd maps) block nz
        (killed-Grants os l (block_size c.block_length) g)
        (killed-Works os l (log_path (record c { logdir = dir; logfilename = name }) dir)
          (block_size c.block_length) k) in
    (
      d,
      u,
      k',
      m,
      e,
      o,
      files
          ∙ ap
              (appended_file w.files (log_path (record c { logdir = dir; logfilename = name }) dir))
              (sym cons),
    )
