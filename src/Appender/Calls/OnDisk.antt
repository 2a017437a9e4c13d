-- ===== src/Appender/Calls/OnDisk.antt =====
-- How much of the log of an appender of loglib/mtaf_appender.cpp is on the disk while the program runs.
use mtappender_file.Prelude.{
  ℕ, ◌+◌, ◌-◌, ◌≤◌, ◌≡◌, refl, ◌∙◌, sym, ap, arith, false, some, [], ◌++◌, append-nil, length,
  length-append, take, take-append_add, drop, Bool-cases, inl, inr, Bytes,
}
use mathlib.Core.Path.{ap₂, fun_ext}
use mtappender_file.LogBuffer.{LogBuffer}
use mtappender_file.Mmap.{MmapFile}
use mtappender_file.Appender.State.{Appender, World, bytes_eq, appended_file}
use mtappender_file.Appender.LogFile.{on_disk, held_back}
use mtappender_file.Appender.Crash.{take-drop}
use mtappender_file.Appender.Calls.{Log}
use mtappender_file.Appender.Calls.Tracked.{Tracked}

-- The last `k` bytes of the second list.
take-behind :
    (xs ys : Bytes) (k : ℕ)
    → k ≤ length ys
    → take (length (xs ++ ys) - k) (xs ++ ys) ≡ xs ++ take (length ys - k) ys
take-behind xs ys k h =
    let n : length (xs ++ ys) - k ≡ length xs + (length ys - k) =
      omega (arith, length-append xs ys, h) in
    ap (λ i. take i (xs ++ ys)) n ∙ take-append_add (length ys - k) xs ys

on_disk-appended :
    (files : Bytes → Bytes) (path xs : Bytes) (k : ℕ)
    → k ≤ length xs
    → on_disk (some (record { path = path; buffered = k })) (appended_file files path xs)
      ≡ appended_file files path (take (length xs - k) xs)
on_disk-appended files path xs k h = fun_ext λ other. elim (Bool-cases (bytes_eq path other)) [
  | inl here ↦ rw here (take-behind (files other) xs k h)
  | inr apart ↦ rw apart
]

-- What is stored is on the disk up to a part that the stream holds back; that part is empty where
-- everything has been written in the asynchronous mode.
pub record Split (files disk : Bytes → Bytes) (path : Bytes) (g : Log) : Type 0 where
  pub kept : Bytes
  pub lost : Bytes
  pub all : kept ++ lost ≡ g.stored
  pub on_disk : disk ≡ appended_file files path kept
  pub none_lost : g.direct ≡ false → lost ≡ []

pub on_disk-Tracked :
    (files : Bytes → Bytes) (path : Bytes) (n : ℕ) (m : MmapFile) (g : Log) (a : Appender)
    (w : World) (l : LogBuffer)
    → Tracked files path n m g a w l
    → Split files (on_disk a.logfile w.files) path g
on_disk-Tracked files path n m g a w l k = elim k.on_log [
  | inl closed ↦ record {
    kept = g.stored;
    lost = [];
    all = append-nil g.stored;
    on_disk = ap (λ f. on_disk f w.files) closed ∙ k.grown;
    none_lost = λ e. refl;
  }
  | inr (b, opened) ↦ record {
    kept = take (length g.stored - b) g.stored;
    lost = drop (length g.stored - b) g.stored;
    all = take-drop (length g.stored - b) g.stored;
    on_disk =
        ap₂ on_disk (opened ∙ ap (λ p. some (record { path = p; buffered = b })) k.at_path) k.grown
        ∙ on_disk-appended files path g.stored b (omega (arith, k.behind, ap held_back opened));
    none_lost = λ e. absurd (cc (sym (k.shut e) ∙ opened));
  }
]
