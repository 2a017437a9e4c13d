-- ===== src/Appender/Threads/Lossless.antt =====
-- loglib/mtaf_appender.cpp: what becomes of the texts of several threads.
use mtappender_file.Prelude.{
  ℕ, ◌≡◌, refl, ◌∙◌, sym, ap, none, List, [], ◌∷◌, ◌++◌, append_assoc, Bytes, all_of,
}
use mathlib.Core.List.{flatten, Perm}
use mtappender_file.Appender.State.{Entry, Os, appended_file}
use mtappender_file.Appender.Session.{lines}
use mtappender_file.Appender.Threads.{Shared, System, Reachable}
use mtappender_file.Appender.Threads.Fits.{chunk, IsHealthy, AlwaysWorks}
use mtappender_file.Appender.Threads.Flow.{pending}
use mtappender_file.Appender.Threads.Order.{Perm-IsKept, sole-IsKept}
use mtappender_file.Appender.Threads.Accounts.{AllFit}
use mtappender_file.Appender.Threads.Safe.{Reachable-IsSafe}

flatten-append : (xs ys : List Bytes) → flatten (xs ++ ys) ≡ flatten xs ++ flatten ys
unfolding flatten
flatten-append [] ys = refl
flatten-append (x ∷ xs) ys =
    ap (λ zs. x ++ zs) (flatten-append xs ys) ∙ sym (append_assoc x (flatten xs) (flatten ys))

-- Any threads append to one appender, flush it in both ways, and turn its console output on and
-- off, each text with or without a log info of a known level and a tag of less than 952 bytes, in
-- any interleaving of their parts; at first it is open in the asynchronous mode, with free
-- mutexes, no stream, a block of less than 2 ^ 29 bytes, a ready log buffer whose text begins with
-- no zero byte, and appenders beside it that have their buffers; the system always works. In every
-- state that they reach, as long as the text pending at first and the lines appended stay together
-- below four fifths of the block and fit into the log buffer: what has been taken out of the log
-- buffer, and then what is pending, are the text that was pending at first and the lines in the
-- order of the appends; the log file at `path`, with what its open stream may still hold back, has
-- grown by the stored chunks and no other file has changed; and the chunks taken are, up to order,
-- the stored ones and those that the threads have in hand.
pub Reachable-Perm :
    (os : Os) (n : ℕ) (Flushes : ℕ → Type 0) (path : Bytes) (size max : ℕ) (sh : Shared)
    (s : System) (ts : List Entry)
    → AlwaysWorks os path
    → IsHealthy path size max sh
    → sh.buffer_mutex.holder ≡ none
    → sh.file_mutex.holder ≡ none
    → Reachable os n Flushes sh s ts
    → AllFit os.zone size max sh ts
    → (taken : List Bytes) × (stored : List Bytes) × (flatten taken ++ pending s.shared
        ≡ pending sh ++ lines os.zone ts)
      × (s.shared.world.files ≡ appended_file sh.world.files path (flatten stored))
      × Perm taken (stored ++ all_of chunk n s.place)
Reachable-Perm os n Flushes path size max sh s ts works h b f r fit =
    let safe =
      Reachable-IsSafe path size max Flushes os n Perm (Perm-IsKept n Flushes) works sh h b f s ts r
        fit in
    (safe.taken, safe.stored, safe.accounted, safe.files, safe.order)

-- Any threads append to one appender, flush it in both ways, and turn its console output on and
-- off, each text with or without a log info of a known level and a tag of less than 952 bytes, in
-- any interleaving of their parts; at first it is open in the asynchronous mode, with free
-- mutexes, no stream, a block of less than 2 ^ 29 bytes, a ready log buffer whose text begins with
-- no zero byte, and appenders beside it that have their buffers; the system always works. If one
-- thread only flushes, then in every state that they reach, as long as the text pending at first
-- and the lines appended stay together below four fifths of the block and fit into the log buffer,
-- what has been added to the log file, or is held back by its open stream, then what that thread
-- has in hand, and then what is pending, are the text that was pending at first and the lines in
-- the order of the appends; no other file has changed.
pub Reachable-in_order :
    (os : Os) (n d : ℕ) (path : Bytes) (size max : ℕ) (sh : Shared) (s : System) (ts : List Entry)
    → AlwaysWorks os path
    → IsHealthy path size max sh
    → sh.buffer_mutex.holder ≡ none
    → sh.file_mutex.holder ≡ none
    → Reachable os n (λ i. i ≡ d) sh s ts
    → AllFit os.zone size max sh ts
    → (stored : Bytes) × (s.shared.world.files ≡ appended_file sh.world.files path stored)
      × (stored ++ (flatten (all_of chunk n s.place) ++ pending s.shared)
          ≡ pending sh ++ lines os.zone ts)
Reachable-in_order os n d path size max sh s ts works h b f r fit =
    let safe =
      Reachable-IsSafe path size max (λ i. i ≡ d) os n ◌≡◌ (sole-IsKept n d) works sh h b f s ts r
        fit in
    (
      flatten safe.stored,
      safe.files,
      sym (append_assoc (flatten safe.stored) (flatten (all_of chunk n s.place)) (pending s.shared))
          ∙ ap (λ xs. xs ++ pending s.shared)
              (sym (flatten-append safe.stored (all_of chunk n s.place))
                ∙ ap flatten (sym safe.order))
          ∙ safe.accounted,
    )
