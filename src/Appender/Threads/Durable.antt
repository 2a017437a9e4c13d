-- ===== src/Appender/Threads/Durable.antt =====
-- loglib/mtaf_appender.cpp: a flush once all other calls have returned.
use mtappender_file.Prelude.{
  ℕ, ◌*◌, ◌≤◌, ◌<◌, ◌≡◌, ◌≢◌, refl, ◌∙◌, sym, ap, arith, inl, inr, Option, none, some, List, [],
  ◌∷◌, ◌++◌, append-nil, length, Bytes, update, update_here, update_other, all_of, all_of-none,
  total, total-bound, false, ◌==◌, Bool-cases,
}
use mathlib.Core.Path.{subst, ap₂}
use mathlib.Core.List.{flatten, Perm}
use mtappender_file.Sync.Mutex.{Mutex}
use mtappender_file.LogBuffer.Append.{text, cleared, length-text}
use mtappender_file.LogBuffer.Flush.{StartsText, IsReady-IsBacked}
use mtappender_file.Appender.State.{Entry, Appender, World, Os, appended_file, is_async}
use mtappender_file.Appender.TaskLaws.{drain_nothing}
use mtappender_file.Appender.Tasks.{drain}
use mtappender_file.Appender.ApiLaws.{drained, stored, drain_async}
use mtappender_file.Appender.Session.{lines}
use mtappender_file.Appender.Threads.{
  Shared, outside, wants_buffer, flush_sync, System, flushes, Continues, texts_of, Reachable,
  stepped,
}
use mtappender_file.Appender.Threads.Fits.{
  plain, chunk, in_buffer, in_file, Holds, IsHealthy, AlwaysWorks,
}
use mtappender_file.Appender.Threads.Flow.{pending, rank, wanted}
use mtappender_file.Appender.Threads.InBuffer.{some_text}
use mtappender_file.Appender.Threads.Accounts.{AllFit}
use mtappender_file.Appender.Threads.Safe.{room}
use mtappender_file.Appender.Threads.Alone.{run, free, done, run-drain}
use mtappender_file.Appender.Threads.Finish.{HaveRoom, finish, rank_bound}
use mtappender_file.Appender.Threads.Runs.{Reachable-Continues, IsSafe-at, run-Ran}

module _ (os : Os) (n : ℕ) (Flushes : ℕ → Type 0) (path : Bytes) (size max : ℕ) (sh : Shared)
    (works : AlwaysWorks os path) (h : IsHealthy path size max sh)
    (b : sh.buffer_mutex.holder ≡ none) (f : sh.file_mutex.holder ≡ none) (ts : List Entry)
    (fit : AllFit os.zone size max sh ts) where
  -- The mutexes are free while all threads are outside.
  free_here :
      (m : System)
      → Reachable os n Flushes sh m ts
      → ((i : ℕ) → m.place i ≡ outside)
      → m.shared ≡ free (m.shared.appender, m.shared.world)
  free_here m r idle =
      let safe = IsSafe-at os n Flushes path size max sh works h b f ts fit m r in
      ap₂
        (λ (x y : Mutex). record {
          appender = m.shared.appender;
          world = m.shared.world;
          buffer_mutex = x;
          file_mutex = y;
        })
        (safe.healthy.buffer_mutex
          ∙ ap plain (
              no_holder _ (λ i.
                subst (λ p. Holds (in_buffer p) m.shared.buffer_mutex.holder i) (idle i)
                  (safe.fits i).buffer)))
        (safe.healthy.file_mutex
          ∙ ap plain (
              no_holder _ (λ i.
                subst (λ p. Holds (in_file p) m.shared.file_mutex.holder i) (idle i)
                  (safe.fits i).file)))
    where
      no_holder : (o : Option ℕ) → ((i : ℕ) → o ≢ some i) → o ≡ none
      no_holder none others = refl
      no_holder (some i) others = absurd (others i refl)

  -- A flush leaves nothing pending.
  drains :
      (m : System) (g : IsHealthy path size max m.shared)
      → m.shared.appender.logfile ≡ none
      → (v : Appender × World) × (drain os m.shared.appender m.shared.world g.log ≡ some v)
        × (pending (free v) ≡ [])
        × (v.0.logfile ≡ none)
  drains m g no_stream = elim g.starts [
    | inl nothing ↦ (
      (record m.shared.appender { log_buff = some (cleared g.log) }, m.shared.world),
      drain_nothing os m.shared.appender m.shared.world g.log (IsReady-IsBacked g.log g.ready)
          (λ s. subst StartsText nothing s),
      refl,
      no_stream,
    )
    | inr starts ↦
        let (x, xs, cons) = some_text (text g.log) starts in
        (
          (drained m.shared.appender g.log, stored m.shared.appender m.shared.world (x ∷ xs)),
          drain_async os m.shared.appender m.shared.world g.log x xs g.mode
              (IsReady-IsBacked g.log g.ready) g.named no_stream cons (subst StartsText cons starts)
              (record {
                granted = works.grants _;
                small = omega (
                  arith,
                  ap length cons,
                  length-text g.log g.ready,
                  g.ready.valid,
                  g.ready.bounded,
                );
              })
              (record {
                opens = ap os.opens_log g.at_path ∙ works.opens;
                tells = works.tells;
                takes = works.takes _;
              }),
          refl,
          refl,
        )
  ]

  abbrev call_flush : System → ℕ → System
  call_flush m d = record m { place = update m.place d (wants_buffer flush_sync) }

  -- One call of `mtaf_log_appender_flush_sync` while all threads are outside.
  record Flushed (m : System) (d : ℕ) : Type 0 where
    after : System
    continues : Continues os n 7 (call_flush m d) after []
    reached : Reachable os n Flushes sh after ts
    idle : (i : ℕ) → after.place i ≡ outside
    nothing : pending after.shared ≡ []
    shut : after.shared.appender.logfile ≡ none

  flush_once :
      (m : System) (d : ℕ)
      → Reachable os n Flushes sh m ts
      → ((i : ℕ) → m.place i ≡ outside)
      → d < n
      → Flushes d
      → Flushed m d
  unfolding texts_of
  flush_once m d r idle lt fl =
      let g = (IsSafe-at os n Flushes path size max sh works h b f ts fit m r).healthy in
      let shared : m.shared ≡ free (m.shared.appender, m.shared.world) = free_here m r idle in
      let (v, e, nothing, shut) =
        drains m g (g.no_stream (ap (λ (s : Shared). s.file_mutex.holder) shared)) in
      let here : wants_buffer flush_sync ≡ (call_flush m d).place d =
        sym (update_here m.place d (wants_buffer flush_sync)) in
      let called : Reachable os n Flushes sh (call_flush m d) ts =
        subst (Reachable os n Flushes sh (call_flush m d)) (append-nil ts)
          (stepped r (flushes d lt (idle d) fl (ap is_async g.mode))) in
      let ran =
        run-Ran os n Flushes path size max sh works h b f ts fit 7 (call_flush m d) d (free v)
          outside called lt (ap wanted (sym here))
          (ap₂ (run 7 os d) shared (sym here)
            ∙ run-drain os d m.shared.appender m.shared.world g.log false g.log_here
            ∙ ap done e) in
      record {
        after = ran.after;
        continues = ran.continues;
        reached =
            subst (Reachable os n Flushes sh ran.after) (append-nil ts)
              (Reachable-Continues called ran.continues);
        idle = λ i. elim (Bool-cases (i == d)) [
          | inl same ↦ let e : i ≡ d = ground (arith, same) in ap ran.after.place e ∙ ran.place
          | inr apart ↦
              let other : i ≢ d = λ e. differs i d apart e in
              ran.others i other ∙ update_other m.place d (wants_buffer flush_sync) i other ∙ idle i
        ];
        nothing = ap pending ran.shared ∙ nothing;
        shut = ap (λ (s : Shared). s.appender.logfile) ran.shared ∙ shut;
      }
    where
      differs : (i d : ℕ) → (i == d) ≡ false → i ≢ d
      differs i d h e = ground arith

-- Any threads append to one appender, flush it in both ways, and turn its console output on and
-- off, each text with or without a log info of a known level and a tag of less than 952 bytes, in
-- any interleaving of their parts; at first it is open in the asynchronous mode, with free
-- mutexes, no stream, a block of less than 2 ^ 29 bytes, a ready log buffer whose text begins with
-- no zero byte, and appenders beside it that have their buffers; the system always works. From
-- every state that they reach, as long as the text pending at first and the lines appended stay
-- together below four fifths of the block and fit into the log buffer, also with all lines that
-- are still to be appended: at most seven parts for each thread, and no new call, bring all calls
-- to their end; the texts appended on the way are, up to order, those that were wanted. If one
-- thread then calls `mtaf_log_appender_flush_sync`, seven more parts end that call too, and
-- everything is stored: the log file has grown by chunks that are, up to order, chunks that make
-- up the text pending at first and the lines of all texts appended, and no stream is open that
-- could hold any of it back.
pub Reachable-stored :
    (os : Os) (n : ℕ) (Flushes : ℕ → Type 0) (path : Bytes) (size max : ℕ) (sh : Shared)
    (s : System) (ts : List Entry) (d : ℕ)
    → AlwaysWorks os path
    → IsHealthy path size max sh
    → sh.buffer_mutex.holder ≡ none
    → sh.file_mutex.holder ≡ none
    → Reachable os n Flushes sh s ts
    → HaveRoom os.zone n size max sh s ts
    → d < n
    → Flushes d
    → (m : System) × (t : System) × (us : List Entry) × (k : ℕ) × Continues os n k s m us
      × (k ≤ 7 * n)
      × ((i : ℕ) → m.place i ≡ outside)
      × Continues os n 7 (record m { place = update m.place d (wants_buffer flush_sync) }) t []
      × ((i : ℕ) → t.place i ≡ outside)
      × Perm us (all_of wanted n s.place)
      × (taken : List Bytes) × (stored : List Bytes) × (t.shared.world.files
          ≡ appended_file sh.world.files path (flatten stored))
      × Perm taken stored
      × (flatten taken ≡ pending sh ++ lines os.zone (ts ++ us))
      × (t.shared.appender.logfile ≡ none)
Reachable-stored os n Flushes path size max sh s ts d works h b f r room lt fl =
    let (m, us, k, c, bound, idle, all, fit) =
      finish os n Flushes path size max sh works h b f (total rank n s.place) s ts r room
        (omega arith) in
    let last =
      flush_once os n Flushes path size max sh works h b f (ts ++ us) fit m d
        (Reachable-Continues r c) idle lt fl in
    let safe =
      IsSafe-at os n Flushes path size max sh works h b f (ts ++ us) fit last.after last.reached in
    (
      m,
      last.after,
      us,
      k,
      c,
      omega (arith, bound, total-bound rank n s.place 7 rank_bound),
      idle,
      last.continues,
      last.idle,
      all,
      safe.taken,
      safe.stored,
      safe.files,
      subst (Perm safe.taken)
          (ap (λ xs. safe.stored ++ xs)
              (all_of-none chunk n last.after.place (λ j lt'. ap chunk (last.idle j)))
            ∙ append-nil safe.stored)
          safe.order,
      sym (ap (λ xs. flatten safe.taken ++ xs) last.nothing ∙ append-nil (flatten safe.taken))
          ∙ safe.accounted,
      last.shut,
    )
