-- ===== src/Appender/Threads/Finish.antt =====
-- loglib/mtaf_appender.cpp: how long the calls of several threads take.
use mtappender_file.Prelude.{
  ℕ, zero, suc, ◌+◌, ◌*◌, ◌/◌, ◌≤◌, ◌<◌, ◌≡◌, refl, ◌∙◌, sym, ap, arith, inl, inr, none, some, List,
  [], ◌++◌, append_assoc, append-nil, length, length-append, Bytes, update, all_of, all_of-update,
  all_of-none, all_of-update_same, total, total-update, total-member, total-some,
}
use mathlib.Core.Path.{subst, ap₂}
use mathlib.Core.List.{Perm}
use mathlib.Core.List.Perm
use native.Mathlib.Decide.{dec_lt}
use mtappender_file.Formatter.{Zone}
use mtappender_file.Appender.State.{Entry, Os}
use mtappender_file.Appender.Session.{lines}
use mtappender_file.Appender.Threads.{
  Shared, Place, outside, wants_buffer, appending, flushing, filled, wants_file, opening, writing,
  closing, System, act, acts, Continues, rests, goes_on, texts_of, Reachable, stepped, appended,
}
use mtappender_file.Appender.Threads.Fits.{IsHealthy, AlwaysWorks}
use mtappender_file.Appender.Threads.Flow.{pending, rank, wanted, Wants}
use mtappender_file.Appender.Threads.Order.{Perm-IsKept}
use mtappender_file.Appender.Threads.Accounts.{AllFit, lines-append}
use mtappender_file.Appender.Threads.Safe.{IsSafe, Reachable-IsSafe}
use mtappender_file.Appender.Threads.Progress.{some_runs}

-- The bytes that a thread is still to append.
abbrev pub load_of : Zone → Place → ℕ
load_of zone p = length (lines zone (wanted p))

-- There is room in the block for the texts that are appended and for those that are wanted.
pub record HaveRoom (zone : Zone) (n size max : ℕ) (sh₀ : Shared) (s : System) (ts : List Entry)
    : Type 0 where
  pub below :
      length (pending sh₀) + (length (lines zone ts) + total (load_of zone) n s.place)
      < size * 4 / 5
  pub in_block :
      length (pending sh₀) + (length (lines zone ts) + total (load_of zone) n s.place) ≤ max

module _ (zone : Zone) (n : ℕ) (f : ℕ → Place) (i : ℕ) (p : Place) (ts : List Entry)
    (lt : i < n) where
  -- A part neither adds a text to what is claimed nor takes one away.
  wants_same :
      Wants (f i) p → Perm (appended (f i) ++ all_of wanted n (update f i p)) (all_of wanted n f)
  wants_same (inl w) =
      subst (Perm _) (ap₂ (λ us vs. us ++ vs) w.0 (all_of-update_same wanted n f i p w.1))
        (Perm.refl _)
  wants_same (inr w) =
      subst (λ us. Perm (us ++ all_of wanted n (update f i p)) (all_of wanted n f)) w.0
        (subst
          (λ us. Perm (wanted (f i) ++ all_of wanted n (update f i p)) (us ++ all_of wanted n f))
          w.1 (all_of-update wanted n f i p lt))

  load_same :
      Wants (f i) p
      → length (lines zone (ts ++ appended (f i))) + total (load_of zone) n (update f i p)
        ≡ length (lines zone ts) + total (load_of zone) n f
  load_same w = elim w [
    | inl keeps ↦ omega (
      arith,
      sizes,
      total-update (load_of zone) n f i p lt,
      ap (λ us. length (lines zone us)) keeps.0,
      ap (λ us. length (lines zone us)) keeps.1,
    )
    | inr gives ↦ omega (
      arith,
      sizes,
      total-update (load_of zone) n f i p lt,
      ap (λ us. length (lines zone us)) gives.0,
      ap (λ us. length (lines zone us)) gives.1,
    )
  ]
    where
      sizes :
          length (lines zone (ts ++ appended (f i)))
          ≡ length (lines zone ts) + length (lines zone (appended (f i)))
      sizes =
          ap length (lines-append zone ts (appended (f i)))
          ∙ length-append (lines zone ts) (lines zone (appended (f i)))

rank_zero : (p : Place) → rank p ≤ 0 → p ≡ outside
rank_zero outside h = refl
rank_zero (wants_buffer job) h = absurd (omega arith)
rank_zero (appending _ t l) h = absurd (omega arith)
rank_zero (flushing _ l) h = absurd (omega arith)
rank_zero (filled tmp) h = absurd (omega arith)
rank_zero (wants_file src) h = absurd (omega arith)
rank_zero (opening _ src) h = absurd (omega arith)
rank_zero (writing _ src o) h = absurd (omega arith)
rank_zero (closing _ o k) h = absurd (omega arith)

pub rank_bound : (p : Place) → rank p ≤ 7
rank_bound outside = omega arith
rank_bound (wants_buffer job) = omega arith
rank_bound (appending _ t l) = omega arith
rank_bound (flushing _ l) = omega arith
rank_bound (filled tmp) = omega arith
rank_bound (wants_file src) = omega arith
rank_bound (opening _ src) = omega arith
rank_bound (writing _ src o) = omega arith
rank_bound (closing _ o k) = omega arith

appended_load : (zone : Zone) (p : Place) → length (lines zone (appended p)) ≤ load_of zone p
appended_load zone (appending _ t l) = omega arith
appended_load zone outside = omega arith
appended_load zone (wants_buffer job) = omega arith
appended_load zone (flushing _ l) = omega arith
appended_load zone (filled tmp) = omega arith
appended_load zone (wants_file src) = omega arith
appended_load zone (opening _ src) = omega arith
appended_load zone (writing _ src o) = omega arith
appended_load zone (closing _ o k) = omega arith

module _ (os : Os) (n : ℕ) (Flushes : ℕ → Type 0) (path : Bytes) (size max : ℕ) (sh : Shared)
    (works : AlwaysWorks os path) (h : IsHealthy path size max sh)
    (b : sh.buffer_mutex.holder ≡ none) (f : sh.file_mutex.holder ≡ none) where
  fit_all :
      (s : System) (ts : List Entry) (p : Place)
      → HaveRoom os.zone n size max sh s ts
      → length (lines os.zone (appended p)) ≤ total (load_of os.zone) n s.place
      → AllFit os.zone size max sh (ts ++ appended p)
  fit_all s ts p room le =
      let sizes : length (pending sh ++ lines os.zone (ts ++ appended p))
          ≡ length (pending sh)
            + (length (lines os.zone ts) + length (lines os.zone (appended p))) =
        length-append (pending sh) (lines os.zone (ts ++ appended p))
        ∙ ap (λ k. length (pending sh) + k)
            (ap length (lines-append os.zone ts (appended p))
              ∙ length-append (lines os.zone ts) (lines os.zone (appended p))) in
      record {
        below = omega (arith, sizes, le, room.below);
        in_block = omega (arith, sizes, le, room.in_block);
      }

  -- The end of all calls, and what is appended until then.
  abbrev pub Ends : System → List Entry → Type 0
  Ends s ts =
      (t : System) × (us : List Entry) × (k : ℕ) × Continues os n k s t us
      × (k ≤ total rank n s.place)
      × ((i : ℕ) → t.place i ≡ outside)
      × Perm us (all_of wanted n s.place)
      × AllFit os.zone size max sh (ts ++ us)

  module _ (s : System) (ts : List Entry) (r : Reachable os n Flushes sh s ts)
      (room : HaveRoom os.zone n size max sh s ts) where
    no_more : AllFit os.zone size max sh ts
    no_more =
        subst (AllFit os.zone size max sh) (append-nil ts) (fit_all s ts outside room (omega arith))

    safe : IsSafe os.zone path size max Flushes n Perm sh s ts
    safe =
        Reachable-IsSafe path size max Flushes os n Perm (Perm-IsKept n Flushes) works sh h b f s ts
          r no_more

    over : total rank n s.place ≤ 0 → Ends s ts
    over none_left = (
      s,
      [],
      0,
      rests s,
      omega arith,
      idle,
      subst (Perm []) (sym (all_of-none wanted n s.place (λ j lt. ap wanted (idle j))))
          (Perm.refl []),
      subst (AllFit os.zone size max sh) (sym (append-nil ts)) no_more,
    )
      where
        idle : (i : ℕ) → s.place i ≡ outside
        idle i = elim (dec_lt i n) [
          | yes lt ↦
              rank_zero (s.place i) (omega (arith, none_left, total-member rank n s.place i lt))
          | no ge ↦ safe.beyond i (omega arith)
        ]

    fits : (j : ℕ) → AllFit os.zone size max sh (ts ++ appended (s.place j))
    fits j = elim (dec_lt j n) [
      | yes lt ↦ fit_all s ts (s.place j) room (
          omega (
            arith,
            appended_load os.zone (s.place j),
            total-member (load_of os.zone) n s.place j lt,
          ))
      | no ge ↦
          subst (λ p. AllFit os.zone size max sh (ts ++ appended p))
            (sym (safe.beyond j (omega arith))) (fit_all s ts outside room (omega arith))
    ]

    -- One part brings the end nearer.
    nearer :
        0 < total rank n s.place
        → (k : ℕ) × (sh' : Shared) × (p' : Place) × (k < n)
          × (act os k s.shared (s.place k) ≡ some (sh', p'))
          × HaveRoom os.zone n size max sh
              (record { shared = sh'; place = update s.place k p' })
              (ts ++ appended (s.place k))
          × (total rank n (update s.place k p') < total rank n s.place)
          × Perm
              (appended (s.place k) ++ all_of wanted n (update s.place k p'))
              (all_of wanted n s.place)
    nearer busy =
        let (i, some_left) = total-some rank n s.place busy in
        let (k, runs) =
          some_runs os n Flushes path size max sh s ts works h b f r fits safe i
            (λ idle. absurd (omega (arith, some_left, ap rank idle))) in
        let (sh', p', lt, e, less, w) = runs in
        let loads : length (lines os.zone (ts ++ appended (s.place k)))
              + total (load_of os.zone) n (update s.place k p')
            ≡ length (lines os.zone ts) + total (load_of os.zone) n s.place =
          load_same os.zone n s.place k p' ts lt w in
        (
          k,
          sh',
          p',
          lt,
          e,
          record {
            below = omega (arith, loads, room.below);
            in_block = omega (arith, loads, room.in_block);
          },
          omega (arith, total-update rank n s.place k p' lt, less),
          wants_same os.zone n s.place k p' ts lt w,
        )

  pub finish :
      (fuel : ℕ) (s : System) (ts : List Entry)
      → Reachable os n Flushes sh s ts
      → HaveRoom os.zone n size max sh s ts
      → total rank n s.place ≤ fuel
      → Ends s ts
  unfolding texts_of
  finish zero s ts r room le = over s ts r room le
  finish (suc fuel) s ts r room le = elim (dec_lt 0 (total rank n s.place)) [
    | no idle ↦ over s ts r room (omega arith)
    | yes busy ↦
        let (k, sh', p', lt, e, room', less, same) = nearer s ts r room busy in
        let (v, us, m, c, bound, idle, all, fit) =
          finish fuel (record { shared = sh'; place = update s.place k p' })
            (ts ++ appended (s.place k)) (stepped r (acts k sh' p' lt e)) room' (omega arith) in
        (
          v,
          appended (s.place k) ++ us,
          suc m,
          goes_on k sh' p' lt e c,
          omega (arith, bound, less),
          idle,
          Perm.trans (Perm.append_left (appended (s.place k)) all) same,
          subst (AllFit os.zone size max sh) (append_assoc ts (appended (s.place k)) us) fit,
        )
  ]
