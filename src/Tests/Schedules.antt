-- ===== src/Tests/Schedules.antt =====
-- Two threads over the appender of 40 bytes, step by step.
use mtappender_file.Prelude.{
  ℕ, ◌≡◌, refl, arith, true, inr, total, Bool-cases, inl, ◌==◌, none, some, [], ◌∷◌, ◌++◌, Bytes,
  update, replicate, memset, memcpy, load, strnlen,
}
use mtappender_file.PtrBuffer
use mtappender_file.AutoBuffer
use mtappender_file.AutoBuffer.{AutoBuffer}
use mtappender_file.LogBuffer
use mtappender_file.LogBuffer.{LogBuffer}
use mtappender_file.LogBuffer.Append.{cleared}
use mtappender_file.Sync.Lock.{enter, leave, unlock}
use mtappender_file.Sync.Mutex
use mtappender_file.Appender.State.{Entry, zero_array, World}
use mtappender_file.Appender.LogFile.{log_path}
use mtappender_file.Appender.Tasks.{append_pending, choose_line, notify, wakes_shared}
use mtappender_file.Formatter as F
use mtappender_file.Appender.Threads.{
  Shared, append, task, flush_sync, Place, outside, wants_buffer, appending, flushing, filled,
  wants_file, act, take_buffer, entered, filled_place, System, appends, tasks, flushes, acts,
  Reachable, begins, stepped, texts_of,
}
use mtappender_file.Appender.Threads.Fits.{plain, IsHealthy, AlwaysWorks}
use mtappender_file.Appender.Threads.Alone.{free}
use mtappender_file.Appender.Threads.Accounts.{AllFit}
use mtappender_file.Appender.Threads.{appended}
use mtappender_file.Appender.Threads.Finish.{HaveRoom}
use mtappender_file.Tests.Samples.{
  appender-IsOpenAsync, appender-IsMapped, os-Grants, os-Works, mapped, os, appender, world,
  pending-IsReady, src, dir,
}
use mtappender_file.Tests.Samples

-- The text that is appended.
abbrev pub entry : Entry
entry = record { info = none; body = src }

abbrev pub path : Bytes
path = log_path appender appender.logdir

abbrev pub shared : Shared
shared = free (appender, world)

pub shared-IsHealthy : IsHealthy path 40 40 shared
shared-IsHealthy = record {
  open_at = record {
    live = refl;
    mode = refl;
    named = refl;
    at_path = refl;
    block = refl;
    small = omega arith;
  };
  has_log = record {
    log = Samples.pending;
    log_here = refl;
    ready = pending-IsReady;
    max_len = refl;
    starts = inr (λ e. absurd (omega (arith, e)));
  };
  buffer_mutex = refl;
  file_mutex = refl;
  no_stream = λ e. refl;
  peers = tt;
}

pub os-AlwaysWorks : AlwaysWorks os path
os-AlwaysWorks = record { opens = refl; tells = refl; takes = λ n. omega arith; grants = λ n. refl }

-- Thread 0 has the pending text, thread 1 wants to append one.
abbrev fetched : AutoBuffer
fetched = record {
  unit = 128;
  capacity = 128;
  len = 2;
  pos = 2;
  parray = some (104 ∷ 105 ∷ replicate 126 0);
}

abbrev called : System
called = record { shared = shared; place = update (λ _. outside) 0 (wants_buffer task) }

abbrev inside : System
inside = record {
  shared = record shared { buffer_mutex = plain (some 0) };
  place = update called.place 0 (flushing true Samples.pending);
}

abbrev both : System
both = record inside { place = update inside.place 1 (wants_buffer (append entry)) }

abbrev left : LogBuffer
left = cleared Samples.pending

-- What thread 0 has taken is on its way, and thread 1 waits for the buffer.
abbrev pub away : System
away = record {
  shared = record shared {
    appender = record appender { log_buff = some left };
    buffer_mutex = plain none;
  };
  place = update both.place 0 (filled fetched);
}

pub away-Reachable : Reachable os 2 (λ i. i ≡ 0) shared away []
unfolding texts_of act take_buffer entered enter leave unlock Mutex.lock Mutex.unlock
    LogBuffer.flush LogBuffer.clear memset memcpy load strnlen AutoBuffer.write AutoBuffer.write_at
    AutoBuffer.fit_size AutoBuffer.grown AutoBuffer.seek AutoBuffer.set_length PtrBuffer.set_length
    PtrBuffer.seek
away-Reachable =
    stepped
      (stepped
        (stepped (stepped begins (tasks 0 (omega arith) refl refl (λ e. cc e)))
          (acts 0 inside.shared (flushing true Samples.pending) (omega arith) refl))
        (appends 1 entry (omega arith) refl refl refl ((λ e. absurd (omega (arith, e))), tt)))
      (acts 0 away.shared (filled fetched) (omega arith) refl)

-- The same threads later: thread 0 has "hi" in hand, thread 1 has appended "i" and flushed it.
abbrev line_block : LogBuffer
line_block = record {
  buff = record {
    parray = some (105 ∷ 10 ∷ 0 ∷ 0 ∷ 0 ∷ 13 ∷ replicate 34 7);
    pos = 2;
    len = 2;
    max_len = 40;
  };
}

abbrev line_fetched : AutoBuffer
line_fetched = record {
  unit = 128;
  capacity = 128;
  len = 2;
  pos = 2;
  parray = some (105 ∷ 10 ∷ replicate 126 0);
}

abbrev held_by : ℕ → LogBuffer → World → Shared
held_by i l w = record (free (record appender { log_buff = some l }, w)) {
  buffer_mutex = plain (some i);
}

abbrev left_with : LogBuffer → World → Shared
left_with l w = free (record appender { log_buff = some l }, w)

abbrev started : World
started = record world { shared_running = true }

abbrev step_to : System → ℕ → Shared → Place → System
step_to s i sh p = record { shared = sh; place = update s.place i p }

abbrev race0 : System
race0 = record { shared = shared; place = λ _. outside }

abbrev race1 : System
race1 = step_to race0 0 shared (wants_buffer task)

abbrev race2 : System
race2 = step_to race1 0 (held_by 0 Samples.pending world) (flushing true Samples.pending)

abbrev race3 : System
race3 = step_to race2 0 (left_with left world) (filled fetched)

abbrev race4 : System
race4 = step_to race3 0 (left_with left world) (wants_file (104 ∷ 105 ∷ []))

abbrev race5 : System
race5 = step_to race4 1 (left_with left world) (wants_buffer (append entry))

abbrev race6 : System
race6 = step_to race5 1 (held_by 1 left world) (appending true entry left)

abbrev race7 : System
race7 = step_to race6 1 (left_with line_block started) outside

abbrev race8 : System
race8 = step_to race7 1 (left_with line_block started) (wants_buffer flush_sync)

abbrev race9 : System
race9 = step_to race8 1 (held_by 1 line_block started) (flushing true line_block)

abbrev race10 : System
race10 = step_to race9 1 (left_with (cleared line_block) started) (filled line_fetched)

abbrev pub race11 : System
race11 = step_to race10 1 (left_with (cleared line_block) started) (wants_file (105 ∷ 10 ∷ []))

abbrev pub Everyone : ℕ → Type 0
Everyone i = Unit

race4-Reachable : Reachable os 2 Everyone shared race4 []
unfolding texts_of act take_buffer entered filled_place enter leave unlock Mutex.lock Mutex.unlock
    LogBuffer.flush LogBuffer.clear memset memcpy load strnlen AutoBuffer.write AutoBuffer.write_at
    AutoBuffer.fit_size AutoBuffer.grown AutoBuffer.seek AutoBuffer.set_length PtrBuffer.set_length
    PtrBuffer.seek
race4-Reachable =
    stepped
      (stepped
        (stepped (stepped begins (tasks 0 (omega arith) refl tt (λ e. cc e)))
          (acts 0 race2.shared (flushing true Samples.pending) (omega arith) refl))
        (acts 0 race3.shared (filled fetched) (omega arith) refl))
      (acts 0 race4.shared (wants_file (104 ∷ 105 ∷ [])) (omega arith) refl)

append_step : act os 1 race6.shared (appending true entry left) ≡ some (race7.shared, outside)
unfolding act append_pending leave unlock Mutex.unlock F.log_formater F.format_line F.put_header
    F.end_line F.show_nat zero_array choose_line notify wakes_shared LogBuffer.write
    LogBuffer.append LogBuffer.prepare LogBuffer.reset LogBuffer.clear PtrBuffer.write
    PtrBuffer.write_at PtrBuffer.seek PtrBuffer.set_length memcpy memset load
append_step = refl

race7-Reachable : Reachable os 2 Everyone shared race7 (entry ∷ [])
unfolding texts_of act take_buffer entered enter Mutex.lock
race7-Reachable =
    stepped
      (stepped
        (stepped race4-Reachable
          (appends 1 entry (omega arith) refl refl refl ((λ e. absurd (omega (arith, e))), tt)))
        (acts 1 race6.shared (appending true entry left) (omega arith) refl))
      (acts 1 race7.shared outside (omega arith) append_step)

pub race11-Reachable : Reachable os 2 Everyone shared race11 (entry ∷ [])
unfolding texts_of act take_buffer entered filled_place enter leave unlock Mutex.lock Mutex.unlock
    LogBuffer.flush LogBuffer.clear memset memcpy load strnlen AutoBuffer.write AutoBuffer.write_at
    AutoBuffer.fit_size AutoBuffer.grown AutoBuffer.seek AutoBuffer.set_length PtrBuffer.set_length
    PtrBuffer.seek
race11-Reachable =
    stepped
      (stepped
        (stepped (stepped race7-Reachable (flushes 1 (omega arith) refl tt refl))
          (acts 1 race9.shared (flushing true line_block) (omega arith) refl))
        (acts 1 race10.shared (filled line_fetched) (omega arith) refl))
      (acts 1 race11.shared (wants_file (105 ∷ 10 ∷ [])) (omega arith) refl)

pub one_text-AllFit : AllFit os.zone 40 40 shared (entry ∷ [])
one_text-AllFit = record { below = omega arith; in_block = omega arith }

pub race11-AllFit :
    (j : ℕ) → AllFit os.zone 40 40 shared ((entry ∷ []) ++ appended (race11.place j))
race11-AllFit j = elim (Bool-cases (j == 0)) [
  | inl zeroth ↦ elim (Bool-cases (j == 1)) [
    | inl first ↦ rw (zeroth, first) one_text-AllFit
    | inr other ↦ rw (zeroth, other) one_text-AllFit
  ]
  | inr later ↦ elim (Bool-cases (j == 1)) [
    | inl first ↦ rw (later, first) one_text-AllFit
    | inr other ↦ rw (later, other) one_text-AllFit
  ]
]

pub race11-HaveRoom : HaveRoom os.zone 2 40 40 shared race11 (entry ∷ [])
unfolding total
race11-HaveRoom = record { below = omega arith; in_block = omega arith }
