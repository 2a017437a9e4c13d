-- ===== src/Time.antt =====
-- comm/mtaf_time_utils.c: the clocks. What the system's clocks read is given. Times are in
-- milliseconds, in 64-bit words.
pub mod Laws
use mtappender_file.Prelude.{
  ℕ, ◌+◌, ◌-◌, ◌*◌, ◌/◌, ◌%◌, ◌^◌, Bool, true, false, Option, none, some, ltb, ◌==◌, if◌then◌else◌,
}

-- `struct timespec`, and `struct timeval` with microseconds.
pub record TimeSpec : Type 0 where
  pub sec : ℕ
  pub nsec : ℕ

pub record TimeVal : Type 0 where
  pub sec : ℕ
  pub usec : ℕ

abbrev pub millis_of : TimeSpec → ℕ
millis_of ts = (ts.sec * 1000 + ts.nsec / 1000000) % 2 ^ 64

-- `mtaf_timeMs`.
abbrev pub time_ms : TimeVal → ℕ
time_ms tv = (tv.sec * 1000 + tv.usec / 1000) % 2 ^ 64

-- `mach_timebase_info_data_t`: a tick has `numer / denom` nanoseconds.
pub record Timebase : Type 0 where
  pub numer : ℕ
  pub denom : ℕ

-- `mtaf_gettickcount` for __APPLE__, on its static timebase, what `mach_timebase_info` gives, and
-- the ticks that `mach_absolute_time` reads: the timebase that it leaves, and the time. The divisor
-- is a 32-bit product; a division by zero is `none`.
pub mach_timebase : Timebase → Timebase → Timebase
mach_timebase known info = if known.denom == 0 then info else known

pub mach_millis : Timebase → ℕ → Option ℕ
mach_millis b ticks =
    let divisor = b.denom * 1000000 % 2 ^ 32 in
    if divisor == 0 then none else some (ticks * b.numer % 2 ^ 64 / divisor)

pub mach_tick_count : Timebase → Timebase → ℕ → Timebase × Option ℕ
unfolding mach_timebase mach_millis
mach_tick_count known info ticks =
    (mach_timebase known info, mach_millis (mach_timebase known info) ticks)

-- The statics of `mtaf_gettickcount` for ANDROID: -1 for `s_fd` is `none`.
pub record Alarm : Type 0 where
  pub fd : Option ℕ
  pub errcode : ℕ

-- What `open` gives: a descriptor, or `errno`.
pub data Opened : Type 0 where
  descriptor : ℕ → Opened
  error : ℕ → Opened

abbrev pub eacces : ℕ
eacces = 13

abbrev pub opened_alarm : Opened → Alarm → Alarm
opened_alarm (descriptor d) s = record s { fd = some d }
opened_alarm (error e) s = record s { errcode = e }

-- The first `if`: the device is opened unless it has been, or access has been denied once.
pub open_alarm : Alarm → Opened → Alarm
open_alarm s o = elim s.fd [
  | some d ↦ s
  | none ↦ if s.errcode == eacces then s else opened_alarm o s
]

-- `mtaf_gettickcount` for ANDROID: the time of the device, or of CLOCK_BOOTTIME where `ioctl` fails.
pub alarm_tick_count : Alarm → Opened → Option TimeSpec → TimeSpec → Alarm × ℕ
unfolding open_alarm
alarm_tick_count s o (some ts) boot = (open_alarm s o, millis_of ts)
alarm_tick_count s o none boot = (open_alarm s o, millis_of boot)

-- `mtaf_gettickspan`, with the time that `mtaf_gettickcount` reads. The `int64_t` is its 64-bit
-- pattern.
pub tick_span : ℕ → ℕ → ℕ
tick_span old cur = if ltb cur old then 0 else cur - old
