-- ===== src/Thread.antt =====
-- comm/mtaf_thread.h: the class `Thread` and the record that it shares with the thread it starts.
-- `State` has the record and the two counters, `Ops` the members of the class, `Routine` what runs in
-- the thread that is started.
pub mod State
pub mod Ops
pub mod Util
pub mod Routine
pub mod System
pub mod Count
pub mod Reach
pub mod Signal
pub mod Delay
