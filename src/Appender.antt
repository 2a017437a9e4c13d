-- ===== src/Appender.antt =====
-- loglib/mtaf_appender.cpp and .h: the appender.
pub mod State
pub mod LogFile
pub mod Tasks
pub mod Api
pub mod FileLaws
pub mod TaskLaws
pub mod LineLaws
pub mod AppendLaws
pub mod ApiLaws
pub mod CloseLaws
pub mod CloseRace
pub mod OpenLaws
pub mod HeapBlock
pub mod Session
pub mod Crash
pub mod Calls
pub mod SyncLaws
pub mod SharedLaws
pub mod Threads
