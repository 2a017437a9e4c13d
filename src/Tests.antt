-- ===== src/Tests.antt =====
-- The development run on concrete inputs: a module for each part of the program.
mod Pointer
mod Growing
mod Mixed
mod Refusing
mod Pending
mod Lines
mod Samples
mod Clocks
mod Files
mod Schedules
mod Interleaved
mod Threads
