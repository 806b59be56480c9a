-- ===== src/Scheduler.antt =====
-- ddg/scheduler.h and ddg/scheduler.cc.
pub mod Queue
pub mod Scan
pub mod Run
pub mod Picking
pub mod Faults
pub mod Progress
pub mod Turns
pub mod Lifecycle
pub mod Stopping
pub mod Serving
pub mod Threads
