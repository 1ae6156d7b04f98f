-- ===== src/Proc/Worker.antt =====
-- modules/proc/worker: processes are spread over a pool of threads.
pub mod Pool
pub mod Threads
pub mod Matching
pub mod Turns
pub mod Limits
pub mod Monitor
pub mod Wakeup
pub mod Progress
pub mod Sharing
pub mod Exclusion
