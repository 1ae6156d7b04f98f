-- ===== src/Proc.antt =====
-- modules/proc: the processor core and the modules that run processes for it.
pub mod Process
pub mod Worker
pub mod Serial
pub mod Core
pub mod Detached
pub mod Spread
pub mod Samples
mod Tests
mod MonitorTests
mod SerialTests
mod DetachedTests
mod SharingTests
