-- ===== src/Debug.antt =====
-- modules/debug: the debugger core, the process that it forks, and the module that traces.
pub mod Pipe
pub mod Core
pub mod Ends
pub mod Started
mod Tests
