-- ===== src/Signal.antt =====
-- modules/signal: handlers stacked on signal numbers, and their dispatch.
pub mod Registry
pub mod Dispatch
pub mod Waiting
mod Tests
