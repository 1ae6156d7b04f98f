-- ===== src/Coretab.antt =====
-- src/core.c: the table of cores, and the loop that starts the parts of the program.
pub mod Cores
pub mod Names
pub mod Startup
pub mod Order
mod Tests
