-- ===== src/Args.antt =====
-- modules/args: the command line, kept as one table of entries for each section, and what the
-- program's parts register to read from it.
pub mod Words
pub mod Sections
pub mod Parse
pub mod Register
pub mod Grammar
pub mod Binding
pub mod Merging
mod Tests
