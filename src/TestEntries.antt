-- ===== src/TestEntries.antt =====
-- modules/test/entry.c: the array of test names and its walks.
pub mod Entry
pub mod Categories
mod Tests
