-- ===== src/Table.antt =====
-- modules/data/array: the growing array of chunks with holes that every component keeps its state in.
pub mod Mask
pub mod State
pub mod Walk
pub mod Update
pub mod Valid
pub mod Cursor
pub mod Back
pub mod Ends
pub mod Gap
pub mod Find
pub mod Append
pub mod Holes
pub mod Reuse
pub mod Write
pub mod Unresolved
pub mod Refused
pub mod Delete
pub mod Emptied
pub mod Answer
pub mod Callbacks
pub mod Sizes
pub mod NewMask
pub mod Room
pub mod Filling
pub mod Samples
mod Tests
mod FillingTests
pub mod Grow
pub mod Create
