-- ===== src/Module.antt =====
-- src/module.c: the modules and their cores, registered, attached and detached.
pub mod Names
pub mod Attach
pub mod Registry
pub mod Register
pub mod Opening
pub mod Balance
pub mod Restored
pub mod Undo
pub mod Cores
pub mod Listed
pub mod Listing
pub mod Sorted
pub mod Prefix
mod Tests
mod RegistryTests
mod ListingTests
