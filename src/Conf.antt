-- ===== src/Conf.antt =====
-- modules/conf: declarations of configuration values, filled from a configuration file or from
-- their defaults.
pub mod Numbers
pub mod Values
pub mod Decls
pub mod Parse
pub mod Bounds
pub mod Paths
pub mod Faults
pub mod Release
pub mod Init
mod Tests
