-- ===== src/Proc/Serial.antt =====
-- modules/proc/serial: processes run one after the other, in the thread that starts them.
pub mod Queue
pub mod Passes
pub mod Order
pub mod Removal
pub mod Drain
