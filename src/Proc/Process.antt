-- ===== src/Proc/Process.antt =====
-- Processes as they are registered (modules/proc/include/proc.h). A process is a function pointer,
-- a number of which 0 is NULL; so are its user data and the lock of its attributes.
use rattle.Base.{ℕ, Bool, ◌&&◌, Option, none, ◌==◌}

-- ratt_proc_attr_t
pub record Attr : Type 0 where
  pub flags : ℕ
  pub lock : ℕ

-- RATTPROCFLSTC
abbrev pub fl_sticky : ℕ
fl_sticky = 2

-- What is registered: proc_register_t and proc_serial_register_t.
pub record Process : Type 0 where
  pub process : ℕ
  pub attr : Option Attr
  pub udata : ℕ

abbrev pub no_process : Process
no_process = record { process = 0; attr = none; udata = 0 }

-- memcmp() on two attributes says that they are equal.
abbrev pub same_attr : Attr → Attr → Bool
same_attr a b = a.flags == b.flags && a.lock == b.lock
