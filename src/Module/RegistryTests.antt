-- ===== src/Module/RegistryTests.antt =====
-- A registry at which the theorems apply.
use rattle.Base.{true, false, [], none, some, ok}
use rattle.Table.State.{zeroed}
use rattle.Table.Update.{Alloc}
use rattle.Args.Sections.{no_sections, blank_entry}
use rattle.Module.Attach.{no_hook}
use rattle.Module.Registry.{Entry, no_entry, Registry, Constants, CoreMemory}
use rattle.Module.Register.{RegisterMemory}
use rattle.Module.Restored.{Restored}
use rattle.Table.Create.{created}

abbrev memory : {A : Type 0} → A → Alloc A
memory blank = record {
  head_ok = true;
  head_moved = false;
  mask_ok = true;
  junk = blank;
  junk_byte = λ i. 0;
}

-- No module is listed yet.
abbrev registry : Registry
registry = record {
  modtab = created no_entry 4 104 0;
  cortab = zeroed;
  cores = [];
  sections = no_sections;
  config = [];
}

abbrev constants : Constants
constants = record {
  module_version = 0;
  core_version = 0;
  args_section = 1;
  modtab_size = 4;
  cortab_size = 4;
  hooks_size = 4;
  entry_size = 104;
}

-- A module with a constructor that succeeds and a destructor, which says that it is a core but has
-- none: it is listed and has to leave the table again.
abbrev entry : Entry
entry = record no_entry { is_core = true; constructor = some ok; destructor = true }

abbrev core_memory : CoreMemory
core_memory = record { hooks = memory no_hook; cores = memory none }

abbrev register_memory : RegisterMemory
register_memory = record {
  args = record { creation = memory blank_entry; insertion = memory blank_entry };
  modules = memory no_entry;
  core = core_memory;
}
