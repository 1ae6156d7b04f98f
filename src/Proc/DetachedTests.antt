-- ===== src/Proc/DetachedTests.antt =====
-- The processor core attached to a registry with one module.
use rattle.Base.{
  ℕ, ◌≡◌, refl, true, false, [], ◌∷◌, Option, none, some, fail, ok, if◌then◌else◌, get_or,
}
use rattle.Table.State.{Table, zeroed, exists, isempty}
use rattle.Table.Update.{Alloc, create}
use rattle.Args.Words.{Str}
use rattle.Args.Sections.{no_sections}
use rattle.Conf.Numbers.{pos}
use rattle.Conf.Values.{text}
use rattle.Conf.Decls.{other_kind}
use rattle.Module.Attach.{Hook, no_hook, Around}
use rattle.Module.Registry.{
  Registry, Constants, no_core, Entry, no_entry, no_module, CoreMemory, create_core_table,
}
use rattle.Module.Names.{full_name}
use rattle.Module.Listed.{create_core_table-Open}
use rattle.Proc.Core.{ProcHook, ProcCore, proc_name, ended, null_pointer, hooks_of, proc_attach}
use rattle.Proc.Detached.{core_listed, modules_attached, proc_attach-ends}

abbrev memory : {A : Type 0} → A → Alloc A
memory blank = record {
  head_ok = true;
  head_moved = false;
  mask_ok = true;
  junk = blank;
  junk_byte = λ i. 0;
}

abbrev around : Around ℕ
around = record {
  lib = record {
    lookup = λ path. none;
    is_array = λ s. false;
    setting_length = λ s. 0;
    get_elem = λ s i. none;
    kind = λ s. other_kind;
    get_string = λ s. none;
    get_int = λ s. pos 0;
  };
  beyond = [];
  memory = λ i. record {
    creation = memory (text none);
    grant = λ j. record { slot = memory (text none); copied = true };
  };
  junk = fail;
  hook_ok = true;
  insertion = memory no_hook;
}

abbrev constants : Constants
constants = record {
  module_version = 0;
  core_version = 0;
  args_section = 1;
  modtab_size = 4;
  cortab_size = 4;
  hooks_size = 4;
  entry_size = 104;
}

-- The module "serial" is configured.
abbrev serial : Str
serial = 115 ∷ 101 ∷ 114 ∷ 105 ∷ 97 ∷ 108 ∷ []

-- The module "proc_serial", which accepts to be attached.
abbrev serial_entry : Entry
serial_entry = record no_entry {
  about = record no_module {
    name = full_name proc_name serial;
    attach = some (ok, 0);
    hook_size = 32;
  };
}

abbrev without_cores : Registry
without_cores = record {
  modtab = record {
    head = serial_entry ∷ [];
    tail = 0;
    size = 1;
    pos = 0;
    last = 0;
    chunk_size = 104;
    chunk_count = 1;
    frag_count = 0;
    frag_mask = 0 ∷ [];
    flags = 1;
    constrains = none;
    on_constrains = none;
    dangling = false;
  };
  cortab = zeroed;
  cores = record no_core { name = proc_name; lone = true; hook_size = 32 } ∷ [];
  sections = no_sections;
  config = [];
}

abbrev core : ProcCore ℕ
core = record {
  registry = (create_core_table constants without_cores (memory none)).1;
  hook = none;
  inner = 0;
  config = [];
}

abbrev core_memory : CoreMemory
core_memory = record { hooks = memory no_hook; cores = memory none }

-- Behind the chunk of the module there are zeros.
abbrev nothing_behind : Table Hook → ℕ → Option (ProcHook ℕ)
nothing_behind hooks p = none

is_created : (create_core_table constants without_cores (memory none)).0 ≡ ok
unfolding create_core_table create exists
is_created = refl

was_listed :
    (core_listed constants core_memory (λ i. around) nothing_behind (serial ∷ []) core).0 ≡ ok
unfolding rattle.Table.Update.get_tail_next create exists isempty rattle.Table.Update.take_tail_next
    rattle.Module.Registry.module_core_attach create_core_table rattle.Table.Update.insert
    rattle.Table.Update.write_chunk rattle.Table.Walk.satisfy_constrains
    rattle.Table.State.set_constrains rattle.Table.Walk.table_search rattle.Table.State.current
    rattle.Table.Walk.search_from rattle.Table.Walk.first_next rattle.Table.State.first
    rattle.Table.Walk.next rattle.Table.Update.get_frag_first rattle.Table.State.fragmented
was_listed = refl

hook_is_there :
    isempty (
      hooks_of
        (modules_attached constants core_memory (λ i. around) nothing_behind (serial ∷ []) core))
    ≡ false
unfolding rattle.Proc.Core.attach_each rattle.Module.Registry.ratt_module_attach
    rattle.Module.Registry.attach_module_name rattle.Module.Registry.compare_module_name
    rattle.Module.Registry.module_core_attach rattle.Module.Registry.compare_core_name
    rattle.Module.Registry.constrains_on_core full_name rattle.Module.Attach.attach_module
    rattle.Module.Attach.attachable rattle.Module.Attach.configure rattle.Module.Attach.run_attach
    rattle.Module.Attach.hook_module create_core_table create exists isempty
    rattle.Table.Update.get_tail_next rattle.Table.Update.take_tail_next rattle.Table.Update.insert
    rattle.Table.Update.write_chunk rattle.Table.Update.get_frag_first
    rattle.Table.Walk.satisfy_constrains rattle.Table.Walk.table_search
    rattle.Table.Walk.search_from rattle.Table.Walk.first_next rattle.Table.Walk.next
    rattle.Table.State.set_constrains rattle.Table.State.current rattle.Table.State.first
    rattle.Table.State.fragmented rattle.Base.inc_size rattle.Module.Names.cut
hook_is_there = refl

proc_attach-ends_example :
    let attached =
      modules_attached constants core_memory (λ i. around) nothing_behind (serial ∷ []) core in
    proc_attach constants core_memory (λ i. around) nothing_behind (serial ∷ []) core ≡ (
      if isempty (hooks_of attached)
      then null_pointer
      else ended ok
          (record core { registry = attached; hook = nothing_behind (hooks_of attached) 0 }))
proc_attach-ends_example =
    proc_attach-ends constants core_memory (λ i. around) nothing_behind (serial ∷ []) core
      (create_core_table-Open constants without_cores (memory none) is_created) was_listed
