-- ===== src/Debug/Tests.antt =====
-- A debugger that starts with one module, and the theorems at it.
use rattle.Base.{
  ℕ, ◌≡◌, ◌≢◌, refl, Bool, true, false, ◌||◌, List, [], ◌∷◌, Option, none, some, Status, fail, ok,
  ◌==◌, if◌then◌else◌, arith,
}
use rattle.Table.State.{Table, zeroed, exists, set_constrains, isempty}
use rattle.Table.Update.{Alloc, create}
use rattle.Args.Sections.{no_sections}
use rattle.Conf.Numbers.{pos, negsuc}
use rattle.Conf.Values.{Value, text}
use rattle.Conf.Decls.{Libconfig, other_kind, Decl, DeclMemory}
use rattle.Module.Attach.{Hook, no_hook, Around}
use rattle.Module.Registry.{
  Registry, Constants, CoreMemory, Entry, no_entry, no_core, no_module, create_core_table,
  create_module_table,
}
use rattle.Module.Listed.{create_core_table-Open}
use rattle.Debug.Pipe.{Pipe, destroy_pipe, create_pipe, fork_process, debug_write}
use rattle.Debug.Core.{
  debug_name, backtrace, debug_conf, Debugger, Host, started, Ended, ended, null_pointer,
  module_names, attach_modules, debug_init, debug_fini,
}
use rattle.Debug.Ends.{is_open, forked, forked-ends, destroy_pipe-leak}
use rattle.Debug.Started.{
  configured, listed, ready, with_pipe, debug_init-attached, debug_init-debug_fini,
}

abbrev memory : {A : Type 0} → A → Alloc A
memory blank = record {
  head_ok = true;
  head_moved = false;
  mask_ok = true;
  junk = blank;
  junk_byte = λ i. 0;
}

abbrev empty_file : Libconfig ℕ
empty_file = record {
  lookup = λ path. none;
  is_array = λ s. false;
  setting_length = λ s. 0;
  get_elem = λ s i. none;
  kind = λ s. other_kind;
  get_string = λ s. none;
  get_int = λ s. pos 0;
}

abbrev decl_memory : DeclMemory
decl_memory = record {
  creation = memory (text none);
  grant = λ i. record { slot = memory (text none); copied = true };
}

abbrev around : Around ℕ
around = record {
  lib = empty_file;
  beyond = [];
  memory = λ i. decl_memory;
  junk = fail;
  hook_ok = true;
  insertion = memory no_hook;
}

-- The descriptors 3 and 4 are the pipe.
abbrev host : Host ℕ
host = record {
  enabled = true;
  lib = empty_file;
  beyond = [];
  memory = λ i. decl_memory;
  junk = fail;
  core_memory = record { hooks = memory no_hook; cores = memory none };
  around = λ i. around;
  pipe = some (3, 4);
  fork = pos 77;
}

abbrev constants : Constants
constants = record {
  module_version = 0;
  core_version = 0;
  args_section = 1;
  modtab_size = 4;
  cortab_size = 4;
  hooks_size = 4;
  entry_size = 104;
}

-- "debug_backtrace"
abbrev trace_module : Entry
trace_module = record no_entry {
  about = record no_module {
    name = 100 ∷ 101 ∷ 98 ∷ 117 ∷ 103 ∷ 95 ∷ backtrace;
    attach = some (ok, 1);
    hook_size = 8;
  };
}

abbrev modules : Table Entry
modules = record zeroed {
  head = trace_module ∷ no_entry ∷ [];
  size = 2;
  chunk_size = 104;
  chunk_count = 1;
  frag_mask = 0 ∷ [];
  flags = 1;
}

abbrev without_cores : Registry
without_cores = record {
  modtab = modules;
  cortab = zeroed;
  cores = record no_core { name = debug_name; ver_major = 1; hook_size = 8 } ∷ [];
  sections = no_sections;
  config = [];
}

abbrev registry : Registry
registry = (create_core_table constants without_cores (memory none)).1

abbrev pipe : Pipe
pipe = record {
  words = negsuc 0 ∷ pos 0 ∷ pos 0 ∷ [];
  is_child = false;
  child = pos 0;
  files = 0 ∷ 1 ∷ 2 ∷ [];
}

abbrev debugger : Debugger
debugger = record { registry = registry; config = debug_conf zeroed; pipe = pipe; waited = [] }

abbrev result : Ended
result = debug_init constants host debugger

forked-ends_example :
    let (s, child) = forked 3 4 (pos 0) pipe in
    let (s', parent) = forked 3 4 (pos 77) pipe in
    ((n : ℕ) → is_open n child.files ≡ (3 == n || is_open n pipe.files))
    × ((n : ℕ) → is_open n parent.files ≡ (4 == n || is_open n pipe.files))
    × (child.words ≡ negsuc 0 ∷ pos 3 ∷ negsuc 0 ∷ [])
    × (parent.words ≡ negsuc 0 ∷ negsuc 0 ∷ pos 4 ∷ [])
    × (parent.child ≡ pos 77)
    × (debug_write child ≡ fail)
    × (debug_write parent ≡ ok)
forked-ends_example =
    forked-ends pipe 3 4 (negsuc 0) (pos 0) (pos 0) 76 refl (omega arith) refl refl refl

destroy_pipe-leak_example :
    let (s, p) = forked 3 4 (negsuc 0) pipe in
    (s ≡ fail)
    × ((n : ℕ)
        → is_open n (destroy_pipe p).files
          ≡ (if n == 4 then true else if n == 3 || false then false else is_open n pipe.files))
destroy_pipe-leak_example =
    destroy_pipe-leak pipe 3 4 (negsuc 0) (pos 0) (pos 0) 0 refl (omega arith) refl

abbrev registry_of : Option Registry → Registry
registry_of none = registry
registry_of (some r) = r

-- The registry with the module attached to the debugger core.
abbrev attached : Registry
attached = registry_of (
    attach_modules host.around (module_names (configured constants host debugger).1)
      (listed constants host debugger).1)

abbrev debugger_of : Ended → Debugger
debugger_of (ended s d) = d
debugger_of null_pointer = debugger

result_started : result ≡ ended started (debugger_of result)
unfolding debug_init rattle.Debug.Core.load_modules rattle.Debug.Core.open_pipe create_pipe
    fork_process rattle.Conf.Parse.conf_parse rattle.Conf.Parse.parse_decls
    rattle.Conf.Parse.decl_step rattle.Conf.Decls.decl_use_default_value
    rattle.Conf.Decls.create_storage rattle.Conf.Values.list_create rattle.Conf.Values.element_size
    create exists rattle.Conf.Decls.set_defaults rattle.Conf.Values.set_value
    rattle.Conf.Values.set_storage rattle.Table.Update.get_tail_next isempty
    rattle.Table.Update.take_tail_next rattle.Conf.Values.store
    rattle.Module.Registry.module_core_attach create_core_table rattle.Table.Update.insert
    rattle.Table.Update.write_chunk rattle.Table.Walk.satisfy_constrains set_constrains
    rattle.Table.Walk.table_search rattle.Table.State.current rattle.Table.Walk.search_from
    rattle.Table.Walk.first_next rattle.Table.State.first rattle.Table.Walk.next
    rattle.Table.Update.get_frag_first rattle.Table.State.fragmented attach_modules module_names
    rattle.Table.Walk.foreach rattle.Table.Walk.visit rattle.Table.Walk.next_from
    rattle.Module.Registry.ratt_module_attach rattle.Module.Registry.attach_module_name
    rattle.Module.Names.full_name rattle.Module.Names.cut rattle.Module.Registry.compare_module_name
    rattle.Module.Attach.attach_module rattle.Module.Attach.attachable
    rattle.Module.Attach.configure rattle.Module.Attach.run_attach rattle.Module.Attach.hook_module
    rattle.Base.inc_size
result_started = refl

module_attaches :
    attach_modules host.around
      (module_names (configured constants host debugger).1)
      (listed constants host debugger).1
    ≡ some attached
unfolding rattle.Conf.Parse.conf_parse rattle.Conf.Parse.parse_decls rattle.Conf.Parse.decl_step
    rattle.Conf.Decls.decl_use_default_value rattle.Conf.Decls.create_storage
    rattle.Conf.Values.list_create rattle.Conf.Values.element_size create exists
    rattle.Conf.Decls.set_defaults rattle.Conf.Values.set_value rattle.Conf.Values.set_storage
    rattle.Table.Update.get_tail_next isempty rattle.Table.Update.take_tail_next
    rattle.Conf.Values.store rattle.Module.Registry.module_core_attach create_core_table
    rattle.Table.Update.insert rattle.Table.Update.write_chunk rattle.Table.Walk.satisfy_constrains
    set_constrains rattle.Table.Walk.table_search rattle.Table.State.current
    rattle.Table.Walk.search_from rattle.Table.Walk.first_next rattle.Table.State.first
    rattle.Table.Walk.next rattle.Table.Update.get_frag_first rattle.Table.State.fragmented
    attach_modules module_names rattle.Table.Walk.foreach rattle.Table.Walk.visit
    rattle.Table.Walk.next_from rattle.Module.Registry.ratt_module_attach
    rattle.Module.Registry.attach_module_name rattle.Module.Names.full_name rattle.Module.Names.cut
    rattle.Module.Registry.compare_module_name rattle.Module.Attach.attach_module
    rattle.Module.Attach.attachable rattle.Module.Attach.configure rattle.Module.Attach.run_attach
    rattle.Module.Attach.hook_module rattle.Base.inc_size
module_attaches = refl

was_parsed : (configured constants host debugger).0 ≡ ok
unfolding rattle.Conf.Parse.conf_parse rattle.Conf.Parse.parse_decls rattle.Conf.Parse.decl_step
    rattle.Conf.Decls.decl_use_default_value rattle.Conf.Decls.create_storage
    rattle.Conf.Values.list_create rattle.Conf.Values.element_size create exists
    rattle.Conf.Decls.set_defaults rattle.Conf.Values.set_value rattle.Conf.Values.set_storage
    rattle.Table.Update.get_tail_next isempty rattle.Table.Update.take_tail_next
    rattle.Conf.Values.store
was_parsed = refl

was_listed : (listed constants host debugger).0 ≡ ok
unfolding rattle.Table.Update.get_tail_next create exists isempty rattle.Table.Update.take_tail_next
    rattle.Module.Registry.module_core_attach create_core_table rattle.Table.Update.insert
    rattle.Table.Update.write_chunk rattle.Table.Walk.satisfy_constrains set_constrains
    rattle.Table.Walk.table_search rattle.Table.State.current rattle.Table.Walk.search_from
    rattle.Table.Walk.first_next rattle.Table.State.first rattle.Table.Walk.next
    rattle.Table.Update.get_frag_first rattle.Table.State.fragmented
was_listed = refl

is_created : (create_core_table constants without_cores (memory none)).0 ≡ ok
unfolding create_core_table create exists
is_created = refl

debug_init-attached_example : debug_init constants host debugger ≡ (
    if ready host attached
    then ended started (record debugger {
      registry = attached;
      config = (configured constants host debugger).1;
      pipe = with_pipe host pipe;
    })
    else null_pointer)
debug_init-attached_example =
    debug_init-attached constants host debugger attached
      (create_core_table-Open constants without_cores (memory none) is_created) refl was_parsed
      was_listed module_attaches

debug_init-debug_fini_example : debug_fini (debugger_of result) ≡ null_pointer
debug_init-debug_fini_example =
    debug_init-debug_fini constants host debugger (debugger_of result)
      (create_core_table-Open constants without_cores (memory none) is_created) result_started
