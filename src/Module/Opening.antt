-- ===== src/Module/Opening.antt =====
-- module_init() (src/module.c).
use rattle.Base.{ℕ, Bool, List, Option, none, some, Status, fail, ok, if◌then◌else◌}
use rattle.Table.Update.{Alloc}
use rattle.Args.Words.{Str}
use rattle.Args.Sections.{SysArg, Memory}
use rattle.Args.Register.{args_register}
use rattle.Conf.Decls.{Libconfig, DeclMemory}
use rattle.Conf.Parse.{conf_parse, conf_release}
use rattle.Module.Registry.{
  Entry, Registry, Constants, create_module_table, create_core_table, destroy_module_table,
}
use rattle.Module.Register.{module_fini}

-- What module_init() answers: it may ask the program to stop.
pub data Init : Type 0 where
  init_fail init_ok init_stop : Init

-- What module_init() finds: its options and the label of its configuration, the configuration,
-- whether the user asks for the list of modules once the options are bound, and the memory.
pub record Setting (S : Type 0) : Type 0 where
  pub options : List SysArg
  pub conf_name : Option Str
  pub lib : Libconfig S
  pub beyond : List ℕ
  pub junk : Status
  pub show_modules : Bool
  pub args_memory : Memory
  pub conf_memory : ℕ → DeclMemory
  pub modtab_memory : Alloc Entry
  pub cortab_memory : Alloc (Option Str)

-- The tables of module_init(), and what is undone when one of them cannot be made.
unfoldable pub create_tables :
    Constants → Registry → Alloc Entry → Alloc (Option Str) → Status × Registry
create_tables k r a b =
    let (s, r1) = create_module_table k r a in
    let (s', r2) = create_core_table k r1 b in
    let torn = destroy_module_table r2 in
    elim s [
      | fail ↦ (fail, record r1 { config = (conf_release r1.config).0 })
      | ok ↦ elim s' [
        | fail ↦ (fail, record torn { config = (conf_release torn.config).0 })
        | ok ↦ (ok, r2)
      ]
    ]

-- Loading shared objects registers nothing: what would look up their modules is commented out.
-- `none` is a read through a NULL pointer while the modules are unloaded.
unfoldable pub module_init :
    {S : Type 0} → Constants → Registry → Setting S → Option (Init × Registry)
module_init k r set =
    let (s, sections, _) =
      args_register r.sections k.args_section none (some set.options) set.args_memory in
    let r1 = record r { sections = sections } in
    let (s', decls, _) =
      conf_parse set.lib set.beyond set.conf_memory set.junk set.conf_name r.config in
    let r2 = record r1 { config = decls } in
    let (s'', r3) = create_tables k r2 set.modtab_memory set.cortab_memory in
    let closed : Option (Init × Registry) = elim (module_fini k r3) [
      | none ↦ none
      | some (r4, _) ↦ some (init_stop, r4)
    ] in
    elim s [
      | fail ↦ some (init_fail, r1)
      | ok ↦ elim s' [
        | fail ↦ some (init_fail, r2)
        | ok ↦ elim s'' [
          | fail ↦ some (init_fail, r3)
          | ok ↦ if set.show_modules then closed else some (init_ok, r3)
        ]
      ]
    ]
