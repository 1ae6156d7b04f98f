-- ===== src/Module/Registry.antt =====
-- The tables of modules and of cores, and what enters them (src/module.c). A pointer to a core is
-- the name of the core, which is taken to differ from that of every other core of the program; NULL
-- is `none`.
use rattle.Base.{
  ℕ, Bool, false, List, [], ◌∷◌, ◌++◌, Option, none, some, Status, fail, ok, if◌then◌else◌, get_or,
  set,
}
use rattle.Table.State.{Table, zeroed, set_constrains, fl_no_realloc}
use rattle.Table.Walk.{foreach, foreach_end, table_search}
use rattle.Table.Update.{Alloc, create, destroy, insert, del_current}
use rattle.Args.Words.{Str, str_eq}
use rattle.Args.Sections.{SysArg, Sections}
use rattle.Conf.Decls.{Decl}
use rattle.Module.Names.{full_name}
use rattle.Module.Attach.{Hook, no_hook, Module, Core, Effect, Around, attach_module, detach_module}

-- ratt_module_entry_t, with what attaching it does not look at: the flag RATTMODFLCOR, the
-- arguments, what the constructor answers, and whether there is a destructor.
pub record Entry : Type 0 where
  pub about : Module
  pub is_core : Bool
  pub args : Option (List SysArg)
  pub constructor : Option Status
  pub destructor : Bool

abbrev pub no_module : Module
no_module = record {
  name = [];
  core = none;
  attach = none;
  detaches = false;
  hook_size = 0;
  config = none;
}

abbrev pub no_entry : Entry
no_entry = record {
  about = no_module;
  is_core = false;
  args = none;
  constructor = none;
  destructor = false;
}

abbrev pub no_core : Core
no_core = record {
  name = [];
  conf_label = none;
  ver_major = 0;
  lone = false;
  hook_size = 0;
  attach = none;
  detaches = false;
  hook_table = zeroed;
}

-- l_modtab, l_cortab, the core structures of the program, the sections of the arguments, and
-- l_conf.
pub record Registry : Type 0 where
  pub modtab : Table Entry
  pub cortab : Table (Option Str)
  pub cores : List Core
  pub sections : Sections
  pub config : List Decl

-- The constants of the build: RATT_MODULE_VERSION, MODULE_CORE_VERSION, MODULE_ARGSSEC_ID,
-- MODULE_MODTABSIZ, MODULE_CORTABSIZ, MODULE_CHKTABSIZ, and the size of ratt_module_entry_t.
pub record Constants : Type 0 where
  pub module_version : ℕ
  pub core_version : ℕ
  pub args_section : ℕ
  pub modtab_size : ℕ
  pub cortab_size : ℕ
  pub hooks_size : ℕ
  pub entry_size : ℕ

-- The core structure that has a name, and its replacement.
abbrev pub core_named : List Core → Str → Core
core_named [] name = no_core
core_named (c ∷ cs) name = if str_eq c.name name then c else core_named cs name

abbrev pub put_core : List Core → Core → List Core
put_core [] core = []
put_core (c ∷ cs) core = if str_eq c.name core.name then core ∷ cs else c ∷ put_core cs core

unfoldable pub compare_core_name : Option Str → Str → Bool
compare_core_name none name = false
compare_core_name (some core) name = str_eq core name

unfoldable pub constrains_on_core : Option Str → Option Str → Bool
constrains_on_core core none = false
constrains_on_core core (some find) = compare_core_name core find

-- In the program the name in a slot that a deletion has zeroed is NULL, which strcmp() reads; the
-- name of `no_entry` is empty.
unfoldable pub compare_module_name : Entry → Str → Bool
compare_module_name entry name = str_eq entry.about.name name

unfoldable pub constrains_on_module : Entry → Entry → Bool
constrains_on_module entry find = compare_module_name entry find.about.name

unfoldable pub create_module_table : Constants → Registry → Alloc Entry → Status × Registry
create_module_table k r a =
    let (s, t) = create no_entry r.modtab k.modtab_size k.entry_size 0 a in
    elim s [
      | fail ↦ (fail, record r { modtab = t })
      | ok ↦ (ok, record r { modtab = set_constrains t constrains_on_module })
    ]

unfoldable pub destroy_module_table : Registry → Registry
destroy_module_table r = record r { modtab = (destroy no_entry r.modtab).1 }

unfoldable pub create_core_table : Constants → Registry → Alloc (Option Str) → Status × Registry
create_core_table k r a =
    let (s, t) = create none r.cortab k.cortab_size 8 0 a in
    elim s [
      | fail ↦ (fail, record r { cortab = t })
      | ok ↦ (ok, record r { cortab = set_constrains t constrains_on_core })
    ]

unfoldable pub destroy_core_table : Registry → Registry
destroy_core_table r = record r { cortab = (destroy none r.cortab).1 }

abbrev pub search_module : Registry → Str → Status × Option ℕ × Table Entry
search_module r name = table_search no_entry r.modtab (λ entry. compare_module_name entry name)

abbrev pub search_core : Registry → Str → Status × Option ℕ × Table (Option Str)
search_core r name = table_search none r.cortab (λ core. compare_core_name core name)

-- The entry in a slot of the table of modules, and its replacement with the module's new state.
abbrev pub entry_at : Table Entry → ℕ → Entry
entry_at t p = get_or t.head p no_entry

abbrev pub put_about : Table Entry → ℕ → Module → Table Entry
put_about t p about = record t { head = set t.head p (record (entry_at t p) { about = about }) }

unfoldable pub attach_module_name :
    {S : Type 0} → Around S → Registry → Str → Str → Status × Registry × List Effect
attach_module_name around r core modname =
    let (found, match, t) = search_module r modname in
    elim match [
      | none ↦ (fail, record r { modtab = t }, [])
      | some p ↦
          let (s, core', about, es) =
            attach_module around (core_named r.cores core) (entry_at t p).about in
          (s, record r { modtab = put_about t p about; cores = put_core r.cores core' }, es)
    ]

unfoldable pub ratt_module_attach :
    {S : Type 0} → Around S → Registry → Str → Str → Status × Registry × List Effect
ratt_module_attach around r core modname = attach_module_name around r core (full_name core modname)

abbrev pub attached_to : Module → Str → Bool
attached_to about core = elim about.core [ none ↦ false | some name ↦ str_eq name core ]

-- The module in a slot is detached from a core if it is attached to it.
unfoldable pub detach_one : ℕ → Registry → Str → Registry × List Effect
detach_one p r core =
    let about = (entry_at r.modtab p).about in
    let (core', about', es) = detach_module (core_named r.cores core) about in
    let detached = record r {
      modtab = put_about r.modtab p about';
      cores = put_core r.cores core';
    } in
    if attached_to about core then (detached, es) else (r, [])

unfoldable pub detach_each : List ℕ → Registry → Str → Registry × List Effect
detach_each [] r core = (r, [])
detach_each (p ∷ ps) r core =
    let (r', es) = detach_one p r core in
    let (r'', more) = detach_each ps r' core in (r'', es ++ more)

-- How a call ends: it returns, or it reads through a pointer that is NULL.
pub data Outcome : Type 0 where
  returned : Status → Registry → List Effect → Outcome
  null_read : Outcome

-- The slot of the core is read again when it has been deleted.
unfoldable pub delete_core : Registry → ℕ → List Effect → Outcome
delete_core r p es =
    let t = (del_current none r.cortab).1 in
    elim (get_or t.head p none) [
      | none ↦ null_read
      | some core ↦
          let c = core_named r.cores core in
          let c' = record c { hook_table = (destroy no_hook c.hook_table).1 } in
          returned ok (record r { cortab = t; cores = put_core r.cores c' }) es
    ]

unfoldable pub module_core_detach : Registry → Str → Outcome
module_core_detach r corname =
    let (found, match, t) = search_core r corname in
    let r' = record r { cortab = t } in
    let (r'', es) = detach_each (foreach r.modtab) r' corname in
    let walked = record r'' { modtab = record r''.modtab { pos = foreach_end r.modtab } } in
    elim match [ none ↦ returned fail r' [] | some p ↦ delete_core walked p es ]

-- What the allocator answers to the hook table and to the table of cores.
pub record CoreMemory : Type 0 where
  pub hooks : Alloc Hook
  pub cores : Alloc (Option Str)

unfoldable pub module_core_attach : Constants → Registry → Str → CoreMemory → Status × Registry
module_core_attach k r core mem =
    let c = core_named r.cores core in
    let (made, hooks) =
      create no_hook c.hook_table (if c.lone then 1 else k.hooks_size) 8
        (if c.lone then fl_no_realloc else 0) mem.hooks in
    let with_hooks = put_core r.cores (record c { hook_table = hooks }) in
    let torn = put_core r.cores (record c { hook_table = (destroy no_hook hooks).1 }) in
    let (s, t) = insert none r.cortab (some core) mem.cores in
    elim made [
      | fail ↦ (fail, record r { cores = with_hooks })
      | ok ↦ elim s [
        | ok ↦ (ok, record r { cortab = t; cores = with_hooks })
        | fail ↦ (fail, record r { cortab = t; cores = torn })
      ]
    ]
