-- ===== src/Module/Register.antt =====
-- ratt_module_register(), ratt_module_unregister() and the opening and closing of the module
-- manager (src/module.c).
use rattle.Base.{
  ℕ, zero, suc, ◌+◌, Bool, true, false, not, List, [], ◌∷◌, ◌++◌, Option, none, some, Status, fail,
  ok, ◌==◌, ltb, if◌then◌else◌,
}
use rattle.Table.Walk.{first_next, next}
use rattle.Table.Update.{Alloc, insert, del_current}
use rattle.Args.Words.{Str}
use rattle.Args.Sections.{Memory}
use rattle.Args.Register.{args_register, args_unregister}
use rattle.Conf.Parse.{conf_release}
use rattle.Module.Attach.{Effect}
use rattle.Module.Registry.{
  Entry, no_entry, Registry, Constants, entry_at, search_module, core_named, Outcome, returned,
  null_read, module_core_detach, CoreMemory, module_core_attach, destroy_module_table,
  destroy_core_table,
}

-- What happens outside of the registry: constructor and destructor run.
pub data Event : Type 0 where
  built destroyed : Event

abbrev pub event_if : Bool → Event → List Event
event_if true e = e ∷ []
event_if false e = []

-- What the allocator answers during a registration.
pub record RegisterMemory : Type 0 where
  pub args : Memory
  pub modules : Alloc Entry
  pub core : CoreMemory

unfoldable pub module_register : Registry → Entry → Alloc Entry → Status × Registry
module_register r entry a =
    let (s, t) = insert no_entry r.modtab entry a in (s, record r { modtab = t })

unfoldable pub module_unregister : Registry → Str → Status × Registry
module_unregister r name =
    let (found, match, t) = search_module r name in
    elim found [
      | fail ↦ (fail, record r { modtab = t })
      | ok ↦ (ok, record r { modtab = (del_current no_entry t).1 })
    ]

-- A module that has no core makes the program stop in OOPS(); here the registration fails.
unfoldable pub module_core_register : Constants → Registry → Entry → CoreMemory → Status × Registry
module_core_register k r entry mem = elim entry.about.core [
  | none ↦ (fail, r)
  | some core ↦
      let attached = module_core_attach k r core mem in
      if ltb (core_named r.cores core).ver_major k.core_version then (fail, r) else attached
]

unfoldable pub module_core_unregister : Registry → Entry → Outcome
module_core_unregister r entry = elim entry.about.core [
  | none ↦ returned fail r []
  | some core ↦ module_core_detach r core
]

-- The arguments of a module, if it has any, enter and leave their section under its name; what
-- args_unregister() answers is not looked at.
unfoldable pub add_args : Constants → Registry → Entry → Memory → Status × Registry
add_args k r entry mem = elim entry.args [
  | none ↦ (ok, r)
  | some sysargs ↦
      let (s, sections, _) =
        args_register r.sections k.args_section (some entry.about.name) (some sysargs) mem in
      (s, record r { sections = sections })
]

unfoldable pub remove_args : Constants → Registry → Entry → Registry
remove_args k r entry = elim entry.args [
  | none ↦ r
  | some sysargs ↦
      let (s, sections) = args_unregister r.sections k.args_section (some entry.about.name) in
      record r { sections = sections }
]

-- The part of ratt_module_register() that lists the module, and undoes what came before.
unfoldable pub list_module :
    Constants → Registry → Entry → RegisterMemory → Status × Registry × List Event
list_module k r entry mem =
    let (s, r1) = module_register r entry mem.modules in
    let (c, r2) = module_core_register k r1 entry mem.core in
    let destroy = event_if entry.destructor destroyed in
    elim s [
      | fail ↦ (fail, remove_args k r1 entry, destroy)
      | ok ↦ if not entry.is_core then (ok, r1, []) else elim c [
        | ok ↦ (ok, r2, [])
        | fail ↦ (fail, remove_args k (module_unregister r2 entry.about.name).1 entry, destroy)
      ]
    ]

-- ratt_module_register() behind the constructor.
unfoldable pub register_built :
    Constants → Registry → Entry → RegisterMemory → Status × Registry × List Event
register_built k r entry mem =
    let (s, r') = add_args k r entry mem.args in
    let rest = list_module k r' entry mem in
    elim s [ fail ↦ (fail, r', event_if entry.destructor destroyed) | ok ↦ rest ]

-- An entry of `none` is a NULL pointer.
unfoldable pub ratt_module_register :
    Constants → Registry → Option Entry → ℕ → RegisterMemory → Status × Registry × List Event
ratt_module_register k r none version mem = (fail, r, [])
ratt_module_register k r (some entry) version mem =
    let (s, r', es) = register_built k r entry mem in
    if not (version == k.module_version) then (fail, r, []) else elim entry.constructor [
      | none ↦ (s, r', es)
      | some fail ↦ (fail, r, [])
      | some ok ↦ (s, r', built ∷ es)
    ]

-- A pointer to an entry: to the module's own structure, or to a slot of the table of modules.
pub data Pointer : Type 0 where
  own : Entry → Pointer
  slot : ℕ → Pointer

abbrev pub read_entry : Registry → Pointer → Entry
read_entry r (own entry) = entry
read_entry r (slot p) = entry_at r.modtab p

-- The end of ratt_module_unregister(), which reads the entry again when the module has left the
-- table.
unfoldable pub finish_unregister :
    Constants → Registry → Pointer → List Effect → Status × Registry × List Effect × List Event
finish_unregister k r pointer es =
    let (s, r') = module_unregister r (read_entry r pointer).about.name in
    let entry = read_entry r' pointer in
    elim s [
      | fail ↦ (fail, r', es, [])
      | ok ↦ (ok, remove_args k r' entry, es, event_if entry.destructor destroyed)
    ]

-- How ratt_module_unregister() ends.
pub data Unregistered : Type 0 where
  left : Status × Registry × List Effect × List Event → Unregistered
  null_pointer : Unregistered

unfoldable pub ratt_module_unregister : Constants → Registry → Pointer → Unregistered
ratt_module_unregister k r pointer =
    let entry = read_entry r pointer in
    if not entry.is_core
    then left (finish_unregister k r pointer [])
    else elim (module_core_unregister r entry) [
      | null_read ↦ null_pointer
      | returned fail r' es ↦ left (fail, r', es, [])
      | returned ok r' es ↦ left (finish_unregister k r' pointer es)
    ]

-- unload_modules(): every entry of the table, by the pointer to its slot.
unfoldable pub unload_from :
    ℕ → Constants → Option ℕ × Registry → List Event → Option (Registry × List Event)
unload_from zero k (c, r) es = some (r, es)
unload_from (suc n) k (none, r) es = some (r, es)
unload_from (suc n) k (some p, r) es = elim (ratt_module_unregister k r (slot p)) [
  | null_pointer ↦ none
  | left (s, r', _, more) ↦
      unload_from n k ((next r'.modtab).0, record r' { modtab = (next r'.modtab).1 }) (es ++ more)
]

unfoldable pub unload_modules : Constants → Registry → Option (Registry × List Event)
unload_modules k r =
    let (c, t) = first_next r.modtab in
    unload_from (r.modtab.last + 1) k (c, record r { modtab = t }) []

unfoldable pub module_fini : Constants → Registry → Option (Registry × List Event)
module_fini k r = elim (unload_modules k r) [
  | none ↦ none
  | some (r', es) ↦
      let closed = destroy_module_table (destroy_core_table r') in
      some (record closed { config = (conf_release r'.config).0 }, es)
]
