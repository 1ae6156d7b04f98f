-- ===== src/Module/Attach.antt =====
-- attach_module() and detach_module() (src/module.c).
use rattle.Base.{
  ℕ, Bool, true, false, not, ◌&&◌, List, [], ◌∷◌, ◌++◌, Option, none, some, Status, fail, ok, ◌==◌,
  ltb, if◌then◌else◌,
}
use rattle.Table.State.{Table}
use rattle.Table.Walk.{table_search}
use rattle.Table.Update.{Alloc, insert, del_current}
use rattle.Args.Words.{Str, str_eq}
use rattle.Conf.Decls.{Libconfig, Decl, DeclMemory}
use rattle.Conf.Parse.{conf_parse, conf_release}

-- A chunk of a hook table. It has eight bytes, the size of a pointer, so that an insertion copies
-- that much of ratt_module_hook_t and no more: its first member, the pointer to the module, which is
-- given by its name, if the structure is the one that rattle.h.in calls ratt_core_hook. The version
-- and the hook itself lie outside of the chunk.
pub record Hook : Type 0 where
  pub entry : Option Str

abbrev pub no_hook : Hook
no_hook = record { entry = none }

-- ratt_module_entry_t, as far as attaching it goes. `core` is the name of the core that it is
-- attached to; `attach` what its callback answers, with the version that it leaves in the hook;
-- `detaches` says that it has a detach callback.
pub record Module : Type 0 where
  pub name : Str
  pub core : Option Str
  pub attach : Option (Status × ℕ)
  pub detaches : Bool
  pub hook_size : ℕ
  pub config : Option (List Decl)

-- ratt_module_core_t, with its hook table; `lone` is the flag RATTMODCORFLONE.
pub record Core : Type 0 where
  pub name : Str
  pub conf_label : Option Str
  pub ver_major : ℕ
  pub lone : Bool
  pub hook_size : ℕ
  pub attach : Option Status
  pub detaches : Bool
  pub hook_table : Table Hook

-- What happens outside of the structures: the hook is had from calloc() and freed, the
-- configuration is parsed and released, the callbacks run.
pub data Effect : Type 0 where
  parsed released allocated freed : Effect
  module_attached module_detached core_attached core_detached : Effect

-- The configuration of the program during one call: how declarations are parsed and what memory
-- there is for them, for the hook and for the hook table.
pub record Around (S : Type 0) : Type 0 where
  pub lib : Libconfig S
  pub beyond : List ℕ
  pub memory : ℕ → DeclMemory
  pub junk : Status
  pub hook_ok : Bool
  pub insertion : Alloc Hook

abbrev pub given_back : Option (List Decl) → Option (List Decl)
given_back none = none
given_back (some decls) = some (conf_release decls).0

abbrev pub released_if : Option (List Decl) → List Effect
released_if none = []
released_if (some decls) = released ∷ []

abbrev pub effect_if : Bool → Effect → List Effect
effect_if true e = e ∷ []
effect_if false e = []

-- The checks that come first: not attached yet, a callback, and a hook that is not too big and
-- not empty.
unfoldable pub attachable : Core → Module → Bool
attachable core entry = elim entry.core [
  | some _ ↦ false
  | none ↦ elim entry.attach [
    | none ↦ false
    | some _ ↦ not (ltb core.hook_size entry.hook_size) && not (entry.hook_size == 0)
  ]
]

-- The configuration of the module, parsed under the core's label.
unfoldable pub configure :
    {S : Type 0} → Around S → Core → Module → Status × Option (List Decl) × List Effect
configure around core entry = elim entry.config [
  | none ↦ (ok, none, [])
  | some decls ↦
      let (s, decls', freed_strings) =
        conf_parse around.lib around.beyond around.memory around.junk core.conf_label decls in
      elim s [ ok ↦ (ok, some decls', parsed ∷ []) | fail ↦ (fail, some decls', []) ]
]

-- What the core's attach callback does if it accepts, and whether it refuses.
abbrev pub core_calls : Option Status → List Effect
core_calls none = []
core_calls (some s) = core_attached ∷ []

abbrev pub refuses : Option Status → Bool
refuses none = false
refuses (some ok) = false
refuses (some fail) = true

-- The part behind calloc(): the callbacks of module and core, the version check and the
-- insertion. The hook that was inserted comes last.
unfoldable pub hook_module : Core → Module → Alloc Hook → ℕ → Status × Table Hook × List Effect
hook_module core entry a version =
    let (s, hooks) = insert no_hook core.hook_table (record { entry = some entry.name }) a in
    let undo_module = effect_if entry.detaches module_detached in
    let undo_core = effect_if core.detaches core_detached in
    let core_done = core_calls core.attach in
    let refused = refuses core.attach in
    if ltb core.ver_major version
    then (fail, core.hook_table, module_attached ∷ undo_module)
    else if refused
    then (fail, core.hook_table, module_attached ∷ undo_module)
    else elim s [
      | ok ↦ (ok, hooks, module_attached ∷ core_done)
      | fail ↦ (fail, hooks, module_attached ∷ core_done ++ undo_core ++ undo_module)
    ]

-- The callback of the module, and what follows it.
unfoldable pub run_attach : Core → Module → Alloc Hook → Status × Table Hook × List Effect
run_attach core entry a = elim entry.attach [
  | none ↦ (fail, core.hook_table, [])
  | some answer ↦
      let rest = hook_module core entry a answer.1 in
      elim answer.0 [ ok ↦ rest | fail ↦ (fail, core.hook_table, []) ]
]

-- The core and the module as they are left, and what happened.
unfoldable pub attach_module :
    {S : Type 0} → Around S → Core → Module → Status × Core × Module × List Effect
attach_module around core entry =
    let (configured, decls, first) = configure around core entry in
    let (s, hooks, next) = run_attach core entry around.insertion in
    let given = record entry { config = decls } in
    let undone = record entry { config = given_back decls } in
    if not (attachable core entry) then (fail, core, entry, []) else elim configured [
      | fail ↦ (fail, core, given, [])
      | ok ↦
          if not around.hook_ok then (fail, core, undone, first ++ released_if decls) else elim s [
            | ok ↦ (
              ok,
              record core { hook_table = hooks },
              record given { core = some core.name },
              first ++ allocated ∷ next,
            )
            | fail ↦ (
              fail,
              record core { hook_table = hooks },
              undone,
              first ++ allocated ∷ next ++ freed ∷ released_if decls,
            )
          ]
    ]

-- compare_hook_module_name()
unfoldable pub compare_hook_module_name : Hook → Str → Bool
compare_hook_module_name hook name = elim hook.entry [
  | some other ↦ str_eq other name
  | none ↦ false
]

unfoldable pub detach_module : Core → Module → Core × Module × List Effect
detach_module core entry = elim entry.core [
  | none ↦ (core, entry, [])
  | some _ ↦
      let (s, p, hooks) =
        table_search no_hook core.hook_table (λ h. compare_hook_module_name h entry.name) in
      let hooks' : Table Hook = elim p [ some _ ↦ (del_current no_hook hooks).1 | none ↦ hooks ] in
      let freed_hook : List Effect = elim p [ some _ ↦ freed ∷ [] | none ↦ [] ] in
      (
        record core { hook_table = hooks' },
        record entry { core = none },
        freed_hook
            ++ effect_if core.detaches core_detached
            ++ effect_if entry.detaches module_detached,
      )
]
