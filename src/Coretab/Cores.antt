-- ===== src/Coretab/Cores.antt =====
-- The table of cores and what enters it (src/core.c). A pointer to a core is the core, NULL is
-- `none`.
use rattle.Base.{
  ℕ, Bool, false, Option, none, some, Status, fail, ok, ◌==◌, ltb, if◌then◌else◌, length,
}
use rattle.Table.State.{Table, set_constrains}
use rattle.Table.Update.{Alloc, create, destroy, insert}
use rattle.Args.Words.{Str, str_eq}

-- ratt_core_t, as far as it is read here.
pub record RattCore : Type 0 where
  pub name : Str
  pub ver_major : ℕ

-- CORE_ENTRY_TABSIZ, and the size of a pointer.
abbrev pub entry_tab_size : ℕ
entry_tab_size = 8

abbrev pub pointer_size : ℕ
pointer_size = 8

unfoldable pub compare_core_name : Option RattCore → Str → Bool
compare_core_name none name = false
compare_core_name (some core) name = str_eq core.name name

unfoldable pub constrains_on_core_entry : Option RattCore → Option RattCore → Bool
constrains_on_core_entry core none = false
constrains_on_core_entry core (some find) = compare_core_name core find.name

unfoldable pub destroy_core_table : Table (Option RattCore) → Table (Option RattCore)
destroy_core_table t = (destroy none t).1

unfoldable pub create_core_table :
    Table (Option RattCore) → Alloc (Option RattCore) → Status × Table (Option RattCore)
create_core_table t a =
    let (s, t') = create none t entry_tab_size pointer_size 0 a in
    elim s [ fail ↦ (fail, t') | ok ↦ (ok, set_constrains t' constrains_on_core_entry) ]

-- The first argument is RATT_CORE_VERSION.
unfoldable pub core_register :
    ℕ
    → Table (Option RattCore)
    → RattCore
    → Alloc (Option RattCore)
    → Status × Table (Option RattCore)
core_register version t entry a =
    let (s, t') = insert none t (some entry) a in
    if ltb entry.ver_major version
    then (fail, t)
    else if length entry.name == 0
    then (fail, t)
    else elim s [ fail ↦ (fail, t') | ok ↦ (ok, t') ]

unfoldable pub core_fini : Table (Option RattCore) → Table (Option RattCore)
core_fini t = destroy_core_table t

unfoldable pub core_init :
    Table (Option RattCore) → Alloc (Option RattCore) → Status × Table (Option RattCore)
core_init t a = let (s, t') = create_core_table t a in elim s [ fail ↦ (fail, t') | ok ↦ (ok, t') ]
