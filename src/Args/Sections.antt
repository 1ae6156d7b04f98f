-- ===== src/Args/Sections.antt =====
-- The section tables of args.c and insert_args(). A pointer to a section is its place in
-- `l_sectab`; an entry's 26 places for user-supplied arguments are those of 'a' to 'z'.
use rattle.Base.{
  ℕ, ◌+◌, ◌-◌, Bool, true, false, not, List, [], ◌∷◌, Option, none, some, Status, fail, ok, ◌==◌,
  if◌then◌else◌, get_or, set, replicate,
}
use rattle.Table.State.{Table, zeroed, exists, set_constrains, set_on_constrains}
use rattle.Table.Update.{Alloc, create, insert, destroy}
use rattle.Args.Words.{Str, str_eq, isupper, sec_main}

-- `found` counts occurrences: below 2 ^ 31, like `argc`.
pub record UsrArg : Type 0 where
  pub found : ℕ
  pub arg : Option Str

-- `counts` says that the pointer `found` is not NULL.
pub record SysArg : Type 0 where
  pub option : ℕ
  pub counts : Bool
  pub get : Option (Str → Status)
  pub flags : ℕ

-- The list is the array that `sysargs` points to, up to the element that ends it.
pub record Entry : Type 0 where
  pub name : Option Str
  pub sysargs : Option (List SysArg)
  pub usrargs : List UsrArg

abbrev pub no_usrarg : UsrArg
no_usrarg = record { found = 0; arg = none }

-- A zeroed entry.
abbrev pub blank_entry : Entry
blank_entry = record { name = none; sysargs = none; usrargs = replicate 26 no_usrarg }

abbrev pub Sections : Type 0
Sections = List (Table Entry)

-- l_sectab before anything is registered.
abbrev pub no_sections : Sections
no_sections = replicate 27 zeroed

abbrev pub section_at : Sections → ℕ → Table Entry
section_at tables i = get_or tables i zeroed

unfoldable pub pointer_to_section : ℕ → Option ℕ
pointer_to_section section =
    if section == sec_main
    then some 26
    else if not (isupper section)
    then none
    else some (section - 65)

unfoldable pub compare_entry_name : Entry → Option Str → Bool
compare_entry_name entry find = elim entry.name [
  | none ↦ elim find [ some _ ↦ false | none ↦ true ]
  | some name ↦ elim find [ none ↦ false | some other ↦ str_eq name other ]
]

unfoldable pub constrains_on_entry : Entry → Entry → Bool
constrains_on_entry entry find = compare_entry_name entry find.name

-- The loop over the places: what is found again counts once more and has its argument replaced.
unfoldable pub merge_usrargs : List UsrArg → List UsrArg → List UsrArg
merge_usrargs [] news = []
merge_usrargs (u ∷ us) [] = u ∷ us
merge_usrargs (u ∷ us) (new ∷ news) =
    (if new.found == 0 then u else record { found = u.found + 1; arg = new.arg })
    ∷ merge_usrargs us news

unfoldable pub update_on_constrains : Entry → Entry → Status × Entry
update_on_constrains old new = elim new.sysargs [
  | some args ↦ (ok, record old { sysargs = some args })
  | none ↦ (ok, record old { usrargs = merge_usrargs old.usrargs new.usrargs })
]

unfoldable pub create_section : Table Entry → Alloc Entry → Status × Table Entry
create_section table a =
    let (s, t) = create blank_entry table 1 432 0 a in
    elim s [
      | ok ↦ (ok, set_on_constrains (set_constrains t constrains_on_entry) update_on_constrains)
      | fail ↦ (fail, t)
    ]

-- What the allocator answers to the creation of a section and to the insertion.
pub record Memory : Type 0 where
  pub creation : Alloc Entry
  pub insertion : Alloc Entry

-- The section of an insertion, which is made where it does not exist yet.
unfoldable pub ready_section : Table Entry → Alloc Entry → Status × Table Entry
ready_section table a = if not (exists table) then create_section table a else (ok, table)

-- The entry of one occurrence of an option. The callers pass letters from 'a' on.
unfoldable pub occurrence : Option Str → ℕ → Option Str → Entry
occurrence name opt arg = record blank_entry {
  name = name;
  usrargs = set blank_entry.usrargs (opt - 97) (record { found = 1; arg = arg });
}

unfoldable pub insert_args : Sections → ℕ → Option Str → ℕ → Option Str → Memory → Status × Sections
insert_args tables sec name opt arg mem = elim (pointer_to_section sec) [
  | none ↦ (fail, tables)
  | some i ↦
      let (s, t) = ready_section (section_at tables i) mem.creation in
      let (s', t') = insert blank_entry t (occurrence name opt arg) mem.insertion in
      elim s [
        | fail ↦ (fail, set tables i t)
        | ok ↦ elim s' [ ok ↦ (ok, set tables i t') | fail ↦ (fail, set tables i t') ]
      ]
]

unfoldable pub destroy_section : Table Entry → Table Entry
destroy_section table = if exists table then (destroy blank_entry table).1 else table

unfoldable pub destroy_section_all : Sections → Sections
destroy_section_all [] = []
destroy_section_all (t ∷ ts) = destroy_section t ∷ destroy_section_all ts

-- args_fini()
unfoldable pub args_fini : Sections → Sections
args_fini tables = destroy_section_all tables
