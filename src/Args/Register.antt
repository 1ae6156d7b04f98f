-- ===== src/Args/Register.antt =====
-- args_register(), args_unregister() and bind_args().
use rattle.Base.{
  ℕ, ◌-◌, Bool, true, false, not, ◌&&◌, List, [], ◌∷◌, ◌++◌, Option, none, some, Status, fail, ok,
  ◌==◌, ltb, if◌then◌else◌, get_or, set,
}
use rattle.Table.State.{Table, exists, current, has_flag}
use rattle.Table.Walk.{table_search}
use rattle.Table.Update.{insert}
use rattle.Args.Words.{Str, islower}
use rattle.Args.Sections.{
  UsrArg, SysArg, Entry, no_usrarg, blank_entry, Sections, section_at, pointer_to_section,
  compare_entry_name, Memory, ready_section,
}

-- What binding does to the registrant: a call of its `get`, a write to its `found`.
pub data Effect : Type 0 where
  got : ℕ → Str → Effect
  counted : ℕ → ℕ → Effect

abbrev pub usrarg_of : Entry → ℕ → UsrArg
usrarg_of entry option = get_or entry.usrargs (option - 97) no_usrarg

abbrev pub fl_arg : ℕ
fl_arg = 1

abbrev pub fl_one : ℕ
fl_one = 2

abbrev pub missing : Option Str → Bool
missing none = true
missing (some s) = false

-- `*(args->found) = found`, if there is such a place.
abbrev pub count_effect : SysArg → ℕ → List Effect
count_effect sys n = if sys.counts then counted sys.option n ∷ [] else []

-- The hand-over of an argument, and the count.
unfoldable pub bind_arg : SysArg → ℕ → Option Str → Status × List Effect
bind_arg sys n none = (ok, count_effect sys n)
bind_arg sys n (some arg) = elim sys.get [
  | none ↦ (fail, [])
  | some get ↦ elim (get arg) [
    | ok ↦ (ok, got sys.option arg ∷ count_effect sys n)
    | fail ↦ (fail, got sys.option arg ∷ [])
  ]
]

-- One round of the loop of bind_args().
unfoldable pub bind_option : SysArg → UsrArg → Status × List Effect
bind_option sys usr =
    if usr.found == 0
    then (ok, [])
    else if has_flag sys.flags fl_one && ltb 1 usr.found
    then (fail, [])
    else if has_flag sys.flags fl_arg && missing usr.arg
    then (fail, [])
    else bind_arg sys usr.found usr.arg

abbrev pub then_bind : Status × List Effect → Status × List Effect → Status × List Effect
then_bind (fail, done) later = (fail, done)
then_bind (ok, done) (s, more) = (s, done ++ more)

-- The loop ends at the first element whose option is no lower case letter.
unfoldable pub bind_args_from : Entry → List SysArg → Status × List Effect
bind_args_from entry [] = (ok, [])
bind_args_from entry (sys ∷ args) =
    let rest = bind_args_from entry args in
    if islower sys.option
    then then_bind (bind_option sys (usrarg_of entry sys.option)) rest
    else (ok, [])

unfoldable pub bind_args : Entry → Option (List SysArg) → Status × List Effect
bind_args entry none = (ok, [])
bind_args entry (some args) = bind_args_from entry args

unfoldable pub args_unregister : Sections → ℕ → Option Str → Status × Sections
args_unregister tables section name = elim (pointer_to_section section) [
  | none ↦ (fail, tables)
  | some i ↦
      let t = section_at tables i in
      let (s, entry, t') = table_search blank_entry t (λ e. compare_entry_name e name) in
      let cleared = λ (p : ℕ). record (get_or t'.head p blank_entry) { sysargs = none } in
      if not (exists t) then (fail, tables) else elim entry [
        | none ↦ (fail, set tables i t')
        | some p ↦ (ok, set tables i (record t' { head = set t'.head p (cleared p) }))
      ]
]

abbrev pub registration : Option Str → Option (List SysArg) → Entry
registration name sysargs = record blank_entry { name = name; sysargs = sysargs }

-- bind_args() of the current entry; the entry is there, it was just inserted.
unfoldable pub bind_current : Table Entry → Option (List SysArg) → Status × List Effect
bind_current t sysargs = elim (current t) [
  | none ↦ (fail, [])
  | some p ↦ bind_args (get_or t.head p blank_entry) sysargs
]

unfoldable pub args_register :
    Sections → ℕ → Option Str → Option (List SysArg) → Memory → Status × Sections × List Effect
args_register tables section name sysargs mem = elim (pointer_to_section section) [
  | none ↦ (fail, tables, [])
  | some i ↦
      let (s, t) = ready_section (section_at tables i) mem.creation in
      let (s', t') = insert blank_entry t (registration name sysargs) mem.insertion in
      let (s'', effects) = bind_current t' sysargs in
      elim s [
        | fail ↦ (fail, set tables i t, [])
        | ok ↦ elim s' [
          | fail ↦ (fail, set tables i t', [])
          | ok ↦ elim s'' [
            | ok ↦ (ok, set tables i t', effects)
            | fail ↦ (fail, set tables i t', effects)
          ]
        ]
      ]
]
