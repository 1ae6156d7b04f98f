-- ===== src/Module/Undo.antt =====
-- What ratt_module_register() undoes (src/module.c).
use rattle.Base.{ℕ, ◌+◌, Bool, true, false, ◌&&◌, ◌==◌, List, [], ◌∷◌, none, some, fail, ok}
use rattle.Args.Sections.{Sections}
use rattle.Table.State.{Table}
use rattle.Module.Registry.{Entry, Registry, Constants}
use rattle.Module.Register.{Event, built, destroyed, RegisterMemory, add_args, remove_args}
use rattle.Module.Restored.{Restored}

-- Whether ratt_module_register() gets past the version and the constructor of a module.
abbrev pub constructed : Constants → Entry → ℕ → Bool
constructed k entry version =
    (version == k.module_version)
    && elim entry.constructor [ none ↦ true | some s ↦ elim s [ ok ↦ true | fail ↦ false ] ]

-- The sections that a registration leaves which has failed behind the constructor: those with the
-- arguments of the module unregistered again, or what args_register() left if that has failed.
abbrev pub sections_back : Constants → Registry → Entry → RegisterMemory → Sections
sections_back k r entry mem =
    let (s, r') = add_args k r entry mem.args in
    elim s [ fail ↦ r'.sections | ok ↦ (remove_args k r' entry).sections ]

abbrev pub times_destroyed : List Event → ℕ
times_destroyed [] = 0
times_destroyed (destroyed ∷ es) = 1 + times_destroyed es
times_destroyed (built ∷ es) = times_destroyed es
