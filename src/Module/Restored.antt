-- ===== src/Module/Restored.antt =====
-- The table of modules and the arguments behind the part of
-- ratt_module_register() that lists a module (src/module.c).
use rattle.Base.{
  ℕ, ◌^◌, ◌<◌, ◌≡◌, ◌≢◌, refl, Bool, true, false, [], some, fail, ok, arith, ◌∙◌, Status-cases,
  Option-cases, Bool-cases, inl, inr,
}
use rattle.Args.Words.{Str}
use rattle.Table.Mask.{is_frag}
use rattle.Table.Update.{insert}
use rattle.Table.Valid.{lookup}
use rattle.Table.Find.{search_slot}
use rattle.Table.Answer.{table_search_at}
use rattle.Table.Reuse.{free_slot, free_slot_lem}
use rattle.Table.Write.{Stores, insert-Stores}
use rattle.Table.Unresolved.{insert_unresolved}
use rattle.Table.Refused.{Same-lookup, insert-Same}
use rattle.Table.Delete.{del_current-chunk}
use rattle.Module.Cores.{str_eq_refl}
use rattle.Module.Listed.{Open}
use rattle.Module.Registry.{
  Entry, no_entry, Registry, Constants, compare_module_name, module_core_attach,
}
use rattle.Module.Register.{
  destroyed, event_if, RegisterMemory, module_register, module_unregister, module_core_register,
  remove_args, list_module,
}

-- Every slot of the table of modules holds in `r'` what it holds in `r`.
abbrev pub Restored : Registry → Registry → Type 0
Restored r r' = (i : ℕ) → lookup no_entry r'.modtab i ≡ lookup no_entry r.modtab i

module _ (k : Constants) (r : Registry) (entry : Entry) where
  remove_args-modtab : (remove_args k r entry).modtab ≡ r.modtab
  unfolding remove_args
  remove_args-modtab = ground arith

  module_register-sections :
      (mem : RegisterMemory) → (module_register r entry mem.modules).1.sections ≡ r.sections
  unfolding module_register
  module_register-sections mem = refl

  module_unregister-sections : (name : Str) → (module_unregister r name).1.sections ≡ r.sections
  unfolding module_unregister
  module_unregister-sections name = ground arith

  remove_args-sections :
      (r' : Registry)
      → r'.sections ≡ r.sections
      → (remove_args k r' entry).sections ≡ (remove_args k r entry).sections
  unfolding remove_args
  remove_args-sections r' e = elim (Option-cases entry.args) [
    | inl none_given ↦ ground (arith, none_given, e)
    | inr (sysargs, given) ↦ ground (arith, given, e)
  ]

  remove_args-Restored : (r' : Registry) → Restored r r' → Restored r (remove_args k r' entry)
  unfolding remove_args
  remove_args-Restored r' h i = elim (Option-cases entry.args) [
    | inl none_given ↦ ground (arith, none_given, h i)
    | inr (sysargs, given) ↦ ground (arith, given, h i)
  ]

  module_core_register-modtab :
      (mem : RegisterMemory)
      → let r' = (module_core_register k r entry mem.core).1 in
        (r'.modtab ≡ r.modtab) × (r'.sections ≡ r.sections)
  unfolding module_core_register module_core_attach
  module_core_register-modtab mem = ground arith

  module_register-Stores :
      (mem : RegisterMemory)
      → Open r.modtab
      → (module_register r entry mem.modules).0 ≡ ok
      → Stores no_entry r.modtab
          (module_register r entry mem.modules).1.modtab
          (free_slot r.modtab)
          entry
  unfolding module_register
  module_register-Stores mem o done =
      let pass =
        insert_unresolved no_entry r.modtab entry mem.modules o.valid o.small o.unresolved done in
      insert-Stores no_entry r.modtab entry mem.modules o.valid o.small o.steady o.clears pass done

  module_register-Restored :
      (mem : RegisterMemory)
      → Open r.modtab
      → (module_register r entry mem.modules).0 ≡ fail
      → Restored r (module_register r entry mem.modules).1
  unfolding module_register
  module_register-Restored mem o refused =
      Same-lookup no_entry r.modtab (insert no_entry r.modtab entry mem.modules).1
        (insert-Same no_entry r.modtab entry mem.modules o.valid o.small o.unresolved refused)

  -- The module that has just been listed is the one that leaves the table.
  module_unregister-Restored :
      (r' : Registry)
      → Open r.modtab
      → Stores no_entry r.modtab r'.modtab (free_slot r.modtab) entry
      → Restored r (module_unregister r' entry.about.name).1
  unfolding module_unregister search_slot compare_module_name
  module_unregister-Restored r' o s =
      let name = entry.about.name in
      let comp : Entry → Bool = λ e. compare_module_name e name in
      let t = r'.modtab in
      let same = str_eq_refl name in
      let small : t.frag_count < 2 ^ 32 = omega (arith, s.counted, s.extent, o.small) in
      let ne : t.chunk_count ≢ 0 = omega (arith, s.counted) in
      let found : search_slot no_entry comp t ≡ some t.pos =
        ground (arith, s.counted, s.here, s.stored, same) in
      let at = table_search_at no_entry comp s.valid small t.pos found in
      let chunk : is_frag t.frag_mask t.pos ≡ false = ground (arith, s.stored, s.here) in
      let gone = del_current-chunk no_entry s.valid ne chunk in
      let empty = free_slot_lem no_entry o.valid o.small in
      λ i. ground (arith, at, gone.3 i, s.others i, empty, s.here)

module _ (k : Constants) (r : Registry) (entry : Entry) (mem : RegisterMemory) where
  list_module_refused :
      (module_register r entry mem.modules).0 ≡ fail
      → list_module k r entry mem ≡ (
        fail,
        remove_args k (module_register r entry mem.modules).1 entry,
        event_if entry.destructor destroyed,
      )
  unfolding list_module
  list_module_refused refused = ground (arith, refused)

  -- The registry behind module_register(), and what module_core_register() makes of it.
  abbrev with_module : Registry
  with_module = (module_register r entry mem.modules).1

  abbrev with_core : Registry
  with_core = (module_core_register k with_module entry mem.core).1

  list_module_plain :
      (module_register r entry mem.modules).0 ≡ ok
      → entry.is_core ≡ false
      → list_module k r entry mem ≡ (ok, with_module, [])
  unfolding list_module
  list_module_plain done plain = ground (arith, done, plain)

  list_module_core :
      (module_register r entry mem.modules).0 ≡ ok
      → entry.is_core ≡ true
      → (module_core_register k with_module entry mem.core).0 ≡ ok
      → list_module k r entry mem ≡ (ok, with_core, [])
  unfolding list_module
  list_module_core done core added = ground (arith, done, core, added)

  list_module_unlisted :
      (module_register r entry mem.modules).0 ≡ ok
      → entry.is_core ≡ true
      → (module_core_register k with_module entry mem.core).0 ≡ fail
      → list_module k r entry mem ≡ (
        fail,
        remove_args k (module_unregister with_core entry.about.name).1 entry,
        event_if entry.destructor destroyed,
      )
  unfolding list_module
  list_module_unlisted done core refused = ground (arith, done, core, refused)

  pub list_module-Restored :
      Open r.modtab
      → let (s, r', es) = list_module k r entry mem in
        (s ≡ ok
          → Stores no_entry r.modtab r'.modtab (free_slot r.modtab) entry
            × (r'.sections ≡ r.sections)
            × (es ≡ []))
        × (s ≡ fail
            → Restored r r'
              × (r'.sections ≡ (remove_args k r entry).sections)
              × (es ≡ event_if entry.destructor destroyed))
  list_module-Restored o =
      let kept = module_register-sections k r entry mem in
      let (same_table, same_sections) = module_core_register-modtab k with_module entry mem in
      elim (Status-cases (module_register r entry mem.modules).0) [
        | inr refused ↦ rw (list_module_refused refused) (
          λ e. absurd (cc),
          λ e. (
            remove_args-Restored k r entry with_module
                (module_register-Restored k r entry mem o refused),
            remove_args-sections k r entry with_module kept,
            refl,
          ),
        )
        | inl done ↦
            let stores = module_register-Stores k r entry mem o done in
            let stores' : Stores no_entry r.modtab with_core.modtab (free_slot r.modtab) entry =
              rw same_table stores in
            elim (Bool-cases entry.is_core) [
              | inr plain ↦
                  rw (list_module_plain done plain) (λ e. (stores, kept, refl), λ e. absurd (cc))
              | inl core ↦
                  elim (Status-cases (module_core_register k with_module entry mem.core).0) [
                    | inl added ↦
                        rw (list_module_core done core added)
                          (λ e. (stores', same_sections ∙ kept, refl), λ e. absurd (cc))
                    | inr refused ↦
                        let left = (module_unregister with_core entry.about.name).1 in
                        let restored = module_unregister-Restored k r entry with_core o stores' in
                        let sections : left.sections ≡ r.sections =
                          module_unregister-sections k with_core entry entry.about.name
                          ∙ same_sections
                          ∙ kept in
                        rw (list_module_unlisted done core refused) (
                          λ e. absurd (cc),
                          λ e. (
                            remove_args-Restored k r entry left restored,
                            remove_args-sections k r entry left sections,
                            refl,
                          ),
                        )
                  ]
            ]
      ]
