-- ===== src/Module/Listed.antt =====
-- The core that module_core_attach() has entered into the table of cores (src/module.c).
use rattle.Base.{ℕ, ◌^◌, ◌<◌, ◌≡◌, false, Option, none, some, ok, refl, ap, ◌∙◌, arith}
use rattle.Args.Words.{Str}
use rattle.Table.Mask.{is_frag}
use rattle.Table.State.{Table, set_constrains}
use rattle.Table.Callbacks.{constrained-IsValid}
use rattle.Table.Create.{created, create-created, created-IsValid}
use rattle.Table.Update.{Alloc, create, insert}
use rattle.Table.Valid.{IsValid, Steady, used}
use rattle.Table.Sizes.{ClearsMask}
use rattle.Table.Find.{search_slot}
use rattle.Table.Reuse.{free_slot}
use rattle.Table.Write.{Stores, insert-Stores}
use rattle.Table.Unresolved.{insert_unresolved}
use rattle.Module.Attach.{Around}
use rattle.Module.Registry.{
  Registry, Constants, compare_core_name, CoreMemory, module_core_attach, module_core_detach,
  create_core_table, constrains_on_core, attach_module_name, ratt_module_attach, null_read,
}
use rattle.Module.Cores.{str_eq_refl, module_core_detach-null_read}

-- A table may take another chunk: it is valid, not emptied, has no resolver, and the bits that it
-- would get by growing are cleared.
pub record Open {A : Type 0} (t : Table A) : Type 0 where
  pub valid : IsValid t
  pub small : t.frag_count < 2 ^ 32
  pub steady : Steady t
  pub clears : used t ≡ t.size → ClearsMask t.size
  pub unresolved : t.on_constrains ≡ none

-- The table of cores may take a core as soon as it is created.
pub create_core_table-Open :
    (k : Constants) (r : Registry) (a : Alloc (Option Str))
    → (create_core_table k r a).0 ≡ ok
    → Open (create_core_table k r a).1.cortab
unfolding create_core_table set_constrains
create_core_table-Open k r a h =
    let made : (create none r.cortab k.cortab_size 8 0 a).0 ≡ ok = ground (arith, h) in
    let (e, lo, hi) = create-created none r.cortab k.cortab_size 8 0 a made in
    let empty = created none k.cortab_size 8 0 in
    let same : (create_core_table k r a).1.cortab ≡ set_constrains empty constrains_on_core =
      ground (arith, made) ∙ ap (λ w. set_constrains w constrains_on_core) e in
    rw same (record {
      valid = constrained-IsValid constrains_on_core (created-IsValid none k.cortab_size 8 0 lo hi);
      small = omega arith;
      steady = λ z. refl;
      clears = λ full. absurd (omega (arith, lo, full));
      unresolved = refl;
    })

-- A core is listed in a table of cores.
pub record Listed (t : Table (Option Str)) (core : Str) (q : ℕ) : Type 0 where
  pub valid : IsValid t
  pub small : t.frag_count < 2 ^ 32
  pub found : search_slot none (λ c. compare_core_name c core) t ≡ some q
  pub chunk : is_frag t.frag_mask q ≡ false

module _ (t t' : Table (Option Str)) (core : Str) (p : ℕ) where
  Stores-Listed : t.frag_count < 2 ^ 32 → Stores none t t' p (some core) → Listed t' core p
  unfolding search_slot compare_core_name
  Stores-Listed small s =
      let same = str_eq_refl core in
      record {
        valid = s.valid;
        small = omega (arith, s.counted, s.extent);
        found = ground (arith, s.counted, s.here, s.stored, same);
        chunk = ground (arith, s.stored);
      }

module _ (k : Constants) (r : Registry) (core : Str) (mem : CoreMemory) where
  module_core_attach-inserts :
      (module_core_attach k r core mem).0 ≡ ok
      → ((insert none r.cortab (some core) mem.cores).0 ≡ ok)
        × ((module_core_attach k r core mem).1.cortab
            ≡ (insert none r.cortab (some core) mem.cores).1)
  unfolding module_core_attach
  module_core_attach-inserts done = ground (arith, done)

  -- A core that is attached is listed, in the slot that was free.
  pub module_core_attach-Listed :
      Open r.cortab
      → (module_core_attach k r core mem).0 ≡ ok
      → Listed (module_core_attach k r core mem).1.cortab core (free_slot r.cortab)
  module_core_attach-Listed o done =
      let (inserted, same) = module_core_attach-inserts done in
      let pass =
        insert_unresolved none r.cortab (some core) mem.cores o.valid o.small o.unresolved
          inserted in
      let stores =
        insert-Stores none r.cortab (some core) mem.cores o.valid o.small o.steady o.clears pass
          inserted in
      rw same (Stores-Listed r.cortab _ core (free_slot r.cortab) o.small stores)

-- Detaching a core that is listed reads through NULL.
pub Listed-null_read :
    (r : Registry) (core : Str) (q : ℕ)
    → Listed r.cortab core q
    → module_core_detach r core ≡ null_read
Listed-null_read r core q l = module_core_detach-null_read r core q l.valid l.small l.found l.chunk

pub ratt_module_attach-cortab :
    {A : Type 0} (around : Around A) (r : Registry) (core modname : Str)
    → (ratt_module_attach around r core modname).1.cortab ≡ r.cortab
unfolding ratt_module_attach attach_module_name
ratt_module_attach-cortab around r core modname = ground arith
