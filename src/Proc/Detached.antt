-- ===== src/Proc/Detached.antt =====
-- How proc_attach() and proc_detach() end (modules/proc/proc.c).
use rattle.Base.{
  ℕ, suc, ◌≡◌, ◌≢◌, List, [], ◌∷◌, Option, Status, fail, ok, if◌then◌else◌, arith, refl, ◌∙◌,
  Bool-cases, Status-cases, inl, inr,
}
use rattle.Args.Words.{Str}
use rattle.Table.State.{Table, first, isempty}
use rattle.Table.Reuse.{free_slot}
use rattle.Module.Attach.{Hook, Around}
use rattle.Module.Registry.{Registry, Constants, CoreMemory, module_core_attach, ratt_module_attach}
use rattle.Module.Listed.{
  Open, Listed, Listed-null_read, module_core_attach-Listed, ratt_module_attach-cortab,
}
use rattle.Proc.Core.{
  ProcHook, ProcCore, proc_name, ended, null_pointer, hooks_of, attach_each, take_hook, proc_attach,
  proc_detach,
}

attach_each-cortab :
    {A : Type 0} (around : ℕ → Around A) (names : List Str) (r : Registry)
    → (attach_each around names r).cortab ≡ r.cortab
unfolding attach_each
attach_each-cortab around [] r = refl
attach_each-cortab around (name ∷ names) r =
    attach_each-cortab (λ i. around (suc i)) names
      (ratt_module_attach (around 0) r proc_name name).1
    ∙ ratt_module_attach-cortab (around 0) r proc_name name

module _ {S : Type 0} where
  take_hook-ends :
      (behind : Table Hook → ℕ → Option (ProcHook S)) (c : ProcCore S) (q : ℕ)
      → Listed c.registry.cortab proc_name q
      → take_hook behind c ≡ (
          if isempty (hooks_of c.registry)
          then null_pointer
          else ended ok (record c { hook = behind (hooks_of c.registry) 0 }))
  unfolding take_hook first
  take_hook-ends behind c q l = ground (arith, Listed-null_read c.registry proc_name q l)

  module _ {A : Type 0} (k : Constants) (mem : CoreMemory) (around : ℕ → Around A)
      (behind : Table Hook → ℕ → Option (ProcHook S)) (names : List Str) (c : ProcCore S) where
    abbrev pub core_listed : Status × Registry
    core_listed = module_core_attach k c.registry proc_name mem

    abbrev pub modules_attached : Registry
    modules_attached = attach_each around names core_listed.1

    -- Once the core is attached, proc_attach() never answers FAIL: where no module has attached it
    -- reads through NULL, and where one has it succeeds, but with a hook that it has read from
    -- behind the chunk in the first slot of the hook table.
    pub proc_attach-ends :
        Open c.registry.cortab
        → core_listed.0 ≡ ok
        → let hooks = hooks_of modules_attached in
          proc_attach k mem around behind names c ≡ (
            if isempty hooks
            then null_pointer
            else ended ok (record c { registry = modules_attached; hook = behind hooks 0 }))
    unfolding proc_attach
    proc_attach-ends o attached =
        let l = module_core_attach-Listed k c.registry proc_name mem o attached in
        let same = attach_each-cortab around names core_listed.1 in
        let l' : Listed modules_attached.cortab proc_name (free_slot c.registry.cortab) =
          rw same l in
        ground (
          arith,
          attached,
          take_hook-ends behind (record c { registry = modules_attached })
              (free_slot c.registry.cortab) l',
        )

    refused_lem :
        core_listed.0 ≡ fail
        → (c' : ProcCore S) → proc_attach k mem around behind names c ≢ ended ok c'
    unfolding proc_attach
    refused_lem refused c' e = ground (arith, refused, e)

    -- The processor core cannot be detached after it was attached: proc_detach() reads through
    -- NULL.
    pub proc_attach-proc_detach :
        (c' : ProcCore S)
        → Open c.registry.cortab
        → proc_attach k mem around behind names c ≡ ended ok c'
        → proc_detach c' ≡ null_pointer
    unfolding proc_detach
    proc_attach-proc_detach c' o e = elim (Status-cases core_listed.0) [
      | inr refused ↦ absurd (refused_lem refused c' e)
      | inl attached ↦
          let l = module_core_attach-Listed k c.registry proc_name mem o attached in
          let same = attach_each-cortab around names core_listed.1 in
          let l' : Listed modules_attached.cortab proc_name (free_slot c.registry.cortab) =
            rw same l in
          let ends = proc_attach-ends o attached in
          elim (Bool-cases (isempty (hooks_of modules_attached))) [
            | inl bare ↦ absurd (ground (arith, ends, bare, e))
            | inr filled ↦
                let registry_eq : c'.registry ≡ modules_attached =
                  ground (arith, ends, filled, e) in
                ground (
                  arith,
                  Listed-null_read c'.registry proc_name (free_slot c.registry.cortab)
                      (rw registry_eq l'),
                )
          ]
    ]
