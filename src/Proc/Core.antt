-- ===== src/Proc/Core.antt =====
-- modules/proc/proc.c: the processor core, which passes every call on to the first module that is
-- attached to it.
use rattle.Base.{ℕ, suc, List, [], ◌∷◌, Option, none, some, Status, fail, ok}
use rattle.Table.State.{Table, first}
use rattle.Args.Words.{Str}
use rattle.Conf.Decls.{Libconfig, Decl, DeclMemory}
use rattle.Conf.Parse.{conf_parse, conf_release}
use rattle.Module.Attach.{Hook, Around}
use rattle.Module.Registry.{
  Registry, Constants, core_named, CoreMemory, module_core_attach, module_core_detach,
  ratt_module_attach, Outcome, returned, null_read,
}
use rattle.Proc.Process.{Process}

-- ratt_proc_hook_v0_t over the state `S` of the module that filled it: each member may be NULL.
pub record ProcHook (S : Type 0) : Type 0 where
  pub start : Option (S → Status × S)
  pub stop : Option (S → Status × S)
  pub unregister : Option (S → Process → S)
  pub register : Option (S → Process → Status × S)

-- l_proc_hook, with the registry of modules, the state behind the hook, and l_conf.
pub record ProcCore (S : Type 0) : Type 0 where
  pub registry : Registry
  pub hook : Option (ProcHook S)
  pub inner : S
  pub config : List Decl

-- RATT_PROC_NAME, "proc".
abbrev pub proc_name : Str
proc_name = 112 ∷ 114 ∷ 111 ∷ 99 ∷ []

-- How proc_attach() and proc_detach() end.
pub data Ended (S : Type 0) : Type 0 where
  ended : Status → ProcCore S → Ended S
  null_pointer : Ended S

-- The modules of the configured list, one after the other, whether or not they attach.
unfoldable pub attach_each : {A : Type 0} → (ℕ → Around A) → List Str → Registry → Registry
attach_each around [] r = r
attach_each around (name ∷ names) r =
    attach_each (λ i. around (suc i)) names (ratt_module_attach (around 0) r proc_name name).1

abbrev pub hooks_of : Registry → Table Hook
hooks_of r = (core_named r.cores proc_name).hook_table

module _ {S : Type 0} where
  abbrev pub call : Option (S → Status × S) → ProcCore S → Status × ProcCore S
  call none c = (fail, c)
  call (some f) c = let (s, inner) = f c.inner in (s, record c { inner = inner })

  unfoldable pub on_start : ProcCore S → Status × ProcCore S
  on_start c = elim c.hook [ none ↦ (fail, c) | some hook ↦ call hook.start c ]

  unfoldable pub on_stop : ProcCore S → Status × ProcCore S
  on_stop c = elim c.hook [ none ↦ (fail, c) | some hook ↦ call hook.stop c ]

  unfoldable pub on_unregister : ProcCore S → Process → ProcCore S
  on_unregister c proc = elim c.hook [
    | none ↦ c
    | some hook ↦ elim hook.unregister [ none ↦ c | some f ↦ record c { inner = f c.inner proc } ]
  ]

  unfoldable pub on_register : ProcCore S → Process → Status × ProcCore S
  on_register c proc = elim c.hook [
    | none ↦ (fail, c)
    | some hook ↦ elim hook.register [
      | none ↦ (fail, c)
      | some f ↦ let (s, inner) = f c.inner proc in (s, record c { inner = inner })
    ]
  ]

  unfoldable pub proc_start : ProcCore S → Status × ProcCore S
  proc_start c = on_start c

  unfoldable pub proc_stop : ProcCore S → Status × ProcCore S
  proc_stop c = on_stop c

  unfoldable pub ratt_proc_register : ProcCore S → Process → Status × ProcCore S
  ratt_proc_register c proc = on_register c proc

  unfoldable pub ratt_proc_unregister : ProcCore S → Process → ProcCore S
  ratt_proc_unregister c proc = on_unregister c proc

  -- The registry is left as module_core_detach() leaves it.
  abbrev pub with_registry : Status → ProcCore S → Outcome → Ended S
  with_registry s c (returned s' r es) = ended s (record c { registry = r })
  with_registry s c null_read = null_pointer

  unfoldable pub proc_detach : ProcCore S → Ended S
  proc_detach c =
      with_registry ok (record c { hook = none }) (module_core_detach c.registry proc_name)

  -- The first hook of the core, if there is one, becomes the hook that is called. It is read from
  -- outside of the chunk in the hook table, and `behind` is what is found there.
  unfoldable pub take_hook : (Table Hook → ℕ → Option (ProcHook S)) → ProcCore S → Ended S
  take_hook behind c = elim (first (hooks_of c.registry)).0 [
    | none ↦ with_registry fail c (module_core_detach c.registry proc_name)
    | some p ↦ ended ok (record c { hook = behind (hooks_of c.registry) p })
  ]

  -- `behind` is what the memory behind a chunk of the hook table reads as; `names` the list of
  -- modules in the configuration.
  unfoldable pub proc_attach :
      {A : Type 0}
      → Constants
      → CoreMemory
      → (ℕ → Around A)
      → (Table Hook → ℕ → Option (ProcHook S))
      → List Str
      → ProcCore S
      → Ended S
  proc_attach k mem around behind names c =
      let (s, r) = module_core_attach k c.registry proc_name mem in
      elim s [
        | fail ↦ ended fail (record c { registry = r })
        | ok ↦ take_hook behind (record c { registry = attach_each around names r })
      ]

  unfoldable pub proc_fini : ProcCore S → ProcCore S
  proc_fini c = record c { config = (conf_release c.config).0 }

  -- conf_parse() under the label of the core.
  unfoldable pub proc_init :
      {A : Type 0}
      → Libconfig A
      → List ℕ
      → (ℕ → DeclMemory)
      → Status
      → Option Str
      → ProcCore S
      → Status × ProcCore S
  proc_init lib beyond mem junk label c =
      let (s, decls, _) = conf_parse lib beyond mem junk label c.config in
      (s, record c { config = decls })
