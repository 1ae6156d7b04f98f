-- ===== src/Module/Cores.antt =====
-- What module_core_attach() and module_core_detach() do to the table of cores.
use rattle.Base.{
  ℕ, zero, suc, ◌^◌, ◌≤◌, ◌<◌, ◌≡◌, ◌≢◌, refl, Bool, true, false, ◌||◌, List, [], ◌∷◌, Option, none,
  some, fail, ok, ◌==◌, ◌⊎◌, if◌then◌else◌, get_or, get_or-set, arith, ap, ap₂, ◌∙◌, Status-cases,
  Bool-cases, inl, inr,
}
use rattle.Args.Words.{Str, str_eq}
use rattle.Table.Mask.{is_frag}
use rattle.Table.State.{Table, exists, has_flag, fl_no_realloc}
use rattle.Table.Walk.{foreach}
use rattle.Table.Update.{Alloc, create, destroy, insert, del_current}
use rattle.Table.Valid.{IsValid, current_lem}
use rattle.Table.Find.{search_slot}
use rattle.Table.Answer.{table_search_at, search_slot-matches}
use rattle.Table.Reuse.{pos-IsValid}
use rattle.Module.Attach.{Hook, no_hook, Core}
use rattle.Module.Registry.{
  Registry, Constants, core_named, put_core, compare_core_name, detach_one, detach_each, null_read,
  delete_core, module_core_detach, CoreMemory, module_core_attach,
}

detach_one-cortab : (p : ℕ) (r : Registry) (core : Str) → (detach_one p r core).0.cortab ≡ r.cortab
unfolding detach_one
detach_one-cortab p r core = ground arith

detach_each-cortab :
    (ps : List ℕ) (r : Registry) (core : Str) → (detach_each ps r core).0.cortab ≡ r.cortab
unfolding detach_each
detach_each-cortab [] r core = refl
detach_each-cortab (p ∷ ps) r core =
    detach_each-cortab ps (detach_one p r core).0 core ∙ detach_one-cortab p r core

-- The slot under the cursor is zeroed when its chunk is deleted.
del_current-zeroed :
    (t : Table (Option Str))
    → IsValid t
    → t.chunk_count ≢ 0
    → is_frag t.frag_mask t.pos ≡ false
    → get_or (del_current none t).1.head t.pos none ≡ none
unfolding del_current
del_current-zeroed t v ne chunk =
    let here = current_lem v in
    let zero =
      get_or-set t.head t.pos t.pos none none (omega (arith, v.room, v.last_in, v.pos_in)) in
    ground (arith, here, ne, chunk, zero)

-- Detaching a core that is listed never returns: the hook table to destroy is looked for through
-- the slot of the table of cores that has just been deleted, which reads as NULL.
pub module_core_detach-null_read :
    (r : Registry) (corname : Str) (q : ℕ)
    → IsValid r.cortab
    → r.cortab.frag_count < 2 ^ 32
    → search_slot none (λ core. compare_core_name core corname) r.cortab ≡ some q
    → is_frag r.cortab.frag_mask q ≡ false
    → module_core_detach r corname ≡ null_read
unfolding module_core_detach delete_core
module_core_detach-null_read r corname q v small listed chunk =
    let comp : Option Str → Bool = λ core. compare_core_name core corname in
    let at = table_search_at none comp v small q listed in
    let (_, ne, inside) = search_slot-matches none comp v small q listed in
    let t : Table (Option Str) = record r.cortab { pos = q } in
    let r' : Registry = record r { cortab = t } in
    let same = detach_each-cortab (foreach r.modtab) r' corname in
    let zero = del_current-zeroed t (pos-IsValid q v inside) ne chunk in
    ground (arith, at, same, zero)

pub str_eq_refl : (s : Str) → str_eq s s ≡ true
str_eq_refl [] = refl
str_eq_refl (c ∷ s) = ground (arith, str_eq_refl s)

abbrev pub has_core : List Core → Str → Bool
has_core [] name = false
has_core (c ∷ cs) name = str_eq c.name name || has_core cs name

core_named-put_core :
    (cs : List Core) (name : Str) (core : Core)
    → core.name ≡ name
    → has_core cs name ≡ true
    → core_named (put_core cs core) name ≡ core
core_named-put_core [] name core e h = absurd (cc)
core_named-put_core (c ∷ cs) name core e h =
    let renamed : str_eq c.name core.name ≡ str_eq c.name name = ap (str_eq c.name) e in
    let own : str_eq core.name name ≡ true = ap (λ (n : Str). str_eq n name) e ∙ str_eq_refl name in
    elim (Bool-cases (str_eq c.name name)) [
      | inl here ↦ ground (arith, here, renamed, own)
      | inr there ↦ ground (arith, there, renamed, core_named-put_core cs name core e, h)
    ]

core_named-name :
    (cs : List Core) (name : Str)
    → has_core cs name ≡ true
    → str_eq (core_named cs name).name name ≡ true
core_named-name [] name h = absurd (cc)
core_named-name (c ∷ cs) name h = elim (Bool-cases (str_eq c.name name)) [
  | inl here ↦ ground (arith, here)
  | inr there ↦ ground (arith, there, h, core_named-name cs name)
]

str_eq→eq : (s t : Str) → str_eq s t ≡ true → s ≡ t
str_eq→eq [] [] h = refl
str_eq→eq [] (d ∷ t) h = absurd (cc)
str_eq→eq (c ∷ s) [] h = absurd (cc)
str_eq→eq (c ∷ s) (d ∷ t) h =
    ap₂ (λ (x : ℕ) (xs : Str). x ∷ xs) (ground (arith, h)) (str_eq→eq s t (ground (arith, h)))

create-outcome :
    (t : Table Hook) (size flags : ℕ) (a : Alloc Hook)
    → exists t ≡ false
    → flags ≡ 0 ⊎ flags ≡ 2
    → 1 ≤ size
    → let (s, t') = create no_hook t size 8 flags a in
      (s ≡ fail → exists t' ≡ false)
      × (s ≡ ok
          → (exists t' ≡ true)
            × (t'.size ≡ size)
            × (t'.chunk_count ≡ 0)
            × (has_flag t'.flags 2 ≡ (flags == 2))
            × (exists (destroy no_hook t').1 ≡ false))
unfolding create destroy exists
create-outcome t zero flags a new known some_room = absurd (omega arith)
create-outcome t (suc n) flags a new (inl e) some_room = ground (arith, new, e)
create-outcome t (suc n) flags a new (inr e) some_room = ground (arith, new, e)

-- A core that is attached has an empty hook table of its own, of one slot that cannot grow if the
-- core takes one module only, and of the usual size otherwise. One that cannot be attached has
-- none.
pub module_core_attach-hooks :
    (k : Constants) (r : Registry) (core : Str) (mem : CoreMemory)
    → has_core r.cores core ≡ true
    → exists (core_named r.cores core).hook_table ≡ false
    → 1 ≤ k.hooks_size
    → let (s, r') = module_core_attach k r core mem in
      let hooks = (core_named r'.cores core).hook_table in
      let lone = (core_named r.cores core).lone in
      (s ≡ fail → exists hooks ≡ false)
      × (s ≡ ok
          → (exists hooks ≡ true)
            × (hooks.size ≡ (if lone then 1 else k.hooks_size))
            × (hooks.chunk_count ≡ 0)
            × (has_flag hooks.flags fl_no_realloc ≡ lone))
unfolding module_core_attach
module_core_attach-hooks k r core mem known new some_room =
    let c = core_named r.cores core in
    let size = if c.lone then 1 else k.hooks_size in
    let flags = if c.lone then fl_no_realloc else 0 in
    let (made, hooks) = create no_hook c.hook_table size 8 flags mem.hooks in
    let named = str_eq→eq c.name core (core_named-name r.cores core known) in
    let stored = core_named-put_core r.cores core (record c { hook_table = hooks }) named known in
    let torn =
      core_named-put_core r.cores core (record c { hook_table = (destroy no_hook hooks).1 }) named
        known in
    let outcome =
      create-outcome c.hook_table size flags mem.hooks new (ground arith) (ground arith) in
    elim (Status-cases made) [
      | inr refused ↦ ground (arith, refused, stored, outcome)
      | inl begun ↦ elim (Status-cases (insert none r.cortab (some core) mem.cores).0) [
        | inl listed ↦ ground (arith, begun, listed, stored, outcome)
        | inr refused ↦ ground (arith, begun, refused, torn, outcome)
      ]
    ]
