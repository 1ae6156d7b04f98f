-- ===== src/Coretab/Tests.antt =====
-- A table of cores and a list of parts at which the theorems apply.
use rattle.Base.{
  ℕ, zero, suc, ◌≤◌, ◌≡◌, ◌≢◌, refl, true, false, List, [], ◌∷◌, ◌++◌, Option, none, some, Status,
  fail, ok, length, arith,
}
use rattle.Table.State.{Table, zeroed, set_constrains, exists, current, isempty, first, fragmented}
use rattle.Table.Walk.{satisfy_constrains, table_search, search_from, first_next, next}
use rattle.Table.Update.{
  Alloc, create, insert, write_chunk, get_frag_first, get_tail_next, take_tail_next,
}
use rattle.Table.Valid.{lookup}
use rattle.Table.Reuse.{free_slot}
use rattle.Table.Write.{Stores}
use rattle.Args.Words.{str_eq}
use rattle.Coretab.Cores.{RattCore, core_init, core_register, create_core_table}
use rattle.Coretab.Names.{Ready, Distinct, core_init-Ready, core_register-Distinct}
use rattle.Coretab.Startup.{
  started, not_started, Part, inited, registered, finished, went_on, exit_failure,
  initialize_core_components, initialize_from,
}
use rattle.Coretab.Order.{called, begun, kept, ended, from, initialize_core_components-InOrder}

abbrev memory : Alloc (Option RattCore)
memory = record {
  head_ok = true;
  head_moved = false;
  mask_ok = true;
  junk = none;
  junk_byte = λ i. 0;
}

-- "proc"
abbrev proc_core : RattCore
proc_core = record { name = 112 ∷ 114 ∷ 111 ∷ 99 ∷ []; ver_major = 1 }

abbrev empty : Table (Option RattCore)
empty = (core_init zeroed memory).1

registers : (core_register 1 empty proc_core memory).0 ≡ ok
unfolding core_init create_core_table create exists set_constrains core_register insert write_chunk
    satisfy_constrains table_search current isempty search_from first_next first next get_frag_first
    fragmented get_tail_next take_tail_next
registers = refl

core_register-Distinct_example :
    let t' = (core_register 1 empty proc_core memory).1 in
    (1 ≤ 1)
    × (length proc_core.name ≢ 0)
    × ((i : ℕ) (c : RattCore)
        → lookup none empty i ≡ some (some c)
        → str_eq c.name proc_core.name ≡ false)
    × Stores none empty t' (free_slot empty) (some proc_core)
    × Ready t'
    × Distinct t'
unfolding core_init create_core_table create exists set_constrains
core_register-Distinct_example =
    let (ready, distinct, _) = core_init-Ready zeroed memory refl in
    core_register-Distinct 1 empty proc_core memory ready (λ full. absurd (omega arith)) distinct
      registers

-- Of four parts the first starts, the second does not want to, the destructor of the third cannot
-- be registered. The state counts the parts that run.
abbrev starting : Part ℕ
starting = record { init = λ s. (started, suc s); fini = some (λ s. 0) }

abbrev staying : Part ℕ
staying = record starting { init = λ s. (not_started, s) }

abbrev registrar : ℕ → Status
registrar zero = ok
registrar (suc i) = fail

abbrev parts : List (Part ℕ)
parts = starting ∷ staying ∷ starting ∷ starting ∷ []

initialize_core_components-InOrder_example :
    let (end, s', calls) = initialize_core_components registrar parts 0 in
    (called calls ≡ from 0 (length (called calls)))
    × (length (called calls) ≤ 4)
    × (begun calls ≡ kept calls ++ ended calls)
    × (end ≢ exit_failure → ended calls ≡ [])
    × (end ≡ went_on → length (called calls) ≡ 4)
initialize_core_components-InOrder_example =
    initialize_core_components-InOrder registrar parts 0 refl

parts_started : initialize_core_components registrar parts 0 ≡ (
  exit_failure,
  0,
  inited 0 started ∷ registered 0 ∷ inited 1 not_started ∷ inited 2 started ∷ finished 2 ∷ [],
)
unfolding initialize_core_components initialize_from
parts_started = refl
