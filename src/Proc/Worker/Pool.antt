-- ===== src/Proc/Worker/Pool.antt =====
-- The pool of workers and the calls that the processor core makes (proc_worker.c). A pointer to a
-- worker is its place in `workers`; in the table of workers it may be NULL.
use rattle.Base.{
  ℕ, Bool, true, false, not, ◌&&◌, List, [], ◌∷◌, Option, none, some, Status, fail, ok, ◌==◌, ltb,
  if◌then◌else◌, get_or, set, inc_size,
}
use rattle.Table.State.{Table, zeroed, first, chunk}
use rattle.Table.Walk.{foreach, foreach_end, first_next, table_search}
use rattle.Table.Update.{Alloc, insert, del_current}
use rattle.Proc.Process.{Attr, Process, no_process, same_attr}

-- proc_worker_state_t
pub data WorkerState : Type 0 where
  boot idle running stopped : WorkerState

-- worker_register_t, without what the thread library keeps there; `memory_holder` is
-- PROC_WORKER_FLMEM.
pub record Worker : Type 0 where
  pub state : WorkerState
  pub memory_holder : Bool
  pub proctab : Table Process

-- What calloc() leaves.
abbrev pub no_worker : Worker
no_worker = record { state = boot; memory_holder = false; proctab = zeroed }

-- The state of the module: l_conf_worker_min, l_conf_worker_max, l_proc_worker_state, l_worktab,
-- `rrpos` of on_register(), and the workers whose threads were started and cancelled.
pub record Pool : Type 0 where
  pub min_workers : ℕ
  pub max_workers : ℕ
  pub state : WorkerState
  pub worktab : Table (Option ℕ)
  pub workers : List Worker
  pub rrpos : ℕ
  pub started : List ℕ
  pub cancelled : List ℕ

abbrev pub worker_at : Pool → ℕ → Worker
worker_at pool w = get_or pool.workers w no_worker

abbrev pub put_worker : Pool → ℕ → Worker → Pool
put_worker pool w worker = record pool { workers = set pool.workers w worker }

unfoldable pub check_config : Pool → Status
check_config pool =
    if pool.min_workers == 0
    then fail
    else if ltb pool.max_workers pool.min_workers
    then fail
    else ok

-- The part of compare_process() on attributes.
abbrev pub compare_attr : Option Attr → Option Attr → Bool
compare_attr (some a) (some b) = same_attr a b
compare_attr (some a) none = false
compare_attr none (some b) = false
compare_attr none none = true

-- Whether the entry `entry` is the process `proc` that is looked for.
unfoldable pub compare_process : Process → Process → Bool
compare_process entry proc =
    if not (proc.process == entry.process)
    then false
    else if not (proc.udata == 0) && not (proc.udata == entry.udata)
    then false
    else if not (entry.udata == 0)
    then false
    else compare_attr proc.attr entry.attr

-- The search and the deletion in the table of one worker, under its lock.
unfoldable pub unregister_process : Table Process → Process → Table Process
unregister_process t proc =
    let (found, match, t') = table_search no_process t (λ entry. compare_process entry proc) in
    elim match [ some _ ↦ (del_current no_process t').1 | none ↦ t' ]

abbrev pub unregister_at : Pool → Option ℕ → Process → Pool
unregister_at pool none proc = pool
unregister_at pool (some w) proc =
    let worker = worker_at pool w in
    put_worker pool w (record worker { proctab = unregister_process worker.proctab proc })

-- The loop of on_unregister(), which leaves at the first worker if `leaves`.
unfoldable pub unregister_each : List ℕ → Pool → Process → Bool → Pool
unregister_each [] pool proc leaves = pool
unregister_each (p ∷ ps) pool proc leaves =
    let pool' = unregister_at pool (get_or pool.worktab.head p none) proc in
    let rest = unregister_each ps pool' proc leaves in if leaves then pool' else rest

-- `junk` is what the variable `retval` holds, which on_unregister() never sets.
unfoldable pub on_unregister : Pool → Process → Status → Pool
on_unregister pool proc junk = elim junk [
  | ok ↦
      unregister_each (foreach pool.worktab) (record pool { worktab = (first_next pool.worktab).1 })
        proc true
  | fail ↦
      unregister_each (foreach pool.worktab)
        (record pool { worktab = record pool.worktab { pos = foreach_end pool.worktab } }) proc
        false
]

-- The round-robin selection: the slot, the table and the next `rrpos`.
unfoldable pub choose_worker : Table (Option ℕ) → ℕ → Option ℕ × Table (Option ℕ) × ℕ
choose_worker t rrpos =
    if ltb t.last rrpos
    then (let (c, t') = first t in (c, t', 1))
    else let (c, t') = chunk t rrpos in (c, t', inc_size rrpos)

-- worker_set_state() and pthread_cond_signal() for a worker that is idle.
unfoldable pub wake : Worker → Worker
wake worker = elim worker.state [ idle ↦ record worker { state = running } | _ ↦ worker ]

-- What on_register() does between the locks of the worker.
unfoldable pub register_process : Worker → Process → Alloc Process → Status × Worker
register_process worker proc a =
    let (s, t) = insert no_process worker.proctab proc a in
    let worker' = record worker { proctab = t } in
    elim s [ ok ↦ (ok, wake worker') | fail ↦ (fail, worker') ]

unfoldable pub on_register : Pool → Process → Alloc Process → Status × Pool
on_register pool proc a =
    let (slot, t, rrpos) = choose_worker pool.worktab pool.rrpos in
    let pool' = record pool { worktab = t; rrpos = rrpos } in
    elim slot [
      | none ↦ (fail, pool')
      | some p ↦ elim (get_or t.head p none) [
        | none ↦ (fail, pool')
        | some w ↦
            let (s, worker) = register_process (worker_at pool' w) proc a in
            (s, put_worker pool' w worker)
      ]
    ]
