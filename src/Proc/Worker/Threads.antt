-- ===== src/Proc/Worker/Threads.antt =====
-- Creating, starting, stopping and destroying workers, and the callbacks of the module
-- (proc_worker.c).
use rattle.Base.{
  ℕ, zero, suc, ◌+◌, ◌-◌, ◌%◌, ◌^◌, Bool, true, not, List, [], ◌∷◌, ◌++◌, Option, none, some,
  Status, fail, ok, ◌==◌, ltb, if◌then◌else◌, get_or, length, replicate,
}
use rattle.Table.State.{Table, fl_no_reuse}
use rattle.Table.Walk.{foreach, foreach_end, foreach_reverse}
use rattle.Table.Update.{Alloc, create, destroy, push}
use rattle.Proc.Process.{Process, no_process}
use rattle.Proc.Worker.Pool.{
  running, stopped, Worker, no_worker, Pool, worker_at, put_worker, check_config,
}

-- What the system answers while a worker is created: the allocator to its table of processes,
-- pthread_create(), and the allocator to the push of the worker.
pub record Creation : Type 0 where
  pub proctab : Alloc Process
  pub thread_ok : Bool
  pub worktab : Alloc (Option ℕ)

-- The loop of worker_create() over `n` workers, from the worker `w` and round `i` on: the round
-- in which it ends.
unfoldable pub create_from : ℕ → ℕ → ℕ → Pool → (ℕ → Creation) → ℕ × Pool
create_from zero w i pool answers = (i, pool)
create_from (suc n) w i pool answers =
    let worker = worker_at pool w in
    let (made, t) = create no_process worker.proctab 4 32 0 (answers i).proctab in
    let ready = put_worker pool w (record worker { proctab = t; state = stopped }) in
    let torn : Worker = record worker { proctab = (destroy no_process t).1; state = stopped } in
    let (pushed, tab) = push none pool.worktab (some w) (answers i).worktab in
    let begun = record ready { worktab = tab; started = w ∷ pool.started } in
    let rest = create_from n (w + 1) (i + 1) begun answers in
    elim made [
      | fail ↦ (i, put_worker pool w (record worker { proctab = t }))
      | ok ↦ if not (answers i).thread_ok then (i, put_worker pool w torn) else elim pushed [
        | fail ↦ (i, record begun { cancelled = w ∷ pool.cancelled })
        | ok ↦ rest
      ]
    ]

-- How many workers are created where `wanted` are: the counts are of type size_t, `wanted` is an
-- unsigned int.
unfoldable pub granted : Pool → ℕ → ℕ
granted pool wanted =
    let now = pool.worktab.chunk_count in
    if ltb pool.max_workers ((now + wanted) % 2 ^ 64)
    then (pool.max_workers + (2 ^ 64 - now)) % 2 ^ 32
    else wanted

-- calloc() of `n` workers, of which the first holds the memory.
abbrev pub new_block : ℕ → List Worker
new_block zero = []
new_block (suc n) = record no_worker { memory_holder = true } ∷ replicate n no_worker

unfoldable pub worker_create : Pool → ℕ → Bool → (ℕ → Creation) → Status × Pool
worker_create pool wanted calloc_ok answers =
    let n = granted pool wanted in
    let with_block = record pool { workers = pool.workers ++ new_block n } in
    let (i, pool') = create_from n (length pool.workers) 0 with_block answers in
    if n == 0
    then (fail, pool)
    else if not calloc_ok
    then (fail, pool)
    else (if i == n then ok else fail, pool')

-- The table of workers with the cursor where a loop over it ends.
abbrev walked : Table (Option ℕ) → Table (Option ℕ)
walked t = record t { pos = foreach_end t }

-- The workers get to work.
unfoldable pub start_each : List ℕ → Pool → Pool
start_each [] pool = pool
start_each (p ∷ ps) pool = elim (get_or pool.worktab.head p none) [
  | none ↦ start_each ps pool
  | some w ↦ start_each ps (put_worker pool w (record (worker_at pool w) { state = running }))
]

unfoldable pub on_start : Pool → Status × Pool
on_start pool = elim pool.state [
  | running ↦ (fail, pool)
  | _ ↦ (
    ok,
    start_each (foreach pool.worktab)
        (record pool { state = running; worktab = walked pool.worktab }),
  )
]

unfoldable pub cancel_each : List ℕ → Pool → Pool
cancel_each [] pool = pool
cancel_each (p ∷ ps) pool = elim (get_or pool.worktab.head p none) [
  | none ↦ cancel_each ps pool
  | some w ↦ cancel_each ps (record pool { cancelled = w ∷ pool.cancelled })
]

unfoldable pub on_stop : Pool → Status × Pool
on_stop pool = elim pool.state [
  | stopped ↦ (fail, pool)
  | _ ↦ (
    ok,
    cancel_each (foreach pool.worktab)
        (record pool { state = stopped; worktab = walked pool.worktab }),
  )
]

-- What worker_flush() gives back: the table of a worker, or the block that begins with it.
pub data Given : Type 0 where
  table_of block_of : ℕ → Given

abbrev pub flush_one : Pool → Option ℕ → Pool × List Given
flush_one pool none = (pool, [])
flush_one pool (some w) =
    let worker = worker_at pool w in
    (
      put_worker pool w (record worker { proctab = (destroy no_process worker.proctab).1 }),
      table_of w ∷ (if worker.memory_holder then block_of w ∷ [] else []),
    )

unfoldable pub flush_each : List ℕ → Pool → Pool × List Given
flush_each [] pool = (pool, [])
flush_each (p ∷ ps) pool =
    let (pool', given) = flush_one pool (get_or pool.worktab.head p none) in
    let (pool'', more) = flush_each ps pool' in (pool'', given ++ more)

unfoldable pub worker_flush : Pool → Pool × List Given
worker_flush pool = flush_each (foreach_reverse pool.worktab) pool

-- The callbacks of the module: attach_module() up to the hook, detach_module(), init_module() and
-- fini_module().
unfoldable pub attach_module : Pool → Bool → (ℕ → Creation) → Status × Pool
attach_module pool calloc_ok answers = elim (check_config pool) [
  | fail ↦ (fail, pool)
  | ok ↦ worker_create pool pool.min_workers calloc_ok answers
]

unfoldable pub detach_module : Pool → Pool × List Given
detach_module pool = worker_flush pool

unfoldable pub init_module : Pool → Alloc (Option ℕ) → Status × Pool
init_module pool a =
    let (s, t) = create none pool.worktab 4 8 fl_no_reuse a in (s, record pool { worktab = t })

unfoldable pub fini_module : Pool → Pool
fini_module pool = record pool { worktab = (destroy none pool.worktab).1 }
