-- ===== src/Proc/Worker/Limits.antt =====
-- The number of workers that worker_create() makes (proc_worker.c).
use rattle.Base.{
  ℕ, zero, suc, ◌+◌, ◌^◌, ◌≤◌, ◌<◌, ◌≡◌, Bool, ◌++◌, Option, none, some, fail, ok, leb, ◌∷◌,
  if◌then◌else◌, length, arith, Status-cases, inl, inr, inc_size,
}
use rattle.Table.State.{Table}
use rattle.Table.Update.{
  Alloc, create, push, write_chunk, get_tail_next, take_tail_next, realloc_and_move,
}
use rattle.Table.Walk.{satisfy_constrains}
use rattle.Proc.Process.{no_process}
use rattle.Proc.Worker.Pool.{Pool, stopped, worker_at, put_worker}
use rattle.Proc.Worker.Threads.{Creation, create_from, granted, new_block, worker_create}

-- Where no more workers than the maximum exist, no more than are missing are granted.
granted-room :
    (pool : Pool) (wanted : ℕ)
    → pool.worktab.chunk_count ≤ pool.max_workers
    → pool.max_workers < 2 ^ 8
    → wanted < 2 ^ 32
    → (pool.worktab.chunk_count + granted pool wanted ≤ pool.max_workers)
      × (granted pool wanted ≤ wanted)
unfolding granted
granted-room pool wanted fits byte int = ground arith

granted-exact :
    (pool : Pool) (wanted : ℕ)
    → pool.worktab.chunk_count ≤ pool.max_workers
    → pool.max_workers < 2 ^ 8
    → wanted < 2 ^ 32
    → let now = pool.worktab.chunk_count in
      now + granted pool wanted
      ≡ (if leb (now + wanted) pool.max_workers then now + wanted else pool.max_workers)
unfolding granted
granted-exact pool wanted fits byte int = ground arith

-- A push on a table without constrains adds one chunk, or none.
push-count :
    (t : Table (Option ℕ)) (w : Option ℕ) (a : Alloc (Option ℕ))
    → t.constrains ≡ none
    → let (s, t') = push none t w a in
      (t'.constrains ≡ none)
      × (s ≡ ok → t.chunk_count + 1 < 2 ^ 64 → t'.chunk_count ≡ t.chunk_count + 1)
      × (s ≡ fail → t'.chunk_count ≡ t.chunk_count)
unfolding push write_chunk satisfy_constrains get_tail_next take_tail_next realloc_and_move inc_size
push-count t w a free = ground (arith, free)

-- Each round of the loop but the last one that fails adds one worker to the table.
create_from-count :
    (n w i : ℕ) (pool : Pool) (answers : ℕ → Creation)
    → pool.worktab.constrains ≡ none
    → pool.worktab.chunk_count + n < 2 ^ 64
    → let (i', pool') = create_from n w i pool answers in
      (pool'.worktab.chunk_count + i ≡ pool.worktab.chunk_count + i') × (i ≤ i') × (i' ≤ i + n)
unfolding create_from
create_from-count zero w i pool answers free room = ground arith
create_from-count (suc n) w i pool answers free room =
    let worker = worker_at pool w in
    let (made, t) = create no_process worker.proctab 4 32 0 (answers i).proctab in
    let ready = put_worker pool w (record worker { proctab = t; state = stopped }) in
    let (pushed, tab) = push none pool.worktab (some w) (answers i).worktab in
    let begun = record ready { worktab = tab; started = w ∷ pool.started } in
    let (free', more, same) = push-count pool.worktab (some w) (answers i).worktab free in
    elim (Status-cases pushed) [
      | inl done ↦
          let one = more done (omega arith) in
          let rest = create_from-count n (w + 1) (i + 1) begun answers free' (omega (arith, one)) in
          ground (arith, done, one, rest)
      | inr refused ↦ ground (arith, refused, same refused)
    ]

-- With no more workers than the maximum before, worker_create() does not exceed it, and where it
-- succeeds, which takes at least one worker, all that were granted were created: as many as were
-- wanted, or all that the maximum leaves room for.
pub worker_create-limit :
    (pool : Pool) (wanted : ℕ) (calloc_ok : Bool) (answers : ℕ → Creation)
    → pool.worktab.constrains ≡ none
    → pool.worktab.chunk_count ≤ pool.max_workers
    → pool.max_workers < 2 ^ 8
    → wanted < 2 ^ 32
    → let (s, pool') = worker_create pool wanted calloc_ok answers in
      let now = pool.worktab.chunk_count in
      (pool'.worktab.chunk_count ≤ pool.max_workers)
      × (s ≡ ok → now < pool'.worktab.chunk_count)
      × (s ≡ ok
          → pool'.worktab.chunk_count
            ≡ (if leb (now + wanted) pool.max_workers then now + wanted else pool.max_workers))
unfolding worker_create
worker_create-limit pool wanted calloc_ok answers free fits byte int =
    let n = granted pool wanted in
    let (room, most) = granted-room pool wanted fits byte int in
    let with_block = record pool { workers = pool.workers ++ new_block n } in
    let made =
      create_from-count n (length pool.workers) 0 with_block answers free (omega (arith, room)) in
    ground (arith, room, most, made, granted-exact pool wanted fits byte int)
