-- ===== src/Proc/Spread.antt =====
-- The processor core with the worker processor attached: what ratt_proc_register() comes to.
use rattle.Base.{
  ℕ, zero, suc, ◌+◌, ◌%◌, ◌^◌, ◌<◌, ◌≡◌, ◌≢◌, refl, ap, List, none, length, get_or, Option, some,
  Status, arith, ap₂, ◌∙◌, false,
}
use rattle.Table.State.{isempty}
use rattle.Table.Update.{Alloc, insert}
use rattle.Proc.Process.{Process, no_process}
use rattle.Proc.Worker.Pool.{Worker, Pool, worker_at, on_register, on_unregister, choose_worker}
use rattle.Proc.Worker.Threads.{on_start, on_stop}
use rattle.Proc.Worker.Turns.{pool_after, turn, pool_after-round_robin, on_register-proctab}
use rattle.Proc.Core
use rattle.Proc.Core.{ProcHook, ProcCore, ratt_proc_register}

-- A pool with what the allocator will answer to the registrations to come, and what the variable
-- that on_unregister() does not set holds.
pub record Spread : Type 0 where
  pub pool : Pool
  pub answers : ℕ → Alloc Process
  pub junk : Status

abbrev with_pool : Spread → Status × Pool → Status × Spread
with_pool s (done, pool) = (done, record s { pool = pool })

-- The calls that attach_module() of the worker processor puts into the hook.
unfoldable pub worker_hook : ProcHook Spread
worker_hook = record {
  start = some (λ s. with_pool s (on_start s.pool));
  stop = some (λ s. with_pool s (on_stop s.pool));
  unregister = some (λ s proc. record s { pool = on_unregister s.pool proc s.junk });
  register = some (λ s proc.
      let (done, pool) = on_register s.pool proc (s.answers 0) in
      (done, record s { pool = pool; answers = λ i. s.answers (i + 1) }));
}

-- The processor core after some registrations.
unfoldable pub registered : ProcCore Spread → ℕ → (ℕ → Process) → ProcCore Spread
registered c zero procs = c
registered c (suc k) procs = registered (ratt_proc_register c (procs 0)).1 k (λ i. procs (i + 1))

register-worker :
    (c : ProcCore Spread) (proc : Process)
    → c.hook ≡ some worker_hook
    → let c' = (ratt_proc_register c proc).1 in
      (c'.hook ≡ some worker_hook)
      × (c'.inner.pool ≡ (on_register c.inner.pool proc (c.inner.answers 0)).1)
      × (c'.inner.answers ≡ (λ i. c.inner.answers (i + 1)))
      × ((ratt_proc_register c proc).0 ≡ (on_register c.inner.pool proc (c.inner.answers 0)).0)
unfolding ratt_proc_register Core.on_register worker_hook
register-worker c proc hooked = ground (arith, hooked)

registered-pool_after :
    (k : ℕ) (c : ProcCore Spread) (procs : ℕ → Process)
    → c.hook ≡ some worker_hook
    → let c' = registered c k procs in
      (c'.hook ≡ some worker_hook)
      × (c'.inner.pool ≡ pool_after c.inner.pool k procs c.inner.answers)
unfolding registered pool_after
registered-pool_after zero c procs hooked = (hooked, refl)
registered-pool_after (suc k) c procs hooked =
    let (still, pool, answers, _) = register-worker c (procs 0) hooked in
    let (last, rest) =
      registered-pool_after k (ratt_proc_register c (procs 0)).1 (λ i. procs (i + 1)) still in
    (
      last,
      rest
          ∙ ap₂ (λ (p : Pool) (a : ℕ → Alloc Process). pool_after p k (λ i. procs (i + 1)) a) pool
              answers,
    )

-- With the worker processor attached and the first slot of the table of workers next,
-- ratt_proc_register() spreads the processes evenly over the `n` slots of that table, counted up to
-- its last one: after `k` registrations, whether or not they succeeded, the next process is inserted
-- into the table of the worker `w` in slot `k` modulo `n`, the call answers what that insertion
-- answers, and every other worker stays as it was. The slot is taken to hold a worker.
pub ratt_proc_register-spread :
    (k : ℕ) (c : ProcCore Spread) (procs : ℕ → Process) (proc : Process) (w : ℕ)
    → c.hook ≡ some worker_hook
    → isempty c.inner.pool.worktab ≡ false
    → c.inner.pool.worktab.last + 2 < 2 ^ 64
    → c.inner.pool.rrpos ≡ 0
    → get_or c.inner.pool.worktab.head (k % suc c.inner.pool.worktab.last) none ≡ some w
    → w < length c.inner.pool.workers
    → let before = (registered c k procs).inner in
      let (s, c') = ratt_proc_register (registered c k procs) proc in
      let after = c'.inner.pool in
      let (s', t) = insert no_process (worker_at before.pool w).proctab proc (before.answers 0) in
      (s ≡ s')
      × ((worker_at after w).proctab ≡ t)
      × ((v : ℕ) → v ≢ w → worker_at after v ≡ worker_at before.pool v)
unfolding pool_after
ratt_proc_register-spread k c procs proc w hooked some_worker limit start there inside =
    let pool = c.inner.pool in
    let d = registered c k procs in
    let (still, same) = registered-pool_after k c procs hooked in
    let (chosen, slots, workers) =
      pool_after-round_robin k pool procs c.inner.answers some_worker limit start in
    let p = k % suc pool.worktab.last in
    let chosen' : turn d.inner.pool ≡ some p = ap turn same ∙ chosen in
    let slots' = ap (λ (q : Pool). (choose_worker q.worktab q.rrpos).1.head) same ∙ slots in
    let there' = ap (λ (ws : List (Option ℕ)). get_or ws p none) slots' ∙ there in
    let workers' : length d.inner.pool.workers ≡ length pool.workers =
      ap (λ (q : Pool). length q.workers) same ∙ workers in
    let inside' : w < length d.inner.pool.workers = omega (arith, workers', inside) in
    let stored =
      on_register-proctab d.inner.pool proc (d.inner.answers 0) p w chosen' there' inside' in
    let (_, pool', _, done) = register-worker d proc still in
    let w' = λ (v : ℕ). ap (λ (q : Pool). worker_at q v) pool' in
    (
      done ∙ stored.0,
      ap (λ (x : Worker). x.proctab) (w' w) ∙ stored.1,
      λ v other. w' v ∙ stored.2 v other,
    )
