-- ===== src/Proc/Tests.antt =====
-- Workers and a processor core, and the theorems and the code at them.
use rattle.Base.{
  ◌≢◌, ℕ, ◌+◌, ◌≤◌, ◌<◌, ◌≡◌, refl, true, false, [], ◌∷◌, none, some, fail, ok, leb, arith,
  if◌then◌else◌,
}
use rattle.Table.Update.{insert}
use rattle.Table.State.{zeroed, exists, isempty}
use rattle.Proc.Process.{no_process}
use rattle.Proc.Worker.Pool.{worker_at, boot, idle, Worker, Pool, unregister_process}
use rattle.Proc.Worker.Threads.{Creation, worker_create}
use rattle.Proc.Worker.Matching.{unregister_process-udata}
use rattle.Args.Sections.{no_sections}
use rattle.Proc.Core.{ProcCore, ratt_proc_register}
use rattle.Proc.Spread.{Spread, worker_hook, registered, ratt_proc_register-spread}
use rattle.Proc.Worker.Limits.{worker_create-limit}
use rattle.Proc.Samples.{one, two, processes, processes-IsValid, memory}

unregister_process-udata_example :
    unregister_process processes one
    ≡ record processes { pos = (unregister_process processes one).pos }
unregister_process-udata_example =
    unregister_process-udata processes one processes-IsValid (omega arith)
      (λ e. absurd (omega arith))

abbrev worker : Worker
worker = record { state = idle; memory_holder = true; proctab = processes }

abbrev pool : Pool
pool = record {
  min_workers = 2;
  max_workers = 3;
  state = boot;
  worktab = record {
    head = some 0 ∷ some 1 ∷ none ∷ none ∷ [];
    tail = 1;
    size = 4;
    pos = 1;
    last = 1;
    chunk_size = 8;
    chunk_count = 2;
    frag_count = 0;
    frag_mask = 0 ∷ [];
    flags = 5;
    constrains = none;
    on_constrains = none;
    dangling = false;
  };
  workers = worker ∷ worker ∷ [];
  rrpos = 0;
  started = [];
  cancelled = [];
}

abbrev core : ProcCore Spread
core = record {
  registry = record {
    modtab = zeroed;
    cortab = zeroed;
    cores = [];
    sections = no_sections;
    config = [];
  };
  hook = some worker_hook;
  inner = record { pool = pool; answers = λ i. memory no_process; junk = fail };
  config = [];
}

-- The process after three others goes to the second of two workers.
ratt_proc_register-spread_example :
    let before = (registered core 3 (λ i. two)).inner in
    let (s, c') = ratt_proc_register (registered core 3 (λ i. two)) one in
    let after = c'.inner.pool in
    let (s', t) = insert no_process (worker_at before.pool 1).proctab one (before.answers 0) in
    (s ≡ s')
    × ((worker_at after 1).proctab ≡ t)
    × ((v : ℕ) → v ≢ 1 → worker_at after v ≡ worker_at before.pool v)
unfolding isempty exists
ratt_proc_register-spread_example =
    ratt_proc_register-spread 3 core (λ i. two) one 1 refl refl (omega arith) refl refl
      (omega arith)

abbrev willing : ℕ → Creation
willing i = record { proctab = memory no_process; thread_ok = true; worktab = memory none }

-- Five more are wanted, one is created.
worker_create-limit_example :
    let (s, pool') = worker_create pool 5 true willing in
    (pool'.worktab.chunk_count ≤ 3)
    × (s ≡ ok → 2 < pool'.worktab.chunk_count)
    × (s ≡ ok → pool'.worktab.chunk_count ≡ (if leb (2 + 5) 3 then 2 + 5 else 3))
worker_create-limit_example =
    worker_create-limit pool 5 true willing refl (omega arith) (omega arith) (omega arith)
