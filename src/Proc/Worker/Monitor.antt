-- ===== src/Proc/Worker/Monitor.antt =====
-- worker_loop() and the calls that share a worker with it (proc_worker.c). A step ends where a lock
-- is taken or released, or where the thread decides how to go on.
-- A lock carries how far the thread has come that holds it, which is the only place where any
-- number of callers differ.
use rattle.Base.{ℕ, ◌≡◌, ◌≢◌, Bool, true, false, Option, none, some, fail, ok, get_or}
use rattle.Table.State.{Table}
use rattle.Table.Walk.{circular_next}
use rattle.Table.Update.{Alloc, insert}
use rattle.Proc.Process.{Process, no_process}
use rattle.Proc.Worker.Pool.{WorkerState, idle, running, stopped, Worker, unregister_process, wake}

-- Who holds `lock`: nobody, the loop, on_register() before it takes the second lock, with both,
-- and behind the insertion, or on_start().
pub data Lock : Type 0 where
  free by_loop : Lock
  entered both : Process → Lock
  inserted by_start : Lock

-- Who holds `proctab_lock`: nobody, the loop, on_register() or on_unregister().
pub data TabLock : Type 0 where
  tab_free tab_by_loop tab_by_register : TabLock
  tab_by_unregister : Process → TabLock

-- Where the loop is: before it takes `lock`, at the test of the state, in pthread_cond_wait(),
-- before it takes `proctab_lock`, at the choice, behind it, without locks before it reads the
-- slot that it chose, and in the process that it read there.
pub data LoopAt : Type 0 where
  top testing waiting at_proctab choosing : LoopAt
  chosen : Option ℕ → LoopAt
  picked : ℕ → LoopAt
  in_process : Process → LoopAt

-- `signalled` says that `get_to_work` was signalled since the loop began to wait. The code does
-- not have `unseen`, which says that a process came since the loop last looked at the table.
pub record Monitor : Type 0 where
  pub worker : Worker
  pub lock : Lock
  pub tab_lock : TabLock
  pub loop : LoopAt
  pub signalled : Bool
  pub unseen : Bool

abbrev pub with_state : Worker → WorkerState → Worker
with_state worker state = record worker { state = state }

abbrev pub with_proctab : Worker → Table Process → Worker
with_proctab worker t = record worker { proctab = t }

abbrev pub process_at : Table Process → ℕ → Process
process_at t p = get_or t.head p no_process

-- The steps of those who hold no lock.
pub data Enter (s : Monitor) : Monitor → Type 0 where
  loop_lock : s.loop ≡ top → s.lock ≡ free → Enter s (record s { lock = by_loop; loop = testing })
  -- Signalled or not, which pthread_cond_wait() allows.
  loop_wake :
      s.loop ≡ waiting → s.lock ≡ free → Enter s (record s { lock = by_loop; loop = testing })
  loop_call :
      (p : ℕ)
      → s.loop ≡ picked p
      → Enter s (record s { loop = in_process (process_at s.worker.proctab p) })
  loop_return : (proc : Process) → s.loop ≡ in_process proc → Enter s (record s { loop = top })
  register_lock : (proc : Process) → s.lock ≡ free → Enter s (record s { lock = entered proc })
  unregister_lock :
      (proc : Process)
      → s.tab_lock ≡ tab_free
      → Enter s (record s { tab_lock = tab_by_unregister proc })
  start_lock : s.lock ≡ free → Enter s (record s { lock = by_start })

-- The steps of those who hold a lock.
pub data Inside (s : Monitor) : Monitor → Type 0 where
  loop_wait :
      s.loop ≡ testing
      → s.worker.state ≢ running
      → Inside s (record s { lock = free; loop = waiting; signalled = false })
  loop_go : s.loop ≡ testing → s.worker.state ≡ running → Inside s (record s { loop = at_proctab })
  loop_lock_proctab :
      s.loop ≡ at_proctab
      → s.tab_lock ≡ tab_free
      → Inside s (record s { tab_lock = tab_by_loop; loop = choosing })
  loop_choose :
      s.loop ≡ choosing
      → Inside s (record s {
        worker = with_proctab s.worker (circular_next s.worker.proctab).1;
        tab_lock = tab_free;
        loop = chosen (circular_next s.worker.proctab).0;
        unseen = false;
      })
  loop_idle :
      s.loop ≡ chosen none
      → Inside s (record s { worker = with_state s.worker idle; lock = free; loop = top })
  loop_unlock :
      (p : ℕ) → s.loop ≡ chosen (some p) → Inside s (record s { lock = free; loop = picked p })
  register_lock_proctab :
      (proc : Process)
      → s.lock ≡ entered proc
      → s.tab_lock ≡ tab_free
      → Inside s (record s { lock = both proc; tab_lock = tab_by_register })
  register_insert :
      (proc : Process) (a : Alloc Process)
      → s.lock ≡ both proc
      → (insert no_process s.worker.proctab proc a).0 ≡ ok
      → Inside s (record s {
        worker = with_proctab s.worker (insert no_process s.worker.proctab proc a).1;
        lock = inserted;
        unseen = true;
      })
  register_refused :
      (proc : Process) (a : Alloc Process)
      → s.lock ≡ both proc
      → (insert no_process s.worker.proctab proc a).0 ≡ fail
      → Inside s (record s {
        worker = with_proctab s.worker (insert no_process s.worker.proctab proc a).1;
        lock = free;
        tab_lock = tab_free;
      })
  register_signal :
      s.lock ≡ inserted
      → s.worker.state ≡ idle
      → Inside s
          (record s { worker = wake s.worker; lock = free; tab_lock = tab_free; signalled = true })
  register_leave :
      s.lock ≡ inserted
      → s.worker.state ≢ idle
      → Inside s (record s { worker = wake s.worker; lock = free; tab_lock = tab_free })
  unregister_delete :
      (proc : Process)
      → s.tab_lock ≡ tab_by_unregister proc
      → Inside s (record s {
        worker = with_proctab s.worker (unregister_process s.worker.proctab proc);
        tab_lock = tab_free;
      })
  start_signal :
      s.lock ≡ by_start
      → Inside s (record s { worker = with_state s.worker running; lock = free; signalled = true })

pub data Step (s t : Monitor) : Type 0 where
  enter : Enter s t → Step s t
  inside : Inside s t → Step s t

pub data Run (s : Monitor) : Monitor → Type 0 where
  here : Run s s
  later : {t u : Monitor} → Run s t → Step t u → Run s u

-- A worker as worker_create() leaves it, before its thread runs.
abbrev pub begun : Table Process → Monitor
begun proctab = record {
  worker = record { state = stopped; memory_holder = false; proctab = proctab };
  lock = free;
  tab_lock = tab_free;
  loop = top;
  signalled = false;
  unseen = false;
}
