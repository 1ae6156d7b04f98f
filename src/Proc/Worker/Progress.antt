-- ===== src/Proc/Worker/Progress.antt =====
-- The holders of the locks of a worker (proc_worker.c).
use rattle.Base.{◌≡◌, ◌≢◌, ◌⊎◌, refl, true, false, none, some, arith, inl, inr, Status-cases}
use rattle.Table.State.{Table}
use rattle.Table.Update.{Alloc, insert}
use rattle.Proc.Process.{Process, no_process}
use rattle.Proc.Worker.Pool.{WorkerState, boot, idle, running, stopped}
use rattle.Proc.Worker.Monitor.{
  Lock, free, by_loop, entered, both, inserted, by_start, TabLock, tab_free, tab_by_loop,
  tab_by_register, tab_by_unregister, LoopAt, top, testing, waiting, at_proctab, choosing, chosen,
  picked, in_process, Monitor, Inside, Run, loop_wait, loop_go, loop_lock_proctab, loop_choose,
  loop_idle, loop_unlock, register_lock_proctab, register_insert, register_refused, register_signal,
  register_leave, unregister_delete, start_signal, begun,
}
use rattle.Proc.Worker.Wakeup.{holds_both, Sound, begun-Sound, Run-Sound}

-- Memory that can be had.
abbrev granted_memory : Alloc Process
granted_memory = record {
  head_ok = true;
  head_moved = false;
  mask_ok = true;
  junk = no_process;
  junk_byte = λ i. 0;
}

state-cases : (state : WorkerState) → (state ≡ idle) ⊎ (state ≢ idle)
state-cases boot = inr (λ e. absurd (cc))
state-cases idle = inl refl
state-cases running = inr (λ e. absurd (cc))
state-cases stopped = inr (λ e. absurd (cc))

running-cases : (state : WorkerState) → (state ≡ running) ⊎ (state ≢ running)
running-cases boot = inr (λ e. absurd (cc))
running-cases idle = inr (λ e. absurd (cc))
running-cases running = inl refl
running-cases stopped = inr (λ e. absurd (cc))

module _ (s : Monitor) (v : Sound s) where
  loop_moves :
      (at : LoopAt)
      → s.loop ≡ at
      → s.lock ≡ by_loop
      → s.tab_lock ≡ tab_free
      → (t : Monitor) × Inside s t
  loop_moves testing e l f = elim (running-cases s.worker.state) [
    | inl go ↦ (_, loop_go e go)
    | inr stay ↦ (_, loop_wait e stay)
  ]
  loop_moves at_proctab e l f = (_, loop_lock_proctab e f)
  loop_moves (chosen none) e l f = (_, loop_idle e)
  loop_moves (chosen (some p)) e l f = (_, loop_unlock p e)
  loop_moves top e l f = absurd (ground (arith, e, l, v))
  loop_moves waiting e l f = absurd (ground (arith, e, l, v))
  loop_moves choosing e l f = absurd (ground (arith, e, f, v))
  loop_moves (picked p) e l f = absurd (ground (arith, e, l, v))
  loop_moves (in_process proc) e l f = absurd (ground (arith, e, l, v))

  choice_moves : (at : LoopAt) → s.loop ≡ at → s.tab_lock ≡ tab_by_loop → (t : Monitor) × Inside s t
  choice_moves choosing e f = (_, loop_choose e)
  choice_moves testing e f = absurd (ground (arith, e, f, v))
  choice_moves at_proctab e f = absurd (ground (arith, e, f, v))
  choice_moves (chosen slot) e f = absurd (ground (arith, e, f, v))
  choice_moves top e f = absurd (ground (arith, e, f, v))
  choice_moves waiting e f = absurd (ground (arith, e, f, v))
  choice_moves (picked p) e f = absurd (ground (arith, e, f, v))
  choice_moves (in_process proc) e f = absurd (ground (arith, e, f, v))

  register_moves : (l : Lock) → s.lock ≡ l → holds_both l ≡ true → (t : Monitor) × Inside s t
  register_moves (both proc) e h =
      elim (Status-cases (insert no_process s.worker.proctab proc granted_memory).0) [
        | inl done ↦ (_, register_insert proc granted_memory e done)
        | inr refused ↦ (_, register_refused proc granted_memory e refused)
      ]
  register_moves inserted e h = elim (state-cases s.worker.state) [
    | inl sleeps ↦ (_, register_signal e sleeps)
    | inr busy ↦ (_, register_leave e busy)
  ]
  register_moves free e h = absurd (cc)
  register_moves by_loop e h = absurd (cc)
  register_moves (entered proc) e h = absurd (cc)
  register_moves by_start e h = absurd (cc)

  lock_moves :
      (l : Lock) → s.lock ≡ l → l ≢ free → s.tab_lock ≡ tab_free → (t : Monitor) × Inside s t
  lock_moves free e ne f = absurd (ne refl)
  lock_moves by_loop e ne f = loop_moves s.loop refl e f
  lock_moves (entered proc) e ne f = (_, register_lock_proctab proc e f)
  lock_moves (both proc) e ne f = absurd (ground (arith, e, f, v))
  lock_moves inserted e ne f = absurd (ground (arith, e, f, v))
  lock_moves by_start e ne f = (_, start_signal e)

  tab_moves :
      (l : TabLock) → s.tab_lock ≡ l → (s.lock ≢ free) ⊎ (l ≢ tab_free) → (t : Monitor) × Inside s t
  tab_moves tab_free e held = lock_moves s.lock refl (ground (arith, held)) e
  tab_moves tab_by_loop e held = choice_moves s.loop refl e
  tab_moves tab_by_register e held = register_moves s.lock refl (ground (arith, e, v))
  tab_moves (tab_by_unregister proc) e held = (_, unregister_delete proc e)

-- There is no deadlock: whenever one of the two locks of a worker is held, somebody who holds a
-- lock can go on.
pub Run-unblocked :
    {proctab : Table Process} {s : Monitor}
    → Run (begun proctab) s
    → (s.lock ≢ free) ⊎ (s.tab_lock ≢ tab_free)
    → (t : Monitor) × Inside s t
Run-unblocked {proctab} {s} run held =
    tab_moves s (Run-Sound run (begun-Sound proctab)) s.tab_lock refl held
