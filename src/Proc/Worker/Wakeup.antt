-- ===== src/Proc/Worker/Wakeup.antt =====
-- Invariants of a worker that shares its table with on_register(), on_unregister() and on_start()
-- (proc_worker.c).
use rattle.Base.{ℕ, ◌≡◌, ◌≢◌, ◌⊎◌, Bool, true, false, arith}
use rattle.Table.State.{Table}
use rattle.Proc.Process.{Process}
use rattle.Proc.Worker.Pool.{idle, running, Worker, wake}
use rattle.Proc.Worker.Monitor.{
  Lock, free, by_loop, both, inserted, TabLock, tab_by_loop, tab_by_register, LoopAt, testing,
  waiting, at_proctab, choosing, chosen, picked, in_process, Monitor, Enter, Inside, Run, loop_lock,
  loop_wake, loop_call, loop_return, register_lock, unregister_lock, start_lock, loop_wait, loop_go,
  loop_lock_proctab, loop_choose, loop_idle, loop_unlock, register_lock_proctab, register_insert,
  register_refused, register_signal, register_leave, unregister_delete, start_signal, enter, inside,
  here, later, begun,
}

-- Where the loop holds `lock`, where it has seen the worker running under it, where it has
-- chosen, and where it holds `proctab_lock`.
abbrev pub holds_lock : LoopAt → Bool
holds_lock testing = true
holds_lock at_proctab = true
holds_lock choosing = true
holds_lock (chosen slot) = true
holds_lock _ = false

abbrev pub has_chosen : LoopAt → Bool
has_chosen (chosen slot) = true
has_chosen _ = false

abbrev pub holds_tab : LoopAt → Bool
holds_tab choosing = true
holds_tab _ = false

abbrev pub is_by_loop : Lock → Bool
is_by_loop by_loop = true
is_by_loop _ = false

abbrev pub is_inserted : Lock → Bool
is_inserted inserted = true
is_inserted _ = false

-- Where on_register() holds both locks.
abbrev pub holds_both : Lock → Bool
holds_both (both proc) = true
holds_both inserted = true
holds_both _ = false

abbrev pub is_tab_by_loop : TabLock → Bool
is_tab_by_loop tab_by_loop = true
is_tab_by_loop _ = false

abbrev pub is_tab_by_register : TabLock → Bool
is_tab_by_register tab_by_register = true
is_tab_by_register _ = false

abbrev pub Sound : Monitor → Type 0
Sound s =
    (holds_lock s.loop ≡ is_by_loop s.lock)
    × (holds_tab s.loop ≡ is_tab_by_loop s.tab_lock)
    × (holds_both s.lock ≡ is_tab_by_register s.tab_lock)
    × (has_chosen s.loop ≡ true → s.unseen ≡ false)
    × (s.unseen ≡ true → is_inserted s.lock ≡ false → s.worker.state ≢ idle)
    × (s.loop ≡ waiting → s.worker.state ≡ running → s.signalled ≡ true)

pub begun-Sound : (t : Table Process) → Sound (begun t)
begun-Sound t = ground arith

Enter-Sound : {s t : Monitor} → Enter s t → Sound s → Sound t
Enter-Sound {s} (loop_lock e f) v = ground (arith, e, f, v)
Enter-Sound {s} (loop_wake e f) v = ground (arith, e, f, v)
Enter-Sound {s} (loop_call p e) v = ground (arith, e, v)
Enter-Sound {s} (loop_return proc e) v = ground (arith, e, v)
Enter-Sound {s} (register_lock proc f) v = ground (arith, f, v)
Enter-Sound {s} (unregister_lock proc f) v = ground (arith, f, v)
Enter-Sound {s} (start_lock f) v = ground (arith, f, v)

wake-idle : (worker : Worker) → worker.state ≡ idle → (wake worker).state ≡ running
unfolding wake
wake-idle worker e = ground (arith, e)

wake-busy : (worker : Worker) → worker.state ≢ idle → wake worker ≡ worker
unfolding wake
wake-busy worker ne = ground (arith, ne)

Inside-Sound : {s t : Monitor} → Inside s t → Sound s → Sound t
Inside-Sound {s} (loop_wait e ne) v = ground (arith, e, ne, v)
Inside-Sound {s} (loop_go e f) v = ground (arith, e, f, v)
Inside-Sound {s} (loop_lock_proctab e f) v = ground (arith, e, f, v)
Inside-Sound {s} (loop_choose e) v = ground (arith, e, v)
Inside-Sound {s} (loop_idle e) v = ground (arith, e, v)
Inside-Sound {s} (loop_unlock p e) v = ground (arith, e, v)
Inside-Sound {s} (register_lock_proctab proc e f) v = ground (arith, e, f, v)
Inside-Sound {s} (register_insert proc a e f) v = ground (arith, e, v)
Inside-Sound {s} (register_refused proc a e f) v = ground (arith, e, v)
Inside-Sound {s} (register_signal e f) v = ground (arith, e, f, v, wake-idle s.worker f)
Inside-Sound {s} (register_leave e ne) v = ground (arith, e, ne, v, wake-busy s.worker ne)
Inside-Sound {s} (unregister_delete proc e) v = ground (arith, e, v)
Inside-Sound {s} (start_signal e) v = ground (arith, e, v)

pub Run-Sound : {s t : Monitor} → Run s t → Sound s → Sound t
Run-Sound here v = v
Run-Sound (later r (enter e)) v = Enter-Sound e (Run-Sound r v)
Run-Sound (later r (inside i)) v = Inside-Sound i (Run-Sound r v)

module _ {proctab : Table Process} {s : Monitor} (run : Run (begun proctab) s) where
  sound : Sound s
  sound = Run-Sound run (begun-Sound proctab)

  -- No wake-up is lost: as long as the loop has not looked at the table since a process was put
  -- there, and on_register() is not in between, the worker is not idle, and if it is running while
  -- the loop waits then the loop has been signalled.
  pub Run-no_lost_wakeup :
      s.unseen ≡ true
      → s.lock ≡ free
      → (s.worker.state ≢ idle) × (s.loop ≡ waiting → s.worker.state ≡ running → s.signalled ≡ true)
  Run-no_lost_wakeup came left =
      let (_, _, _, _, awake, sleeping) = sound in (ground (arith, left, came, awake), sleeping)

  -- While a process runs, and while its slot is read before, the loop holds no lock of the worker,
  -- so that the process may register and unregister.
  pub Run-unlocked :
      (p : ℕ) (proc : Process)
      → (s.loop ≡ picked p) ⊎ (s.loop ≡ in_process proc)
      → (s.lock ≢ by_loop) × (s.tab_lock ≢ tab_by_loop)
  Run-unlocked p proc outside = ground (arith, outside, sound)
