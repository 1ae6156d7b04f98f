-- ===== src/Proc/MonitorTests.antt =====
-- Runs of a worker, and the theorems at them.
use rattle.Base.{◌≡◌, ◌≢◌, refl, true, false, inl, inc_size}
use rattle.Table.Mask.{is_frag}
use rattle.Table.State.{Table, exists, fragmented, isempty}
use rattle.Table.Walk.{skipped, pos_isfrag, next, next_from, circular_next, satisfy_constrains}
use rattle.Table.Update.{insert, write_chunk, get_frag_first, get_tail_next, take_tail_next}
use rattle.Proc.Process.{Process, no_process}
use rattle.Proc.Worker.Pool.{idle, running, stopped, wake}
use rattle.Proc.Worker.Monitor.{
  Monitor, Inside, by_loop, tab_by_loop, waiting, testing, picked, Run, here, later, enter, inside,
  loop_lock, loop_wait, loop_go, loop_lock_proctab, loop_choose, loop_unlock, start_signal,
  register_lock, register_lock_proctab, register_insert, register_leave, start_lock, begun,
}
use rattle.Proc.Worker.Wakeup.{Run-no_lost_wakeup, Run-unlocked}
use rattle.Proc.Worker.Progress.{Run-unblocked}
use rattle.Proc.Samples.{two, processes, memory}

-- The loop waits, as the processor has not started, and a process is registered.
abbrev slept : Monitor
slept = record (begun processes) { loop = waiting }

abbrev given : Table Process
given = (insert no_process processes two (memory no_process)).1

abbrev visited : Monitor
visited = record slept {
  worker = record { state = stopped; memory_holder = false; proctab = given };
  unseen = true;
}

visit_asleep : Run (begun processes) visited
unfolding insert write_chunk satisfy_constrains get_frag_first get_tail_next take_tail_next inc_size
    isempty exists wake fragmented
visit_asleep =
    later
      (later
        (later
          (later
            (later (later here (enter (loop_lock refl refl)))
              (inside (loop_wait refl (λ e. absurd (cc)))))
            (enter (register_lock two refl)))
          (inside (register_lock_proctab two refl refl)))
        (inside (register_insert two (memory no_process) refl refl)))
      (inside (register_leave refl (λ e. absurd (cc))))

Run-no_lost_wakeup_example :
    (visited.worker.state ≢ idle)
    × (visited.loop ≡ waiting → visited.worker.state ≡ running → visited.signalled ≡ true)
Run-no_lost_wakeup_example = Run-no_lost_wakeup visit_asleep refl refl

-- The processor starts, and the loop comes to the process in slot 1.
abbrev at_work : Monitor
at_work = record (begun processes) {
  worker = record {
    state = running;
    memory_holder = false;
    proctab = record processes { pos = 1 };
  };
  loop = picked 1;
  signalled = true;
}

visit_at_work : Run (begun processes) at_work
unfolding circular_next next next_from isempty exists skipped pos_isfrag is_frag fragmented
visit_at_work =
    later
      (later
        (later
          (later
            (later (later (later here (enter (start_lock refl))) (inside (start_signal refl)))
              (enter (loop_lock refl refl)))
            (inside (loop_go refl refl)))
          (inside (loop_lock_proctab refl refl)))
        (inside (loop_choose refl)))
      (inside (loop_unlock 1 refl))

Run-unlocked_example : (at_work.lock ≢ by_loop) × (at_work.tab_lock ≢ tab_by_loop)
Run-unlocked_example = Run-unlocked visit_at_work 1 no_process (inl refl)

Run-unblocked_example :
    (t : Monitor) × Inside (record (begun processes) { loop = testing; lock = by_loop }) t
Run-unblocked_example =
    Run-unblocked (later here (enter (loop_lock refl refl))) (inl (λ e. absurd (cc)))
