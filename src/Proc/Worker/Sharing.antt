-- ===== src/Proc/Worker/Sharing.antt =====
-- The calls of processes by any number of workers, with the locks of those that are not thread-safe
-- (worker_loop() and worker_cleanup_mutex_unlock() of proc_worker.c). A step ends where such a lock
-- is taken or released. The attributes are taken to stay as they are during a call.
use rattle.Base.{ℕ, ◌≡◌, ◌≢◌, Option, none, some, ◌==◌, if◌then◌else◌}
use rattle.Table.State.{has_flag}
use rattle.Proc.Process.{Attr, Process}

-- RATTPROCFLNTS
abbrev pub fl_not_thread_safe : ℕ
fl_not_thread_safe = 1

-- Where a worker is: away from the call, with the slot that it reads, in the process, or gone
-- since pthread_cancel() has stopped it.
pub data At : Type 0 where
  away gone : At
  ready running : Process → At

-- The place of each worker, and who holds each lock.
pub record Workers : Type 0 where
  pub at : ℕ → At
  pub owner : ℕ → Option ℕ

abbrev pub put {ℓ} : {A : Type ℓ} → (ℕ → A) → ℕ → A → ℕ → A
put f i a j = if j == i then a else f j

-- The lock that the loop takes around a process.
abbrev pub lock_if_unsafe : Attr → Option ℕ
lock_if_unsafe attr = if has_flag attr.flags fl_not_thread_safe then some attr.lock else none

abbrev pub lock_of : Process → Option ℕ
lock_of proc = elim proc.attr [ none ↦ none | some attr ↦ lock_if_unsafe attr ]

-- The steps of the worker `w`.
pub data Turn (s : Workers) (w : ℕ) : Workers → Type 0 where
  read_slot :
      (proc : Process) → s.at w ≡ away → Turn s w (record s { at = put s.at w (ready proc) })
  skip_ghost :
      (proc : Process)
      → s.at w ≡ ready proc
      → proc.process ≡ 0
      → Turn s w (record s { at = put s.at w away })
  call :
      (proc : Process)
      → s.at w ≡ ready proc
      → proc.process ≢ 0
      → lock_of proc ≡ none
      → Turn s w (record s { at = put s.at w (running proc) })
  lock_and_call :
      (proc : Process) (l : ℕ)
      → s.at w ≡ ready proc
      → proc.process ≢ 0
      → lock_of proc ≡ some l
      → s.owner l ≡ none
      → Turn s w (record { at = put s.at w (running proc); owner = put s.owner l (some w) })
  return :
      (proc : Process)
      → s.at w ≡ running proc
      → lock_of proc ≡ none
      → Turn s w (record s { at = put s.at w away })
  return_and_unlock :
      (proc : Process) (l : ℕ)
      → s.at w ≡ running proc
      → lock_of proc ≡ some l
      → Turn s w (record { at = put s.at w away; owner = put s.owner l none })
  cancel_outside : s.at w ≡ away → Turn s w (record s { at = put s.at w gone })
  cancel_call :
      (proc : Process)
      → s.at w ≡ running proc
      → lock_of proc ≡ none
      → Turn s w (record s { at = put s.at w gone })
  -- The handler that was pushed before the lock was taken releases it.
  cancel_and_unlock :
      (proc : Process) (l : ℕ)
      → s.at w ≡ running proc
      → lock_of proc ≡ some l
      → Turn s w (record { at = put s.at w gone; owner = put s.owner l none })

pub data Shared (s : Workers) : Workers → Type 0 where
  here : Shared s s
  later : {t u : Workers} → Shared s t → (w : ℕ) → Turn t w u → Shared s u

abbrev pub all_away : Workers
all_away = record { at = λ w. away; owner = λ l. none }
