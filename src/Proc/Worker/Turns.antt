-- ===== src/Proc/Worker/Turns.antt =====
-- The order in which on_register() of the worker processor selects workers (proc_worker.c).
use native.Mathlib.Nat.{mod-eq_of_lt, mod_self, add-mod_left}
use rattle.Base.{
  ℕ, zero, suc, ◌+◌, ◌%◌, ◌^◌, ◌≤◌, ◌<◌, ◌≡◌, ◌≢◌, refl, none, length, get_or, get_or-set,
  length-set, Option-cases, Bool, false, Option, some, ltb, if◌then◌else◌, inc_size, arith, ap, ap₂,
  ◌∙◌, sym, Bool-cases, inl, inr,
}
use rattle.Table.State.{Table, isempty, exists, first, chunk}
use rattle.Table.Update.{Alloc, insert}
use rattle.Proc.Process.{Process, no_process}
use rattle.Proc.Worker.Pool.{
  Worker, no_worker, Pool, worker_at, choose_worker, wake, register_process, on_register,
}

-- The pool after some registrations.
unfoldable pub pool_after : Pool → ℕ → (ℕ → Process) → (ℕ → Alloc Process) → Pool
pool_after pool zero proc a = pool
pool_after pool (suc k) proc a =
    pool_after (on_register pool (proc 0) (a 0)).1 k (λ i. proc (i + 1)) (λ i. a (i + 1))

-- The slot that a registration takes.
abbrev pub turn : Pool → Option ℕ
turn pool = (choose_worker pool.worktab pool.rrpos).0

-- What a choice leaves of the table and of `rrpos`.
record Turned (t t' : Table (Option ℕ)) (rrpos rrpos' : ℕ) : Type 0 where
  nonempty : isempty t' ≡ false
  last : t'.last ≡ t.last
  head : t'.head ≡ t.head
  place : rrpos' ≡ (if ltb t.last rrpos then 1 else rrpos + 1)

choose_worker-Turned :
    (t : Table (Option ℕ)) (rrpos : ℕ)
    → isempty t ≡ false
    → rrpos ≤ t.last + 1
    → t.last + 2 < 2 ^ 64
    → let (c, t', rrpos') = choose_worker t rrpos in
      Turned t t' rrpos rrpos' × (c ≡ some (if ltb t.last rrpos then 0 else rrpos))
unfolding choose_worker first chunk inc_size isempty exists
choose_worker-Turned t rrpos some_worker near limit = elim (Bool-cases (ltb t.last rrpos)) [
  | inl over ↦ (
    record {
      nonempty = ground (arith, over, some_worker);
      last = ground (arith, over, some_worker);
      head = ground (arith, over, some_worker);
      place = ground (arith, over);
    },
    ground (arith, over, some_worker),
  )
  | inr within ↦ (
    record {
      nonempty = ground (arith, within, some_worker);
      last = ground (arith, within, some_worker);
      head = ground (arith, within, some_worker);
      place = ground (arith, within);
    },
    ground (arith, within, some_worker),
  )
]

on_register-choice :
    (pool : Pool) (proc : Process) (a : Alloc Process)
    → let pool' = (on_register pool proc a).1 in
      let (c, t', rrpos') = choose_worker pool.worktab pool.rrpos in
      (pool'.worktab ≡ t') × (pool'.rrpos ≡ rrpos')
unfolding on_register
on_register-choice pool proc a = ground arith

on_register-workers :
    (pool : Pool) (proc : Process) (a : Alloc Process)
    → length (on_register pool proc a).1.workers ≡ length pool.workers
unfolding on_register
on_register-workers pool proc a =
    let (c, t', rrpos') = choose_worker pool.worktab pool.rrpos in
    elim (Option-cases c) [
      | inl refused ↦ ground (arith, refused)
      | inr (p, chosen) ↦ elim (Option-cases (get_or t'.head p none)) [
        | inl gone ↦ ground (arith, chosen, gone)
        | inr (w, there) ↦
            let pool' : Pool = record pool { worktab = t'; rrpos = rrpos' } in
            let worker = (register_process (worker_at pool' w) proc a).1 in
            ground (arith, chosen, there, length-set pool.workers w worker)
      ]
    ]

register_process-proctab :
    (worker : Worker) (proc : Process) (a : Alloc Process)
    → let (s, worker') = register_process worker proc a in
      let (s', t) = insert no_process worker.proctab proc a in (s ≡ s') × (worker'.proctab ≡ t)
unfolding register_process wake
register_process-proctab worker proc a = ground arith

-- The process goes into the table of the worker in the slot that was chosen, and into no other.
pub on_register-proctab :
    (pool : Pool) (proc : Process) (a : Alloc Process) (p w : ℕ)
    → turn pool ≡ some p
    → get_or (choose_worker pool.worktab pool.rrpos).1.head p none ≡ some w
    → w < length pool.workers
    → let (s, pool') = on_register pool proc a in
      let (s', t) = insert no_process (worker_at pool w).proctab proc a in
      (s ≡ s')
      × ((worker_at pool' w).proctab ≡ t)
      × ((v : ℕ) → v ≢ w → worker_at pool' v ≡ worker_at pool v)
unfolding on_register
on_register-proctab pool proc a p w chosen there inside =
    let (c, t', rrpos') = choose_worker pool.worktab pool.rrpos in
    let worker = (register_process (worker_at pool w) proc a).1 in
    let (same, table) = register_process-proctab (worker_at pool w) proc a in
    let own = get_or-set pool.workers w w worker no_worker inside in
    (
      ground (arith, chosen, there, same),
      ground (arith, chosen, there, table, own),
      λ v other.
          let rest = get_or-set pool.workers w v worker no_worker inside in
          ground (arith, chosen, there, other, rest),
    )

slot-mod :
    (last rrpos : ℕ) → rrpos ≤ last + 1 → (if ltb last rrpos then 0 else rrpos) ≡ rrpos % suc last
slot-mod last rrpos near = elim (Bool-cases (ltb last rrpos)) [
  | inl over ↦
      let full : rrpos ≡ suc last = ground (arith, over) in
      ground (arith, over, full, mod_self (suc last))
  | inr within ↦
      let below : rrpos < suc last = ground (arith, within) in
      ground (arith, within, mod-eq_of_lt below)
]

step-mod :
    (last rrpos k : ℕ)
    → rrpos ≤ last + 1
    → ((if ltb last rrpos then 1 else rrpos + 1) + k) % suc last ≡ (rrpos + suc k) % suc last
step-mod last rrpos k near = elim (Bool-cases (ltb last rrpos)) [
  | inl over ↦
      let full : rrpos ≡ suc last = ground (arith, over) in
      let turned : (rrpos + suc k) % suc last ≡ suc k % suc last =
        ap (λ (r : ℕ). (r + suc k) % suc last) full ∙ add-mod_left (suc last) (suc k) in
      ap (λ (b : Bool). ((if b then 1 else rrpos + 1) + k) % suc last) over
      ∙ ap (λ (n : ℕ). n % suc last) (omega arith)
      ∙ sym turned
  | inr within ↦
      ap (λ (b : Bool). ((if b then 1 else rrpos + 1) + k) % suc last) within
      ∙ ap (λ (n : ℕ). n % suc last) (omega arith)
]

-- The pool that `k` registrations leave of `pool`: the worker that is next, and that the workers
-- and their slots are those of `pool`.
pub record Advanced (pool pool' : Pool) (k : ℕ) : Type 0 where
  pub next_slot : turn pool' ≡ some ((pool.rrpos + k) % suc pool.worktab.last)
  pub slots : (choose_worker pool'.worktab pool'.rrpos).1.head ≡ pool.worktab.head
  pub workers : length pool'.workers ≡ length pool.workers

pool_after-Advanced :
    (k : ℕ) (pool : Pool) (proc : ℕ → Process) (a : ℕ → Alloc Process)
    → isempty pool.worktab ≡ false
    → pool.rrpos ≤ pool.worktab.last + 1
    → pool.worktab.last + 2 < 2 ^ 64
    → Advanced pool (pool_after pool k proc a) k
unfolding pool_after
pool_after-Advanced zero pool proc a some_worker near limit =
    let (turned, chosen) = choose_worker-Turned pool.worktab pool.rrpos some_worker near limit in
    record {
      next_slot =
          chosen
          ∙ ap some (
              slot-mod pool.worktab.last pool.rrpos near
              ∙ ap (λ (n : ℕ). n % suc pool.worktab.last) (omega arith));
      slots = turned.head;
      workers = refl;
    }
pool_after-Advanced (suc k) pool proc a some_worker near limit =
    let (turned, chosen) = choose_worker-Turned pool.worktab pool.rrpos some_worker near limit in
    let (table, place) = on_register-choice pool (proc 0) (a 0) in
    let pool' = (on_register pool (proc 0) (a 0)).1 in
    let last' : pool'.worktab.last ≡ pool.worktab.last =
      ap (λ (t : Table (Option ℕ)). t.last) table ∙ turned.last in
    let near' : pool'.rrpos ≤ pool.worktab.last + 1 = ground (arith, place, turned.place) in
    let rest =
      pool_after-Advanced k pool' (λ i. proc (i + 1)) (λ i. a (i + 1))
        (ap isempty table ∙ turned.nonempty) (omega (arith, near', last'))
        (omega (arith, limit, last')) in
    record {
      next_slot =
          rest.next_slot
          ∙ ap some (
              ap₂ (λ (r l : ℕ). (r + k) % suc l) (place ∙ turned.place) last'
              ∙ step-mod pool.worktab.last pool.rrpos k near);
      slots = rest.slots ∙ ap (λ (t : Table (Option ℕ)). t.head) table ∙ turned.head;
      workers = rest.workers ∙ on_register-workers pool (proc 0) (a 0);
    }

-- With `n` slots in the table of workers, the registration after `k` others chooses slot `k` modulo
-- `n`, whether or not the registrations before it succeeded.
pub pool_after-round_robin :
    (k : ℕ) (pool : Pool) (proc : ℕ → Process) (a : ℕ → Alloc Process)
    → isempty pool.worktab ≡ false
    → pool.worktab.last + 2 < 2 ^ 64
    → pool.rrpos ≡ 0
    → let pool' = pool_after pool k proc a in
      (turn pool' ≡ some (k % suc pool.worktab.last))
      × ((choose_worker pool'.worktab pool'.rrpos).1.head ≡ pool.worktab.head)
      × (length pool'.workers ≡ length pool.workers)
pool_after-round_robin k pool proc a some_worker limit start =
    let after = pool_after-Advanced k pool proc a some_worker (omega (arith, start)) limit in
    (
      after.next_slot
          ∙ ap (λ (r : ℕ). some ((r + k) % suc pool.worktab.last)) start
          ∙ ap (λ (n : ℕ). some (n % suc pool.worktab.last)) (omega arith),
      after.slots,
      after.workers,
    )
