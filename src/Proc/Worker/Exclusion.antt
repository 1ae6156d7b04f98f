-- ===== src/Proc/Worker/Exclusion.antt =====
-- Who runs a process that is not thread-safe (proc_worker.c).
use rattle.Base.{ℕ, ◌≡◌, Option, none, some, arith}
use rattle.Proc.Worker.Sharing.{
  At, away, gone, ready, running, Workers, lock_of, Turn, read_slot, skip_ghost, call,
  lock_and_call, return, return_and_unlock, cancel_outside, cancel_call, cancel_and_unlock, Shared,
  here, later, all_away,
}

-- The lock that a worker needs to be where it is.
abbrev pub needs : At → Option ℕ
needs away = none
needs gone = none
needs (ready proc) = none
needs (running proc) = lock_of proc

-- The lock `l` is held by `w` exactly if `w` needs it.
abbrev Agree : Workers → ℕ → ℕ → Type 0
Agree s w l =
    (needs (s.at w) ≡ some l → s.owner l ≡ some w) × (s.owner l ≡ some w → needs (s.at w) ≡ some l)

abbrev Consistent : Workers → Type 0
Consistent s = (w l : ℕ) → Agree s w l

Turn-Consistent : (s : Workers) (w : ℕ) (t : Workers) → Turn s w t → Consistent s → Consistent t
Turn-Consistent s w t (read_slot proc e) h v l = ground (arith, e, h v l, h w l)
Turn-Consistent s w t (skip_ghost proc e z) h v l = ground (arith, e, h v l, h w l)
Turn-Consistent s w t (call proc e nz n) h v l = ground (arith, e, h v l, h w l)
Turn-Consistent s w t (lock_and_call proc k e nz n f) h v l = ground (arith, e, h v l, h w l)
Turn-Consistent s w t (return proc e n) h v l = ground (arith, e, h v l, h w l)
Turn-Consistent s w t (return_and_unlock proc k e n) h v l = ground (arith, e, h v l, h w l)
Turn-Consistent s w t (cancel_outside e) h v l = ground (arith, e, h v l, h w l)
Turn-Consistent s w t (cancel_call proc e n) h v l = ground (arith, e, h v l, h w l)
Turn-Consistent s w t (cancel_and_unlock proc k e n) h v l = ground (arith, e, h v l, h w l)

all_away-Consistent : Consistent all_away
all_away-Consistent w l = ((λ e. absurd (cc)), (λ e. absurd (cc)))

Shared-Consistent : (t : Workers) → Shared all_away t → Consistent t
Shared-Consistent t here = all_away-Consistent
Shared-Consistent u (later {t} run w turn) = Turn-Consistent t w u turn (Shared-Consistent t run)

-- In every run of any number of workers, cancellations included, no two workers are at a time in
-- processes that are not thread-safe and share a lock, a worker in such a process holds its lock,
-- and a lock that is held is held by a worker that is in a process with this lock.
pub Shared-exclusive :
    (t : Workers)
    → Shared all_away t
    → (v w l : ℕ)
    → (needs (t.at v) ≡ some l → needs (t.at w) ≡ some l → v ≡ w)
      × (needs (t.at w) ≡ some l → t.owner l ≡ some w)
      × (t.owner l ≡ some w → needs (t.at w) ≡ some l)
Shared-exclusive t run v w l =
    let mine = Shared-Consistent t run v l in
    let other = Shared-Consistent t run w l in
    ((λ a b. ground (arith, mine, other, a, b)), other.0, other.1)
