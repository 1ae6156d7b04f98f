-- ===== src/Proc/SharingTests.antt =====
-- Two workers that are given the same process, which is not thread-safe.
use rattle.Base.{ℕ, ◌≡◌, refl, some, arith}
use rattle.Proc.Process.{Process}
use rattle.Proc.Worker.Sharing.{
  ready, running, Workers, put, read_slot, lock_and_call, Shared, here, later, all_away,
}
use rattle.Proc.Worker.Exclusion.{needs, Shared-exclusive}

abbrev guarded : Process
guarded = record { process = 100; attr = some (record { flags = 1; lock = 7 }); udata = 0 }

-- The first worker is in the process, the second has to wait.
abbrev one_inside : Workers
one_inside = record {
  at = put (put (put all_away.at 0 (ready guarded)) 1 (ready guarded)) 0 (running guarded);
  owner = put all_away.owner 7 (some 0);
}

one_inside_reached : Shared all_away one_inside
one_inside_reached =
    later (later (later here 0 (read_slot guarded refl)) 1 (read_slot guarded refl)) 0
      (lock_and_call guarded 7 refl (omega arith) refl refl)

Shared-exclusive_example :
    (needs (one_inside.at 1) ≡ some 7 → needs (one_inside.at 0) ≡ some 7 → ◌≡◌ {A = ℕ} 1 0)
    × (needs (one_inside.at 0) ≡ some 7 → one_inside.owner 7 ≡ some 0)
    × (one_inside.owner 7 ≡ some 0 → needs (one_inside.at 0) ≡ some 7)
Shared-exclusive_example = Shared-exclusive one_inside one_inside_reached 1 0 7
