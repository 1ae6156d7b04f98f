-- ===== src/Proc/Samples.antt =====
-- Two sticky processes, of which the first has user data, and a table that holds them.
use rattle.Base.{refl, true, false, [], ◌∷◌, none, some, arith, count_below, each_under}
use rattle.Table.Mask.{is_frag, frag_mask_size}
use rattle.Table.State.{Table, exists}
use rattle.Table.Update.{Alloc}
use rattle.Table.Valid.{IsValid}
use rattle.Table.Samples.{clear_check_sound}
use rattle.Proc.Process.{Process, no_process}

abbrev pub one : Process
one = record { process = 100; attr = some (record { flags = 2; lock = 0 }); udata = 5 }

abbrev pub two : Process
two = record { process = 200; attr = some (record { flags = 2; lock = 0 }); udata = 0 }

abbrev pub processes : Table Process
processes = record {
  head = one ∷ two ∷ no_process ∷ no_process ∷ [];
  tail = 1;
  size = 4;
  pos = 0;
  last = 1;
  chunk_size = 32;
  chunk_count = 2;
  frag_count = 0;
  frag_mask = 0 ∷ [];
  flags = 1;
  constrains = none;
  on_constrains = none;
  dangling = false;
}

pub processes-IsValid : IsValid processes
unfolding exists frag_mask_size count_below is_frag each_under
processes-IsValid = record {
  there = refl;
  solid = refl;
  room = refl;
  mask_room = refl;
  bytes = omega arith;
  limit = omega arith;
  last_used = refl;
  last_in = omega arith;
  pos_in = omega arith;
  tail_last = refl;
  holes = refl;
  clear = λ i lo hi. clear_check_sound (0 ∷ []) 2 8 i refl lo hi;
}

abbrev pub memory : {A : Type 0} → A → Alloc A
memory blank = record {
  head_ok = true;
  head_moved = false;
  mask_ok = true;
  junk = blank;
  junk_byte = λ i. 0;
}
