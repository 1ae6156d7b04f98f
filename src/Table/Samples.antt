-- ===== src/Table/Samples.antt =====
-- Tables of numbers, and that they are valid.
use rattle.Base.{
  ℕ, ◌+◌, ◌≤◌, ◌<◌, ◌≡◌, refl, Bool, true, false, not, ◌||◌, List, [], ◌∷◌, none, some, ok, ◌==◌,
  ltb, arith, each_under, each_under_sound, replicate, count_below,
}
use rattle.Table.Mask.{is_frag, frag_mask_size}
use rattle.Table.State.{Table, exists}
use rattle.Table.Update.{Alloc}
use rattle.Table.Valid.{IsValid}

abbrev pub willing : Alloc ℕ
willing = record {
  head_ok = true;
  head_moved = true;
  mask_ok = true;
  junk = 99;
  junk_byte = λ i. 255;
}

abbrev pub refusing : Alloc ℕ
refusing = record willing { mask_ok = false }

-- 10, a hole and 30, in a table of four slots; no two chunks may be equal.
abbrev pub sample : Table ℕ
sample = record {
  head = 10 ∷ 0 ∷ 30 ∷ 0 ∷ [];
  tail = 2;
  size = 4;
  pos = 0;
  last = 2;
  chunk_size = 8;
  chunk_count = 2;
  frag_count = 1;
  frag_mask = 2 ∷ [];
  flags = 1;
  constrains = some (λ a b. a == b);
  on_constrains = some (λ a b. (ok, a + b));
  dangling = false;
}

-- The flags behind the slots in use are clear.
abbrev pub clear_check : List ℕ → ℕ → ℕ → Bool
clear_check m lo hi = each_under hi (λ i. ltb i lo || not (is_frag m i))

pub clear_check_sound :
    (m : List ℕ) (lo hi i : ℕ) → clear_check m lo hi ≡ true → lo ≤ i → i < hi → is_frag m i ≡ false
clear_check_sound m lo hi i h a b =
    ground (arith, each_under_sound hi (λ i. ltb i lo || not (is_frag m i)) i h b)

pub sample-IsValid : IsValid sample
unfolding exists frag_mask_size count_below is_frag each_under
sample-IsValid = record {
  there = refl;
  solid = refl;
  room = refl;
  mask_room = refl;
  bytes = omega arith;
  limit = omega arith;
  last_used = refl;
  last_in = omega arith;
  pos_in = omega arith;
  tail_last = refl;
  holes = refl;
  clear = λ i lo hi. clear_check_sound (2 ∷ []) 3 8 i refl lo hi;
}

-- A full table without a hole.
abbrev pub full : Table ℕ
full = record {
  head = replicate 24 7;
  tail = 23;
  size = 24;
  pos = 23;
  last = 23;
  chunk_size = 8;
  chunk_count = 24;
  frag_count = 0;
  frag_mask = replicate 4 0;
  flags = 1;
  constrains = none;
  on_constrains = none;
  dangling = false;
}

pub full-IsValid : IsValid full
unfolding exists frag_mask_size count_below is_frag each_under
full-IsValid = record {
  there = refl;
  solid = refl;
  room = refl;
  mask_room = refl;
  bytes = omega arith;
  limit = omega arith;
  last_used = refl;
  last_in = omega arith;
  pos_in = omega arith;
  tail_last = refl;
  holes = refl;
  clear = λ i lo hi. clear_check_sound (replicate 4 0) 24 24 i refl lo hi;
}

-- One chunk was pushed and deleted again.
abbrev pub emptied : Table ℕ
emptied = record {
  head = 0 ∷ 0 ∷ [];
  tail = 0;
  size = 2;
  pos = 0;
  last = 0;
  chunk_size = 8;
  chunk_count = 0;
  frag_count = 1;
  frag_mask = 1 ∷ [];
  flags = 1;
  constrains = none;
  on_constrains = none;
  dangling = false;
}

pub emptied-IsValid : IsValid emptied
unfolding exists frag_mask_size count_below is_frag each_under
emptied-IsValid = record {
  there = refl;
  solid = refl;
  room = refl;
  mask_room = refl;
  bytes = omega arith;
  limit = omega arith;
  last_used = refl;
  last_in = omega arith;
  pos_in = omega arith;
  tail_last = refl;
  holes = refl;
  clear = λ i lo hi. clear_check_sound (1 ∷ []) 1 8 i refl lo hi;
}

-- A full table of one slot.
abbrev pub single : Table ℕ
single = record {
  head = 7 ∷ [];
  tail = 0;
  size = 1;
  pos = 0;
  last = 0;
  chunk_size = 8;
  chunk_count = 1;
  frag_count = 0;
  frag_mask = 0 ∷ [];
  flags = 1;
  constrains = none;
  on_constrains = none;
  dangling = false;
}

pub single-IsValid : IsValid single
unfolding exists frag_mask_size count_below is_frag each_under
single-IsValid = record {
  there = refl;
  solid = refl;
  room = refl;
  mask_room = refl;
  bytes = omega arith;
  limit = omega arith;
  last_used = refl;
  last_in = omega arith;
  pos_in = omega arith;
  tail_last = refl;
  holes = refl;
  clear = λ i lo hi. clear_check_sound (0 ∷ []) 1 8 i refl lo hi;
}
