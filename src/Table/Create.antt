-- ===== src/Table/Create.antt =====
-- What ratt_table_create() and ratt_table_destroy() leave behind.
use rattle.Base.{
  ℕ, zero, suc, ◌≤◌, ◌≡◌, refl, true, false, none, fail, ok, replicate, length-replicate,
  count_below, arith, ◌↔◌,
}
use rattle.Table.Mask.{frag_mask_size}
use rattle.Table.State.{Table, zeroed, exists, with_flag, fl_exists, tab_siz_max}
use rattle.Table.Update.{Alloc, create, destroy}
use rattle.Table.Valid.{IsValid, Steady, lookup, is_frag-replicate, AllBytes-replicate}

module _ {ℓ} {A : Type ℓ} (blank : A) where
  -- The table that a successful call makes.
  abbrev pub created : ℕ → ℕ → ℕ → Table A
  created cnt size flags = record zeroed {
    head = replicate cnt blank;
    frag_mask = replicate (frag_mask_size cnt) 0;
    size = cnt;
    chunk_size = size;
    flags = with_flag flags fl_exists;
  }

  pub created-IsValid :
      (cnt size flags : ℕ) → 1 ≤ cnt → cnt ≤ tab_siz_max → IsValid (created cnt size flags)
  unfolding exists count_below
  created-IsValid cnt size flags lo hi = record {
    there = ground arith;
    solid = refl;
    room = length-replicate cnt blank;
    mask_room = length-replicate (frag_mask_size cnt) 0;
    bytes = AllBytes-replicate (frag_mask_size cnt);
    limit = hi;
    last_used = refl;
    last_in = lo;
    pos_in = omega arith;
    tail_last = refl;
    holes = refl;
    clear = λ i a b. is_frag-replicate (frag_mask_size cnt) i;
  }

  -- A table is created exactly if there was none, the size is within its bounds and both blocks
  -- can be had.
  pub create-ok_iff :
      (t : Table A) (cnt size flags : ℕ) (a : Alloc A)
      → ((create blank t cnt size flags a).0 ≡ ok) ↔ (
          (exists t ≡ false)
          × (1 ≤ cnt)
          × (cnt ≤ tab_siz_max)
          × (a.head_ok ≡ true)
          × (a.mask_ok ≡ true))
  unfolding create
  create-ok_iff t cnt size flags a = ground arith

  pub create-created :
      (t : Table A) (cnt size flags : ℕ) (a : Alloc A)
      → (create blank t cnt size flags a).0 ≡ ok
      → ((create blank t cnt size flags a).1 ≡ created cnt size flags)
        × (1 ≤ cnt)
        × (cnt ≤ tab_siz_max)
  unfolding create
  create-created t cnt size flags a h = ground arith

  -- A table that ratt_table_create() reports is valid, has the size asked for and holds nothing.
  pub create-IsValid :
      (t : Table A) (cnt size flags : ℕ) (a : Alloc A)
      → (create blank t cnt size flags a).0 ≡ ok
      → let t' = (create blank t cnt size flags a).1 in
        IsValid t' × Steady t' × (t'.size ≡ cnt) × ((i : ℕ) → lookup blank t' i ≡ none)
  create-IsValid t cnt size flags a h =
      let (e, lo, hi) = create-created t cnt size flags a h in
      rw e (created-IsValid cnt size flags lo hi, λ _. refl, refl, λ i. ground arith)

  -- Without the mask the call fails, yet `head` is left pointing to the block that was freed; a
  -- later ratt_table_destroy() takes the table for a live one and frees that block again.
  pub create-no_mask :
      (t : Table A) (cnt size flags : ℕ) (a : Alloc A)
      → exists t ≡ false
      → 1 ≤ cnt
      → cnt ≤ tab_siz_max
      → a.head_ok ≡ true
      → a.mask_ok ≡ false
      → let (s, t') = create blank t cnt size flags a in
        (s ≡ fail) × (exists t' ≡ false) × (t'.dangling ≡ true) × ((destroy blank t').0 ≡ ok)
  unfolding create destroy exists
  create-no_mask t (suc cnt) size flags a e lo hi h m = ground arith
  create-no_mask t zero size flags a e lo hi h m = absurd (omega arith)

  -- Every valid table can be destroyed, and what is left can be created anew.
  pub destroy-IsValid :
      (t : Table A) → IsValid t → ((destroy blank t).0 ≡ ok) × (exists (destroy blank t).1 ≡ false)
  unfolding destroy exists
  destroy-IsValid t v = ground arith
