-- ===== src/Table/NewMask.antt =====
-- The mask of holes that realloc_and_move() makes (data_array.c).
use rattle.Base.{
  ℕ, zero, suc, ◌+◌, ◌-◌, ◌/◌, ◌%◌, ◌≤◌, ◌<◌, ◌≡◌, refl, false, List, [], ◌∷◌, ◌++◌, get_or, length,
  length-append, length-fill, fill, fill-zero, get_or-fill_below, get_or-fill_within,
  get_or-fill_above, get_or-append_right, get_or-append_left, arith, ap, ◌∙◌,
}
use mathlib.Core.List.{append-nil}
use native.Mathlib.Decide.{ℕ_discrete, dec_lt}
use rattle.Table.Mask.{is_frag, frag_mask_size, bits_common, shift_mask}
use rattle.Table.Mask.Flags.{AllBytes}
use rattle.Table.State.{tab_siz_max}
use rattle.Table.Update.{fresh_bytes, grown_size, grown_mask}
use rattle.Table.Valid.{clean_end, is_frag_zero_byte}
use rattle.Table.Sizes.{ClearsMask, grown_size_eight, grown_size-ne-eight}

length-fresh_bytes : (junk : ℕ → ℕ) (i n : ℕ) → length (fresh_bytes junk i n) ≡ n
unfolding fresh_bytes
length-fresh_bytes junk i zero = refl
length-fresh_bytes junk i (suc n) = ap suc (length-fresh_bytes junk (i + 1) n)

AllBytes-fresh_bytes : (junk : ℕ → ℕ) (i n : ℕ) → AllBytes (fresh_bytes junk i n)
unfolding fresh_bytes
AllBytes-fresh_bytes junk i zero = tt
AllBytes-fresh_bytes junk i (suc n) = (omega arith, AllBytes-fresh_bytes junk (i + 1) n)

get_or-fresh_bytes :
    (junk : ℕ → ℕ) (i n k : ℕ) → k < n → get_or (fresh_bytes junk i n) k 0 ≡ junk (i + k) % 256
unfolding fresh_bytes
get_or-fresh_bytes junk i zero k h = absurd (omega arith)
get_or-fresh_bytes junk i (suc n) zero h = ap (λ j. junk j % 256) (omega arith)
get_or-fresh_bytes junk i (suc n) (suc k) h =
    get_or-fresh_bytes junk (i + 1) n k (omega arith) ∙ ap (λ j. junk j % 256) (omega arith)

AllBytes-append : (xs ys : List ℕ) → AllBytes xs → AllBytes ys → AllBytes (xs ++ ys)
AllBytes-append [] ys a b = b
AllBytes-append (x ∷ xs) ys a b = (a.0, AllBytes-append xs ys a.1 b)

AllBytes-fill : (xs : List ℕ) (i n : ℕ) → AllBytes xs → AllBytes (fill xs i n 0)
unfolding fill
AllBytes-fill [] i n h = tt
AllBytes-fill (x ∷ xs) zero zero h = h
AllBytes-fill (x ∷ xs) zero (suc n) h = (omega arith, AllBytes-fill xs zero n h.1)
AllBytes-fill (x ∷ xs) (suc i) n h = (h.0, AllBytes-fill xs i n h.1)

-- The mask of a full table of `size` slots, grown to `newsiz`.
module _ (m : List ℕ) (junk : ℕ → ℕ) (size newsiz : ℕ) (mask_room : length m ≡ frag_mask_size size)
    (pos : 1 ≤ size) (more : size < newsiz) where
  abbrev new_mask : List ℕ
  new_mask = grown_mask m junk (size - 1) size newsiz

  pub length-grown_mask : length new_mask ≡ frag_mask_size newsiz
  unfolding grown_mask frag_mask_size
  length-grown_mask =
      length-fill _ _ _ _
      ∙ length-append m _
      ∙ omega (
        arith,
        mask_room,
        length-fresh_bytes junk (1 + size / 8) (1 + newsiz / 8 - (1 + size / 8)),
      )

  pub AllBytes-grown_mask : AllBytes m → AllBytes new_mask
  unfolding grown_mask
  AllBytes-grown_mask h =
      AllBytes-fill _ _ _ (AllBytes-append m _ h (AllBytes-fresh_bytes junk _ _))

  -- The bytes of the old slots are kept, and those behind them cleared, as far as memset() goes.
  grown_mask_old : (j : ℕ) → j < (size + 7) / 8 → get_or new_mask j 0 ≡ get_or m j 0
  unfolding grown_mask frag_mask_size
  grown_mask_old j h =
      get_or-fill_below _ _ _ j 0 0 (omega arith)
      ∙ get_or-append_left m _ j 0 (omega (arith, mask_room))

  grown_mask_cleared :
      (j : ℕ)
      → (size + 7) / 8 ≤ j
      → j < (size + 7) / 8 + (newsiz / 8 - size / 8)
      → get_or new_mask j 0 ≡ 0
  unfolding grown_mask frag_mask_size
  grown_mask_cleared j a b = get_or-fill_within _ _ _ j 0 0 (omega arith) (omega arith) (
      omega (
        arith,
        length-append m (fresh_bytes junk (1 + size / 8) (1 + newsiz / 8 - (1 + size / 8))),
        mask_room,
        length-fresh_bytes junk (1 + size / 8) (1 + newsiz / 8 - (1 + size / 8)),
      ))

  grown_mask_none : newsiz / 8 ≡ size / 8 → new_mask ≡ m
  unfolding grown_mask frag_mask_size fresh_bytes
  grown_mask_none e =
      let none_more : 1 + newsiz / 8 - (1 + size / 8) ≡ 0 = omega arith in
      rw none_more (fill-zero _ _ 0 ∙ append-nil m)

  -- What is behind is whatever the fresh memory held.
  pub grown_mask_junk :
      size % 8 ≡ 0
      → size / 8 < newsiz / 8
      → get_or new_mask (newsiz / 8) 0 ≡ junk (newsiz / 8) % 256
  unfolding grown_mask frag_mask_size
  grown_mask_junk e lt =
      get_or-fill_above _ _ _ (newsiz / 8) 0 0 (omega arith)
      ∙ get_or-append_right m _ (newsiz / 8) (newsiz / 8 - (1 + size / 8)) 0
          (omega (arith, mask_room))
      ∙ get_or-fresh_bytes junk (1 + size / 8) (1 + newsiz / 8 - (1 + size / 8))
          (newsiz / 8 - (1 + size / 8)) (omega arith)
      ∙ ap (λ k. junk k % 256) (omega arith)

-- The flags of the old slots are kept, and those of the new ones are clear.
module _ (m : List ℕ) (junk : ℕ → ℕ) (size newsiz : ℕ) (mask_room : length m ≡ frag_mask_size size)
    (pos : 1 ≤ size) (more : size < newsiz) where
  pub is_frag-grown_mask_old :
      (p : ℕ)
      → p / 8 < (size + 7) / 8
      → is_frag (grown_mask m junk (size - 1) size newsiz) p ≡ is_frag m p
  unfolding is_frag
  is_frag-grown_mask_old p h =
      ap (λ b. bits_common b (shift_mask p))
        (grown_mask_old m junk size newsiz mask_room pos more (p / 8) h)

  pub is_frag-grown_mask_new :
      newsiz ≡ grown_size size
      → ClearsMask size
      → size ≤ tab_siz_max
      → ((p : ℕ) → size ≤ p → p < clean_end size → is_frag m p ≡ false)
      → (p : ℕ) → size ≤ p
      → p < clean_end newsiz
      → is_frag (grown_mask m junk (size - 1) size newsiz) p ≡ false
  is_frag-grown_mask_new e c lim old p lo hi = elim (dec_lt (p / 8) ((size + 7) / 8)) [
    | yes h ↦ is_frag-grown_mask_old p h ∙ old p lo (ground arith)
    | no h ↦ elim (ℕ_discrete size 8) [
      | yes e8 ↦
          ap (λ k. is_frag k p)
            (grown_mask_none m junk size newsiz mask_room pos more
              (ground (arith, grown_size_eight)))
          ∙ old p lo (ground (arith, grown_size_eight))
      | no ne ↦ is_frag_zero_byte (grown_mask m junk (size - 1) size newsiz) p (
          grown_mask_cleared m junk size newsiz mask_room pos more (p / 8) (omega arith)
            (ground (arith, grown_size-ne-eight size)))
    ]
  ]
