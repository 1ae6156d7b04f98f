-- ===== src/Table/Sizes.antt =====
-- The sizes that a table takes by growing (data_array.c).
use rattle.Base.{
  ℕ, zero, suc, ◌%◌, ◌<◌, ◌≡◌, refl, Bool, true, not, ◌||◌, ◌==◌, arith, each_under,
  each_under_sound, inl, inr, Bool-cases, ◌+◌, ◌/◌, ◌^◌, ◌≤◌, ◌≢◌, ◌⊎◌,
}
use rattle.Table.Update.{grown_size}
use rattle.Table.State.{tab_siz_max}

-- The sizes from which growing clears the flags of every new slot.
abbrev pub ClearsMask : ℕ → Type 0
ClearsMask size = (size ≡ 8) ⊎ (size % 8 ≢ 0) ⊎ (grown_size size % 8 ≡ 0)

-- A table grows by half its size, or by one slot, up to the maximum; where the sum wraps it does
-- not grow.
pub grown_size_lem :
    (size : ℕ)
    → 1 ≤ size
    → size ≤ tab_siz_max
    → (grown_size size ≤ tab_siz_max)
      × (size + size / 2 < 2 ^ 64 → size < tab_siz_max → size < grown_size size)
      × (2 ^ 64 ≤ size + size / 2 → grown_size size < size)
unfolding grown_size
grown_size_lem size lo hi = ground arith

pub grown_size_eight : grown_size 8 ≡ 12
unfolding grown_size
grown_size_eight = refl

pub grown_size-ne-eight :
    (size : ℕ) → size < grown_size size → size ≤ tab_siz_max → grown_size size ≢ 8
unfolding grown_size
grown_size-ne-eight size lo hi = ground arith

-- The size after some growths.
unfoldable pub grown : ℕ → ℕ → ℕ
grown zero size = size
grown (suc n) size = grown_size (grown n size)

clears : ℕ → Bool
clears size = size == 8 || (not (size % 8 == 0) || (grown_size size % 8 == 0))

clears-ClearsMask : (size : ℕ) → clears size ≡ true → ClearsMask size
unfolding clears
clears-ClearsMask size h = elim (Bool-cases (size == 8)) [
  | inl eight ↦ inl (ground (arith, eight))
  | inr other ↦ elim (Bool-cases (size % 8 == 0)) [
    | inr odd ↦ inr (inl (ground (arith, odd)))
    | inl even ↦ inr (inr (ground (arith, other, even, h)))
  ]
]

all_clear : each_under 51 (λ n. clears (grown n 1)) ≡ true
unfolding each_under clears grown grown_size
all_clear = refl

-- How far a table that starts with one slot can grow before a growth leaves flags uninitialised,
-- and the size that it has then.
abbrev pub growths : ℕ
growths = 51

abbrev pub largest : ℕ
largest = 1034394552

pub grown-ClearsMask : (n : ℕ) → n < growths → ClearsMask (grown n 1)
grown-ClearsMask n h =
    clears-ClearsMask (grown n 1) (each_under_sound 51 (λ n. clears (grown n 1)) n all_clear h)

pub grown-growths : grown growths 1 ≡ largest
unfolding grown grown_size
grown-growths = refl

-- Two slots are what one slot grows to, and four slots what three growths make of it.
pub grown_first : (grown 1 1 ≡ 2) × (grown 3 1 ≡ 4)
unfolding grown grown_size
grown_first = (refl, refl)

-- From eight slots the growth from 40 to 60 slots leaves flags uninitialised.
pub grown_eight : ClearsMask (grown 4 8) → ⊥
unfolding grown grown_size
grown_eight h = elim h [
  | inl eight ↦ absurd (omega arith)
  | inr rest ↦ elim rest [ inl odd ↦ absurd (odd refl) | inr even ↦ absurd (omega arith) ]
]
