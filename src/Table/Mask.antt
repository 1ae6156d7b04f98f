-- ===== src/Table/Mask.antt =====
-- The bit flags of the holes: one bit per slot, eight to a byte (data_array.c, the macros and
-- is_frag, frag_mask_set, frag_mask_unset).
pub mod Bytes
pub mod Flags
use rattle.Base.{
  ℕ, zero, suc, ◌+◌, ◌-◌, ◌*◌, ◌/◌, ◌%◌, ◌^◌, ◌<◌, ◌≡◌, Bool, true, false, not, List, [], ◌∷◌,
  Status, fail, ok, bit_and, bit_or, ◌==◌, if◌then◌else◌, get_or, set, inc_size, dec_size,
}

unfoldable pub frag_mask_size : ℕ → ℕ
frag_mask_size x = 1 + x / 8

-- 1 << (pos & 7)
abbrev pub shift_mask : ℕ → ℕ
shift_mask pos = 2 ^ (pos % 8)

-- x & y, read as a condition.
abbrev pub bits_common : ℕ → ℕ → Bool
bits_common x y = not (bit_and x y == 0)

-- The one-based place of the first set bit of a byte, 0 where there is none: ffs(). The loop
-- looks at the `n` bits from place `i` on.
ffs_from : ℕ → ℕ → ℕ → ℕ
ffs_from zero i x = 0
ffs_from (suc n) i x = if bits_common x (2 ^ i) then i + 1 else ffs_from n (i + 1) x

unfoldable pub ffs : ℕ → ℕ
unfolding ffs_from
ffs x = ffs_from 8 0 x

unfoldable pub fsbset : ℕ → ℕ
unfolding ffs
fsbset x = ffs x - 1

-- The byte that shift_mask_slot(head, pos) moves to.
abbrev pub mask_slot : List ℕ → ℕ → ℕ
mask_slot head pos = get_or head (pos / 8) 0

unfoldable pub is_frag : List ℕ → ℕ → Bool
is_frag slot pos = bits_common (mask_slot slot pos) (shift_mask pos)

-- The mask and the counter that the call leaves behind.
unfoldable pub frag_mask_set : List ℕ → ℕ → ℕ → Status × List ℕ × ℕ
frag_mask_set slot pos cnt =
    if bits_common (mask_slot slot pos) (shift_mask pos)
    then (fail, slot, cnt)
    else (ok, set slot (pos / 8) (bit_or (mask_slot slot pos) (shift_mask pos)), inc_size cnt)

-- `~bitmask` keeps the other bits of the byte.
unfoldable pub frag_mask_unset : List ℕ → ℕ → ℕ → Status × List ℕ × ℕ
frag_mask_unset slot pos cnt =
    if bits_common (mask_slot slot pos) (shift_mask pos)
    then (
      ok,
      set slot (pos / 8) (bit_and (mask_slot slot pos) (255 - shift_mask pos)),
      dec_size cnt,
    )
    else (fail, slot, cnt)
