-- ===== src/Table/Mask/Flags.antt =====
-- The flags seen as a set of positions: what setting and unsetting one does to all the others.
use rattle.Base.{
  ℕ, zero, suc, ◌-◌, ◌/◌, ◌%◌, ◌<◌, ◌≡◌, refl, true, false, not, ◌&&◌, ◌||◌, bit_and, bit_or, List,
  [], ◌∷◌, ◌==◌, arith, ok, length, get_or, set, length-set, get_or-set, inc_size, dec_size, ◌≢◌,
  ap, ap₂, sym, ◌∙◌,
}
use native.Mathlib.Decide.{ℕ_discrete}
use rattle.Table.Mask.{shift_mask, bits_common, mask_slot, is_frag, frag_mask_set, frag_mask_unset}
use rattle.Table.Mask.Bytes.{bits_common-bit_or, bits_common-bit_and, byte_bounds}

-- Every byte of the mask is a byte.
abbrev pub AllBytes : List ℕ → Type 0
AllBytes [] = Unit {0}
AllBytes (b ∷ bs) = (b < 256) × AllBytes bs

pub get_or-lt : (bs : List ℕ) (i : ℕ) → AllBytes bs → get_or bs i 0 < 256
get_or-lt [] i h = omega arith
get_or-lt (b ∷ bs) zero h = h.0
get_or-lt (b ∷ bs) (suc i) h = get_or-lt bs i h.1

pub set-AllBytes : (bs : List ℕ) (i v : ℕ) → v < 256 → AllBytes bs → AllBytes (set bs i v)
set-AllBytes [] i v l h = tt
set-AllBytes (b ∷ bs) zero v l h = (l, h.1)
set-AllBytes (b ∷ bs) (suc i) v l h = (h.0, set-AllBytes bs i v l h.1)

-- Two positions are equal when they share the byte and the bit.
same_position : (i j : ℕ) → i / 8 ≡ j / 8 → i % 8 ≡ j % 8 → i ≡ j
same_position i j p q = omega arith

-- Whatever byte the slot of `p` becomes, a position of another byte reads as before.
module _ (m : List ℕ) (p q v : ℕ) (room : p / 8 < length m) where
  is_frag-set_far : q / 8 ≢ p / 8 → is_frag (set m (p / 8) v) q ≡ is_frag m q
  unfolding is_frag
  is_frag-set_far far =
      ap (λ b. bits_common b (shift_mask q)) (ground (arith, get_or-set m (p / 8) (q / 8) v 0 room))

  is_frag-set_near : q / 8 ≡ p / 8 → is_frag (set m (p / 8) v) q ≡ bits_common v (shift_mask q)
  unfolding is_frag
  is_frag-set_near near =
      ap (λ b. bits_common b (shift_mask q)) (ground (arith, get_or-set m (p / 8) (q / 8) v 0 room))

-- Within a byte, the bits tell the positions apart.
same_bit : (p q : ℕ) → q / 8 ≡ p / 8 → (q % 8 == p % 8) ≡ (q == p)
same_bit p q e = ground arith

slot_byte :
    (m : List ℕ) (p q : ℕ)
    → q / 8 ≡ p / 8
    → bits_common (mask_slot m p) (shift_mask q) ≡ is_frag m q
unfolding is_frag
slot_byte m p q e = ap (λ k. bits_common (get_or m k 0) (shift_mask q)) (sym e)

-- The flags after a change of one bit, at the changed position and at the others.
pub is_frag-set_or :
    (m : List ℕ) (p q : ℕ)
    → AllBytes m
    → p / 8 < length m
    → is_frag (set m (p / 8) (bit_or (mask_slot m p) (shift_mask p))) q ≡ (q == p || is_frag m q)
is_frag-set_or m p q bytes room = elim (ℕ_discrete (q / 8) (p / 8)) [
  | yes e ↦
      is_frag-set_near m p q _ room e
      ∙ bits_common-bit_or (mask_slot m p) (p % 8) (q % 8) (get_or-lt m (p / 8) bytes) (omega arith)
          (omega arith)
      ∙ ap₂ ◌||◌ (same_bit p q e) (slot_byte m p q e)
  | no ne ↦ is_frag-set_far m p q _ room ne ∙ ground arith
]

pub is_frag-set_and :
    (m : List ℕ) (p q : ℕ)
    → AllBytes m
    → p / 8 < length m
    → is_frag (set m (p / 8) (bit_and (mask_slot m p) (255 - shift_mask p))) q
      ≡ (not (q == p) && is_frag m q)
is_frag-set_and m p q bytes room = elim (ℕ_discrete (q / 8) (p / 8)) [
  | yes e ↦
      is_frag-set_near m p q _ room e
      ∙ bits_common-bit_and (mask_slot m p) (p % 8) (q % 8) (get_or-lt m (p / 8) bytes)
          (omega arith) (omega arith)
      ∙ ap₂ ◌&&◌ (ap not (same_bit p q e)) (slot_byte m p q e)
  | no ne ↦ is_frag-set_far m p q _ room ne ∙ ground arith
]

-- A change of one flag, as a whole: which flags there are afterwards, and that the mask is sound.
module _ (m : List ℕ) (p cnt : ℕ) (bytes : AllBytes m) (room : p / 8 < length m) where
  pub frag_mask_set_clear :
      is_frag m p ≡ false
      → let (s, m', cnt') = frag_mask_set m p cnt in
        (s ≡ ok)
        × (cnt' ≡ inc_size cnt)
        × (length m' ≡ length m)
        × AllBytes m'
        × ((q : ℕ) → is_frag m' q ≡ (q == p || is_frag m q))
  unfolding frag_mask_set is_frag
  frag_mask_set_clear clear = rw clear (
    refl,
    refl,
    length-set m (p / 8) _,
    set-AllBytes m (p / 8) _
        (byte_bounds (mask_slot m p) (p % 8) (get_or-lt m (p / 8) bytes) (omega arith)).0 bytes,
    λ q. is_frag-set_or m p q bytes room,
  )

  pub frag_mask_unset_set :
      is_frag m p ≡ true
      → let (s, m', cnt') = frag_mask_unset m p cnt in
        (s ≡ ok)
        × (cnt' ≡ dec_size cnt)
        × (length m' ≡ length m)
        × AllBytes m'
        × ((q : ℕ) → is_frag m' q ≡ (not (q == p) && is_frag m q))
  unfolding frag_mask_unset is_frag
  frag_mask_unset_set flagged = rw flagged (
    refl,
    refl,
    length-set m (p / 8) _,
    set-AllBytes m (p / 8) _
        (byte_bounds (mask_slot m p) (p % 8) (get_or-lt m (p / 8) bytes) (omega arith)).1 bytes,
    λ q. is_frag-set_and m p q bytes room,
  )
