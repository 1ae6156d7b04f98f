-- ===== src/Table/Mask/Bytes.antt =====
-- Facts about a single byte of the flags, each checked at every byte and every bit.
use rattle.Base.{
  ℕ, ◌-◌, ◌^◌, ◌<◌, ◌≡◌, refl, Bool, true, false, not, ◌&&◌, ◌||◌, bit_and, bit_or, ◌==◌, ltb, leb,
  same, same→eq, each_under, each_under_sound, arith, ◌≢◌,
}
use rattle.Table.Mask.{bits_common, fsbset}

abbrev or_law : ℕ → ℕ → ℕ → Bool
or_law b k j = same (bits_common (bit_or b (2 ^ k)) (2 ^ j)) (j == k || bits_common b (2 ^ j))

abbrev and_law : ℕ → ℕ → ℕ → Bool
and_law b k j =
    same (bits_common (bit_and b (255 - 2 ^ k)) (2 ^ j)) (not (j == k) && bits_common b (2 ^ j))

or_table : each_under 256 (λ b. each_under 8 (λ k. each_under 8 (or_law b k))) ≡ true
unfolding each_under
or_table = refl

and_table : each_under 256 (λ b. each_under 8 (λ k. each_under 8 (and_law b k))) ≡ true
unfolding each_under
and_table = refl

pub bits_common-bit_or :
    (b k j : ℕ)
    → b < 256
    → k < 8
    → j < 8
    → bits_common (bit_or b (2 ^ k)) (2 ^ j) ≡ (j == k || bits_common b (2 ^ j))
bits_common-bit_or b k j hb hk hj = same→eq _ _ (
    each_under_sound 8 (or_law b k) j
      (each_under_sound 8 (λ k. each_under 8 (or_law b k)) k (each_under_sound 256 _ b or_table hb)
        hk)
      hj)

pub bits_common-bit_and :
    (b k j : ℕ)
    → b < 256
    → k < 8
    → j < 8
    → bits_common (bit_and b (255 - 2 ^ k)) (2 ^ j) ≡ (not (j == k) && bits_common b (2 ^ j))
bits_common-bit_and b k j hb hk hj = same→eq _ _ (
    each_under_sound 8 (and_law b k) j
      (each_under_sound 8 (λ k. each_under 8 (and_law b k)) k
        (each_under_sound 256 _ b and_table hb) hk)
      hj)

abbrev bound_law : ℕ → ℕ → Bool
bound_law b k = ltb (bit_or b (2 ^ k)) 256 && ltb (bit_and b (255 - 2 ^ k)) 256

bound_table : each_under 256 (λ b. each_under 8 (bound_law b)) ≡ true
unfolding each_under
bound_table = refl

pub byte_bounds :
    (b k : ℕ) → b < 256 → k < 8 → (bit_or b (2 ^ k) < 256) × (bit_and b (255 - 2 ^ k) < 256)
byte_bounds b k hb hk =
    ground (arith, each_under_sound 8 (bound_law b) k (each_under_sound 256 _ b bound_table hb) hk)

-- `fsbset` of a byte that is not zero is the place of its lowest set bit.
abbrev lowest_law : ℕ → ℕ → Bool
lowest_law b j =
    b == 0
    || (ltb (fsbset b) 8
        && bits_common b (2 ^ fsbset b)
        && (leb (fsbset b) j || not (bits_common b (2 ^ j))))

lowest_table : each_under 256 (λ b. each_under 8 (lowest_law b)) ≡ true
unfolding each_under fsbset
lowest_table = refl

pub fsbset_lowest :
    (b j : ℕ)
    → b < 256
    → j < 8
    → b ≢ 0
    → (fsbset b < 8)
      × (bits_common b (2 ^ fsbset b) ≡ true)
      × (j < fsbset b → bits_common b (2 ^ j) ≡ false)
fsbset_lowest b j hb hj ne =
    ground
      (arith, each_under_sound 8 (lowest_law b) j (each_under_sound 256 _ b lowest_table hb) hj)

abbrev empty_law : ℕ → Bool
empty_law j = not (bits_common 0 (2 ^ j))

empty_table : each_under 8 empty_law ≡ true
unfolding each_under
empty_table = refl

pub bits_common-zero : (j : ℕ) → j < 8 → bits_common 0 (2 ^ j) ≡ false
bits_common-zero j hj = ground (arith, each_under_sound 8 empty_law j empty_table hj)
