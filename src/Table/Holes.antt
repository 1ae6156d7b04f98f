-- ===== src/Table/Holes.antt =====
-- The search for the first hole (ratt_table_set_pos_frag_first() of data_array.c).
use native.Mathlib.Decide.{ℕ_discrete, dec_lt}
use rattle.Base.{
  ℕ, zero, suc, ◌+◌, ◌*◌, ◌/◌, ◌%◌, ◌^◌, ◌≤◌, ◌<◌, ◌≡◌, ◌≢◌, refl, true, false, List, ok, ◌==◌,
  get_or, arith, ap₂, ◌∙◌, count_below_some,
}
use rattle.Table.Mask.{is_frag, fsbset, bits_common}
use rattle.Table.Mask.Bytes.{fsbset_lowest}
use rattle.Table.Mask.Flags.{AllBytes, get_or-lt}
use rattle.Table.State.{Table, fragmented}
use rattle.Table.Walk.{frag_slot, set_pos_frag_first}
use rattle.Table.Valid.{IsValid, used, fragmented_lem, is_frag_zero_byte}

-- A byte with a flag is not zero.
flagged_byte : (m : List ℕ) (h : ℕ) → is_frag m h ≡ true → get_or m (h / 8) 0 ≢ 0
flagged_byte m h e z = let gone = is_frag_zero_byte m h z in cc

-- The bytes from `i` on, one of which, `j`, is not zero: the scan stops at the first such.
frag_slot_first :
    (m : List ℕ) (n i j : ℕ)
    → i ≤ j
    → j < i + n
    → get_or m j 0 ≢ 0
    → let (p, k) = frag_slot m n i in
      (p ≡ fsbset (get_or m k 0))
      × (k ≤ j)
      × (get_or m k 0 ≢ 0)
      × ((r : ℕ) → i ≤ r → r < k → get_or m r 0 ≡ 0)
unfolding frag_slot
frag_slot_first m zero i j a b ne = absurd (omega arith)
frag_slot_first m (suc n) i j a b ne = elim (ℕ_discrete (get_or m i 0) 0) [
  | yes z ↦
      let test : (get_or m i 0 == 0) ≡ true = ground arith in
      let later : i ≢ j = λ e. ne (rw (← e) z) in
      let (p, le, nz, zeros) = frag_slot_first m n (i + 1) j (omega arith) (omega arith) ne in
      rw test (
        p,
        le,
        nz,
        λ r lo hi. elim (ℕ_discrete i r) [ yes e ↦ rw (← e) z | no l ↦ zeros r (omega arith) hi ],
      )
  | no nz ↦
      let test : (get_or m i 0 == 0) ≡ false = ground arith in
      rw test (refl, a, nz, λ r lo hi. absurd (omega arith))
]

is_frag_of :
    (m : List ℕ) (q k j : ℕ)
    → q / 8 ≡ k
    → q % 8 ≡ j
    → is_frag m q ≡ bits_common (get_or m k 0) (2 ^ j)
unfolding is_frag
is_frag_of m q k j e f = ap₂ (λ x y. bits_common (get_or m x 0) (2 ^ y)) e f

-- The position that the scan gives.
abbrev pub hole_at : ℕ × ℕ → ℕ
hole_at (p, i) = p + i * 8

-- It is the first hole of all.
pub frag_slot_lem :
    (m : List ℕ) (n h : ℕ)
    → AllBytes m
    → h / 8 < n
    → is_frag m h ≡ true
    → let q = hole_at (frag_slot m n 0) in
      (is_frag m q ≡ true) × ((r : ℕ) → r < q → is_frag m r ≡ false)
frag_slot_lem m n h bytes inside flagged =
    let k = (frag_slot m n 0).1 in
    let (first, le, nz, zeros) =
      frag_slot_first m n 0 (h / 8) (omega arith) (omega arith) (flagged_byte m h flagged) in
    let byte : get_or m k 0 < 256 = get_or-lt m k bytes in
    let (small, bit, _) = fsbset_lowest (get_or m k 0) 0 byte (omega arith) nz in
    let slot : (fsbset (get_or m k 0) + k * 8) / 8 ≡ k = omega arith in
    let place : (fsbset (get_or m k 0) + k * 8) % 8 ≡ fsbset (get_or m k 0) = omega arith in
    rw first (
      is_frag_of m _ k (fsbset (get_or m k 0)) slot place ∙ bit,
      λ r l. elim (dec_lt (r / 8) k) [
        | yes below ↦ is_frag_zero_byte m r (zeros (r / 8) (omega arith) below)
        | no within ↦
            is_frag_of m r k (r % 8) (omega arith) refl
            ∙ (fsbset_lowest (get_or m k 0) (r % 8) byte (omega arith) nz).2 (omega arith)
      ],
    )

-- The position that the cursor is set to.
abbrev pub first_hole : {A : Type 0} → Table A → ℕ
first_hole t = hole_at (frag_slot t.frag_mask (t.last / 8 + 1) 0)

module _ {A : Type 0} {t : Table A} (v : IsValid t) (small : t.frag_count < 2 ^ 32) where
  -- A table with a hole has its cursor set to the first one.
  pub set_pos_frag_first-least :
      t.frag_count ≢ 0
      → let (s, t') = set_pos_frag_first t in
        (s ≡ ok)
        × (t' ≡ record t { pos = first_hole t })
        × (first_hole t < used t)
        × (is_frag t.frag_mask (first_hole t) ≡ true)
        × ((r : ℕ) → r < first_hole t → is_frag t.frag_mask r ≡ false)
  unfolding set_pos_frag_first
  set_pos_frag_first-least ne =
      let (h, inside, flagged) =
        count_below_some (is_frag t.frag_mask) (used t) (λ e. ne (v.holes ∙ e)) in
      let (hole, least) =
        frag_slot_lem t.frag_mask (t.last / 8 + 1) h v.bytes (omega (arith, v.last_used)) flagged in
      let some_left : fragmented t ≡ true = fragmented_lem t small ∙ ground arith in
      let before : first_hole t ≤ h = elim (dec_lt h (first_hole t)) [
        | yes l ↦ absurd (let no_hole = least h l in cc)
        | no l ↦ omega arith
      ] in
      rw some_left (refl, refl, omega arith, hole, least)
