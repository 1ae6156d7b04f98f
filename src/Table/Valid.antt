-- ===== src/Table/Valid.antt =====
-- The representation invariant of `struct ratt_table`, and the chunk that each slot holds.
use rattle.Base.{
  ℕ, zero, suc, ◌+◌, ◌-◌, ◌*◌, ◌/◌, ◌%◌, ◌^◌, ◌≤◌, ◌<◌, ◌≡◌, ◌≢◌, refl, true, false, not, ◌&&◌,
  List, Option, none, some, ◌==◌, ltb, if◌then◌else◌, get_or, length, replicate, count_below,
  count_below_zero, ◌∙◌, arith, ap,
}
use rattle.Table.Mask.{is_frag, frag_mask_size, mask_slot, shift_mask, bits_common}
use rattle.Table.Mask.Bytes.{bits_common-zero}
use rattle.Table.Mask.Flags.{AllBytes}
use rattle.Table.State.{Table, exists, isempty, fragmented, current, tab_siz_max}
use rattle.Table.Walk.{pos_isfrag, skipped}

-- The number of slots that hold a chunk or a hole.
abbrev pub used {ℓ} : {A : Type ℓ} → Table A → ℕ
used t = t.chunk_count + t.frag_count

-- The bits of the mask that are known to be clear end here: at the end of the last byte that
-- holds a slot, and for a table of eight slots one byte further.
abbrev pub clean_end : ℕ → ℕ
clean_end size = if size == 8 then 16 else 8 * ((size + 7) / 8)

pub record IsValid {ℓ} {A : Type ℓ} (t : Table A) : Type ℓ where
  pub there : exists t ≡ true
  pub solid : t.dangling ≡ false
  pub room : length t.head ≡ t.size
  pub mask_room : length t.frag_mask ≡ frag_mask_size t.size
  pub bytes : AllBytes t.frag_mask
  pub limit : t.size ≤ tab_siz_max
  pub last_used : t.last ≡ used t - 1
  pub last_in : t.last < t.size
  pub pos_in : t.pos ≤ t.last
  pub tail_last : t.tail ≡ t.last
  pub holes : t.frag_count ≡ count_below (is_frag t.frag_mask) (used t)
  pub clear : (i : ℕ) → used t ≤ i → i < clean_end t.size → is_frag t.frag_mask i ≡ false

-- The table holds a chunk, or has never held one.
abbrev pub Steady {ℓ} : {A : Type ℓ} → Table A → Type 0
Steady t = t.chunk_count ≡ 0 → t.frag_count ≡ 0

-- The abstract view: which chunk lives in a slot.
abbrev pub lookup {ℓ} : {A : Type ℓ} → A → Table A → ℕ → Option A
lookup blank t i =
    if ltb i (used t) && not (is_frag t.frag_mask i) then some (get_or t.head i blank) else none

module _ {ℓ} {A : Type ℓ} where
  -- A slot of a valid table has its byte in the mask.
  pub mask_in : {t : Table A} → IsValid t → (p : ℕ) → p < t.size → p / 8 < length t.frag_mask
  unfolding frag_mask_size
  mask_in v p h = omega arith

  pub used-le : {t : Table A} → IsValid t → used t ≤ t.size
  used-le v = omega arith

  pub isempty_lem : {t : Table A} → IsValid t → isempty t ≡ (t.chunk_count == 0)
  unfolding isempty exists
  isempty_lem v = ground arith

  pub current_lem :
      {t : Table A} → IsValid t → current t ≡ (if t.chunk_count == 0 then none else some t.pos)
  unfolding current isempty exists
  current_lem v = ground arith

  pub fragmented_lem :
      (t : Table A) → t.frag_count < 2 ^ 32 → fragmented t ≡ not (t.frag_count == 0)
  unfolding fragmented
  fragmented_lem t h = ground arith

  -- On a slot of a table that holds a chunk the test of the walks reads the slot's own bit.
  pub skipped_lem :
      {t : Table A}
      → IsValid t
      → t.frag_count < 2 ^ 32
      → t.chunk_count ≢ 0
      → (p : ℕ) → p ≤ t.last
      → skipped t p ≡ is_frag t.frag_mask p
  unfolding skipped pos_isfrag fragmented isempty exists
  skipped_lem {t} v small ne p h = ground (arith, count_below_zero (is_frag t.frag_mask) (used t) p)

get_or-replicate : (n i : ℕ) → get_or {A = ℕ} (replicate n 0) i 0 ≡ 0
get_or-replicate zero i = refl
get_or-replicate (suc n) zero = refl
get_or-replicate (suc n) (suc i) = get_or-replicate n i

pub is_frag_zero_byte : (m : List ℕ) (p : ℕ) → mask_slot m p ≡ 0 → is_frag m p ≡ false
unfolding is_frag
is_frag_zero_byte m p e =
    ap (λ b. bits_common b (shift_mask p)) e ∙ bits_common-zero (p % 8) (omega arith)

pub is_frag-replicate : (n p : ℕ) → is_frag (replicate n 0) p ≡ false
is_frag-replicate n p = is_frag_zero_byte (replicate n 0) p (get_or-replicate n (p / 8))

pub AllBytes-replicate : (n : ℕ) → AllBytes (replicate n 0)
AllBytes-replicate zero = tt
AllBytes-replicate (suc n) = (omega arith, AllBytes-replicate n)
