-- ===== src/Table/Reuse.antt =====
-- ratt_table_get_frag_first() and the holes that it looks for (data_array.c).
use rattle.Base.{
  ℕ, ◌+◌, ◌-◌, ◌^◌, ◌≤◌, ◌<◌, ◌≡◌, ◌≢◌, refl, true, false, ◌||◌, Option, none, some, Status, fail,
  ok, ◌==◌, if◌then◌else◌, arith, ap, Bool-cases, inl, inr, ◌∙◌, sym, inc_size_lem, dec_size_lem,
  count_below, count_below_more, count_below_zero,
}
use rattle.Table.Mask.{is_frag, frag_mask_unset}
use rattle.Table.Mask.Flags.{frag_mask_unset_set}
use rattle.Table.State.{Table, exists, current, has_flag, fl_no_reuse}
use rattle.Table.Walk.{set_pos_frag_first}
use rattle.Table.Update.{Alloc, take_frag, get_frag_first, get_tail_next}
use rattle.Table.Valid.{lookup, IsValid, Steady, used, current_lem, fragmented_lem, mask_in}
use rattle.Table.Append.{Claims, Claims-trans, get_tail_next-Claims}
use rattle.Table.Sizes.{ClearsMask}
use rattle.Table.Holes.{first_hole, set_pos_frag_first-least}

module _ {A : Type 0} (blank : A) {t : Table A} (v : IsValid t)
    (small : t.frag_count < 2 ^ 32) where
  abbrev after_reuse : Table A
  after_reuse = record t {
    chunk_count = t.chunk_count + 1;
    frag_count = t.frag_count - 1;
    frag_mask = (frag_mask_unset t.frag_mask t.pos t.frag_count).1;
  }

  hole_counted : t.chunk_count ≢ 0 → is_frag t.frag_mask t.pos ≡ true → 0 < t.frag_count
  hole_counted ne hole =
      ground (
        arith,
        v.holes,
        v.pos_in,
        v.last_used,
        count_below_zero (is_frag t.frag_mask) (used t) t.pos,
      )

  take_frag-after_reuse :
      t.chunk_count ≢ 0
      → is_frag t.frag_mask t.pos ≡ true
      → take_frag blank t ≡ (ok, some t.pos, after_reuse)
  unfolding take_frag
  take_frag-after_reuse ne hole =
      let here : current t ≡ some t.pos = current_lem v ∙ ground arith in
      let changed =
        frag_mask_unset_set t.frag_mask t.pos t.frag_count v.bytes
          (mask_in v t.pos (omega (arith, v.pos_in, v.last_in))) hole in
      ground (
        arith,
        here,
        changed.0,
        changed.1,
        hole_counted ne hole,
        inc_size_lem t.chunk_count,
        dec_size_lem t.frag_count,
        v.last_used,
        v.last_in,
        v.limit,
      )

  -- The hole that the cursor stands on is filled.
  pub take_frag-Claims :
      t.chunk_count ≢ 0
      → is_frag t.frag_mask t.pos ≡ true
      → let (s, p, t') = take_frag blank t in (s ≡ ok) × (p ≡ some t.pos) × Claims blank t t' t.pos
  unfolding exists
  take_frag-Claims ne hole =
      let (s, cnt, len, bytes, flags) =
        frag_mask_unset_set t.frag_mask t.pos t.frag_count v.bytes
          (mask_in v t.pos (omega (arith, v.pos_in, v.last_in))) hole in
      let counted = hole_counted ne hole in
      let same_used : used after_reuse ≡ used t = omega arith in
      let fewer : count_below (is_frag t.frag_mask) (used t)
          ≡ count_below (is_frag after_reuse.frag_mask) (used t) + 1 =
        count_below_more (is_frag after_reuse.frag_mask) (is_frag t.frag_mask) t.pos (used t)
          (omega (arith, v.pos_in, v.last_used)) (ground (arith, flags t.pos)) hole
          (λ i far. ground (arith, flags i)) in
      rw (take_frag-after_reuse ne hole) (
        refl,
        refl,
        record {
          valid = record {
            there = v.there;
            solid = v.solid;
            room = v.room;
            mask_room = len ∙ v.mask_room;
            bytes = bytes;
            limit = v.limit;
            last_used = v.last_used ∙ ap (λ n. n - 1) (sym same_used);
            last_in = v.last_in;
            pos_in = v.pos_in;
            tail_last = v.tail_last;
            holes = rw same_used (omega (arith, fewer, v.holes));
            clear = λ i lo hi. ground (arith, flags i, v.clear i (omega arith) hi);
          };
          in_range = omega (arith, v.pos_in, v.last_in);
          here = refl;
          counted = refl;
          extent = omega arith;
          claimed = (omega (arith, v.pos_in, v.last_used), ground (arith, flags t.pos));
          others = λ i far. ground (arith, flags i, same_used);
        },
      )

-- A move of the cursor within the slots in use keeps a table valid.
pub pos-IsValid :
    {A : Type 0} {t : Table A} (p : ℕ) → IsValid t → p ≤ t.last → IsValid (record t { pos = p })
unfolding exists
pos-IsValid p v h = record {
  there = v.there;
  solid = v.solid;
  room = v.room;
  mask_room = v.mask_room;
  bytes = v.bytes;
  limit = v.limit;
  last_used = v.last_used;
  last_in = v.last_in;
  pos_in = h;
  tail_last = v.tail_last;
  holes = v.holes;
  clear = v.clear;
}

-- Where ratt_table_insert() puts the next chunk: in the first hole, if there is one and holes may
-- be reused, or else behind the last slot in use.
unfoldable pub free_slot : {A : Type 0} → Table A → ℕ
free_slot t = if t.frag_count == 0 || has_flag t.flags fl_no_reuse then used t else first_hole t

pub free_slot_lem :
    {A : Type 0} (blank : A) {t : Table A}
    → IsValid t
    → t.frag_count < 2 ^ 32
    → lookup blank t (free_slot t) ≡ none
unfolding free_slot
free_slot_lem blank {t} v small =
    elim (Bool-cases (t.frag_count == 0 || has_flag t.flags fl_no_reuse)) [
      | inl behind ↦ ground (arith, behind)
      | inr within ↦ ground (arith, within, set_pos_frag_first-least v small (ground arith))
    ]

module _ {A : Type 0} (blank : A) {t : Table A} (a : Alloc A) (v : IsValid t)
    (small : t.frag_count < 2 ^ 32) where
  reuse_then_take : Status × Table A → Status × Option ℕ × Table A
  reuse_then_take (ok, t') = take_frag blank t'
  reuse_then_take (fail, t') = (fail, none, t')

  get_frag_first_cases : get_frag_first blank t a ≡ (
      if t.frag_count == 0 || has_flag t.flags fl_no_reuse
      then get_tail_next blank t a
      else reuse_then_take (set_pos_frag_first t))
  unfolding get_frag_first reuse_then_take
  get_frag_first_cases = ground (arith, fragmented_lem t small)

  -- A hole is claimed whatever the allocator says.
  pub get_frag_first-hole :
      t.chunk_count ≢ 0
      → t.frag_count ≢ 0
      → has_flag t.flags fl_no_reuse ≡ false
      → let (s, p, t') = get_frag_first blank t a in
        (s ≡ ok) × (p ≡ some (free_slot t)) × Claims blank t t' (free_slot t)
  unfolding free_slot reuse_then_take
  get_frag_first-hole chunks holes reuse =
      let (s, e, inside, hole, least) = set_pos_frag_first-least v small holes in
      let here : get_frag_first blank t a ≡ take_frag blank (set_pos_frag_first t).1 =
        get_frag_first_cases ∙ ground (arith, s) in
      let v' = pos-IsValid (first_hole t) v (omega (arith, v.last_used)) in
      let slot_eq : free_slot t ≡ first_hole t = ground arith in
      let (done, p, claims) = take_frag-Claims blank v' small chunks hole in
      rw (here ∙ ap (take_frag blank) e, slot_eq)
        (done, p, Claims-trans blank (λ i. refl) refl refl claims)

  -- In an emptied table the slot that was found is not handed out: the call fails.
  pub get_frag_first-emptied :
      t.chunk_count ≡ 0
      → t.frag_count ≢ 0
      → has_flag t.flags fl_no_reuse ≡ false
      → (get_frag_first blank t a).0 ≡ fail
  unfolding reuse_then_take take_frag
  get_frag_first-emptied empty holes reuse =
      let (s, e, inside, hole, least) = set_pos_frag_first-least v small holes in
      let v' = pos-IsValid (first_hole t) v (omega (arith, v.last_used)) in
      let nothing : current (set_pos_frag_first t).1 ≡ none =
        ap current e ∙ current_lem v' ∙ ground arith in
      let here : get_frag_first blank t a ≡ take_frag blank (set_pos_frag_first t).1 =
        get_frag_first_cases ∙ ground (arith, s) in
      rw here (ground (arith, nothing))

  -- A call on a table that is not emptied claims the free slot.
  pub get_frag_first-Claims :
      Steady t
      → (used t ≡ t.size → ClearsMask t.size)
      → (get_frag_first blank t a).0 ≡ ok
      → let (s, p, t') = get_frag_first blank t a in
        (p ≡ some (free_slot t)) × Claims blank t t' (free_slot t)
  unfolding free_slot
  get_frag_first-Claims steady clears h =
      elim (Bool-cases (t.frag_count == 0 || has_flag t.flags fl_no_reuse)) [
        | inl behind ↦
            let here : get_frag_first blank t a ≡ get_tail_next blank t a =
              get_frag_first_cases ∙ ground arith in
            rw (here, behind) (get_tail_next-Claims blank a v steady clears (rw here at h))
        | inr within ↦
            let (s, p, c) = get_frag_first-hole (ground arith) (ground arith) (ground arith) in
            (p, c)
      ]
