-- ===== src/Table/Delete.antt =====
-- ratt_table_del_current() (data_array.c).
use native.Mathlib.Decide.{ℕ_discrete}
use rattle.Base.{
  ℕ, suc, ◌+◌, ◌-◌, ◌≤◌, ◌<◌, ◌≡◌, ◌≢◌, refl, true, false, not, ◌&&◌, ◌||◌, none, some, fail, ok,
  ◌==◌, if◌then◌else◌, set, arith, ap, ◌⊎◌, Bool-cases, inl, inr, ◌∙◌, sym, get_or-set, length,
  length-set, inc_size, inc_size_lem, dec_size_lem, count_below, count_below_more,
}
use rattle.Table.Mask.{is_frag, frag_mask_set}
use rattle.Table.Mask.Flags.{AllBytes, frag_mask_set_clear}
use rattle.Table.State.{Table, exists, current, istail, ishead}
use rattle.Table.Update.{del_current}
use rattle.Table.Valid.{IsValid, used, lookup, current_lem, mask_in}
use rattle.Table.Append.{count_below-suc}

module _ {A : Type 0} (blank : A) {t : Table A} (v : IsValid t) where
  -- The chunk was the last one, and not the first: the tail moves back.
  abbrev shortened : Table A
  shortened = record t {
    head = set t.head t.pos blank;
    chunk_count = t.chunk_count - 1;
    tail = t.pos - 1;
    last = t.last - 1;
    pos = t.last - 1;
  }

  -- Any other chunk leaves a hole.
  abbrev with_hole : Table A
  with_hole = record t {
    head = set t.head t.pos blank;
    chunk_count = t.chunk_count - 1;
    frag_mask = (frag_mask_set t.frag_mask t.pos t.frag_count).1;
    frag_count = t.frag_count + 1;
  }

  -- Without a chunk under the cursor the call fails and changes nothing.
  pub del_current-none :
      (t.chunk_count ≡ 0) ⊎ (is_frag t.frag_mask t.pos ≡ true) → del_current blank t ≡ (fail, t)
  unfolding del_current
  del_current-none (inl e) = let here = current_lem v in ground (arith, here)
  del_current-none (inr e) = let here = current_lem v in ground (arith, here)

  module _ (ne : t.chunk_count ≢ 0) (chunk : is_frag t.frag_mask t.pos ≡ false) where
    setting :
        let (s, m', cnt') = frag_mask_set t.frag_mask t.pos t.frag_count in
        (s ≡ ok)
        × (cnt' ≡ inc_size t.frag_count)
        × (length m' ≡ length t.frag_mask)
        × AllBytes m'
        × ((q : ℕ) → is_frag m' q ≡ (q == t.pos || is_frag t.frag_mask q))
    setting =
        frag_mask_set_clear t.frag_mask t.pos t.frag_count v.bytes
          (mask_in v t.pos (omega (arith, v.pos_in, v.last_in))) chunk

    del_current_cases :
        del_current blank t
        ≡ (ok, if t.pos == t.last && not (t.pos == 0) then shortened else with_hole)
    unfolding del_current istail ishead
    del_current_cases =
        let here : current t ≡ some t.pos = current_lem v ∙ ground arith in
        ground (
          arith,
          here,
          setting.1,
          v.there,
          v.tail_last,
          v.last_used,
          v.pos_in,
          v.last_in,
          v.limit,
          inc_size_lem t.frag_count,
          dec_size_lem t.chunk_count,
          dec_size_lem t.last,
        )

    shortened-IsValid : t.pos ≡ t.last → t.pos ≢ 0 → IsValid shortened
    unfolding exists
    shortened-IsValid e nz =
        let fewer : used t ≡ suc (used shortened) = omega (arith, v.last_used) in
        let end_clear : is_frag t.frag_mask (used shortened) ≡ false =
          ap (is_frag t.frag_mask) (omega (arith, v.last_used)) ∙ chunk in
        record {
          there = v.there;
          solid = v.solid;
          room = length-set t.head t.pos blank ∙ v.room;
          mask_room = v.mask_room;
          bytes = v.bytes;
          limit = v.limit;
          last_used = omega (arith, v.last_used);
          last_in = omega (arith, v.last_in);
          pos_in = omega arith;
          tail_last = omega arith;
          holes =
              v.holes
              ∙ ap (count_below (is_frag t.frag_mask)) fewer
              ∙ count_below-suc (is_frag t.frag_mask) (used shortened) end_clear;
          clear = λ i lo hi. elim (ℕ_discrete (used shortened) i) [
            | yes here ↦ rw (← here) end_clear
            | no behind ↦ v.clear i (omega arith) hi
          ];
        }

    with_hole-IsValid : IsValid with_hole
    unfolding exists
    with_hole-IsValid =
        let same_used : used with_hole ≡ used t = omega arith in
        let more : count_below (is_frag with_hole.frag_mask) (used t)
            ≡ count_below (is_frag t.frag_mask) (used t) + 1 =
          count_below_more (is_frag t.frag_mask) (is_frag with_hole.frag_mask) t.pos (used t)
            (omega (arith, v.pos_in, v.last_used)) chunk (ground (arith, setting.4 t.pos))
            (λ i far. ground (arith, setting.4 i)) in
        record {
          there = v.there;
          solid = v.solid;
          room = length-set t.head t.pos blank ∙ v.room;
          mask_room = setting.2 ∙ v.mask_room;
          bytes = setting.3;
          limit = v.limit;
          last_used = v.last_used ∙ ap (λ n. n - 1) (sym same_used);
          last_in = v.last_in;
          pos_in = v.pos_in;
          tail_last = v.tail_last;
          holes = rw same_used (omega (arith, more, v.holes));
          clear = λ i lo hi.
              ground (arith, setting.4 i, v.clear i (omega arith) hi, v.pos_in, v.last_used);
        }

    -- A deletion empties the slot under the cursor and no other, and keeps the table valid.
    pub del_current-chunk :
        let (s, t') = del_current blank t in
        (s ≡ ok)
        × IsValid t'
        × (t'.chunk_count + 1 ≡ t.chunk_count)
        × ((i : ℕ) → lookup blank t' i ≡ (if i == t.pos then none else lookup blank t i))
    del_current-chunk =
        let inside : t.pos < length t.head = omega (arith, v.pos_in, v.last_in, v.room) in
        elim (Bool-cases (t.pos == t.last && not (t.pos == 0))) [
          | inl back ↦
              rw (del_current_cases, back)
                (
                  refl,
                  shortened-IsValid (ground arith) (ground arith),
                  omega arith,
                  λ i. ground (
                    arith,
                    get_or-set t.head t.pos i blank blank inside,
                    v.last_used,
                    v.pos_in,
                    chunk,
                  ),
                )
          | inr hole ↦
              rw (del_current_cases, hole)
                (
                  refl,
                  with_hole-IsValid,
                  omega arith,
                  λ i. ground (
                    arith,
                    get_or-set t.head t.pos i blank blank inside,
                    setting.4 i,
                    v.last_used,
                    v.pos_in,
                  ),
                )
        ]

    -- The cursor stays, or stands on the last slot, which has moved back before it.
    pub del_current-pos :
        let t' = (del_current blank t).1 in
        (t'.last ≤ t.last)
        × (used t' ≤ used t)
        × ((t'.pos ≡ t.pos) ⊎ (t'.pos ≡ t'.last))
        × (t'.pos ≤ t.pos)
    del_current-pos = elim (Bool-cases (t.pos == t.last && not (t.pos == 0))) [
      | inl back ↦
          rw (del_current_cases, back) (omega arith, omega arith, inr refl, ground (arith, back))
      | inr hole ↦ rw (del_current_cases, hole) (omega arith, omega arith, inl refl, omega arith)
    ]
