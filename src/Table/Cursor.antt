-- ===== src/Table/Cursor.antt =====
-- The walks of data_array.c against a plain list of slots.
use native.Mathlib.Decide.{ℕ_discrete}
use rattle.Base.{
  ℕ, zero, suc, ◌+◌, ◌-◌, ◌^◌, ◌≤◌, ◌<◌, ◌≡◌, refl, Bool, true, false, ◌&&◌, List, [], ◌∷◌, none,
  some, leb, if◌then◌else◌, count_below_full, arith, ap, Bool-cases, inl, inr, ◌∙◌,
}
use rattle.Table.Mask.{is_frag}
use rattle.Table.State.{Table, isempty, first, fragmented, exists}
use rattle.Table.Walk.{skipped, pos_isfrag, next_from, next, first_next, visit, foreach}
use rattle.Table.Valid.{IsValid, used, skipped_lem, isempty_lem}

-- The slots from `p` on, `n` of them, that pass the test.
unfoldable pub live : (ℕ → Bool) → ℕ → ℕ → List ℕ
live hole p zero = []
live hole p (suc n) = if hole p then live hole (p + 1) n else p ∷ live hole (p + 1) n

live_ext :
    (f g : ℕ → Bool) (p n : ℕ) → ((i : ℕ) → p ≤ i → i < p + n → f i ≡ g i) → live f p n ≡ live g p n
unfolding live
live_ext f g p zero h = refl
live_ext f g p (suc n) h =
    let rest = live_ext f g (p + 1) n (λ i a b. h i (omega arith) (omega arith)) in
    rw (h p (omega arith) (omega arith), rest)

pub live_none :
    (f : ℕ → Bool) (p n : ℕ) → ((i : ℕ) → p ≤ i → i < p + n → f i ≡ true) → live f p n ≡ []
unfolding live
live_none f p zero h = refl
live_none f p (suc n) h =
    rw (h p (omega arith) (omega arith))
      (live_none f (p + 1) n (λ i a b. h i (omega arith) (omega arith)))

module _ {A : Type 0} where
  -- Neither the emptiness of a table nor its holes depend on the cursor.
  pub skipped-pos : (t : Table A) (p i : ℕ) → skipped (record t { pos = p }) i ≡ skipped t i
  unfolding skipped pos_isfrag fragmented isempty exists
  skipped-pos t p i = refl

  skipped_parts : (t : Table A) (p : ℕ) → skipped t p ≡ (fragmented t && pos_isfrag t p)
  unfolding skipped
  skipped_parts t p = refl

  pub isempty-pos : (t : Table A) (p : ℕ) → isempty (record t { pos = p }) ≡ isempty t
  unfolding isempty exists
  isempty-pos t p = refl

  next-next_from :
      (t : Table A) (n : ℕ) → isempty t ≡ false → t.pos + n ≡ t.last → next t ≡ next_from n t t.pos
  unfolding next
  next-next_from t n ne e = let n' : t.last - t.pos ≡ n = omega arith in rw (ne, n')

  -- A step of the walk from slot `p` of a table that is not empty, and all the steps behind it.
  visit-next_from :
      (n fuel : ℕ) (t : Table A) (p : ℕ)
      → isempty t ≡ false
      → p + n ≡ t.last
      → n ≤ fuel
      → visit fuel (next_from n t p) ≡ live (skipped t) (p + 1) n
  unfolding visit next_from live
  visit-next_from zero zero t p ne e le = refl
  visit-next_from zero (suc fuel) t p ne e le = refl
  visit-next_from (suc n) zero t p ne e le = absurd (omega arith)
  visit-next_from (suc n) (suc fuel) t p ne e le =
      let inside : leb (p + 1) t.last ≡ true = ground arith in
      elim (Bool-cases (skipped t (p + 1))) [
        | inl hole ↦
            rw (inside, hole)
              (visit-next_from n (suc fuel) t (p + 1) ne (omega arith) (omega arith))
        | inr chunk ↦
            let t' : Table A = record t { pos = p + 1 } in
            let stepped = next-next_from t' n (isempty-pos t (p + 1) ∙ ne) (omega arith) in
            let rest =
              visit-next_from n fuel t' (p + 1) (isempty-pos t (p + 1) ∙ ne) (omega arith)
                (omega arith) in
            rw (inside, chunk)
              (ap (◌∷◌ (p + 1)) (
                ap (visit fuel) stepped
                ∙ rest
                ∙ live_ext _ _ _ n (λ i _ _. skipped-pos t (p + 1) i)))
      ]

  pub first_next-empty : (t : Table A) → isempty t ≡ true → first_next t ≡ (none, t)
  unfolding first_next first next
  first_next-empty t e = ground arith

  visit-none : (n : ℕ) (t : Table A) → visit n (none, t) ≡ []
  unfolding visit
  visit-none zero t = refl
  visit-none (suc n) t = refl

  pub first_next_lem :
      (t : Table A)
      → isempty t ≡ false
      → let t' = record t { pos = 0 } in
        first_next t ≡ (if skipped t 0 then next t' else (some 0, t'))
  unfolding first_next first
  first_next_lem t ne =
      let same = skipped-pos t 0 0 in ground (arith, skipped_parts (record t { pos = 0 }) 0)

  visit-first_next :
      (t : Table A)
      → isempty t ≡ false
      → visit (t.last + 1) (first_next t) ≡ live (skipped t) 0 (t.last + 1)
  unfolding visit live
  visit-first_next t ne =
      let t' : Table A = record t { pos = 0 } in
      let more : t.last + 1 ≡ suc t.last = omega arith in
      let ne' = isempty-pos t 0 ∙ ne in
      let behind = λ (fuel : ℕ) (le : t.last ≤ fuel).
        ap (visit fuel) (next-next_from t' t.last ne' (omega arith))
        ∙ visit-next_from t.last fuel t' 0 ne' (omega arith) le
        ∙ live_ext _ _ _ t.last (λ i _ _. skipped-pos t 0 i) in
      elim (Bool-cases (skipped t 0)) [
        | inl hole ↦ rw (first_next_lem t ne, hole, behind (t.last + 1) (omega arith), more, hole)
        | inr chunk ↦
            rw (first_next_lem t ne, chunk, more, chunk) (ap (◌∷◌ 0) (behind t.last (omega arith)))
      ]

  -- RATT_TABLE_FOREACH visits exactly the slots that hold a chunk, in their order.
  pub foreach-live :
      (t : Table A)
      → IsValid t
      → t.frag_count < 2 ^ 32
      → foreach t ≡ live (is_frag t.frag_mask) 0 (used t)
  unfolding foreach
  foreach-live t v small = elim (ℕ_discrete t.chunk_count 0) [
    | yes z ↦
        let e : isempty t ≡ true = isempty_lem v ∙ ground arith in
        let all_holes = live_none (is_frag t.frag_mask) 0 (used t) (λ i _ l.
          count_below_full (is_frag t.frag_mask) (used t) i (omega (arith, v.holes))
            (omega arith)) in
        let stopped = first_next-empty t e in
        rw all_holes (ap (visit (t.last + 1)) stopped ∙ visit-none (t.last + 1) t)
    | no nz ↦
        let e : isempty t ≡ false = isempty_lem v ∙ ground arith in
        let same =
          live_ext (skipped t) (is_frag t.frag_mask) 0 (used t)
            (λ i _ l. skipped_lem v small nz i (omega (arith, v.last_used))) in
        visit-first_next t e ∙ ap (live (skipped t) 0) (omega (arith, v.last_used)) ∙ same
  ]
