-- ===== src/Table/Gap.antt =====
-- The slots that a step of RATT_TABLE_FOREACH passes over (array.h, data_array.c).
use native.Mathlib.Decide.{ℕ_discrete}
use rattle.Base.{
  ℕ, zero, suc, ◌+◌, ◌-◌, ◌^◌, ◌≤◌, ◌<◌, ◌≡◌, ◌≢◌, ◌⊎◌, refl, true, false, Option, none, some, leb,
  arith, ◌∙◌, sym, Bool-cases, inl, inr, get_or, count_below_full,
}
use rattle.Table.Mask.{is_frag}
use rattle.Table.State.{Table, isempty}
use rattle.Table.Walk.{skipped, next_from, next, first_next}
use rattle.Table.Valid.{IsValid, used, lookup, isempty_lem, skipped_lem}
use rattle.Table.Cursor.{first_next-empty, first_next_lem}
use rattle.Table.Reuse.{pos-IsValid}

module _ {A : Type 0} (blank : A) where
  -- What a walk has come to from the slots `low` on: there is no chunk, or the first one is in the
  -- slot that it answers.
  abbrev pub Gap : Table A → ℕ → Option ℕ × Table A → Type 0
  Gap t low x =
      ((q : ℕ) × (x ≡ (none, record t { pos = q }))
        × (q ≤ t.last)
        × ((i : ℕ) → low ≤ i → lookup blank t i ≡ none))
      ⊎ ((q : ℕ) × (x ≡ (some q, record t { pos = q }))
          × (q ≤ t.last)
          × (low ≤ q)
          × ((i : ℕ) → low ≤ i → i < q → lookup blank t i ≡ none)
          × (lookup blank t q ≡ some (get_or t.head q blank)))

  module _ {t : Table A} (v : IsValid t) where
    beyond-none : (i : ℕ) → t.last < i → lookup blank t i ≡ none
    beyond-none i l = ground (arith, v.last_used)

    held :
        t.chunk_count ≢ 0
        → (q : ℕ) → q ≤ t.last
        → is_frag t.frag_mask q ≡ false
        → lookup blank t q ≡ some (get_or t.head q blank)
    held ne q le chunk = ground (arith, v.last_used, chunk)

    pub empty-none : t.chunk_count ≡ 0 → (i : ℕ) → lookup blank t i ≡ none
    empty-none z i = ground (
      arith,
      λ (l : i < used t).
          count_below_full (is_frag t.frag_mask) (used t) i (omega (arith, v.holes)) l,
    )

    -- Where the slot behind `p` holds none, a range may begin there.
    from_next :
        (p : ℕ)
        → lookup blank t (p + 1) ≡ none
        → (i : ℕ) → p + 1 ≤ i
        → (p + 1 + 1 ≤ i → lookup blank t i ≡ none)
        → lookup blank t i ≡ none
    from_next p passed i lo later = elim (ℕ_discrete (p + 1) i) [
      | yes here ↦ rw (← here) passed
      | no behind ↦ later (omega (arith, lo, behind))
    ]

    next_from-Gap :
        (n p : ℕ)
        → t.frag_count < 2 ^ 32
        → t.chunk_count ≢ 0
        → p + n ≡ t.last
        → Gap t (p + 1) (next_from n t p)
    unfolding next_from
    next_from-Gap zero p small ne sum =
        inl (p, refl, omega arith, λ i lo. beyond-none i (omega (arith, lo, sum)))
    next_from-Gap (suc n) p small ne sum =
        let within : leb (p + 1) t.last ≡ true = ground (arith, sum) in
        let flag = skipped_lem v small ne (p + 1) (omega (arith, sum)) in
        elim (Bool-cases (skipped t (p + 1))) [
          | inr chunk ↦
              rw (within, chunk)
                (inr (
                  p + 1,
                  refl,
                  omega (arith, sum),
                  omega arith,
                  λ i lo hi. absurd (omega (arith, lo, hi)),
                  held ne (p + 1) (omega (arith, sum)) (sym flag ∙ chunk),
                ))
          | inl hole ↦
              let passed : lookup blank t (p + 1) ≡ none = ground (arith, flag, hole) in
              elim (next_from-Gap n (p + 1) small ne (omega (arith, sum))) [
                | inl (q, e, bound, none_on) ↦
                    rw (within, hole)
                      (inl (q, e, bound, λ i lo. from_next p passed i lo (none_on i)))
                | inr (q, e, bound, above, none_on, chunk) ↦
                    rw (within, hole)
                      (inr (
                        q,
                        e,
                        bound,
                        omega (arith, above),
                        λ i lo hi. from_next p passed i lo (λ next. none_on i next hi),
                        chunk,
                      ))
              ]
        ]

    -- A step of RATT_TABLE_FOREACH, from the slot behind the cursor.
    pub next-Gap : t.frag_count < 2 ^ 32 → Gap t (t.pos + 1) (next t)
    unfolding next
    next-Gap small = elim (ℕ_discrete t.chunk_count 0) [
      | yes z ↦
          let empty : isempty t ≡ true = isempty_lem v ∙ ground (arith, z) in
          rw empty (inl (t.pos, refl, v.pos_in, λ i lo. empty-none z i))
      | no nz ↦
          let filled : isempty t ≡ false = isempty_lem v ∙ ground (arith, nz) in
          rw filled (next_from-Gap (t.last - t.pos) t.pos small nz (omega (arith, v.pos_in)))
    ]

  from_first :
      (t : Table A)
      → lookup blank t 0 ≡ none
      → (i : ℕ) → (1 ≤ i → lookup blank t i ≡ none)
      → lookup blank t i ≡ none
  from_first t first_none zero later = first_none
  from_first t first_none (suc i) later = later (omega arith)

  -- The first step of RATT_TABLE_FOREACH, from the first slot.
  pub first_next-Gap : {t : Table A} → IsValid t → t.frag_count < 2 ^ 32 → Gap t 0 (first_next t)
  first_next-Gap {t} v small = elim (ℕ_discrete t.chunk_count 0) [
    | yes z ↦
        let empty : isempty t ≡ true = isempty_lem v ∙ ground (arith, z) in
        let start = first_next-empty t empty in
        rw start (inl (t.pos, refl, v.pos_in, λ i lo. empty-none v z i))
    | no nz ↦
        let filled : isempty t ≡ false = isempty_lem v ∙ ground (arith, nz) in
        let start = first_next_lem t filled in
        let flag = skipped_lem v small nz 0 (omega arith) in
        elim (Bool-cases (skipped t 0)) [
          | inr chunk ↦
              rw (start, chunk)
                (inr (
                  0,
                  refl,
                  omega arith,
                  omega arith,
                  λ i lo hi. absurd (omega (arith, hi)),
                  held v nz 0 (omega arith) (sym flag ∙ chunk),
                ))
          | inl hole ↦
              let t' : Table A = record t { pos = 0 } in
              let first_none : lookup blank t 0 ≡ none = ground (arith, flag, hole) in
              elim (next-Gap (pos-IsValid 0 v (omega arith)) small) [
                | inl (q, e, bound, none_on) ↦
                    rw (start, hole)
                      (inl (q, e, bound, λ i lo. from_first t first_none i (none_on i)))
                | inr (q, e, bound, above, none_on, chunk) ↦
                    rw (start, hole)
                      (inr (
                        q,
                        e,
                        bound,
                        omega arith,
                        λ i lo hi. from_first t first_none i (λ next. none_on i next hi),
                        chunk,
                      ))
              ]
        ]
  ]
