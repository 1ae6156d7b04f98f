-- ===== src/Table/Ends.antt =====
-- The end of RATT_TABLE_FOREACH (array.h).
use rattle.Base.{
  ℕ, zero, suc, ◌+◌, ◌-◌, ◌≤◌, ◌<◌, ◌≡◌, refl, Bool, true, false, Option, none, some, leb, arith,
  ap, ◌∙◌, ◌⊎◌, inl, inr, Bool-cases,
}
use rattle.Table.Cursor.{first_next-empty, first_next_lem}
use rattle.Table.State.{Table, isempty}
use rattle.Table.Walk.{skipped, next_from, next, first_next}

module _ {A : Type 0} where
  -- Whether the walk that stands at `x` is over within some rounds.
  unfoldable pub ends : ℕ → Option ℕ × Table A → Bool
  ends zero (none, t) = true
  ends zero (some p, t) = false
  ends (suc n) (none, t) = true
  ends (suc n) (some p, t) = ends n (next t)

  -- A step to the next chunk finds none, or moves the cursor on, within the slots in use.
  abbrev pub Advance : Table A → ℕ → Option ℕ × Table A → Type 0
  Advance t p x =
      ((q : ℕ) × (x ≡ (none, record t { pos = q })))
      ⊎ ((q : ℕ) × (x ≡ (some q, record t { pos = q })) × (p < q) × (q ≤ t.last))

  next_from-Advance : (n : ℕ) (t : Table A) (p : ℕ) → Advance t p (next_from n t p)
  unfolding next_from
  next_from-Advance zero t p = inl (p, refl)
  next_from-Advance (suc n) t p = elim (Bool-cases (leb (p + 1) t.last)) [
    | inr beyond ↦ rw beyond (inl (p, refl))
    | inl within ↦ elim (Bool-cases (skipped t (p + 1))) [
      | inr chunk ↦ rw (within, chunk) (inr (p + 1, refl, omega arith, ground (arith, within)))
      | inl hole ↦ elim (next_from-Advance n t (p + 1)) [
        | inl (q, e) ↦ rw (within, hole) (inl (q, e))
        | inr (q, e, above, inside) ↦ rw (within, hole) (inr (q, e, omega arith, inside))
      ]
    ]
  ]

  pub next-Advance : (t : Table A) → Advance t t.pos (next t)
  unfolding next
  next-Advance t = elim (Bool-cases (isempty t)) [
    | inl empty ↦ rw empty (inl (t.pos, refl))
    | inr filled ↦ rw filled (next_from-Advance (t.last - t.pos) t t.pos)
  ]

  -- A step moves nothing but the cursor.
  pub next-pos : (t : Table A) → (next t).1 ≡ record t { pos = (next t).1.pos }
  next-pos t = elim (next-Advance t) [
    | inl (q, e) ↦ rw e refl
    | inr (q, e, above, inside) ↦ rw e refl
  ]

  pub first_next-pos : (t : Table A) → (first_next t).1 ≡ record t { pos = (first_next t).1.pos }
  first_next-pos t = elim (Bool-cases (isempty t)) [
    | inl empty ↦ rw (first_next-empty t empty) refl
    | inr filled ↦
        let start = first_next_lem t filled in
        elim (Bool-cases (skipped t 0)) [
          | inl hole ↦ rw (start, hole) (next-pos (record t { pos = 0 }))
          | inr chunk ↦ rw (start, chunk) refl
        ]
  ]

  ends-none : (n : ℕ) (t : Table A) → ends n (none, t) ≡ true
  unfolding ends
  ends-none zero t = refl
  ends-none (suc n) t = refl

  pub ends-next : (n : ℕ) (t : Table A) → t.last - t.pos ≤ n → ends n (next t) ≡ true
  unfolding ends
  ends-next zero t le = elim (next-Advance t) [
    | inl (q, e) ↦ ap (ends 0) e
    | inr (q, e, above, inside) ↦ absurd (omega (arith, above, inside, le))
  ]
  ends-next (suc n) t le = elim (next-Advance t) [
    | inl (q, e) ↦ ap (ends (suc n)) e
    | inr (q, e, above, inside) ↦
        ap (ends (suc n)) e ∙ ends-next n (record t { pos = q }) (omega (arith, above, inside, le))
  ]

  -- The loop is over after at most one round for each slot up to the last one in use, whatever the
  -- table holds.
  pub foreach-ends : (t : Table A) → ends (t.last + 1) (first_next t) ≡ true
  unfolding ends
  foreach-ends t = elim (Bool-cases (isempty t)) [
    | inl empty ↦ ap (ends (t.last + 1)) (first_next-empty t empty) ∙ ends-none (t.last + 1) t
    | inr filled ↦
        let t' : Table A = record t { pos = 0 } in
        let start = first_next_lem t filled in
        let more : t.last + 1 ≡ suc t.last = omega arith in
        elim (Bool-cases (skipped t 0)) [
          | inl hole ↦ rw (start, hole) (ends-next (t.last + 1) t' (omega arith))
          | inr chunk ↦ rw (start, chunk, more) (ends-next t.last t' (omega arith))
        ]
  ]
