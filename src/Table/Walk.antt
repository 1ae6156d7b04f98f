-- ===== src/Table/Walk.antt =====
-- Walking a table and searching it (data_array.c). Each walk moves `pos`, so it returns the table.
use rattle.Base.{
  ℕ, zero, suc, ◌+◌, ◌-◌, ◌*◌, ◌/◌, Bool, not, ◌&&◌, ◌||◌, List, [], ◌∷◌, Option, none, some,
  Status, fail, ok, ◌==◌, leb, if◌then◌else◌, get_or,
}
use rattle.Table.Mask.{is_frag, bits_common, shift_mask, fsbset}
use rattle.Table.State.{Table, fragmented, isempty, first, last_chunk, current}

-- The bytes from `i` on, `n` of them, for the first that is not zero: its lowest bit, its place.
unfoldable pub frag_slot : List ℕ → ℕ → ℕ → ℕ × ℕ
frag_slot mask zero i = (0, i)
frag_slot mask (suc n) i =
    let rest = frag_slot mask n (i + 1) in
    if get_or mask i 0 == 0 then rest else (fsbset (get_or mask i 0), i)

module _ {ℓ} {A : Type ℓ} where
  -- The `return` stands outside the `if`, which guards the shift only.
  unfoldable pub pos_isfrag : Table A → ℕ → Bool
  pos_isfrag t pos =
      if not (isempty t) && leb pos t.last
      then is_frag t.frag_mask pos
      else bits_common (get_or t.frag_mask 0 0) (shift_mask pos)

  -- The test of the walks: the slot holds no chunk.
  unfoldable pub skipped : Table A → ℕ → Bool
  skipped t pos = fragmented t && pos_isfrag t pos

  unfoldable pub prev_from : Table A → ℕ → Option ℕ × Table A
  prev_from t zero = (none, record t { pos = 0 })
  prev_from t (suc p) =
      let rest = prev_from t p in if skipped t p then rest else (some p, record t { pos = p })

  unfoldable pub prev : Table A → Option ℕ × Table A
  prev t = if isempty t then (none, t) else prev_from t t.pos

  -- The first argument bounds the rounds.
  unfoldable pub next_from : ℕ → Table A → ℕ → Option ℕ × Table A
  next_from zero t p = (none, record t { pos = p })
  next_from (suc n) t p =
      let rest = next_from n t (p + 1) in
      if leb (p + 1) t.last
      then if skipped t (p + 1) then rest else (some (p + 1), record t { pos = p + 1 })
      else (none, record t { pos = p })

  unfoldable pub next : Table A → Option ℕ × Table A
  next t = if isempty t then (none, t) else next_from (t.last - t.pos) t t.pos

  unfoldable pub first_next : Table A → Option ℕ × Table A
  first_next t =
      let (c, t') = first t in
      elim c [
        | some p ↦
            if not (fragmented t') || not (pos_isfrag t' t'.pos) then (some p, t') else next t'
        | none ↦ next t'
      ]

  unfoldable pub circular_next : Table A → Option ℕ × Table A
  circular_next t = let (c, t') = next t in elim c [ some p ↦ (some p, t') | none ↦ first_next t' ]

  -- RATT_TABLE_FOREACH with a body that leaves the table alone: the slots that it visits. The
  -- number bounds the rounds.
  unfoldable pub visit : ℕ → Option ℕ × Table A → List ℕ
  visit zero _ = []
  visit (suc n) (none, t) = []
  visit (suc n) (some p, t) = p ∷ visit n (next t)

  unfoldable pub foreach : Table A → List ℕ
  foreach t = visit (t.last + 1) (first_next t)

  -- Where such a loop leaves the cursor.
  unfoldable pub visit_end : ℕ → Option ℕ × Table A → Table A
  visit_end zero (c, t) = t
  visit_end (suc n) (none, t) = t
  visit_end (suc n) (some p, t) = visit_end n (next t)

  unfoldable pub foreach_end : Table A → ℕ
  foreach_end t = (visit_end (t.last + 1) (first_next t)).pos

  -- RATT_TABLE_FOREACH_REVERSE, likewise.
  unfoldable pub visit_back : ℕ → Option ℕ × Table A → List ℕ
  visit_back zero _ = []
  visit_back (suc n) (none, t) = []
  visit_back (suc n) (some p, t) = p ∷ visit_back n (prev t)

  unfoldable pub foreach_reverse : Table A → List ℕ
  foreach_reverse t = visit_back (t.last + 1) (last_chunk t)

  unfoldable pub set_pos_frag_first : Table A → Status × Table A
  set_pos_frag_first t =
      let (p, i) = frag_slot t.frag_mask (t.last / 8 + 1) 0 in
      if fragmented t then (ok, record t { pos = p + i * 8 }) else (fail, t)

module _ {ℓ} {A : Type ℓ} (blank : A) where
  -- What a pointer to a slot points to.
  abbrev pub chunk_at : Table A → ℕ → A
  chunk_at t p = get_or t.head p blank

  unfoldable pub search_from : (A → Bool) → ℕ → Option ℕ × Table A → Status × Option ℕ × Table A
  search_from comp zero (c, t) = (fail, none, t)
  search_from comp (suc n) (none, t) = (fail, none, t)
  search_from comp (suc n) (some p, t) =
      let rest = search_from comp n (next t) in
      if comp (chunk_at t p) then (ok, some p, t) else rest

  -- The slot that the cursor stands on is tried first, whether or not it holds a chunk.
  unfoldable pub table_search : Table A → (A → Bool) → Status × Option ℕ × Table A
  table_search t comp =
      let scan = search_from comp (t.last + 1) (first_next t) in
      elim (current t) [
        | some p ↦ if comp (chunk_at t p) then (ok, some p, t) else scan
        | none ↦ scan
      ]

  unfoldable pub satisfy_constrains : Table A → A → Status × Table A
  satisfy_constrains t chunk = elim t.constrains [
    | none ↦ (ok, t)
    | some compare ↦
        let (_, match, t') = table_search t (λ c. compare c chunk) in
        elim match [ none ↦ (ok, t') | some _ ↦ (fail, t') ]
  ]
