-- ===== src/Table/Find.antt =====
-- ratt_table_search() against a plain search of the slots that hold a chunk, and what the walks
-- do to the cursor.
use native.Mathlib.Decide.{ℕ_discrete}
use rattle.Base.{
  ℕ, zero, suc, ◌+◌, ◌-◌, ◌^◌, ◌≤◌, ◌<◌, ◌≡◌, ◌≢◌, refl, Bool, true, false, not, ◌&&◌, List, [],
  ◌∷◌, Option, none, some, Status, fail, ok, ◌==◌, leb, if◌then◌else◌, get_or, count_below_full,
  arith, ap, ◌⊎◌, Bool-cases, inl, inr, ◌∙◌, sym,
}
use rattle.Table.Mask.{is_frag}
use rattle.Table.State.{Table, isempty}
use rattle.Table.Walk.{
  skipped, next_from, next, first_next, visit, foreach, search_from, table_search,
}
use rattle.Table.Valid.{IsValid, used, lookup, current_lem}
use rattle.Table.Cursor.{live, foreach-live, first_next-empty, first_next_lem}

-- The first of the slots that passes the test.
unfoldable pub find_first : (ℕ → Bool) → List ℕ → Option ℕ
find_first test [] = none
find_first test (p ∷ ps) = if test p then some p else find_first test ps

abbrev pub status_of {ℓ} : {A : Type ℓ} → Option A → Status
status_of none = fail
status_of (some a) = ok

-- `x` is what a walk of `t` may answer: only the cursor moved, within the slots in use, and it
-- stands on the chunk that was answered.
pub record Stands {A : Type 0} (t : Table A) (x : Option ℕ × Table A) : Type 0 where
  pub same : x.1 ≡ record t { pos = x.1.pos }
  pub bounded : x.1.pos ≤ t.last
  pub answered : (p : ℕ) → x.0 ≡ some p → x.1.pos ≡ p

module _ {A : Type 0} where
  next_from-Stands : (n : ℕ) (t : Table A) (p : ℕ) → p + n ≤ t.last → Stands t (next_from n t p)
  unfolding next_from
  next_from-Stands zero t p h = record { same = refl; bounded = omega arith; answered = λ q e. cc }
  next_from-Stands (suc n) t p h =
      let inside : leb (p + 1) t.last ≡ true = ground arith in
      elim (Bool-cases (skipped t (p + 1))) [
        | inl hole ↦ rw (inside, hole) (next_from-Stands n t (p + 1) (omega arith))
        | inr chunk ↦
            rw (inside, chunk) (record { same = refl; bounded = omega arith; answered = λ q e. cc })
      ]

  pub next-Stands : (t : Table A) → t.pos ≤ t.last → Stands t (next t)
  unfolding next
  next-Stands t h = elim (Bool-cases (isempty t)) [
    | inl e ↦ rw e (record { same = refl; bounded = h; answered = λ q e. cc })
    | inr ne ↦ rw ne (next_from-Stands (t.last - t.pos) t t.pos (omega arith))
  ]

  -- One more step keeps the table.
  Stands-trans :
      (t : Table A) (x : Option ℕ × Table A) (u : Table A)
      → u ≡ record t { pos = u.pos }
      → Stands u x
      → Stands t x
  Stands-trans t x u e s = record {
    same = s.same ∙ ap (λ (w : Table A). record w { pos = x.1.pos }) e;
    bounded = omega (arith, s.bounded, ap (λ (w : Table A). w.last) e);
    answered = s.answered;
  }

  pub first_next-Stands : (t : Table A) → t.pos ≤ t.last → Stands t (first_next t)
  first_next-Stands t h = elim (Bool-cases (isempty t)) [
    | inl e ↦ rw (first_next-empty t e) (record { same = refl; bounded = h; answered = λ q e. cc })
    | inr ne ↦
        let t' : Table A = record t { pos = 0 } in
        elim (Bool-cases (skipped t 0)) [
          | inl hole ↦
              rw (first_next_lem t ne, hole)
                (Stands-trans t (next t') t' refl (next-Stands t' (omega arith)))
          | inr chunk ↦
              rw (first_next_lem t ne, chunk)
                (record { same = refl; bounded = omega arith; answered = λ q e. cc })
        ]
  ]

-- The result of a search from `x`: the answer, and the table that the search leaves.
abbrev pub found : {A : Type 0} → Status × Option ℕ × Table A → Option ℕ × Table A
found (s, c, t) = (c, t)

module _ {A : Type 0} (blank : A) (comp : A → Bool) (t : Table A) where
  abbrev pub matches : ℕ → Bool
  matches p = comp (get_or t.head p blank)

  -- A search from where a walk of `t` stands.
  search_from-find_first :
      (n : ℕ) (x : Option ℕ × Table A)
      → Stands t x
      → ((search_from blank comp n x).1 ≡ find_first matches (visit n x))
        × ((search_from blank comp n x).0 ≡ status_of (find_first matches (visit n x)))
        × Stands t (found (search_from blank comp n x))
  unfolding search_from visit find_first
  search_from-find_first zero (c, u) s =
      (refl, refl, record { same = s.same; bounded = s.bounded; answered = λ q e. cc })
  search_from-find_first (suc n) (none, u) s =
      (refl, refl, record { same = s.same; bounded = s.bounded; answered = λ q e. cc })
  search_from-find_first (suc n) (some p, u) s =
      let head_eq = ap (λ (w : Table A). w.head) s.same in
      elim (Bool-cases (comp (get_or u.head p blank))) [
        | inl hit ↦
            let hit' : matches p ≡ true = rw (← head_eq) hit in rw (hit, hit') (refl, refl, s)
        | inr miss ↦
            let miss' : matches p ≡ false = rw (← head_eq) miss in
            let step =
              Stands-trans t (next u) u s.same
                (next-Stands u (omega (arith, s.bounded, ap (λ (w : Table A). w.last) s.same))) in
            rw (miss, miss') (search_from-find_first n (next u) step)
      ]

-- The slot that a search should find: the cursor's, if the chunk there matches, or else the first
-- slot in use whose chunk matches.
unfoldable pub search_slot : {A : Type 0} → A → (A → Bool) → Table A → Option ℕ
search_slot blank comp t =
    let matches = λ (p : ℕ). comp (get_or t.head p blank) in
    if not (t.chunk_count == 0) && matches t.pos
    then some t.pos
    else find_first matches (live (is_frag t.frag_mask) 0 (used t))

module _ {A : Type 0} (blank : A) (comp : A → Bool) (t : Table A) where
  table_search_cases :
      IsValid t
      → let scan = search_from blank comp (t.last + 1) (first_next t) in
        table_search blank t comp ≡ (
          if t.chunk_count == 0
          then scan
          else if matches blank comp t t.pos
          then (ok, some t.pos, t)
          else scan)
  unfolding table_search
  table_search_cases v = ground (arith, current_lem v)

  -- A search answers that slot, reports whether there is one, and leaves the cursor on it; the
  -- rest of the table is as before.
  pub table_search_lem :
      IsValid t
      → t.frag_count < 2 ^ 32
      → let (s, c, t') = table_search blank t comp in
        (c ≡ search_slot blank comp t) × (s ≡ status_of c) × Stands t (c, t')
  unfolding search_slot foreach
  table_search_lem v small =
      let (slot, status, stands) =
        search_from-find_first blank comp t (t.last + 1) (first_next t)
          (first_next-Stands t v.pos_in) in
      let slot' = slot ∙ ap (find_first (matches blank comp t)) (foreach-live t v small) in
      let status' = status ∙ ap (status_of {A = ℕ}) (sym slot) in
      elim (Bool-cases (t.chunk_count == 0)) [
        | inl none_left ↦ rw (table_search_cases v, none_left) (slot', status', stands)
        | inr some_left ↦ elim (Bool-cases (matches blank comp t t.pos)) [
          | inl hit ↦
              rw (table_search_cases v, some_left, hit)
                (refl, refl, record { same = refl; bounded = v.pos_in; answered = λ q e. cc })
          | inr miss ↦ rw (table_search_cases v, some_left, miss) (slot', status', stands)
        ]
      ]

-- A slot that is answered by a plain search of the slots in use matches and holds a chunk.
find_first-live_sound :
    (test hole : ℕ → Bool) (p n q : ℕ)
    → find_first test (live hole p n) ≡ some q
    → (test q ≡ true) × (hole q ≡ false) × (p ≤ q) × (q < p + n)
unfolding find_first live
find_first-live_sound test hole p zero q e = absurd (cc)
find_first-live_sound test hole p (suc n) q e =
    ground (arith, find_first-live_sound test hole (p + 1) n q)

find_first-live_complete :
    (test hole : ℕ → Bool) (p n q : ℕ)
    → find_first test (live hole p n) ≡ none
    → p ≤ q
    → q < p + n
    → hole q ≡ false
    → test q ≡ false
unfolding find_first live
find_first-live_complete test hole p zero q e a b h = absurd (omega arith)
find_first-live_complete test hole p (suc n) q e a b h = elim (ℕ_discrete p q) [
  | yes i ↦ rw (← i) (ground (arith, rw (← i) at h))
  | no i ↦ ground (arith, find_first-live_complete test hole (p + 1) n q)
]

module _ {A : Type 0} (blank : A) (comp : A → Bool) (t : Table A) where
  -- What a search of a valid table answers matches, lies within the slots in use, and holds a
  -- chunk unless it is the hole that the cursor stood on.
  pub table_search_sound :
      IsValid t
      → t.frag_count < 2 ^ 32
      → (p : ℕ) → (table_search blank t comp).1 ≡ some p
      → (comp (get_or t.head p blank) ≡ true)
        × (p < used t)
        × ((is_frag t.frag_mask p ≡ false) ⊎ (p ≡ t.pos))
  unfolding search_slot
  table_search_sound v small p e = ground (
    arith,
    (table_search_lem blank comp t v small).0,
    v.pos_in,
    v.last_used,
    find_first-live_sound (matches blank comp t) (is_frag t.frag_mask) 0 (used t) p,
  )

  -- A search of a valid table that fails leaves no slot in use whose chunk matches.
  pub table_search_complete :
      IsValid t
      → t.frag_count < 2 ^ 32
      → (table_search blank t comp).0 ≡ fail
      → (p : ℕ) (c : A) → lookup blank t p ≡ some c
      → comp c ≡ false
  unfolding search_slot
  table_search_complete v small e p c h = ground (
    arith,
    (table_search_lem blank comp t v small).0,
    (table_search_lem blank comp t v small).1,
    find_first-live_complete (matches blank comp t) (is_frag t.frag_mask) 0 (used t) p,
  )

  -- Only a table that holds a chunk has a slot to be found, and it is one of those in use.
  pub search_slot-some :
      IsValid t → (p : ℕ) → search_slot blank comp t ≡ some p → (t.chunk_count ≢ 0) × (p ≤ t.last)
  unfolding search_slot
  search_slot-some v p e =
      let sound = find_first-live_sound (matches blank comp t) (is_frag t.frag_mask) 0 (used t) p in
      let full = count_below_full (is_frag t.frag_mask) (used t) p in
      (λ z. ground (arith, sound, full, v.holes), ground (arith, sound, v.last_used, v.pos_in))
