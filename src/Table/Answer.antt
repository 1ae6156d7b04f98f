-- ===== src/Table/Answer.antt =====
-- The answer of a search as one equation, for the components that search by a key.
use rattle.Base.{
  ℕ, ◌^◌, ◌≤◌, ◌<◌, ◌≡◌, ◌≢◌, Bool, true, Option, none, some, Status, fail, ok, get_or, set, arith,
  ap, ap₂, ◌∙◌, length-set, get_or-set,
}
use rattle.Table.State.{Table, current}
use rattle.Table.Walk.{table_search}
use rattle.Table.Valid.{IsValid, current_lem}
use rattle.Table.Find.{
  search_slot, search_slot-some, table_search_lem, table_search_sound, status_of,
}
use rattle.Table.Reuse.{pos-IsValid}
use rattle.Table.Write.{head-IsValid}

module _ {A : Type 0} (blank : A) (comp : A → Bool) {t : Table A} (v : IsValid t)
    (small : t.frag_count < 2 ^ 32) where
  pub table_search_at :
      (q : ℕ)
      → search_slot blank comp t ≡ some q
      → table_search blank t comp ≡ (ok, some q, record t { pos = q })
  table_search_at q slot =
      let (c, s, stands) = table_search_lem blank comp t v small in
      let found = c ∙ slot in
      let moved = stands.same ∙ ap (λ (p : ℕ). record t { pos = p }) (stands.answered q found) in
      ap₂ (λ (s : Status) (r : Option ℕ × Table A). (s, r.0, r.1))
        (s ∙ ap (status_of {A = ℕ}) found)
        (ap₂ (λ (c : Option ℕ) (t : Table A). (c, t)) found moved)

  -- Where a search fails the cursor is left somewhere within the slots in use.
  pub table_search_missing :
      search_slot blank comp t ≡ none
      → let q = (table_search blank t comp).2.pos in
        (table_search blank t comp ≡ (fail, none, record t { pos = q })) × (q ≤ t.last)
  table_search_missing slot =
      let (c, s, stands) = table_search_lem blank comp t v small in
      let found = c ∙ slot in
      (
        ap₂ (λ (s : Status) (r : Option ℕ × Table A). (s, r.0, r.1))
            (s ∙ ap (status_of {A = ℕ}) found)
            (ap₂ (λ (c : Option ℕ) (t : Table A). (c, t)) found stands.same),
        stands.bounded,
      )

  -- The slot that is answered is in use, and its chunk matches.
  pub search_slot-matches :
      (q : ℕ)
      → search_slot blank comp t ≡ some q
      → (comp (get_or t.head q blank) ≡ true) × (t.chunk_count ≢ 0) × (q ≤ t.last)
  search_slot-matches q slot =
      let (ne, inside) = search_slot-some blank comp t v q slot in
      let (m, _, _) =
        table_search_sound blank comp t v small q
          (ap (λ (r : Status × Option ℕ × Table A). r.1) (table_search_at q slot)) in
      (m, ne, inside)

-- A table with the chunk in slot `q` replaced, and the cursor there.
abbrev pub put_chunk_at {ℓ} : {A : Type ℓ} → Table A → ℕ → A → Table A
put_chunk_at t q c = record t { head = set t.head q c; pos = q }

module _ {A : Type 0} (blank : A) {t : Table A} (v : IsValid t) (q : ℕ) (inside : q ≤ t.last)
    (c : A) where
  pub put_chunk_at-IsValid : IsValid (put_chunk_at t q c)
  put_chunk_at-IsValid =
      head-IsValid (set t.head q c) (pos-IsValid q v inside) (length-set t.head q c)

  pub put_chunk_at-get_or : get_or (put_chunk_at t q c).head q blank ≡ c
  put_chunk_at-get_or =
      get_or-set t.head q q c blank (omega (arith, v.room, v.last_in)) ∙ ground arith

  pub put_chunk_at-current : t.chunk_count ≢ 0 → current (put_chunk_at t q c) ≡ some q
  put_chunk_at-current ne = current_lem put_chunk_at-IsValid ∙ ground arith

  -- A search for what the new chunk matches finds it at once.
  pub put_chunk_at-search_slot :
      (comp : A → Bool)
      → t.chunk_count ≢ 0
      → comp c ≡ true
      → search_slot blank comp (put_chunk_at t q c) ≡ some q
  unfolding search_slot
  put_chunk_at-search_slot comp ne m = ground (arith, m, put_chunk_at-get_or)
