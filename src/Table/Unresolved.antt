-- ===== src/Table/Unresolved.antt =====
-- A chunk that breaks the constrains of a table (write_chunk() of data_array.c).
use rattle.Base.{
  ℕ, ◌^◌, ◌<◌, ◌≡◌, Bool, Option, none, some, Status, fail, ok, get_or, set, arith, ap, ap₂,
  Status-cases, inl, inr, ◌∙◌,
}
use rattle.Table.State.{Table, current}
use rattle.Table.Walk.{satisfy_constrains}
use rattle.Table.Update.{
  Alloc, write_chunk, push, insert, get_tail_next, get_frag_first, resolve_constrains,
}
use rattle.Table.Valid.{IsValid, current_lem}
use rattle.Table.Find.{table_search_lem, search_slot, search_slot-some}
use rattle.Table.Reuse.{pos-IsValid}
use rattle.Table.Write.{verdict, constrained, satisfy_constrains-Stands}

module _ {A : Type 0} (blank : A) (t : Table A) (src : A) (a : Alloc A) where
  pub write_chunk-refused :
      (get : Table A → Alloc A → Status × Option ℕ × Table A)
      → (satisfy_constrains blank t src).0 ≡ fail
      → write_chunk blank t src (some get) a
        ≡ resolve_constrains blank (satisfy_constrains blank t src).1 src
  unfolding write_chunk
  write_chunk-refused get refused = ground (arith, refused)

  write_chunk_unresolved :
      (get : Table A → Alloc A → Status × Option ℕ × Table A)
      → IsValid t
      → t.frag_count < 2 ^ 32
      → t.on_constrains ≡ none
      → (write_chunk blank t src (some get) a).0 ≡ ok
      → (satisfy_constrains blank t src).0 ≡ ok
  unfolding resolve_constrains
  write_chunk_unresolved get v small no_resolver h =
      elim (Status-cases (satisfy_constrains blank t src).0) [
        | inl pass ↦ pass
        | inr refused ↦
            let u = (satisfy_constrains blank t src).1 in
            let same : u.on_constrains ≡ none =
              ap (λ (w : Table A). w.on_constrains)
                (satisfy_constrains-Stands blank t src v small).same
              ∙ no_resolver in
            let out = write_chunk-refused get refused in absurd (ground (arith, out, same))
      ]

  -- A chunk that breaks the constrains is refused where there is no resolver.
  pub push_unresolved :
      IsValid t
      → t.frag_count < 2 ^ 32
      → t.on_constrains ≡ none
      → (push blank t src a).0 ≡ ok
      → (satisfy_constrains blank t src).0 ≡ ok
  unfolding push
  push_unresolved v small no_resolver h =
      write_chunk_unresolved (get_tail_next blank) v small no_resolver h

  pub insert_unresolved :
      IsValid t
      → t.frag_count < 2 ^ 32
      → t.on_constrains ≡ none
      → (insert blank t src a).0 ≡ ok
      → (satisfy_constrains blank t src).0 ≡ ok
  unfolding insert
  insert_unresolved v small no_resolver h =
      write_chunk_unresolved (get_frag_first blank) v small no_resolver h

  resolve_constrains_lem :
      (u : Table A) (resolve : A → A → Status × A) (q : ℕ)
      → u.on_constrains ≡ some resolve
      → current u ≡ some q
      → let (s, c) = resolve (get_or u.head q blank) src in
        resolve_constrains blank u src ≡ (s, record u { head = set u.head q c })
  unfolding resolve_constrains
  resolve_constrains_lem u resolve q re here = simp (re, here, resolve_constrains)

  -- A chunk that meets another one goes to the resolver with it: the resolver's verdict is the
  -- result, the chunk that it changed is written back in place, and no slot is taken.
  pub insert-resolved :
      (compare : A → A → Bool) (resolve : A → A → Status × A) (q : ℕ)
      → IsValid t
      → t.frag_count < 2 ^ 32
      → t.constrains ≡ some compare
      → t.on_constrains ≡ some resolve
      → search_slot blank (λ c. compare c src) t ≡ some q
      → let (s, c) = resolve (get_or t.head q blank) src in
        insert blank t src a ≡ (s, record t { head = set t.head q c; pos = q })
  unfolding insert
  insert-resolved compare resolve q v small ce re at =
      let (slot, status, stands) = table_search_lem blank (λ c. compare c src) t v small in
      let here = stands.answered q (slot ∙ at) in
      let moved = stands.same ∙ ap (λ (p : ℕ). record t { pos = p }) here in
      let verdict_fail =
        constrained blank t src compare ce
        ∙ ap₂ (λ c (u : Table A). (verdict c, u)) (slot ∙ at) moved in
      let refused = ap (λ (r : Status × Table A). r.0) verdict_fail in
      let left = ap (λ (r : Status × Table A). r.1) verdict_fail in
      let (ne, inside) = search_slot-some blank (λ c. compare c src) t v q at in
      write_chunk-refused (get_frag_first blank) refused
      ∙ ap (λ u. resolve_constrains blank u src) left
      ∙ resolve_constrains_lem (record t { pos = q }) resolve q re
          (current_lem (pos-IsValid q v inside) ∙ ground arith)
