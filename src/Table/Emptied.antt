-- ===== src/Table/Emptied.antt =====
-- Tables whose chunks have all been deleted, under insertion and push (data_array.c).
use rattle.Base.{
  ℕ, ◌^◌, ◌<◌, ◌≡◌, ◌≢◌, refl, true, false, Option, none, some, Status, fail, ok, get_or, set,
  arith, ap, Option-cases, inl, inr, ◌∙◌, get_or-set, length, inc_size_lem, count_below_full,
}
use rattle.Table.Mask.{is_frag}
use rattle.Table.State.{Table, isempty, has_flag, fl_no_reuse}
use rattle.Table.Walk.{satisfy_constrains, table_search}
use rattle.Table.Update.{
  Alloc, push, insert, write_chunk, get_tail_next, get_frag_first, take_tail_next, put_chunk,
}
use rattle.Table.Valid.{IsValid, used, lookup, isempty_lem}
use rattle.Table.Cursor.{live_none}
use rattle.Table.Find.{find_first, search_slot, table_search_lem, matches}
use rattle.Table.Reuse.{pos-IsValid, get_frag_first-emptied}
use rattle.Table.Write.{
  satisfy_constrains-Stands, unconstrained, constrained, write_chunk-passed, verdict,
}

-- All chunks are gone, holes are left.
abbrev pub Emptied : {A : Type 0} → Table A → Type 0
Emptied t = (t.chunk_count ≡ 0) × (t.frag_count ≢ 0)

put_chunk-fail :
    {A : Type 0} (blank src : A) (r : Status × Option ℕ × Table A)
    → r.0 ≡ fail
    → (put_chunk blank src r).0 ≡ fail
put_chunk-fail blank src (fail, d, u) h = refl
put_chunk-fail blank src (ok, none, u) h = absurd (cc)
put_chunk-fail blank src (ok, some p, u) h = absurd (cc)

get_tail_next-empty :
    {A : Type 0} (blank : A) (u : Table A) (a : Alloc A)
    → u.chunk_count ≡ 0
    → isempty u ≡ true
    → get_tail_next blank u a ≡ (ok, some 0, record u { chunk_count = 1; tail = 0 })
unfolding get_tail_next take_tail_next
get_tail_next-empty blank u a z e = ground (arith, inc_size_lem u.chunk_count)

module _ {A : Type 0} (blank : A) (t : Table A) (src : A) (v : IsValid t)
    (small : t.frag_count < 2 ^ 32) (emptied : Emptied t) where
  all_holes : (i : ℕ) → i < used t → is_frag t.frag_mask i ≡ true
  all_holes i l = count_below_full (is_frag t.frag_mask) (used t) i (omega (arith, v.holes)) l

  -- No chunk is met, so the constrains never stand in the way.
  passes : (satisfy_constrains blank t src).0 ≡ ok
  unfolding search_slot find_first
  passes = elim (Option-cases t.constrains) [
    | inl e ↦ ap (λ (r : Status × Table A). r.0) (unconstrained blank t src e)
    | inr (compare, e) ↦
        let nothing =
          live_none (is_frag t.frag_mask) 0 (used t) (λ i _ l. all_holes i (omega arith)) in
        let (slot, _, _) = table_search_lem blank (λ c. compare c src) t v small in
        let no_match : (table_search blank t (λ c. compare c src)).1 ≡ none =
          slot ∙ ground (arith, ap (find_first (matches blank (λ c. compare c src) t)) nothing) in
        ap (λ (r : Status × Table A). r.0) (constrained blank t src compare e) ∙ ap verdict no_match
  ]

  passed :
      (get : Table A → Alloc A → Status × Option ℕ × Table A) (a : Alloc A)
      → let u = record t { pos = (satisfy_constrains blank t src).1.pos } in
        write_chunk blank t src (some get) a ≡ put_chunk blank src (get u a)
  passed get a =
      write_chunk-passed blank t src get a passes
      ∙ ap (λ w. put_chunk blank src (get w a)) (satisfy_constrains-Stands blank t src v small).same

  -- Once all chunks of a valid table with fewer than 2 ^ 32 holes are deleted, every insertion
  -- fails, though no slot is taken, unless the table does not reuse its holes.
  pub insert-emptied :
      (a : Alloc A) → has_flag t.flags fl_no_reuse ≡ false → (insert blank t src a).0 ≡ fail
  unfolding insert
  insert-emptied a reuse =
      let q = (satisfy_constrains blank t src).1.pos in
      let inside = (satisfy_constrains-Stands blank t src v small).bounded in
      rw (passed (get_frag_first blank) a) (
        put_chunk-fail blank src _
          (get_frag_first-emptied blank a (pos-IsValid q v inside) small emptied.0 emptied.1 reuse))

  abbrev after_push : Table A
  after_push = record t {
    head = set t.head 0 src;
    chunk_count = 1;
    tail = 0;
    pos = (satisfy_constrains blank t src).1.pos;
  }

  push-after : (a : Alloc A) → push blank t src a ≡ (ok, after_push)
  unfolding push
  push-after a =
      let q = (satisfy_constrains blank t src).1.pos in
      let v' = pos-IsValid q v (satisfy_constrains-Stands blank t src v small).bounded in
      let gone : isempty (record t { pos = q }) ≡ true = isempty_lem v' ∙ ground arith in
      passed (get_tail_next blank) a
      ∙ ap (put_chunk blank src) (get_tail_next-empty blank (record t { pos = q }) a emptied.0 gone)

  -- A push is reported as done, yet the chunk lies in a slot that is still marked as a hole: it is
  -- counted, but no walk or search finds it, and the table is no longer valid.
  pub push-emptied :
      (a : Alloc A)
      → let (s, t') = push blank t src a in
        (s ≡ ok)
        × (get_or t'.head 0 blank ≡ src)
        × (t'.chunk_count ≡ 1)
        × (lookup blank t' 0 ≡ none)
        × (¬ IsValid t')
  push-emptied a =
      let first_flagged = all_holes 0 (omega arith) in
      let inside : 0 < length t.head = omega (arith, v.room, v.last_in) in
      rw (push-after a) (
        refl,
        ground (arith, get_or-set t.head 0 0 src blank inside),
        refl,
        ground (arith, first_flagged),
        λ bad. omega (arith, bad.last_used, v.last_used),
      )
