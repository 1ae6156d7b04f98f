-- ===== src/Table/Refused.antt =====
-- What an insertion that fails leaves of a table (data_array.c).
use rattle.Base.{
  ℕ, ◌^◌, ◌<◌, ◌≡◌, refl, Option, none, some, Status, fail, ok, arith, ap, Status-cases, inl, inr,
  ◌∙◌,
}
use rattle.Table.State.{Table}
use rattle.Table.Walk.{satisfy_constrains, set_pos_frag_first}
use rattle.Table.Update.{
  Alloc, realloc_and_move, take_tail_next, get_tail_next, take_frag, get_frag_first, put_chunk,
  insert, resolve_constrains,
}
use rattle.Table.Valid.{IsValid, lookup}
use rattle.Table.Write.{unconstrained, write_chunk-passed, satisfy_constrains-Stands}
use rattle.Table.Unresolved.{write_chunk-refused}

-- The slots of `t'` are those of `t`.
abbrev pub Same : {A : Type 0} → Table A → Table A → Type 0
Same t t' =
    (t'.head ≡ t.head)
    × (t'.frag_mask ≡ t.frag_mask)
    × (t'.chunk_count ≡ t.chunk_count)
    × (t'.frag_count ≡ t.frag_count)

module _ {A : Type 0} (blank : A) where
  pub Same-lookup : (t t' : Table A) → Same t t' → (i : ℕ) → lookup blank t' i ≡ lookup blank t i
  Same-lookup t t' (h, m, c, f) i = ground (arith, h, m, c, f)

  take_tail_next-done : (t : Table A) → (take_tail_next blank t).0 ≡ ok
  unfolding take_tail_next
  take_tail_next-done t = ground arith

  get_tail_next-Same :
      (t : Table A) (a : Alloc A)
      → (get_tail_next blank t a).0 ≡ fail
      → Same t (get_tail_next blank t a).2
  unfolding get_tail_next realloc_and_move
  get_tail_next-Same t a h =
      let here = take_tail_next-done t in
      let there = take_tail_next-done (realloc_and_move blank t a).1 in
      ground (arith, h, here, there)

  set_pos_frag_first-Same : (t : Table A) → Same t (set_pos_frag_first t).1
  unfolding set_pos_frag_first
  set_pos_frag_first-Same t = ground arith

  take_frag-Same : (t : Table A) → (take_frag blank t).0 ≡ fail → Same t (take_frag blank t).2
  unfolding take_frag
  take_frag-Same t h = ground (arith, h)

  get_frag_first-Same :
      (t : Table A) (a : Alloc A)
      → (get_frag_first blank t a).0 ≡ fail
      → Same t (get_frag_first blank t a).2
  unfolding get_frag_first
  get_frag_first-Same t a h =
      let moved = set_pos_frag_first-Same t in
      let taken = take_frag-Same (set_pos_frag_first t).1 in
      let tail = get_tail_next-Same t a in ground (arith, h, moved, taken, tail)

  put_chunk-Same :
      (x : A) (t : Table A) (r : Status × Option ℕ × Table A)
      → (r.0 ≡ fail → Same t r.2)
      → (put_chunk blank x r).0 ≡ fail
      → Same t (put_chunk blank x r).1
  put_chunk-Same x t (fail, p, u) s h = s refl
  put_chunk-Same x t (ok, none, u) s h = absurd (cc)
  put_chunk-Same x t (ok, some p, u) s h = absurd (cc)

  resolve_constrains-none :
      (u : Table A) (x : A) → u.on_constrains ≡ none → resolve_constrains blank u x ≡ (fail, u)
  unfolding resolve_constrains
  resolve_constrains-none u x e = ground (arith, e)

  -- The check of the constrains has moved the cursor only.
  insert_checked :
      (t : Table A) (x : A) (a : Alloc A) (q : ℕ)
      → (satisfy_constrains blank t x).1 ≡ record t { pos = q }
      → t.on_constrains ≡ none
      → (insert blank t x a).0 ≡ fail
      → Same t (insert blank t x a).1
  unfolding insert
  insert_checked t x a q moved free h = elim (Status-cases (satisfy_constrains blank t x).0) [
    | inl pass ↦
        let e =
          write_chunk-passed blank t x (get_frag_first blank) a pass
          ∙ ap (λ w. put_chunk blank x (get_frag_first blank w a)) moved in
        let u = record t { pos = q } in
        let failed : (put_chunk blank x (get_frag_first blank u a)).0 ≡ fail =
          ground (arith, e, h) in
        rw e (put_chunk-Same x t (get_frag_first blank u a) (get_frag_first-Same u a) failed)
    | inr refused ↦
        let e =
          write_chunk-refused blank t x a (get_frag_first blank) refused
          ∙ ap (λ w. resolve_constrains blank w x) moved
          ∙ resolve_constrains-none (record t { pos = q }) x free in
        rw e (refl, refl, refl, refl)
  ]

  -- An insertion that fails without a resolver leaves every slot as it was.
  pub insert-Same :
      (t : Table A) (x : A) (a : Alloc A)
      → IsValid t
      → t.frag_count < 2 ^ 32
      → t.on_constrains ≡ none
      → (insert blank t x a).0 ≡ fail
      → Same t (insert blank t x a).1
  insert-Same t x a v small free h =
      insert_checked t x a (satisfy_constrains blank t x).1.pos
        (satisfy_constrains-Stands blank t x v small).same free h

  pub insert_unconstrained :
      (t : Table A) (x : A) (a : Alloc A)
      → t.constrains ≡ none
      → t.on_constrains ≡ none
      → (insert blank t x a).0 ≡ fail
      → Same t (insert blank t x a).1
  insert_unconstrained t x a none_set free h =
      insert_checked t x a t.pos
        (ap (λ (r : Status × Table A). r.1) (unconstrained blank t x none_set)) free h
