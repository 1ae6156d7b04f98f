-- ===== src/Table/Room.antt =====
-- The room that a push finds or makes (data_array.c).
use native.Mathlib.Decide.{ℕ_discrete}
use rattle.Base.{
  ℕ, ◌<◌, ◌≡◌, refl, true, false, Option, none, some, Status, fail, ok, arith, ap, ◌∙◌, ◌⊎◌,
}
use rattle.Table.State.{Table, has_flag, fl_no_realloc}
use rattle.Table.Update.{
  Alloc, realloc_and_move, take_tail_next, get_tail_next, put_chunk, push, grown_size,
}
use rattle.Table.Valid.{IsValid, Steady, used}
use rattle.Table.Sizes.{grown_size_lem, largest}
use rattle.Table.Write.{unconstrained, write_chunk-passed}
use rattle.Table.Append.{full_lem}

module _ {A : Type 0} (blank : A) (t : Table A) where
  realloc_and_move-size :
      (a : Alloc A)
      → let t' = (realloc_and_move blank t a).1 in
        ((t'.size ≡ t.size) ⊎ (t'.size ≡ grown_size t.size))
        × (t'.constrains ≡ t.constrains)
        × (t'.flags ≡ t.flags)
  unfolding realloc_and_move
  realloc_and_move-size a = ground arith

  take_tail_next-size :
      let t' = (take_tail_next blank t).2 in
      (t'.size ≡ t.size) × (t'.constrains ≡ t.constrains) × (t'.flags ≡ t.flags)
  unfolding take_tail_next
  take_tail_next-size = ground arith

module _ {A : Type 0} (blank : A) (t : Table A) (a : Alloc A) where
  -- `u` has the size of `t`, or `t` was full and has grown.
  abbrev Sized : Table A → Type 0
  Sized u =
      ((u.size ≡ t.size) ⊎ ((used t ≡ t.size) × (u.size ≡ grown_size t.size)))
      × (u.constrains ≡ t.constrains)
      × (u.flags ≡ t.flags)

  get_tail_next-Sized : IsValid t → Steady t → Sized (get_tail_next blank t a).2
  unfolding get_tail_next
  get_tail_next-Sized v steady =
      let room = full_lem blank a v steady in
      let more = realloc_and_move-size blank t a in
      let here = take_tail_next-size blank t in
      let there = take_tail_next-size blank (realloc_and_move blank t a).1 in
      ground (arith, room, more, here, there)

  put_chunk-Sized :
      (x : A) (r : Status × Option ℕ × Table A) → Sized r.2 → Sized (put_chunk blank x r).1
  put_chunk-Sized x (fail, d, u) h = h
  put_chunk-Sized x (ok, none, u) h = h
  put_chunk-Sized x (ok, some p, u) h = h

  pub push-Sized : (x : A) → IsValid t → Steady t → t.constrains ≡ none → Sized (push blank t x a).1
  unfolding push
  push-Sized x v steady free =
      let pass = unconstrained blank t x free in
      let e =
        write_chunk-passed blank t x (get_tail_next blank) a
          (ap (λ (r : Status × Table A). r.0) pass)
        ∙ ap (λ (r : Status × Table A). put_chunk blank x (get_tail_next blank r.1 a)) pass in
      rw e (put_chunk-Sized x (get_tail_next blank t a) (get_tail_next-Sized v steady))

  put_chunk-ok : (x : A) (r : Status × Option ℕ × Table A) → r.0 ≡ ok → (put_chunk blank x r).0 ≡ ok
  put_chunk-ok x (fail, d, u) h = h
  put_chunk-ok x (ok, none, u) h = refl
  put_chunk-ok x (ok, some p, u) h = refl

  take_tail_next-ok : (u : Table A) → (take_tail_next blank u).0 ≡ ok
  unfolding take_tail_next
  take_tail_next-ok u = ground arith

  realloc_and_move-ok :
      IsValid t
      → t.size < largest
      → a.head_ok ≡ true
      → a.mask_ok ≡ true
      → (realloc_and_move blank t a).0 ≡ ok
  unfolding realloc_and_move
  realloc_and_move-ok v small head mask =
      let (_, more, _) = grown_size_lem t.size (omega (arith, v.last_in)) v.limit in
      ground (arith, more (omega (arith, small)) (omega (arith, small)), head, mask)

  -- With memory a push finds room.
  pub push-ok :
      (x : A)
      → IsValid t
      → Steady t
      → t.constrains ≡ none
      → has_flag t.flags fl_no_realloc ≡ false
      → used t < largest
      → a.head_ok ≡ true
      → a.mask_ok ≡ true
      → (push blank t x a).0 ≡ ok
  unfolding push get_tail_next
  push-ok x v steady free may small head mask =
      let pass = unconstrained blank t x free in
      let e =
        write_chunk-passed blank t x (get_tail_next blank) a
          (ap (λ (r : Status × Table A). r.0) pass)
        ∙ ap (λ (r : Status × Table A). put_chunk blank x (get_tail_next blank r.1 a)) pass in
      let room = full_lem blank a v steady in
      let here = take_tail_next-ok t in
      let there = take_tail_next-ok (realloc_and_move blank t a).1 in
      let got : (get_tail_next blank t a).0 ≡ ok = elim (ℕ_discrete (used t) t.size) [
        | yes full ↦
            let grows = realloc_and_move-ok v (omega (arith, full, small)) head mask in
            ground (arith, room, full, may, grows, there)
        | no spare ↦ ground (arith, room, spare, here)
      ] in
      rw e (put_chunk-ok x (get_tail_next blank t a) got)
