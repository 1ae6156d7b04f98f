-- ===== src/Table/Callbacks.antt =====
-- The constrains of a table and their resolver under an insertion (data_array.c).
use rattle.Base.{ℕ, ◌^◌, ◌<◌, ◌≡◌, Bool, Option, none, some, Status, fail, ok, arith, ap, ◌∙◌}
use rattle.Table.State.{Table, set_constrains, exists}
use rattle.Table.Walk.{set_pos_frag_first, satisfy_constrains}
use rattle.Table.Update.{
  Alloc, realloc_and_move, take_tail_next, get_tail_next, take_frag, get_frag_first, put_chunk,
  insert,
}
use rattle.Table.Valid.{IsValid}
use rattle.Table.Write.{satisfy_constrains-Stands, write_chunk-passed}

-- A test on the chunks keeps a table valid.
pub constrained-IsValid :
    {A : Type 0} {t : Table A} (test : A → A → Bool) → IsValid t → IsValid (set_constrains t test)
unfolding set_constrains exists
constrained-IsValid test v = record {
  there = v.there;
  solid = v.solid;
  room = v.room;
  mask_room = v.mask_room;
  bytes = v.bytes;
  limit = v.limit;
  last_used = v.last_used;
  last_in = v.last_in;
  pos_in = v.pos_in;
  tail_last = v.tail_last;
  holes = v.holes;
  clear = v.clear;
}

-- Two tables have the same test and the same resolver.
abbrev pub SameCallbacks : {A : Type 0} → Table A → Table A → Type 0
SameCallbacks t u = (u.constrains ≡ t.constrains) × (u.on_constrains ≡ t.on_constrains)

module _ {A : Type 0} (blank : A) (t : Table A) where
  realloc_and_move-callbacks : (a : Alloc A) → SameCallbacks t (realloc_and_move blank t a).1
  unfolding realloc_and_move
  realloc_and_move-callbacks a = ground arith

  set_pos_frag_first-callbacks : SameCallbacks t (set_pos_frag_first t).1
  unfolding set_pos_frag_first
  set_pos_frag_first-callbacks = ground arith

  take_tail_next-callbacks : SameCallbacks t (take_tail_next blank t).2
  unfolding take_tail_next
  take_tail_next-callbacks = ground arith

  take_frag-callbacks : SameCallbacks t (take_frag blank t).2
  unfolding take_frag
  take_frag-callbacks = ground arith

module _ {A : Type 0} (blank : A) (t : Table A) (a : Alloc A) where
  get_tail_next-callbacks : SameCallbacks t (get_tail_next blank t a).2
  unfolding get_tail_next
  get_tail_next-callbacks =
      let grown = realloc_and_move-callbacks blank t a in
      let taken = take_tail_next-callbacks blank t in
      let after = take_tail_next-callbacks blank (realloc_and_move blank t a).1 in
      ground (arith, grown, taken, after)

  get_frag_first-callbacks : SameCallbacks t (get_frag_first blank t a).2
  unfolding get_frag_first
  get_frag_first-callbacks =
      let moved = set_pos_frag_first-callbacks blank t in
      let taken = take_frag-callbacks blank (set_pos_frag_first t).1 in
      ground (arith, moved, taken, get_tail_next-callbacks)

  put_chunk-callbacks :
      (src : A) (r : Status × Option ℕ × Table A)
      → SameCallbacks t r.2
      → SameCallbacks t (put_chunk blank src r).1
  put_chunk-callbacks src (fail, d, u) h = h
  put_chunk-callbacks src (ok, none, u) h = h
  put_chunk-callbacks src (ok, some p, u) h = h

-- An insertion of a chunk that passes the test keeps the test and the resolver.
pub insert-callbacks :
    {A : Type 0} (blank : A) (t : Table A) (src : A) (a : Alloc A)
    → IsValid t
    → t.frag_count < 2 ^ 32
    → (satisfy_constrains blank t src).0 ≡ ok
    → SameCallbacks t (insert blank t src a).1
unfolding insert
insert-callbacks {A} blank t src a v small pass =
    let u = (satisfy_constrains blank t src).1 in
    let same = (satisfy_constrains-Stands blank t src v small).same in
    let tested = ap (λ (w : Table A). w.constrains) same in
    let resolved = ap (λ (w : Table A). w.on_constrains) same in
    let (c, o) =
      put_chunk-callbacks blank u a src (get_frag_first blank u a)
        (get_frag_first-callbacks blank u a) in
    rw (write_chunk-passed blank t src (get_frag_first blank) a pass) (c ∙ tested, o ∙ resolved)
