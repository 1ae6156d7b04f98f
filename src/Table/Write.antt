-- ===== src/Table/Write.antt =====
-- ratt_table_push() and ratt_table_insert(), and the check of the constrains (data_array.c).
use rattle.Base.{
  ℕ, ◌+◌, ◌^◌, ◌≤◌, ◌<◌, ◌≡◌, ◌≢◌, refl, Bool, false, List, Option, none, some, Status, fail, ok,
  set, arith, ap, Option-cases, inl, inr, ◌∙◌, get_or-set, length, length-set,
}
use rattle.Table.State.{Table, exists}
use rattle.Table.Walk.{satisfy_constrains, table_search}
use rattle.Table.Update.{Alloc, write_chunk, push, insert, get_tail_next, get_frag_first, put_chunk}
use rattle.Table.Valid.{IsValid, Steady, used, lookup}
use rattle.Table.Sizes.{ClearsMask}
use rattle.Table.Find.{Stands, table_search_lem, table_search_complete, status_of}
use rattle.Table.Append.{Claims, Claims-trans, get_tail_next-Claims}
use rattle.Table.Reuse.{free_slot, pos-IsValid, get_frag_first-Claims}

-- A change of the chunks alone keeps a table valid.
pub head-IsValid :
    {A : Type 0} {t : Table A} (h : List A)
    → IsValid t
    → length h ≡ length t.head
    → IsValid (record t { head = h })
unfolding exists
head-IsValid h v e = record {
  there = v.there;
  solid = v.solid;
  room = e ∙ v.room;
  mask_room = v.mask_room;
  bytes = v.bytes;
  limit = v.limit;
  last_used = v.last_used;
  last_in = v.last_in;
  pos_in = v.pos_in;
  tail_last = v.tail_last;
  holes = v.holes;
  clear = v.clear;
}

-- `t'` is `t` with `src` written to slot `p`, which held nothing before; the cursor stands there.
pub record Stores {A : Type 0} (blank : A) (t t' : Table A) (p : ℕ) (src : A) : Type 0 where
  pub valid : IsValid t'
  pub here : t'.pos ≡ p
  pub counted : t'.chunk_count ≡ t.chunk_count + 1
  pub extent : used t' ≤ used t + 1
  pub stored : lookup blank t' p ≡ some src
  pub others : (i : ℕ) → i ≢ p → lookup blank t' i ≡ lookup blank t i

-- The verdict on a chunk: a match is a failure.
abbrev pub verdict : Option ℕ → Status
verdict none = ok
verdict (some p) = fail

module _ {A : Type 0} (blank : A) (t : Table A) where
  put_chunk-Stores :
      (src : A) (t' : Table A) (p : ℕ)
      → Claims blank t t' p
      → Stores blank t (record t' { head = set t'.head p src }) p src
  put_chunk-Stores src t' p c =
      let inside : p < length t'.head = omega (arith, c.in_range, c.valid.room) in
      record {
        valid = head-IsValid _ c.valid (length-set t'.head p src);
        here = c.here;
        counted = c.counted;
        extent = c.extent;
        stored = ground (arith, c.claimed, get_or-set t'.head p p src blank inside);
        others = λ i far. ground (arith, c.others i far, get_or-set t'.head p i src blank inside);
      }

  pub unconstrained : (src : A) → t.constrains ≡ none → satisfy_constrains blank t src ≡ (ok, t)
  unfolding satisfy_constrains
  unconstrained src e = simp (e, satisfy_constrains)

  pub constrained :
      (src : A) (compare : A → A → Bool)
      → t.constrains ≡ some compare
      → let (s, c, t') = table_search blank t (λ c. compare c src) in
        satisfy_constrains blank t src ≡ (verdict c, t')
  unfolding satisfy_constrains
  constrained src compare e = elim (Option-cases (table_search blank t (λ c. compare c src)).1) [
    | inl no_match ↦ simp (e, satisfy_constrains) (ground (arith, no_match))
    | inr (q, match) ↦ simp (e, satisfy_constrains) (ground (arith, match))
  ]

  -- The check of the constrains only moves the cursor.
  pub satisfy_constrains-Stands :
      (src : A)
      → IsValid t
      → t.frag_count < 2 ^ 32
      → Stands t (none, (satisfy_constrains blank t src).1)
  satisfy_constrains-Stands src v small = elim (Option-cases t.constrains) [
    | inl e ↦
        rw (unconstrained src e) (record { same = refl; bounded = v.pos_in; answered = λ q e. cc })
    | inr (compare, e) ↦
        let (c, s, stands) = table_search_lem blank (λ c. compare c src) t v small in
        rw (constrained src compare e)
          (record { same = stands.same; bounded = stands.bounded; answered = λ q e. cc })
  ]

  -- A chunk that passes the check meets no chunk of the table.
  pub satisfy_constrains-ok :
      (src : A) (compare : A → A → Bool)
      → t.constrains ≡ some compare
      → IsValid t
      → t.frag_count < 2 ^ 32
      → (satisfy_constrains blank t src).0 ≡ ok
      → (i : ℕ) (c : A) → lookup blank t i ≡ some c
      → compare c src ≡ false
  satisfy_constrains-ok src compare e v small h i c at =
      let no_match : (table_search blank t (λ c. compare c src)).0 ≡ fail =
        elim (Option-cases (table_search blank t (λ c. compare c src)).1) [
          | inl no_match ↦
              (table_search_lem blank (λ c. compare c src) t v small).1
              ∙ ap (status_of {A = ℕ}) no_match
          | inr (q, match) ↦
              absurd (let bad = constrained src compare e in ground (arith, bad, match))
        ] in
      table_search_complete blank (λ c. compare c src) t v small no_match i c at

  -- The slot that a function of the table hands out is claimed in every table that differs from
  -- `t` by its cursor, if the call succeeds.
  abbrev ClaimsFrom : (Table A → Status × Option ℕ × Table A) → ℕ → Type 0
  ClaimsFrom get p =
      (q : ℕ)
      → q ≤ t.last
      → let u = record t { pos = q } in
        (get u).0 ≡ ok → ((get u).1 ≡ some p) × Claims blank u (get u).2 p

  put_chunk-ok :
      (src : A) (r : Status × Option ℕ × Table A) (p : ℕ)
      → (put_chunk blank src r).0 ≡ ok
      → ((r.0 ≡ ok) → (r.1 ≡ some p) × Claims blank t r.2 p)
      → Stores blank t (put_chunk blank src r).1 p src
  put_chunk-ok src (fail, d, u) p h c = absurd (cc)
  put_chunk-ok src (ok, none, u) p h c = absurd (let wrong = (c refl).0 in cc)
  put_chunk-ok src (ok, some q, u) p h c =
      let same : p ≡ q = ground (arith, (c refl).0) in
      rw same (put_chunk-Stores src u q (rw same at (c refl).1))

  pub write_chunk-passed :
      (src : A) (get : Table A → Alloc A → Status × Option ℕ × Table A) (a : Alloc A)
      → (satisfy_constrains blank t src).0 ≡ ok
      → write_chunk blank t src (some get) a
        ≡ put_chunk blank src (get (satisfy_constrains blank t src).1 a)
  unfolding write_chunk
  write_chunk-passed src get a pass = ground (arith, pass)

  write_chunk-Stores :
      (src : A) (get : Table A → Alloc A → Status × Option ℕ × Table A) (a : Alloc A) (p : ℕ)
      → IsValid t
      → t.frag_count < 2 ^ 32
      → ClaimsFrom (λ u. get u a) p
      → (satisfy_constrains blank t src).0 ≡ ok
      → (write_chunk blank t src (some get) a).0 ≡ ok
      → Stores blank t (write_chunk blank t src (some get) a).1 p src
  write_chunk-Stores src get a p v small claims pass h =
      let q = (satisfy_constrains blank t src).1.pos in
      let u : Table A = record t { pos = q } in
      let stands = satisfy_constrains-Stands src v small in
      let here : write_chunk blank t src (some get) a ≡ put_chunk blank src (get u a) =
        write_chunk-passed src get a pass ∙ ap (λ w. put_chunk blank src (get w a)) stands.same in
      rw here (
        put_chunk-ok src (get u a) p (rw here at h) (λ done.
          let (e, c) = claims q stands.bounded done in
          (e, Claims-trans blank (λ i. refl) refl refl c)))

module _ {A : Type 0} (blank : A) (t : Table A) (src : A) (a : Alloc A) where
  -- A push of a chunk that passes the constrains, where it succeeds on a valid table that is not
  -- emptied, has fewer than 2 ^ 32 holes and grows only from a size at which the new flags are
  -- cleared, appends the chunk behind the last slot in use, moves the cursor there, keeps the table
  -- valid and leaves every other slot as it was.
  pub push-Stores :
      IsValid t
      → t.frag_count < 2 ^ 32
      → Steady t
      → (used t ≡ t.size → ClearsMask t.size)
      → (satisfy_constrains blank t src).0 ≡ ok
      → (push blank t src a).0 ≡ ok
      → Stores blank t (push blank t src a).1 (used t) src
  unfolding push
  push-Stores v small steady clears pass h =
      write_chunk-Stores blank t src (get_tail_next blank) a (used t) v small
        (λ q l done. get_tail_next-Claims blank a (pos-IsValid q v l) steady clears done) pass h

  -- An insertion of a chunk that passes the constrains, where it succeeds on a valid table that is
  -- not emptied, has fewer than 2 ^ 32 holes and grows only from a size at which the new flags are
  -- cleared, puts the chunk in the free slot, moves the cursor there, keeps the table valid and leaves
  -- every other slot as it was.
  pub insert-Stores :
      IsValid t
      → t.frag_count < 2 ^ 32
      → Steady t
      → (used t ≡ t.size → ClearsMask t.size)
      → (satisfy_constrains blank t src).0 ≡ ok
      → (insert blank t src a).0 ≡ ok
      → Stores blank t (insert blank t src a).1 (free_slot t) src
  unfolding insert free_slot
  insert-Stores v small steady clears pass h =
      write_chunk-Stores blank t src (get_frag_first blank) a (free_slot t) v small
        (λ q l done. get_frag_first-Claims blank a (pos-IsValid q v l) small steady clears done)
        pass h
