-- ===== src/Table/Update.antt =====
-- Creating, growing, filling and emptying a table (data_array.c).
use rattle.Base.{
  ℕ, zero, suc, ◌+◌, ◌-◌, ◌/◌, ◌%◌, ◌^◌, Bool, true, not, ◌&&◌, ◌||◌, List, [], ◌∷◌, ◌++◌, Option,
  none, some, Status, fail, ok, ◌==◌, ltb, leb, if◌then◌else◌, set, fill, replicate, inc_size,
  dec_size,
}
use rattle.Table.Mask.{is_frag, frag_mask_size, frag_mask_set, frag_mask_unset}
use rattle.Table.State.{
  Table, zeroed, fragmented, exists, isempty, ishead, istail, current, has_flag, with_flag,
  fl_exists, fl_no_realloc, fl_no_reuse, tab_siz_min, tab_siz_max,
}
use rattle.Table.Walk.{set_pos_frag_first, satisfy_constrains, chunk_at}

-- What the allocator answers during one call: whether the block of chunks can be had, whether
-- realloc() moved it, whether the mask can be had, and what fresh memory holds.
pub record Alloc {ℓ} (A : Type ℓ) : Type ℓ where
  pub head_ok : Bool
  pub head_moved : Bool
  pub mask_ok : Bool
  pub junk : A
  pub junk_byte : ℕ → ℕ

-- `n` bytes of fresh memory, from place `i` of the block on.
unfoldable pub fresh_bytes : (ℕ → ℕ) → ℕ → ℕ → List ℕ
fresh_bytes junk i zero = []
fresh_bytes junk i (suc n) = (junk i % 256) ∷ fresh_bytes junk (i + 1) n

-- The size that a table of `size` chunks grows to; the sum is a `size_t`.
unfoldable pub grown_size : ℕ → ℕ
grown_size size =
    let growsiz = if size / 2 == 0 then 1 else size / 2 in
    let sum = (size + growsiz) % 2 ^ 64 in if ltb tab_siz_max sum then tab_siz_max else sum

-- The mask of a grown table. What memset() clears starts behind the byte of the last slot.
unfoldable pub grown_mask : List ℕ → (ℕ → ℕ) → ℕ → ℕ → ℕ → List ℕ
grown_mask mask junk last size newsiz =
    let more = frag_mask_size newsiz - frag_mask_size size in
    fill (mask ++ fresh_bytes junk (frag_mask_size size) more) (last / 8 + 1) more 0

module _ {ℓ} {A : Type ℓ} (blank : A) where
  unfoldable pub realloc_and_move : Table A → Alloc A → Status × Table A
  realloc_and_move t a =
      let newsiz = grown_size t.size in
      let tail' = if a.head_moved then t.last else t.tail in
      let more = newsiz - t.size in
      if leb newsiz t.size
      then (fail, t)
      else if not a.head_ok
      then (fail, t)
      else if not a.mask_ok
      then (fail, record t { dangling = t.dangling || a.head_moved })
      else (
        ok,
        record t {
          head = fill (t.head ++ replicate more a.junk) (tail' + 1) more blank;
          tail = tail';
          size = newsiz;
          frag_mask = grown_mask t.frag_mask a.junk_byte t.last t.size newsiz;
        },
      )

  -- The part of ratt_table_get_tail_next() behind the check for room.
  unfoldable pub take_tail_next : Table A → Status × Option ℕ × Table A
  take_tail_next t =
      if isempty t
      then (ok, some 0, record t { chunk_count = inc_size t.chunk_count; tail = 0 })
      else (
        ok,
        some (t.tail + 1),
        record t {
          chunk_count = inc_size t.chunk_count;
          tail = t.tail + 1;
          last = inc_size t.last;
          pos = inc_size t.last;
        },
      )

  unfoldable pub get_tail_next : Table A → Alloc A → Status × Option ℕ × Table A
  get_tail_next t a =
      if not (isempty t) && leb t.size (inc_size t.last)
      then (if has_flag t.flags fl_no_realloc
          then (fail, none, t)
          else let (s, t') = realloc_and_move t a in
            elim s [ ok ↦ take_tail_next t' | fail ↦ (fail, none, t') ])
      else take_tail_next t

  -- The part of ratt_table_get_frag_first() behind the choice of the hole.
  unfoldable pub take_frag : Table A → Status × Option ℕ × Table A
  take_frag t = elim (current t) [
    | none ↦ (fail, none, t)
    | some p ↦
        let (s, mask, cnt) = frag_mask_unset t.frag_mask t.pos t.frag_count in
        elim s [
          | ok ↦ (
            ok,
            some p,
            record t { frag_mask = mask; frag_count = cnt; chunk_count = inc_size t.chunk_count },
          )
          | fail ↦ (fail, some p, t)
        ]
  ]

  unfoldable pub get_frag_first : Table A → Alloc A → Status × Option ℕ × Table A
  get_frag_first t a =
      if not (fragmented t) || has_flag t.flags fl_no_reuse
      then get_tail_next t a
      else let (s, t') = set_pos_frag_first t in
        elim s [ ok ↦ take_frag t' | fail ↦ (fail, none, t') ]

  abbrev pub GetDst : Type ℓ
  GetDst = Table A → Alloc A → Status × Option ℕ × Table A

  -- memcpy() to the slot that was had.
  abbrev pub put_chunk : A → Status × Option ℕ × Table A → Status × Table A
  put_chunk src (fail, dst, t) = (fail, t)
  put_chunk src (ok, none, t) = (ok, t)
  put_chunk src (ok, some p, t) = (ok, record t { head = set t.head p src })

  -- A chunk that breaks the constrains goes to the resolver, with the chunk that it met.
  unfoldable pub resolve_constrains : Table A → A → Status × Table A
  resolve_constrains t src = elim t.on_constrains [
    | none ↦ (fail, t)
    | some resolve ↦ elim (current t) [
      | none ↦ (fail, t)
      | some p ↦
          let (s, c) = resolve (chunk_at blank t p) src in (s, record t { head = set t.head p c })
    ]
  ]

  unfoldable pub write_chunk : Table A → A → Option GetDst → Alloc A → Status × Table A
  write_chunk t src getdst a =
      let get : GetDst = elim getdst [ some g ↦ g | none ↦ get_tail_next ] in
      let (s, t') = satisfy_constrains blank t src in
      elim s [ ok ↦ put_chunk src (get t' a) | fail ↦ resolve_constrains t' src ]

  unfoldable pub push : Table A → A → Alloc A → Status × Table A
  push t src a = write_chunk t src (some get_tail_next) a

  unfoldable pub insert : Table A → A → Alloc A → Status × Table A
  insert t src a = write_chunk t src (some get_frag_first) a

  unfoldable pub del_current : Table A → Status × Table A
  del_current t = elim (current t) [
    | none ↦ (fail, t)
    | some p ↦
        let cleared = record t {
          head = set t.head p blank;
          chunk_count = dec_size t.chunk_count;
        } in
        let (_, mask, cnt) = frag_mask_set t.frag_mask t.pos t.frag_count in
        if is_frag t.frag_mask t.pos
        then (fail, t)
        else if istail t p && not (ishead t p)
        then (ok, record cleared { tail = p - 1; last = dec_size t.last; pos = dec_size t.last })
        else (ok, record cleared { frag_mask = mask; frag_count = cnt })
  ]

  -- Only a table whose `head` is NULL is refused.
  unfoldable pub destroy : Table A → Status × Table A
  destroy t = elim t.head [ [] ↦ (fail, t) | _ ∷ _ ↦ (ok, zeroed) ]

  unfoldable pub create : Table A → ℕ → ℕ → ℕ → Alloc A → Status × Table A
  create t cnt size flags a =
      if exists t
      then (fail, t)
      else if ltb cnt tab_siz_min
      then (fail, t)
      else if ltb tab_siz_max cnt
      then (fail, t)
      else if not a.head_ok
      then (fail, zeroed)
      else if not a.mask_ok
      then (fail, record zeroed { head = replicate cnt blank; dangling = true })
      else (
        ok,
        record zeroed {
          head = replicate cnt blank;
          frag_mask = replicate (frag_mask_size cnt) 0;
          size = cnt;
          chunk_size = size;
          flags = with_flag flags fl_exists;
        },
      )
