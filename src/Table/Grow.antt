-- ===== src/Table/Grow.antt =====
-- realloc_and_move(): what growing a full table keeps, and which flags it leaves uncleared.
use rattle.Base.{
  ℕ, ◌+◌, ◌-◌, ◌/◌, ◌%◌, ◌<◌, ◌≡◌, refl, not, ◌&&◌, ◌++◌, fail, ok, ltb, get_or, length-append,
  length-fill, replicate, length-replicate, fill, get_or-fill_below, get_or-append_left,
  count_below_ext, arith, ap, ◌∙◌, sym,
}
use rattle.Table.Mask.{is_frag, bits_common, shift_mask}
use rattle.Table.State.{Table, exists}
use rattle.Table.Update.{Alloc, grown_size, grown_mask, realloc_and_move}
use rattle.Table.Valid.{IsValid, used, lookup}
use rattle.Table.Sizes.{ClearsMask, grown_size_lem}
use rattle.Table.NewMask.{
  length-grown_mask, AllBytes-grown_mask, grown_mask_junk, is_frag-grown_mask_old,
  is_frag-grown_mask_new,
}

-- Growing a full table: what it holds stays, there is room for one more chunk, and it is valid.
module _ {A : Type 0} (blank : A) {t : Table A} (a : Alloc A) (v : IsValid t) where
  -- The table that a successful call makes.
  abbrev grown : Table A
  grown = record t {
    head =
        fill (t.head ++ replicate (grown_size t.size - t.size) a.junk) (t.last + 1)
          (grown_size t.size - t.size) blank;
    tail = t.last;
    size = grown_size t.size;
    frag_mask = grown_mask t.frag_mask a.junk_byte (t.size - 1) t.size (grown_size t.size);
  }

  realloc_and_move-grown :
      used t ≡ t.size
      → (realloc_and_move blank t a).0 ≡ ok
      → ((realloc_and_move blank t a).1 ≡ grown) × (t.size < grown_size t.size)
  unfolding realloc_and_move
  realloc_and_move-grown full h =
      let last_eq : t.last ≡ t.size - 1 = omega (arith, v.last_used, v.last_in, full) in
      ground (arith, last_eq, v.tail_last)

  grown-IsValid : used t ≡ t.size → ClearsMask t.size → t.size < grown_size t.size → IsValid grown
  unfolding exists
  grown-IsValid full c more = record {
    there = v.there;
    solid = v.solid;
    room =
        length-fill _ _ _ _
        ∙ length-append t.head _
        ∙ omega (arith, v.room, length-replicate (grown_size t.size - t.size) a.junk);
    mask_room = length-grown_mask t.frag_mask a.junk_byte t.size _ v.mask_room (omega arith) more;
    bytes =
        AllBytes-grown_mask t.frag_mask a.junk_byte t.size _ v.mask_room (omega arith) more v.bytes;
    limit = (grown_size_lem t.size (omega arith) v.limit).0;
    last_used = v.last_used;
    last_in = omega (arith, v.last_in);
    pos_in = v.pos_in;
    tail_last = refl;
    holes =
        v.holes
        ∙ count_below_ext _ _ (used t) (λ i l. sym (
            is_frag-grown_mask_old t.frag_mask a.junk_byte t.size _ v.mask_room (omega arith) more i
              (omega arith)));
    clear = λ i lo hi.
        is_frag-grown_mask_new t.frag_mask a.junk_byte t.size _ v.mask_room (omega arith) more refl
          c v.limit (λ p l. v.clear p (omega arith)) i (omega arith) hi;
  }

  lookup-grown :
      used t ≡ t.size
      → t.size < grown_size t.size
      → (i : ℕ) → lookup blank grown i ≡ lookup blank t i
  lookup-grown full more i =
      let last_eq : t.last ≡ t.size - 1 = omega (arith, v.last_used, v.last_in, full) in
      ground (
        arith,
        v.room,
        is_frag-grown_mask_old t.frag_mask a.junk_byte t.size (grown_size t.size) v.mask_room
            (omega arith) more i,
        get_or-fill_below (t.head ++ replicate (grown_size t.size - t.size) a.junk) (t.last + 1)
            (grown_size t.size - t.size) i blank blank,
        get_or-append_left t.head (replicate (grown_size t.size - t.size) a.junk) i blank,
      )

  pub realloc_and_move-IsValid :
      used t ≡ t.size
      → ClearsMask t.size
      → (realloc_and_move blank t a).0 ≡ ok
      → let t' = (realloc_and_move blank t a).1 in
        IsValid t'
        × (t'.size ≡ grown_size t.size)
        × (t.size < t'.size)
        × (t'.chunk_count ≡ t.chunk_count)
        × (t'.frag_count ≡ t.frag_count)
        × (t'.last ≡ t.last)
        × (t'.flags ≡ t.flags)
        × ((i : ℕ) → lookup blank t' i ≡ lookup blank t i)
  realloc_and_move-IsValid full c h =
      let (e, more) = realloc_and_move-grown full h in
      rw e (grown-IsValid full c more, refl, more, refl, refl, refl, refl, lookup-grown full more)

module _ {A : Type 0} (blank : A) {t : Table A} (a : Alloc A) (v : IsValid t) where
  -- A table that grows from a multiple of eight slots to a size that is none gets a last flag byte
  -- that nothing cleared: a new slot there is a hole if the fresh memory happens to say so.
  pub realloc_and_move-junk :
      used t ≡ t.size
      → t.size % 8 ≡ 0
      → t.size / 8 < grown_size t.size / 8
      → (realloc_and_move blank t a).0 ≡ ok
      → (p : ℕ) → p / 8 ≡ grown_size t.size / 8
      → let t' = (realloc_and_move blank t a).1 in
        is_frag t'.frag_mask p
        ≡ bits_common (a.junk_byte (grown_size t.size / 8) % 256) (shift_mask p)
  unfolding is_frag
  realloc_and_move-junk full e lt h p at =
      let (made, more) = realloc_and_move-grown blank a v full h in
      rw made (
        ap (λ b. bits_common b (shift_mask p))
          (ap (λ k. get_or (grown blank a v).frag_mask k 0) at
            ∙ grown_mask_junk t.frag_mask a.junk_byte t.size (grown_size t.size) v.mask_room
                (omega arith) more e lt))

  -- A call that fails leaves the table as it was, but for `head`: it dangles if the chunks were
  -- moved before the memory for the mask was refused.
  pub realloc_and_move-fail :
      (realloc_and_move blank t a).0 ≡ fail
      → (realloc_and_move blank t a).1 ≡ record t {
        dangling = ltb t.size (grown_size t.size) && a.head_ok && not a.mask_ok && a.head_moved;
      }
  unfolding realloc_and_move
  realloc_and_move-fail h = ground (arith, v.solid)
