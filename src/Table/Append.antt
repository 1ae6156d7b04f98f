-- ===== src/Table/Append.antt =====
-- Taking a slot for a new chunk: behind the tail, with or without growing, or in the first hole.
use native.Mathlib.Decide.{ℕ_discrete}
use rattle.Base.{
  ℕ, suc, ◌+◌, ◌≤◌, ◌<◌, ◌≡◌, ◌≢◌, refl, Bool, false, not, ◌&&◌, Option, none, some, Status, fail,
  ok, ◌==◌, leb, if◌then◌else◌, arith, ap, Bool-cases, Status-cases, inl, inr, ◌∙◌, sym, inc_size,
  inc_size_lem, count_below,
}
use rattle.Table.Mask.{is_frag}
use rattle.Table.State.{Table, isempty, exists, has_flag, fl_no_realloc}
use rattle.Table.Update.{Alloc, take_tail_next, get_tail_next, realloc_and_move}
use rattle.Table.Valid.{IsValid, Steady, used, lookup, isempty_lem}
use rattle.Table.Sizes.{ClearsMask}
use rattle.Table.Grow.{realloc_and_move-IsValid}

pub count_below-suc : (f : ℕ → Bool) (n : ℕ) → f n ≡ false → count_below f (suc n) ≡ count_below f n
unfolding count_below
count_below-suc f n h = rw h (omega arith)

-- `t'` is `t` with slot `p` claimed for a new chunk that is not written yet.
pub record Claims {A : Type 0} (blank : A) (t t' : Table A) (p : ℕ) : Type 0 where
  pub valid : IsValid t'
  pub in_range : p < t'.size
  pub here : t'.pos ≡ p
  pub counted : t'.chunk_count ≡ t.chunk_count + 1
  pub extent : used t' ≤ used t + 1
  pub claimed : (p < used t') × (is_frag t'.frag_mask p ≡ false)
  pub others : (i : ℕ) → i ≢ p → lookup blank t' i ≡ lookup blank t i

module _ {A : Type 0} (blank : A) {t : Table A} (v : IsValid t) where
  -- The slot behind the last one in use is free.
  next_clear : used t < t.size → is_frag t.frag_mask (used t) ≡ false
  next_clear h = v.clear (used t) (omega arith) (ground arith)

  abbrev after_tail : Table A
  after_tail = record t {
    chunk_count = t.chunk_count + 1;
    tail = used t;
    last = used t;
    pos = if t.chunk_count == 0 then t.pos else used t;
  }

  take_tail_next-after_tail : Steady t → take_tail_next blank t ≡ (ok, some (used t), after_tail)
  unfolding take_tail_next exists
  take_tail_next-after_tail steady = ground (
    arith,
    isempty_lem v,
    inc_size_lem t.chunk_count,
    inc_size_lem t.last,
    v.last_used,
    v.tail_last,
    v.last_in,
    v.limit,
    v.holes,
  )

  pub take_tail_next-Claims :
      Steady t
      → used t < t.size
      → let (s, p, t') = take_tail_next blank t in
        (s ≡ ok) × (p ≡ some (used t)) × Claims blank t t' (used t)
  unfolding exists
  take_tail_next-Claims steady more = rw (take_tail_next-after_tail steady) (
    refl,
    refl,
    record {
      valid = record {
        there = v.there;
        solid = v.solid;
        room = v.room;
        mask_room = v.mask_room;
        bytes = v.bytes;
        limit = v.limit;
        last_used = omega arith;
        last_in = more;
        pos_in = ground (arith, v.pos_in, v.last_used, steady);
        tail_last = refl;
        holes =
            v.holes
            ∙ sym (count_below-suc (is_frag t.frag_mask) (used t) (next_clear more))
            ∙ ap (count_below (is_frag t.frag_mask)) (omega arith);
        clear = λ i lo hi. v.clear i (omega arith) hi;
      };
      in_range = more;
      here = ground (arith, v.pos_in, v.last_used, steady);
      counted = refl;
      extent = omega arith;
      claimed = (omega arith, next_clear more);
      others = λ i ne. ground arith;
    },
  )

pub Claims-trans :
    {A : Type 0} (blank : A) {t u w : Table A} {p : ℕ}
    → ((i : ℕ) → lookup blank u i ≡ lookup blank t i)
    → u.chunk_count ≡ t.chunk_count
    → used u ≡ used t
    → Claims blank u w p
    → Claims blank t w p
Claims-trans blank same count slots c = record {
  valid = c.valid;
  in_range = c.in_range;
  here = c.here;
  counted = c.counted ∙ ap (λ n. n + 1) count;
  extent = omega (arith, c.extent);
  claimed = c.claimed;
  others = λ i ne. c.others i ne ∙ same i;
}

module _ {A : Type 0} (blank : A) {t : Table A} (a : Alloc A) (v : IsValid t)
    (steady : Steady t) where
  -- Whether the check for room finds the table full.
  pub full_lem : (not (isempty t) && leb t.size (inc_size t.last)) ≡ (used t == t.size)
  full_lem =
      ground (arith, isempty_lem v, inc_size_lem t.last, v.last_used, v.last_in, v.limit, steady)

  grow_then_take : Status × Table A → Status × Option ℕ × Table A
  grow_then_take (ok, t') = take_tail_next blank t'
  grow_then_take (fail, t') = (fail, none, t')

  get_tail_next_cases : get_tail_next blank t a ≡ (
      if not (used t == t.size)
      then take_tail_next blank t
      else if has_flag t.flags fl_no_realloc
      then (fail, none, t)
      else grow_then_take (realloc_and_move blank t a))
  unfolding get_tail_next grow_then_take
  get_tail_next_cases = ground (arith, full_lem)

  grow_then_take_ok :
      (r : Status × Table A) → r.0 ≡ ok → grow_then_take r ≡ take_tail_next blank r.1
  unfolding grow_then_take
  grow_then_take_ok (ok, u) h = refl
  grow_then_take_ok (fail, u) h = absurd (cc)

  grow_then_take_fail : (r : Status × Table A) → r.0 ≡ fail → grow_then_take r ≡ (fail, none, r.1)
  unfolding grow_then_take
  grow_then_take_fail (fail, u) h = refl
  grow_then_take_fail (ok, u) h = absurd (cc)

  grown-Claims :
      used t ≡ t.size
      → ClearsMask t.size
      → (realloc_and_move blank t a).0 ≡ ok
      → let (s, p, t') = take_tail_next blank (realloc_and_move blank t a).1 in
        (p ≡ some (used t)) × Claims blank t t' (used t)
  grown-Claims full c h =
      let (valid, size, larger, chunks, frags, last_eq, flags_eq, same) =
        realloc_and_move-IsValid blank a v full c h in
      let grown = (realloc_and_move blank t a).1 in
      let used_eq : used grown ≡ used t = omega arith in
      let (s, p, claims) = take_tail_next-Claims blank valid (ground arith) (omega arith) in
      (p ∙ ap some used_eq, Claims-trans blank same chunks used_eq (rw used_eq at claims))

  -- A call that succeeds claims the slot behind the last one in use. Where the table is full it
  -- has grown first.
  pub get_tail_next-Claims :
      (used t ≡ t.size → ClearsMask t.size)
      → (get_tail_next blank t a).0 ≡ ok
      → let (s, p, t') = get_tail_next blank t a in (p ≡ some (used t)) × Claims blank t t' (used t)
  get_tail_next-Claims clears h = elim (ℕ_discrete (used t) (t.size)) [
    | no room ↦
        let here : get_tail_next blank t a ≡ take_tail_next blank t =
          get_tail_next_cases ∙ ground (arith, room) in
        let (s, p, c) =
          take_tail_next-Claims blank v steady (omega (arith, v.last_used, v.last_in)) in
        rw here (p, c)
    | yes full ↦ elim (Bool-cases (has_flag t.flags fl_no_realloc)) [
      | inl fixed ↦
          let here : get_tail_next blank t a ≡ (fail, none, t) =
            get_tail_next_cases ∙ ground (arith, full) in
          absurd (cc)
      | inr free ↦
          let here : get_tail_next blank t a ≡ grow_then_take (realloc_and_move blank t a) =
            get_tail_next_cases ∙ ground (arith, full) in
          elim (Status-cases (realloc_and_move blank t a).0) [
            | inl done ↦ rw (here ∙ grow_then_take_ok _ done) (grown-Claims full (clears full) done)
            | inr failed ↦ let gone = here ∙ grow_then_take_fail _ failed in absurd (cc)
          ]
    ]
  ]
