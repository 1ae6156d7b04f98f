-- ===== src/Table/Filling.antt =====
-- Pushing chunk after chunk onto a table (data_array.c).
use native.Mathlib.Decide.{ℕ_discrete}
use rattle.Base.{
  ℕ, suc, ◌+◌, ◌-◌, ◌^◌, ◌<◌, ◌≤◌, ◌≡◌, refl, true, false, List, [], ◌∷◌, none, some, Status, fail,
  ok, ltb, if◌then◌else◌, length, get_elem?, arith, ap, ◌∙◌, sym, ◌⊎◌, inl, inr, Bool-cases,
}
use rattle.Table.State.{Table, has_flag, fl_no_realloc}
use rattle.Table.Update.{Alloc, push, grown_size, create}
use rattle.Table.Valid.{IsValid, Steady, used, lookup}
use rattle.Table.Write.{Stores, push-Stores, unconstrained}
use rattle.Table.Create.{created, created-IsValid, create-created}
use rattle.Table.Room.{push-Sized, push-ok}
use rattle.Table.Sizes.{
  ClearsMask, grown, growths, largest, grown-ClearsMask, grown-growths, grown_first,
}

-- A table without holes that accepts every chunk, may grow, and has the size that `k` growths make
-- of one slot.
pub record Filled {A : Type 0} (t : Table A) (k : ℕ) : Type 0 where
  pub valid : IsValid t
  pub no_holes : t.frag_count ≡ 0
  pub free : t.constrains ≡ none
  pub may_grow : has_flag t.flags fl_no_realloc ≡ false
  pub size_eq : t.size ≡ grown k 1
  pub bounded : k ≤ growths

-- The pushes end at the first one that fails.
unfoldable pub push_all : {A : Type 0} → A → (ℕ → Alloc A) → ℕ → List A → Table A → Status × Table A
push_all blank memory i [] t = (ok, t)
push_all blank memory i (x ∷ xs) t =
    let (s, t') = push blank t x (memory i) in
    let rest = push_all blank memory (i + 1) xs t' in elim s [ ok ↦ rest | fail ↦ (fail, t') ]

module _ {A : Type 0} (blank : A) (t : Table A) (k : ℕ) (f : Filled t k) where
  -- A table that is full has not grown as often as it may.
  Filled-clears : used t < largest → used t ≡ t.size → (k < growths) × ClearsMask t.size
  Filled-clears h full = elim (ℕ_discrete k growths) [
    | yes last ↦
        let e : t.size ≡ largest = f.size_eq ∙ ap (λ n. grown n 1) last ∙ grown-growths in
        absurd (omega (arith, full, h, e))
    | no more ↦
        let below : k < growths = omega (arith, f.bounded, more) in
        (below, rw f.size_eq (grown-ClearsMask k below))
  ]

  push-Filled :
      (x : A) (a : Alloc A)
      → used t < largest
      → (push blank t x a).0 ≡ ok
      → let t' = (push blank t x a).1 in
        Stores blank t t' (used t) x × (used t' ≡ used t + 1) × ((m : ℕ) × Filled t' m)
  unfolding grown
  push-Filled x a h done =
      let t' = (push blank t x a).1 in
      let steady : Steady t = λ z. f.no_holes in
      let pass = ap (λ (r : Status × Table A). r.0) (unconstrained blank t x f.free) in
      let small : t.frag_count < 2 ^ 32 = omega (arith, f.no_holes) in
      let stores =
        push-Stores blank t x a f.valid small steady (λ full. (Filled-clears h full).1) pass done in
      let (sized, free, flags) = push-Sized blank t a x f.valid steady f.free in
      let holes : t'.frag_count ≡ 0 = omega (arith, stores.counted, stores.extent, f.no_holes) in
      (
        stores,
        omega (arith, stores.counted, f.no_holes, holes),
        elim sized [
          | inl same ↦ (
            k,
            record {
              valid = stores.valid;
              no_holes = holes;
              free = free ∙ f.free;
              may_grow = ap (λ n. has_flag n fl_no_realloc) flags ∙ f.may_grow;
              size_eq = same ∙ f.size_eq;
              bounded = f.bounded;
            },
          )
          | inr (full, more) ↦ (
            suc k,
            record {
              valid = stores.valid;
              no_holes = holes;
              free = free ∙ f.free;
              may_grow = ap (λ n. has_flag n fl_no_realloc) flags ∙ f.may_grow;
              size_eq = more ∙ ap grown_size f.size_eq;
              bounded = (Filled-clears h full).0;
            },
          )
        ],
      )

module _ {A : Type 0} (blank : A) (memory : ℕ → Alloc A)
    (head : (i : ℕ) → (memory i).head_ok ≡ true) (mask : (i : ℕ) → (memory i).mask_ok ≡ true) where
  -- The chunks stand behind those that the table held, in the order of the pushes.
  abbrev Appended : Table A → List A → Status × Table A → Type 0
  Appended t xs (s, t') =
      (s ≡ ok)
      × IsValid t'
      × (t'.chunk_count ≡ t.chunk_count + length xs)
      × ((j : ℕ)
          → lookup blank t' j
            ≡ (if ltb j (used t) then lookup blank t j else get_elem? xs (j - used t)))

  get_elem?-behind :
      (x : A) (xs : List A) (j n : ℕ)
      → n < j
      → get_elem? (x ∷ xs) (j - n) ≡ get_elem? xs (j - (n + 1))
  get_elem?-behind x xs j n h =
      let e : j - n ≡ suc (j - (n + 1)) = omega arith in ap (get_elem? (x ∷ xs)) e

  get_elem?-here : (x : A) (xs : List A) (j n : ℕ) → n ≡ j → get_elem? (x ∷ xs) (j - n) ≡ some x
  get_elem?-here x xs j n h = let e : j - n ≡ 0 = omega arith in ap (get_elem? (x ∷ xs)) e

  Stores-Appended :
      (t u : Table A) (x : A) (xs : List A) (r : Status × Table A)
      → Stores blank t u (used t) x
      → used u ≡ used t + 1
      → Appended u xs r
      → Appended t (x ∷ xs) r
  Stores-Appended t u x xs (s, t') stores more (done, valid, counted, at) = (
    done,
    valid,
    omega (arith, counted, stores.counted),
    λ j. elim (ℕ_discrete j (used t)) [
      | yes new ↦
          let stored = ap (lookup blank u) new ∙ stores.stored in
          ground (arith, at j, more, new, stored, get_elem?-here x xs j (used t) (sym new))
      | no other ↦ elim (Bool-cases (ltb j (used t))) [
        | inl old ↦ ground (arith, at j, more, old, other, stores.others j other)
        | inr later ↦
            let after : used t < j = ground (arith, later, other) in
            let shift : get_elem? xs (j - used u) ≡ get_elem? xs (j - (used t + 1)) =
              ap (λ n. get_elem? xs (j - n)) more in
            ground (arith, at j, more, later, after, shift, get_elem?-behind x xs j (used t) after)
      ]
    ],
  )

  push_all-step :
      (x : A) (xs : List A) (i : ℕ) (t : Table A)
      → (push blank t x (memory i)).0 ≡ ok
      → push_all blank memory i (x ∷ xs) t
        ≡ push_all blank memory (i + 1) xs (push blank t x (memory i)).1
  unfolding push_all
  push_all-step x xs i t done = ground (arith, done)

  push_all-Appended :
      (xs : List A) (i : ℕ) (t : Table A) (k : ℕ)
      → Filled t k
      → used t + length xs ≤ largest
      → Appended t xs (push_all blank memory i xs t)
  unfolding push_all
  push_all-Appended [] i t k f h = (refl, f.valid, omega arith, λ j. ground arith)
  push_all-Appended (x ∷ xs) i t k f h =
      let u = (push blank t x (memory i)).1 in
      let done =
        push-ok blank t (memory i) x f.valid (λ z. f.no_holes) f.free f.may_grow (omega arith)
          (head i) (mask i) in
      let (stores, more, (m, filled)) = push-Filled blank t k f x (memory i) (omega arith) done in
      let rest = push_all-Appended xs (i + 1) u m filled (omega (arith, more, h)) in
      rw (push_all-step x xs i t done)
        (Stores-Appended t u x xs (push_all blank memory (i + 1) xs u) stores more rest)

  grown_from :
      (cnt : ℕ)
      → (cnt ≡ 1) ⊎ ((cnt ≡ 2) ⊎ (cnt ≡ 4))
      → ((k : ℕ) × (cnt ≡ grown k 1) × (k ≤ growths))
  unfolding grown
  grown_from cnt (inl e) = (0, e, omega arith)
  grown_from cnt (inr (inl e)) = (1, e ∙ sym grown_first.0, omega arith)
  grown_from cnt (inr (inr e)) = (3, e ∙ sym grown_first.1, omega arith)

  -- A table that was created with 1, 2 or 4 slots, and not for a fixed size, takes chunk after chunk
  -- for as long as it has memory and there are no more of them than 1034394552: every push
  -- succeeds, and in the end the table is valid and holds in its slots the chunks in the order in
  -- which they were pushed, and nothing else.
  pub push_all-created :
      (t : Table A) (cnt size flags : ℕ) (a : Alloc A) (xs : List A)
      → (create blank t cnt size flags a).0 ≡ ok
      → (cnt ≡ 1) ⊎ ((cnt ≡ 2) ⊎ (cnt ≡ 4))
      → has_flag (create blank t cnt size flags a).1.flags fl_no_realloc ≡ false
      → length xs ≤ largest
      → let (s, u) = push_all blank memory 0 xs (create blank t cnt size flags a).1 in
        (s ≡ ok)
        × IsValid u
        × (u.chunk_count ≡ length xs)
        × ((j : ℕ) → lookup blank u j ≡ get_elem? xs j)
  push_all-created t cnt size flags a xs done few may small =
      let (e, lo, hi) = create-created blank t cnt size flags a done in
      let (k, made, bound) = grown_from cnt few in
      let u = created blank cnt size flags in
      let filled : Filled u k = record {
        valid = created-IsValid blank cnt size flags lo hi;
        no_holes = refl;
        free = refl;
        may_grow = sym (ap (λ (v : Table A). has_flag v.flags fl_no_realloc) e) ∙ may;
        size_eq = made;
        bounded = bound;
      } in
      let (fine, valid, counted, at) = push_all-Appended xs 0 u k filled (omega (arith, small)) in
      rw e (fine, valid, omega (arith, counted), λ j. at j ∙ ground arith)
