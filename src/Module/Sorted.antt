-- ===== src/Module/Sorted.antt =====
-- The list of modules that is shown, against the table of modules (src/module.c).
use rattle.Base.{
  ℕ, zero, suc, ◌+◌, ◌^◌, ◌<◌, ◌≡◌, refl, Bool, true, false, not, ◌&&◌, List, [], ◌∷◌, ◌++◌, ◌==◌,
  leb, ltb, if◌then◌else◌, length, map, arith, ap, ◌∙◌, sym, Bool-cases, inl, inr, count_below,
}
use rattle.Table.Mask.{is_frag}
use rattle.Table.State.{Table}
use rattle.Table.Walk.{foreach}
use rattle.Table.Valid.{IsValid, used}
use rattle.Table.Cursor.{live, foreach-live}
use rattle.Args.Words.{Str}
use rattle.Module.Registry.{Entry, Registry}
use rattle.Module.Listing.{
  str_leb, name_at, sort_module_name, place, qsort, take, drop, sort_modules, show_modules,
}

-- How often a slot occurs in a list.
abbrev pub times : ℕ → List ℕ → ℕ
times p [] = 0
times p (q ∷ qs) = (if q == p then 1 else 0) + times p qs

length-live-suc :
    (hole : ℕ → Bool) (p n : ℕ)
    → length (live hole p (suc n)) ≡ length (live hole p n) + (if hole (p + n) then 0 else 1)
unfolding live
length-live-suc hole p zero = ground arith
length-live-suc hole p (suc n) =
    let rest = length-live-suc hole (p + 1) n in
    let e : hole (p + 1 + n) ≡ hole (p + suc n) = ap hole (omega arith) in
    elim (Bool-cases (hole p)) [
      | inl h ↦ rw h (rest ∙ ground (arith, e))
      | inr c ↦ rw c (ap suc rest ∙ ground (arith, e))
    ]

-- The slots that hold a chunk are those in use that are no holes.
length-live : (hole : ℕ → Bool) (n : ℕ) → length (live hole 0 n) + count_below hole n ≡ n
unfolding count_below live
length-live hole zero = refl
length-live hole (suc n) = ground (arith, length-live-suc hole 0 n, length-live hole n)

times-live :
    (hole : ℕ → Bool) (p n q : ℕ)
    → times q (live hole p n) ≡ (if (leb p q && ltb q (p + n)) && not (hole q) then 1 else 0)
unfolding live
times-live hole p zero q = ground arith
times-live hole p (suc n) q =
    let rest = times-live hole (p + 1) n q in
    elim (Bool-cases (p == q)) [
      | inl here ↦
          let e : hole p ≡ hole q = ap hole (ground arith) in
          elim (Bool-cases (hole q)) [
            | inl h ↦ ground (arith, rest, e, h, here)
            | inr c ↦ ground (arith, rest, e, c, here)
          ]
      | inr away ↦ elim (Bool-cases (hole p)) [
        | inl h ↦ ground (arith, rest, h, away)
        | inr c ↦ ground (arith, rest, c, away)
      ]
    ]

-- The names stand in the order of strcmp().
abbrev pub is_sorted : List Str → Bool
is_sorted [] = true
is_sorted (s ∷ []) = true
is_sorted (s ∷ u ∷ rest) = str_leb s u && is_sorted (u ∷ rest)

str_leb_total : (s u : Str) → str_leb s u ≡ false → str_leb u s ≡ true
unfolding str_leb
str_leb_total [] u h = absurd (cc)
str_leb_total (c ∷ s) [] h = refl
str_leb_total (c ∷ s) (d ∷ u) h = ground (arith, h, str_leb_total s u)

module _ (t : Table Entry) where
  times-place : (q a : ℕ) (bs : List ℕ) → times q (place t a bs) ≡ times q (a ∷ bs)
  unfolding place
  times-place q a [] = refl
  times-place q a (b ∷ bs) = ground (arith, times-place q a bs)

  times-qsort : (q : ℕ) (bs : List ℕ) → times q (qsort t bs) ≡ times q bs
  unfolding qsort
  times-qsort q [] = refl
  times-qsort q (a ∷ bs) = times-place q a (qsort t bs) ∙ ground (arith, times-qsort q bs)

  length-place : (a : ℕ) (bs : List ℕ) → length (place t a bs) ≡ suc (length bs)
  unfolding place
  length-place a [] = refl
  length-place a (b ∷ bs) = ground (arith, length-place a bs)

  length-qsort : (bs : List ℕ) → length (qsort t bs) ≡ length bs
  unfolding qsort
  length-qsort [] = refl
  length-qsort (a ∷ bs) = length-place a (qsort t bs) ∙ ap suc (length-qsort bs)

  place-is_sorted :
      (a : ℕ) (bs : List ℕ)
      → is_sorted (map (name_at t) bs) ≡ true
      → is_sorted (map (name_at t) (place t a bs)) ≡ true
  unfolding place sort_module_name
  place-is_sorted a [] h = refl
  place-is_sorted a (b ∷ []) h = ground (arith, str_leb_total (name_at t a) (name_at t b))
  place-is_sorted a (b ∷ c ∷ bs) h =
      let total = str_leb_total (name_at t a) (name_at t b) in
      let rest = place-is_sorted a (c ∷ bs) in ground (arith, h, rest, total)

  qsort-is_sorted : (bs : List ℕ) → is_sorted (map (name_at t) (qsort t bs)) ≡ true
  unfolding qsort
  qsort-is_sorted [] = refl
  qsort-is_sorted (a ∷ bs) = place-is_sorted a (qsort t bs) (qsort-is_sorted bs)

take_all : (xs : List ℕ) (n : ℕ) → n ≡ length xs → take n xs ≡ xs
take_all [] zero e = refl
take_all [] (suc n) e = refl
take_all (x ∷ xs) zero e = absurd (omega arith)
take_all (x ∷ xs) (suc n) e = ap (◌∷◌ x) (take_all xs n (omega arith))

drop_all : (xs : List ℕ) (n : ℕ) → n ≡ length xs → drop n xs ≡ []
drop_all [] zero e = refl
drop_all [] (suc n) e = refl
drop_all (x ∷ xs) zero e = absurd (omega arith)
drop_all (x ∷ xs) (suc n) e = drop_all xs n (omega arith)

append_nil : (xs : List ℕ) → xs ++ [] ≡ xs
append_nil [] = refl
append_nil (x ∷ xs) = ap (◌∷◌ x) (append_nil xs)

-- The list has room for cnt + 1 pointers: the walk of a valid table writes cnt of them, and NULL
-- behind.
pub foreach-count :
    {A : Type 0} (t : Table A)
    → IsValid t
    → t.frag_count < 2 ^ 32
    → length (foreach t) ≡ t.chunk_count
foreach-count t v small =
    let e = length-live (is_frag t.frag_mask) (used t) in
    ap length (foreach-live t v small) ∙ omega (arith, v.holes)

abbrev pub holds : Table Entry → ℕ → Bool
holds t p = ltb p (used t) && not (is_frag t.frag_mask p)

empty_list : (xs : List ℕ) → length xs ≡ 0 → xs ≡ []
empty_list [] e = refl
empty_list (x ∷ xs) e = absurd (omega arith)

shown_lem :
    (r : Registry)
    → IsValid r.modtab
    → r.modtab.frag_count < 2 ^ 32
    → (show_modules r true).0 ≡ qsort r.modtab (foreach r.modtab)
unfolding show_modules sort_modules
shown_lem r v small =
    let t = r.modtab in
    let count = foreach-count t v small in
    elim (Bool-cases (t.chunk_count == 0)) [
      | inl none_left ↦
          let nothing : foreach t ≡ [] =
            empty_list (foreach t) (ground (arith, count, none_left)) in
          rw nothing (unfold qsort in ground (arith, none_left))
      | inr some_left ↦
          let all = take_all (foreach t) t.chunk_count (sym count) in
          let rest = drop_all (foreach t) t.chunk_count (sym count) in
          let nil = append_nil (qsort t (foreach t)) in ground (arith, some_left, all, rest, nil)
    ]

-- Where memory is had show_modules() shows each module of a valid table exactly once, and nothing
-- else, in the order of the names.
pub show_modules-lists :
    (r : Registry)
    → IsValid r.modtab
    → r.modtab.frag_count < 2 ^ 32
    → let shown = (show_modules r true).0 in
      ((p : ℕ) → times p shown ≡ (if holds r.modtab p then 1 else 0))
      × (length shown ≡ r.modtab.chunk_count)
      × (is_sorted (map (name_at r.modtab) shown) ≡ true)
show_modules-lists r v small =
    let t = r.modtab in
    let slots = foreach-live t v small in
    rw (shown_lem r v small) (
      λ p.
          times-qsort t p (foreach t)
          ∙ ap (times p) slots
          ∙ times-live (is_frag t.frag_mask) 0 (used t) p
          ∙ ground arith,
      length-qsort t (foreach t) ∙ foreach-count t v small,
      qsort-is_sorted t (foreach t),
    )
