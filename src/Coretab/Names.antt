-- ===== src/Coretab/Names.antt =====
-- The names in the table of cores (src/core.c).
use native.Mathlib.Decide.{ℕ_discrete}
use rattle.Base.{
  ℕ, ◌^◌, ◌≤◌, ◌<◌, ◌≡◌, ◌≢◌, refl, true, false, [], ◌∷◌, Option, none, some, ok, length, arith, ap,
  ◌∙◌, sym,
}
use rattle.Table.State.{Table, set_constrains}
use rattle.Table.Update.{Alloc, create, insert}
use rattle.Table.Valid.{IsValid, Steady, used, lookup}
use rattle.Table.Sizes.{ClearsMask}
use rattle.Table.Reuse.{free_slot}
use rattle.Table.Write.{Stores, insert-Stores, satisfy_constrains-ok}
use rattle.Table.Unresolved.{insert_unresolved}
use rattle.Table.Callbacks.{constrained-IsValid, insert-callbacks}
use rattle.Table.Create.{created, create-created, created-IsValid}
use rattle.Args.Words.{Str, str_eq}
use rattle.Coretab.Cores.{
  RattCore, compare_core_name, constrains_on_core_entry, core_register, core_init,
  create_core_table, entry_tab_size, pointer_size,
}

-- What core_init() makes and core_register() keeps: a valid table with the test on the names and
-- no resolver.
pub record Ready (t : Table (Option RattCore)) : Type 0 where
  pub valid : IsValid t
  pub small : t.frag_count < 2 ^ 32
  pub steady : Steady t
  pub tested : t.constrains ≡ some constrains_on_core_entry
  pub unresolved : t.on_constrains ≡ none

-- No two slots hold cores of one name.
abbrev pub Distinct : Table (Option RattCore) → Type 0
Distinct t =
    (i j : ℕ) (a b : RattCore)
    → lookup none t i ≡ some (some a)
    → lookup none t j ≡ some (some b)
    → str_eq a.name b.name ≡ true
    → i ≡ j

str_eq_sym : (s u : Str) → str_eq s u ≡ str_eq u s
str_eq_sym [] [] = refl
str_eq_sym [] (d ∷ u) = refl
str_eq_sym (c ∷ s) [] = refl
str_eq_sym (c ∷ s) (d ∷ u) = ground (arith, str_eq_sym s u)

empty_table : Table (Option RattCore)
empty_table = set_constrains (created none entry_tab_size pointer_size 0) constrains_on_core_entry

empty_table-Ready : Ready empty_table × Distinct empty_table
unfolding empty_table set_constrains
empty_table-Ready = (
  record {
    valid =
        constrained-IsValid constrains_on_core_entry
          (created-IsValid none entry_tab_size pointer_size 0 (omega arith) (omega arith));
    small = omega arith;
    steady = λ z. refl;
    tested = refl;
    unresolved = refl;
  },
  λ i j a b at_i at_j e. absurd (ground (arith, at_i)),
)

-- The table that core_init() makes is ready, and holds no core.
pub core_init-Ready :
    (t : Table (Option RattCore)) (a : Alloc (Option RattCore))
    → (core_init t a).0 ≡ ok
    → Ready (core_init t a).1 × Distinct (core_init t a).1 × ((core_init t a).1.chunk_count ≡ 0)
unfolding core_init create_core_table empty_table set_constrains
core_init-Ready t a h =
    let made : (create none t entry_tab_size pointer_size 0 a).0 ≡ ok = ground (arith, h) in
    let (e, lo, hi) = create-created none t entry_tab_size pointer_size 0 a made in
    let same : (core_init t a).1 ≡ empty_table =
      ground (arith, made) ∙ ap (λ w. set_constrains w constrains_on_core_entry) e in
    rw same (empty_table-Ready.0, empty_table-Ready.1, refl)

module _ {t t' : Table (Option RattCore)} {p : ℕ} {entry : RattCore}
    (s : Stores none t t' p (some entry))
    (fresh : (i : ℕ) (c : RattCore)
      → lookup none t i ≡ some (some c)
      → str_eq c.name entry.name ≡ false) where
  -- The new core in its slot, and an old one that has its name.
  no_clash :
      (i j : ℕ) (a b : RattCore)
      → i ≡ p
      → j ≢ p
      → lookup none t' i ≡ some (some a)
      → lookup none t' j ≡ some (some b)
      → str_eq a.name b.name ≡ false
  no_clash i j a b here there at_i at_j =
      let old : str_eq b.name entry.name ≡ false = fresh j b (sym (s.others j there) ∙ at_j) in
      let stored : some (some a) ≡ some (some entry) =
        sym at_i ∙ ap (lookup none t') here ∙ s.stored in
      let same : a ≡ entry = ground (arith, stored) in
      let renamed = ap (λ (c : RattCore). str_eq c.name b.name) same in
      renamed ∙ str_eq_sym entry.name b.name ∙ old

  Stores-Distinct : Distinct t → Distinct t'
  Stores-Distinct distinct i j a b at_i at_j e = elim (ℕ_discrete i p) [
    | yes new_i ↦ elim (ℕ_discrete j p) [
      | yes new_j ↦ omega arith
      | no old_j ↦ absurd (let clash = no_clash i j a b new_i old_j at_i at_j in cc)
    ]
    | no old_i ↦ elim (ℕ_discrete j p) [
      | yes new_j ↦
          absurd
            (let clash = str_eq_sym a.name b.name ∙ no_clash j i b a new_j old_i at_j at_i in cc)
      | no old_j ↦
          distinct i j a b (sym (s.others i old_i) ∙ at_i) (sym (s.others j old_j) ∙ at_j) e
    ]
  ]

module _ (version : ℕ) (t : Table (Option RattCore)) (entry : RattCore)
    (a : Alloc (Option RattCore)) where
  registered :
      (core_register version t entry a).0 ≡ ok
      → (version ≤ entry.ver_major)
        × (length entry.name ≢ 0)
        × ((insert none t (some entry) a).0 ≡ ok)
        × ((core_register version t entry a).1 ≡ (insert none t (some entry) a).1)
  unfolding core_register
  registered h = ground (arith, h)

  -- A core that is registered is of the version asked for, has a name that no core of the table
  -- had, and is stored in the free slot; every other slot is as it was, the
  -- table is ready for the next one, and the names in it stay different from each other.
  pub core_register-Distinct :
      Ready t
      → (used t ≡ t.size → ClearsMask t.size)
      → Distinct t
      → (core_register version t entry a).0 ≡ ok
      → let t' = (core_register version t entry a).1 in
        (version ≤ entry.ver_major)
        × (length entry.name ≢ 0)
        × ((i : ℕ) (c : RattCore)
            → lookup none t i ≡ some (some c)
            → str_eq c.name entry.name ≡ false)
        × Stores none t t' (free_slot t) (some entry)
        × Ready t'
        × Distinct t'
  unfolding constrains_on_core_entry compare_core_name
  core_register-Distinct ready clears distinct h =
      let (version_ok, named, inserted, same) = registered h in
      let pass =
        insert_unresolved none t (some entry) a ready.valid ready.small ready.unresolved inserted in
      let stores =
        insert-Stores none t (some entry) a ready.valid ready.small ready.steady clears pass
          inserted in
      let fresh : (i : ℕ) (c : RattCore)
          → lookup none t i ≡ some (some c)
          → str_eq c.name entry.name ≡ false =
        λ i c at.
          satisfy_constrains-ok none t (some entry) constrains_on_core_entry ready.tested
            ready.valid ready.small pass i (some c) at in
      let (tested, resolver) =
        insert-callbacks none t (some entry) a ready.valid ready.small pass in
      let ready' : Ready (insert none t (some entry) a).1 = record {
        valid = stores.valid;
        small = omega (arith, stores.counted, stores.extent, ready.small);
        steady = λ z. absurd (omega (arith, stores.counted));
        tested = tested ∙ ready.tested;
        unresolved = resolver ∙ ready.unresolved;
      } in
      rw same (version_ok, named, fresh, stores, ready', Stores-Distinct stores fresh distinct)
