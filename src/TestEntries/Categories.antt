-- ===== src/TestEntries/Categories.antt =====
-- The array of test names as a list of categories (modules/test/entry.c).
use rattle.Base.{
  ◌≡◌, refl, Bool, true, false, List, [], ◌∷◌, ◌++◌, Option, none, some, if◌then◌else◌, arith, ap,
  Bool-cases, inl, inr,
}
use rattle.Args.Words.{Str, str_eq}
use rattle.TestEntries.Entry.{
  name_then, entry_loop, entry_foreach, init_pass, attach_pass, tests_ar_register,
}

-- A category and the names of its tests.
abbrev pub Category : Type 0
Category = Str × List Str

-- The tests of a category and the NULL behind them, in front of the rest of the array.
abbrev pub listed : List Str → List (Option Str) → List (Option Str)
listed [] rest = none ∷ rest
listed (name ∷ names) rest = some name ∷ listed names rest

-- tests_ar_entry for a list of categories; a NULL ends the array.
abbrev pub array_of : List Category → List (Option Str)
array_of [] = none ∷ []
array_of ((category, names) ∷ cs) = some category ∷ listed names (array_of cs)

abbrev pub all_names : List Category → List Str
all_names [] = []
all_names ((category, names) ∷ cs) = names ++ all_names cs

-- The names behind the first one that is the given name.
abbrev pub behind : Str → List Str → List Str
behind name [] = []
behind name (n ∷ names) = if str_eq name n then names else behind name names

-- A walk that has found its category takes the names up to the NULL.
all_found :
    (names : List Str) (rest : List (Option Str)) (found : List Str)
    → entry_loop none true false rest ≡ some found
    → entry_loop none true true (listed names rest) ≡ some (names ++ found)
unfolding entry_loop
all_found [] rest found e = e
all_found (name ∷ names) rest found e = ap (name_then name) (all_found names rest found e)

one_found :
    (category : Str) (names : List Str) (rest : List (Option Str))
    → entry_loop (some category) false true (listed names rest) ≡ some names
unfolding entry_loop
one_found category [] rest = refl
one_found category (name ∷ names) rest = ap (name_then name) (one_found category names rest)

all_walk : (cs : List Category) → entry_loop none true false (array_of cs) ≡ some (all_names cs)
unfolding entry_loop
all_walk [] = refl
all_walk ((category, names) ∷ cs) = all_found names (array_of cs) (all_names cs) (all_walk cs)

one_walk :
    (category : Str) (names : List Str) (rest : List (Option Str))
    → entry_loop (some category) false false (listed names rest) ≡ some (behind category names)
unfolding entry_loop
one_walk category [] rest = refl
one_walk category (name ∷ names) rest = elim (Bool-cases (str_eq category name)) [
  | inl same ↦ ground (arith, same, one_found category names rest)
  | inr other ↦ ground (arith, other, one_walk category names rest)
]

-- Without a category the walk visits every test of every category, in the order of the array, and
-- does not leave the array. With one it takes the tests of the first category if that is the one,
-- and otherwise those that stand behind a test of this name in the first category: no other
-- category is ever reached.
pub entry_foreach-array_of :
    (cs : List Category) (category first : Str) (names : List Str)
    → (entry_foreach (array_of cs) none true ≡ some (all_names cs))
      × (entry_foreach (array_of ((first, names) ∷ cs)) (some category) false
          ≡ some (if str_eq category first then names else behind category names))
unfolding entry_foreach entry_loop
entry_foreach-array_of cs category first names = (
  all_walk cs,
  elim (Bool-cases (str_eq category first)) [
    | inl same ↦ ground (arith, same, one_found category names (array_of cs))
    | inr other ↦ ground (arith, other, one_walk category names (array_of cs))
  ],
)

-- Where the program can be opened, all tests of all categories are initialised, and then all of
-- them are attached.
pub tests_ar_register-all :
    (cs : List Category) (dlsym : Str → Bool)
    → tests_ar_register (array_of cs) true dlsym none
      ≡ some (init_pass dlsym (all_names cs) ++ attach_pass (all_names cs))
unfolding tests_ar_register entry_foreach
tests_ar_register-all cs dlsym = ground (arith, all_walk cs)
