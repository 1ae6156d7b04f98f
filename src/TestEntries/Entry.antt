-- ===== src/TestEntries/Entry.antt =====
-- The walks of the array of test names (modules/test/entry.c). An element of the array is a
-- string, or NULL, which is `none`.
use rattle.Base.{ℕ, ◌-◌, Bool, true, false, List, [], ◌∷◌, ◌++◌, Option, none, some, if◌then◌else◌}
use rattle.Args.Words.{Str, str_eq}
use rattle.Module.Names.{cut}

abbrev pub matches : Option Str → Str → Bool
matches none entry = true
matches (some category) entry = str_eq category entry

abbrev pub name_then : Str → Option (List Str) → Option (List Str)
name_then entry none = none
name_then entry (some names) = some (entry ∷ names)

-- The loop, with `found` as its third argument: the names that the callback is called with, in
-- that order; `none` is a read behind the end of the array.
unfoldable pub entry_loop : Option Str → Bool → Bool → List (Option Str) → Option (List Str)
entry_loop category all_of_them found [] = none
entry_loop category all_of_them false (none ∷ rest) = some []
entry_loop category all_of_them false (some entry ∷ rest) =
    entry_loop category all_of_them (matches category entry) rest
entry_loop category all_of_them true (none ∷ rest) =
    let more = entry_loop category all_of_them false rest in if all_of_them then more else some []
entry_loop category all_of_them true (some entry ∷ rest) =
    name_then entry (entry_loop category all_of_them true rest)

unfoldable pub entry_foreach : List (Option Str) → Option Str → Bool → Option (List Str)
entry_foreach entries category all_of_them = entry_loop category all_of_them false entries

-- What a pass does: the function that it finds under a name is called, the test is attached.
pub data TestCall : Type 0 where
  init_called attached : Str → TestCall

-- FUNNAMEMAX, and "test_".
abbrev pub fun_name_max : ℕ
fun_name_max = 128

abbrev pub test_prefix : Str
test_prefix = 116 ∷ 101 ∷ 115 ∷ 116 ∷ 95 ∷ []

abbrev pub init_name : Str → Str
init_name entry = cut (fun_name_max - 1) (test_prefix ++ entry)

-- `dlsym` says whether the program has a function of a name.
unfoldable pub entry_init : (Str → Bool) → Str → List TestCall
entry_init dlsym entry = if dlsym (init_name entry) then init_called (init_name entry) ∷ [] else []

unfoldable pub init_pass : (Str → Bool) → List Str → List TestCall
init_pass dlsym [] = []
init_pass dlsym (entry ∷ rest) = entry_init dlsym entry ++ init_pass dlsym rest

unfoldable pub attach_pass : List Str → List TestCall
attach_pass [] = []
attach_pass (entry ∷ rest) = attached entry ∷ attach_pass rest

abbrev pub is_null : Option Str → Bool
is_null none = true
is_null (some _) = false

-- The second argument says whether dlopen() succeeds.
unfoldable pub tests_ar_register :
    List (Option Str) → Bool → (Str → Bool) → Option Str → Option (List TestCall)
tests_ar_register entries opened dlsym category =
    let names = entry_foreach entries category (is_null category) in
    if opened
    then (elim names [
      | none ↦ none
      | some visited ↦ some (init_pass dlsym visited ++ attach_pass visited)
    ])
    else some []
