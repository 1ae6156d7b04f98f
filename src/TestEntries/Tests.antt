-- ===== src/TestEntries/Tests.antt =====
-- The array of the program (modules/test/entry.c), and walks of it.
use rattle.Base.{◌≡◌, refl, true, false, [], ◌∷◌, none, some}
use rattle.Args.Words.{Str}
use rattle.TestEntries.Entry.{entry_loop, entry_foreach}
use rattle.TestEntries.Categories.{Category, array_of, entry_foreach-array_of}

-- "table", "table_frag", "table_resize".
abbrev table : Str
table = 116 ∷ 97 ∷ 98 ∷ 108 ∷ 101 ∷ []

abbrev table_frag : Str
table_frag = 116 ∷ 97 ∷ 98 ∷ 108 ∷ 101 ∷ 95 ∷ 102 ∷ 114 ∷ 97 ∷ 103 ∷ []

abbrev table_resize : Str
table_resize = 116 ∷ 97 ∷ 98 ∷ 108 ∷ 101 ∷ 95 ∷ 114 ∷ 101 ∷ 115 ∷ 105 ∷ 122 ∷ 101 ∷ []

abbrev table_tests : Category
table_tests = (table, table_frag ∷ table_resize ∷ [])

-- A second category, "conf" with one test.
abbrev conf : Str
conf = 99 ∷ 111 ∷ 110 ∷ 102 ∷ []

abbrev conf_tests : Category
conf_tests = (conf, conf ∷ [])

entry_foreach-array_of_example :
    (entry_foreach (array_of (table_tests ∷ [])) none true ≡ some (table_frag ∷ table_resize ∷ []))
    × (entry_foreach (array_of (table_tests ∷ table_tests ∷ [])) (some table_frag) false
        ≡ some (table_resize ∷ []))
entry_foreach-array_of_example =
    entry_foreach-array_of (table_tests ∷ []) table_frag table (table_frag ∷ table_resize ∷ [])

-- The second category is not found.
second_category_missed :
    entry_foreach (array_of (table_tests ∷ conf_tests ∷ [])) (some conf) false ≡ some []
unfolding entry_foreach entry_loop
second_category_missed = refl
