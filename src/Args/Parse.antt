-- ===== src/Args/Parse.antt =====
-- parse_args() and args_init(): the words of the command line, from the second on.
use rattle.Base.{ℕ, ◌+◌, true, false, List, [], ◌∷◌, Option, none, some, Status, fail, ok, ◌==◌}
use rattle.Args.Words.{
  Str, word_of, isalnum, first_byte, dash, sec_main, start_of_section, found_option, end_of_parsing,
  invalid_option, not_option,
}
use rattle.Args.Sections.{Sections, Memory, insert_args}

-- What the loop carries: the place in argv, the section and the name that were read last, and the
-- tables. The result of an insertion is not looked at.
module _ (mem : ℕ → Memory) where
  unfoldable pub parse_from : ℕ → ℕ → Option Str → Sections → List Str → Status × Sections
  parse_from i sec name tables [] = (ok, tables)
  parse_from i sec name tables (arg ∷ []) = elim (word_of arg) [
    | start_of_section c ↦ (ok, tables)
    | found_option c ↦ (ok, (insert_args tables sec name c none (mem i)).1)
    | end_of_parsing ↦ (ok, tables)
    | invalid_option c ↦ (fail, tables)
    | not_option ↦ (fail, tables)
  ]
  parse_from i sec name tables (arg ∷ next ∷ rest) = elim (word_of arg) [
    | start_of_section c ↦ elim (isalnum (first_byte next)) [
      | true ↦ parse_from (i + 2) c (some next) tables rest
      | false ↦ parse_from (i + 1) c none tables (next ∷ rest)
    ]
    | found_option c ↦ elim (first_byte next == dash) [
      | false ↦
          parse_from (i + 2) sec name (insert_args tables sec name c (some next) (mem i)).1 rest
      | true ↦
          parse_from (i + 1) sec name (insert_args tables sec name c none (mem i)).1 (next ∷ rest)
    ]
    | end_of_parsing ↦ (ok, tables)
    | invalid_option c ↦ (fail, tables)
    | not_option ↦ (fail, tables)
  ]

  unfoldable pub parse_args : Sections → List Str → Status × Sections
  parse_args tables [] = (ok, tables)
  parse_args tables (program ∷ argv) = parse_from 1 sec_main none tables argv

  -- Without arguments, `count` is 0.
  unfoldable pub args_init : Sections → List Str → Status × Sections
  args_init tables [] = (ok, tables)
  args_init tables (program ∷ argv) = parse_args tables (program ∷ argv)
