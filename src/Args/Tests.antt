-- ===== src/Args/Tests.antt =====
-- Command lines and sections at which the theorems apply.
use rattle.Base.{
  ℕ, ◌≡◌, refl, true, false, List, [], ◌∷◌, none, some, fail, ok, set, replicate, arith,
  count_below, inc_size,
}
use rattle.Table.Mask.{is_frag, frag_mask_size}
use rattle.Table.State.{
  Table, exists, isempty, current, first, fragmented, set_constrains, set_on_constrains,
}
use rattle.Table.Walk.{
  skipped, pos_isfrag, next_from, next, first_next, search_from, table_search, satisfy_constrains,
}
use rattle.Table.Update.{
  Alloc, create, insert, write_chunk, get_frag_first, get_tail_next, take_tail_next,
  resolve_constrains,
}
use rattle.Table.Valid.{is_frag-replicate}
use rattle.Table.Find.{search_slot, find_first}
use rattle.Table.Cursor.{live}
use rattle.Args.Words.{Str, sec_main, word_of}
use rattle.Args.Sections.{
  SysArg, Entry, no_usrarg, blank_entry, Sections, no_sections, pointer_to_section,
  compare_entry_name, constrains_on_entry, merge_usrargs, update_on_constrains, Memory,
  create_section, ready_section, occurrence, insert_args,
}
use rattle.Args.Parse.{parse_from, parse_args}
use rattle.Args.Register.{got, bind_args, bind_args_from, args_register, bind_option, bind_arg}
use rattle.Args.Grammar.{
  Use, Group, print_uses, print_groups, insert_uses, insert_groups, parse_args-print_groups,
}
use rattle.Args.Binding.{all_acceptable, all_effects, bind_args_from-acceptable}
use rattle.Args.Merging.{IsSection, slot_of, put_entry, args_register-known}

abbrev memory : Memory
memory =
    let a : Alloc Entry = record {
      head_ok = true;
      head_moved = false;
      mask_ok = true;
      junk = blank_entry;
      junk_byte = λ i. 0;
    } in
    record { creation = a; insertion = a }

-- "abc"
abbrev abc : Str
abc = 97 ∷ 98 ∷ 99 ∷ []

-- -v -C -f abc -V main -x, as words.
abbrev verbose : Use
verbose = record { letter = 118; argument = none }

abbrev conf_file : Group
conf_file = record {
  section = 67;
  title = none;
  uses = record { letter = 102; argument = some abc } ∷ [];
}

abbrev named : Group
named = record {
  section = 86;
  title = some abc;
  uses = record { letter = 120; argument = none } ∷ [];
}

-- The words themselves, with "abc" for each name and argument.
printed_line : print_uses (verbose ∷ []) (print_groups (conf_file ∷ named ∷ [])) ≡ (
    (45 ∷ 118 ∷ [])
    ∷ (45 ∷ 67 ∷ [])
    ∷ (45 ∷ 102 ∷ [])
    ∷ abc
    ∷ (45 ∷ 86 ∷ [])
    ∷ abc
    ∷ (45 ∷ 120 ∷ [])
    ∷ [])
unfolding print_uses print_groups
printed_line = refl

parse_args-print_groups_example :
    let (j, done) = insert_uses (λ i. memory) 1 sec_main none no_sections (verbose ∷ []) in
    parse_args
      (λ i. memory)
      no_sections
      (abc ∷ print_uses (verbose ∷ []) (print_groups (conf_file ∷ named ∷ [])))
    ≡ (ok, insert_groups (λ i. memory) j done (conf_file ∷ named ∷ []))
parse_args-print_groups_example =
    parse_args-print_groups (λ i. memory) abc (verbose ∷ []) (conf_file ∷ named ∷ []) no_sections
      refl refl

-- A word that is no option ends the parser with an error.
parse_args_bad_word : (parse_args (λ i. memory) no_sections (abc ∷ abc ∷ [])).0 ≡ fail
unfolding parse_args parse_from word_of
parse_args_bad_word = refl

-- -f was given twice for the entry without a name, with "abc".
abbrev given : Entry
given = record {
  name = none;
  sysargs = none;
  usrargs = set (replicate 26 no_usrarg) 5 (record { found = 2; arg = some abc });
}

abbrev conf_section : Table Entry
conf_section = record {
  head = given ∷ [];
  tail = 0;
  size = 1;
  pos = 0;
  last = 0;
  chunk_size = 432;
  chunk_count = 1;
  frag_count = 0;
  frag_mask = 0 ∷ [];
  flags = 1;
  constrains = some constrains_on_entry;
  on_constrains = some update_on_constrains;
  dangling = false;
}

abbrev conf_sections : Sections
conf_sections = set no_sections 2 conf_section

conf_section-IsSection : IsSection conf_section
unfolding exists frag_mask_size count_below is_frag
conf_section-IsSection = record {
  valid = record {
    there = refl;
    solid = refl;
    room = refl;
    mask_room = refl;
    bytes = omega arith;
    limit = omega arith;
    last_used = refl;
    last_in = omega arith;
    pos_in = omega arith;
    tail_last = refl;
    holes = refl;
    clear = λ i lo hi. is_frag-replicate 1 i;
  };
  no_holes = refl;
  compares = refl;
  updates = refl;
}

-- Two insertions make that section, from nothing.
two_occurrences :
    let once = (insert_args no_sections 67 none 102 none memory).1 in
    (insert_args once 67 none 102 (some abc) memory) ≡ (ok, conf_sections)
unfolding insert_args pointer_to_section ready_section create_section exists create frag_mask_size
    insert write_chunk satisfy_constrains table_search current isempty search_from first_next first
    next next_from skipped fragmented pos_isfrag is_frag get_frag_first get_tail_next take_tail_next
    inc_size resolve_constrains constrains_on_entry compare_entry_name update_on_constrains
    merge_usrargs occurrence set_constrains set_on_constrains
two_occurrences = refl

-- The registrant of the configuration: -f with an argument, which must not be given twice.
abbrev conf_args : ℕ → List SysArg
conf_args flags = record { option = 102; counts = false; get = some (λ s. ok); flags = flags } ∷ []

bind_args_from-acceptable_example :
    ((all_acceptable given (conf_args 2) ≡ true)
      → bind_args_from given (conf_args 2) ≡ (ok, all_effects given (conf_args 2)))
    × ((all_acceptable given (conf_args 2) ≡ false) → (bind_args_from given (conf_args 2)).0 ≡ fail)
bind_args_from-acceptable_example = bind_args_from-acceptable given (conf_args 2)

-- Twice is refused where the registrant says so.
twice_refused : (bind_args given (some (conf_args 2))).0 ≡ fail
unfolding bind_args bind_args_from bind_option
twice_refused = refl

slot_of-given : slot_of conf_section none ≡ some 0
unfolding search_slot compare_entry_name
slot_of-given = refl

slot_of-abc : slot_of conf_section (some abc) ≡ none
unfolding search_slot compare_entry_name find_first live is_frag
slot_of-abc = refl

third : pointer_to_section 67 ≡ some 2
unfolding pointer_to_section
third = refl

args_register-known_example : args_register conf_sections 67 none (some (conf_args 0)) memory ≡ (
  ok,
  set conf_sections 2 (put_entry conf_section 0 (record given { sysargs = some (conf_args 0) })),
  got 102 abc ∷ [],
)
unfolding bind_args bind_args_from bind_option bind_arg
args_register-known_example =
    args_register-known conf_sections 67 2 third conf_section-IsSection none 0 (conf_args 0) memory
      slot_of-given
