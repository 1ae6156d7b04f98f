-- ===== src/Conf/Tests.antt =====
-- A configuration of numbers at which the theorems apply.
use rattle.Base.{
  ℕ, zero, suc, ◌≡◌, refl, true, false, [], ◌∷◌, ◌++◌, Option, none, some, fail, ok, ◌==◌,
  if◌then◌else◌, set, replicate, arith, ◌↔◌, count_below,
}
use rattle.Table.Mask.{is_frag, frag_mask_size}
use rattle.Table.State.{Table, zeroed, exists}
use rattle.Table.Update.{Alloc}
use rattle.Table.Valid.{IsValid, is_frag-replicate}
use rattle.Args.Words.{Str}
use rattle.Args.Sections.{
  Entry, no_usrarg, blank_entry, Sections, no_sections, Memory, compare_entry_name,
  constrains_on_entry, update_on_constrains,
}
use rattle.Args.Merging.{IsSection, put_entry}
use rattle.Table.Find.{search_slot}
use rattle.Conf.Numbers.{
  str, pos, negsuc, num8, check_num, low_bits, atoi, signed_digits, digits_from,
}
use rattle.Conf.Values.{Value, text, number, single, set_value, set_storage, store, list_destroy}
use rattle.Conf.Decls.{
  Libconfig, int_kind, Decl, DeclMemory, decl_use_config_value, decl_use_default_value,
  set_defaults, setting_source, set_from_setting,
}
use rattle.Conf.Parse.{
  lookup_path, decl_step, conf_parse, conf_release, err_none, conf_open, conf_init, conf_args,
}
use rattle.Conf.Bounds.{read_back, check_num-ok_iff}
use rattle.Conf.Release.{filled, conf_parse-failed, held_at, list_destroy-held}
use rattle.Table.Cursor.{live}
use rattle.Conf.Init.{conf_init-path}

-- Setting 0 is the array of 300 and 5, the settings behind it are numbers. The file has the array
-- at "a", 7 at "b" and nothing else.
abbrev lookup_of : Str → Option ℕ
lookup_of [] = none
lookup_of (c ∷ s) = if c == 97 then some 0 else if c == 98 then some 7 else none

abbrev element_of : ℕ → Option ℕ
element_of zero = some 300
element_of (suc zero) = some 5
element_of (suc (suc i)) = none

abbrev sample_file : Libconfig ℕ
sample_file = record {
  lookup = lookup_of;
  is_array = λ s. s == 0;
  setting_length = λ s. 2;
  get_elem = λ s i. element_of i;
  kind = λ s. int_kind;
  get_string = λ s. none;
  get_int = λ s. pos s;
}

abbrev willing : Alloc Value
willing = record {
  head_ok = true;
  head_moved = false;
  mask_ok = true;
  junk = number 0;
  junk_byte = λ i. 0;
}

abbrev memory : DeclMemory
memory = record { creation = willing; grant = λ i. record { slot = willing; copied = true } }

abbrev byte_decl : Decl
byte_decl = record {
  path = 98 ∷ [];
  defval = none;
  value = some (single (number 0));
  type = num8;
  flags = 4;
}

abbrev required_decl : Decl
required_decl = record byte_decl { path = 99 ∷ []; flags = 2 }

-- A byte that its default is too large for.
abbrev default_decl : Decl
default_decl = record byte_decl { path = 99 ∷ []; defval = some ((51 ∷ 48 ∷ 48 ∷ []) ∷ []) }

check_num-ok_iff_example :
    (check_num num8 (negsuc 127) false ≡ ok) ↔ (read_back num8 false (negsuc 127) ≡ negsuc 127)
check_num-ok_iff_example = check_num-ok_iff num8 false (negsuc 127) refl (omega arith)

abbrev byte_filled : Decl
byte_filled = record byte_decl { value = some (single (number 7)) }

byte_step : decl_step sample_file [] none byte_decl memory ≡ some (ok, byte_filled)
unfolding decl_step lookup_path decl_use_config_value set_from_setting setting_source set_value
    set_storage store check_num low_bits
byte_step = refl

conf_parse-failed_example :
    let (s, decls, freed) =
      conf_parse sample_file []
        (λ i. memory)
        ok
        none
        (byte_decl ∷ default_decl ∷ required_decl ∷ []) in
    (s ≡ fail) × (decls ≡ (conf_release (byte_filled ∷ default_decl ∷ [])).0 ++ required_decl ∷ [])
unfolding decl_step lookup_path decl_use_default_value set_defaults set_value set_storage store
    check_num atoi signed_digits digits_from filled
conf_parse-failed_example =
    conf_parse-failed sample_file [] none (λ i. memory) (byte_decl ∷ []) default_decl default_decl
      (required_decl ∷ []) ok ((byte_filled, byte_step), tt) refl refl

-- Two strings.
abbrev strings : Table Value
strings = record {
  head = text (some (97 ∷ [])) ∷ text (some (98 ∷ [])) ∷ [];
  tail = 1;
  size = 2;
  pos = 1;
  last = 1;
  chunk_size = 8;
  chunk_count = 2;
  frag_count = 0;
  frag_mask = 0 ∷ [];
  flags = 1;
  constrains = none;
  on_constrains = none;
  dangling = false;
}

strings-IsValid : IsValid strings
unfolding exists frag_mask_size count_below is_frag
strings-IsValid = record {
  there = refl;
  solid = refl;
  room = refl;
  mask_room = refl;
  bytes = omega arith;
  limit = omega arith;
  last_used = refl;
  last_in = omega arith;
  pos_in = omega arith;
  tail_last = refl;
  holes = refl;
  clear = λ i lo hi. is_frag-replicate 1 i;
}

-- -C -f abc
abbrev given : Entry
given = record {
  name = none;
  sysargs = none;
  usrargs = set (replicate 26 no_usrarg) 5 (record { found = 1; arg = some (97 ∷ 98 ∷ 99 ∷ []) });
}

abbrev conf_section : Table Entry
conf_section = record {
  head = given ∷ [];
  tail = 0;
  size = 1;
  pos = 0;
  last = 0;
  chunk_size = 432;
  chunk_count = 1;
  frag_count = 0;
  frag_mask = 0 ∷ [];
  flags = 1;
  constrains = some constrains_on_entry;
  on_constrains = some update_on_constrains;
  dangling = false;
}

abbrev tables : Sections
tables = set no_sections 2 conf_section

conf_section-IsSection : IsSection conf_section
unfolding exists frag_mask_size count_below is_frag
conf_section-IsSection = record {
  valid = record {
    there = refl;
    solid = refl;
    room = refl;
    mask_room = refl;
    bytes = omega arith;
    limit = omega arith;
    last_used = refl;
    last_in = omega arith;
    pos_in = omega arith;
    tail_last = refl;
    holes = refl;
    clear = λ i lo hi. is_frag-replicate 1 i;
  };
  no_holes = refl;
  compares = refl;
  updates = refl;
}

abbrev args_memory : Memory
args_memory =
    let a : Alloc Entry = record {
      head_ok = true;
      head_moved = false;
      mask_ok = true;
      junk = blank_entry;
      junk_byte = λ i. 0;
    } in
    record { creation = a; insertion = a }

conf_init-path_example : conf_init tables args_memory (100 ∷ []) (λ path. (true, err_none)) ≡ (
  ok,
  set tables 2 (put_entry conf_section 0 (record given { sysargs = some conf_args })),
  97 ∷ 98 ∷ 99 ∷ [],
)
unfolding search_slot compare_entry_name conf_open
conf_init-path_example =
    conf_init-path tables args_memory (100 ∷ []) (97 ∷ 98 ∷ 99 ∷ []) 0 (λ path. (true, err_none))
      conf_section-IsSection refl (λ e. absurd (omega arith)) refl (omega arith) refl

list_destroy-held_example : list_destroy strings str ≡ (ok, zeroed, (97 ∷ []) ∷ (98 ∷ []) ∷ [])
unfolding held_at live is_frag
list_destroy-held_example = list_destroy-held strings strings-IsValid (omega arith)
