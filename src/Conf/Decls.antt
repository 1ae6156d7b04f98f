-- ===== src/Conf/Decls.antt =====
-- Filling and releasing one declaration (conf.c). The settings of a configuration file are
-- libconfig's: an interface that the functions take.
use rattle.Base.{
  ℕ, zero, suc, ◌+◌, Bool, not, List, [], ◌∷◌, Option, none, some, Status, fail, ok, ◌==◌, ltb,
  if◌then◌else◌,
}
use rattle.Table.State.{has_flag}
use rattle.Table.Update.{Alloc}
use rattle.Args.Words.{Str}
use rattle.Conf.Numbers.{ℤ, DataType, str, num8, num16, num32, other, is_number, atoi}
use rattle.Conf.Values.{
  Value, Storage, single, many, Source, of_str, of_num, Grant, set_value, unset_value, list_destroy,
  list_create, fl_list,
}

-- config_setting_type(): the two kinds that conf.c asks for, and all others.
pub data Kind : Type 0 where
  string_kind int_kind other_kind : Kind

-- What conf.c calls of libconfig, over the type of a setting.
pub record Libconfig (S : Type 0) : Type 0 where
  pub lookup : Str → Option S
  pub is_array : S → Bool
  pub setting_length : S → ℕ
  pub get_elem : S → ℕ → Option S
  pub kind : S → Kind
  pub get_string : S → Option Str
  pub get_int : S → ℤ

-- ratt_conf_t. A list of declarations ends where `path` is NULL in C.
pub record Decl : Type 0 where
  pub path : Str
  pub defval : Option (List Str)
  pub value : Option Storage
  pub type : DataType
  pub flags : ℕ

-- What the allocator answers while one declaration is filled: to the creation of a list, and to
-- each set_value().
pub record DeclMemory : Type 0 where
  pub creation : Alloc Value
  pub grant : ℕ → Grant

-- list_create() on what `value` points to.
unfoldable pub create_storage :
    Option Storage → ℕ → DataType → Alloc Value → Status × Option Storage
create_storage none cnt type a = (fail, none)
create_storage (some (single v)) cnt type a = (fail, some (single v))
create_storage (some (many t)) cnt type a =
    let (s, t') = list_create t cnt type a in (s, some (many t'))

abbrev pub default_source : DataType → Str → Source
default_source type s = if is_number type then of_num (atoi s) else of_str s

-- The loop over the defaults, from the `i`-th on.
unfoldable pub set_defaults :
    Option Storage → DataType → ℕ → (ℕ → Grant) → ℕ → List Str → Status × Option Storage
set_defaults value type flags grant i [] = (ok, value)
set_defaults value type flags grant i (s ∷ ss) =
    let (done, value') = set_value value (some (default_source type s)) type flags (grant i) in
    elim done [ ok ↦ set_defaults value' type flags grant (i + 1) ss | fail ↦ (fail, value') ]

abbrev pub defaults_of : Option (List Str) → List Str
defaults_of none = []
defaults_of (some ss) = ss

unfoldable pub decl_use_default_value : Decl → DeclMemory → Status × Decl
decl_use_default_value decl mem =
    let (made, value) =
      if has_flag decl.flags fl_list
      then create_storage decl.value 0 decl.type mem.creation
      else (ok, decl.value) in
    let (s, value') =
      set_defaults value decl.type decl.flags mem.grant 0 (defaults_of decl.defval) in
    elim made [
      | fail ↦ (fail, record decl { value = value })
      | ok ↦ (s, record decl { value = value' })
    ]

module _ {S : Type 0} (lib : Libconfig S) where
  -- The source of a setting's value, if it is of the kind that the type asks for.
  unfoldable pub setting_source : DataType → S → Option Source
  setting_source str sett = elim (lib.kind sett) [
    | string_kind ↦ elim (lib.get_string sett) [ some s ↦ some (of_str s) | none ↦ none ]
    | int_kind ↦ none
    | other_kind ↦ none
  ]
  setting_source num8 sett = elim (lib.kind sett) [
    | int_kind ↦ some (of_num (lib.get_int sett))
    | _ ↦ none
  ]
  setting_source num16 sett = elim (lib.kind sett) [
    | int_kind ↦ some (of_num (lib.get_int sett))
    | _ ↦ none
  ]
  setting_source num32 sett = elim (lib.kind sett) [
    | int_kind ↦ some (of_num (lib.get_int sett))
    | _ ↦ none
  ]
  setting_source other sett = none

  -- The loop over the elements, from the `i`-th on; `fuel` bounds its rounds. The result of
  -- set_value() is not looked at. The number is how many elements were there.
  unfoldable pub set_elements :
      ℕ → S → DataType → ℕ → (ℕ → Grant) → ℕ → Option Storage → Status × ℕ × Option Storage
  set_elements zero sett type flags grant i value = (ok, i, value)
  set_elements (suc fuel) sett type flags grant i value = elim (lib.get_elem sett i) [
    | none ↦ (ok, i, value)
    | some elem ↦ elim (setting_source type elem) [
      | none ↦ (fail, i, value)
      | some src ↦
          set_elements fuel sett type flags grant (i + 1)
            (set_value value (some src) type flags (grant i)).1
    ]
  ]

  unfoldable pub decl_use_config_list : Decl → S → DeclMemory → Status × Decl
  decl_use_config_list decl sett mem =
      let len = lib.setting_length sett in
      let (made, value) = create_storage decl.value len decl.type mem.creation in
      let (s, i, value') = set_elements (suc len) sett decl.type decl.flags mem.grant 0 value in
      if len == 0 then (fail, decl) else elim made [
        | fail ↦ (fail, record decl { value = value })
        | ok ↦ elim s [
          | fail ↦ (fail, record decl { value = value' })
          | ok ↦ (if ltb i len then fail else ok, record decl { value = value' })
        ]
      ]

  -- The part of decl_use_config_value() that sets one value.
  unfoldable pub set_from_setting : Decl → Option Storage → S → Grant → Status × Decl
  set_from_setting decl value sett g = elim (setting_source decl.type sett) [
    | none ↦ (fail, record decl { value = value })
    | some src ↦
        let (s, value') = set_value value (some src) decl.type decl.flags g in
        (s, record decl { value = value' })
  ]

  unfoldable pub decl_use_config_value : Decl → S → DeclMemory → Status × Decl
  decl_use_config_value decl sett mem =
      let (made, value) = create_storage decl.value 1 decl.type mem.creation in
      if not (has_flag decl.flags fl_list)
      then set_from_setting decl decl.value sett (mem.grant 0)
      else if lib.is_array sett
      then decl_use_config_list decl sett mem
      else elim made [
        | fail ↦ (fail, record decl { value = value })
        | ok ↦ set_from_setting decl value sett (mem.grant 0)
      ]

-- The strings that are freed come second.
unfoldable pub release_storage : Storage → DataType → ℕ → Storage × List Str
release_storage (many t) type flags =
    let (s, t', freed) = list_destroy t type in
    if has_flag flags fl_list then (many t', freed) else (many t, [])
release_storage (single v) type flags =
    let (s, v', freed) = unset_value v type in
    if has_flag flags fl_list then (single v, []) else (single v', freed)

unfoldable pub decl_release : Decl → Decl × List Str
decl_release decl = elim decl.value [
  | none ↦ (decl, [])
  | some storage ↦
      let (storage', freed) = release_storage storage decl.type decl.flags in
      (record decl { value = some storage' }, freed)
]
