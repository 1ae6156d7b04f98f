-- ===== src/Conf/Faults.antt =====
-- The verdict of conf_parse() and decl_use_config_list(), right and wrong.
use rattle.Base.{
  ℕ, zero, suc, ◌+◌, ◌<◌, ◌≡◌, ◌≢◌, refl, true, false, List, [], ◌∷◌, ◌++◌, Option, none, some,
  Status, ok, ◌==◌, if◌then◌else◌, arith, ap, ◌∙◌, length,
}
use rattle.Args.Words.{Str}
use rattle.Conf.Numbers.{DataType, str, num8, num16, num32, other, is_number}
use rattle.Conf.Values.{Storage, Grant, of_num}
use rattle.Conf.Decls.{
  Libconfig, int_kind, Decl, DeclMemory, create_storage, set_elements, setting_source,
  decl_use_config_list,
}
use rattle.Conf.Parse.{decl_step, parse_decls, parent_too_long, conf_parse}

-- Every declaration of the list, from the `i`-th on, is filled without an error.
abbrev pub AllFilled :
    {S : Type 0} → Libconfig S → List ℕ → Option Str → (ℕ → DeclMemory) → ℕ → List Decl → Type 0
AllFilled lib beyond parent mem i [] = Unit {0}
AllFilled lib beyond parent mem i (d ∷ ds) =
    ((d' : Decl) × (decl_step lib beyond parent d (mem i) ≡ some (ok, d')))
    × AllFilled lib beyond parent mem (i + 1) ds

module _ {S : Type 0} (lib : Libconfig S) (beyond : List ℕ) (parent : Option Str)
    (mem : ℕ → DeclMemory) where
  parse_decls-broken :
      (before : List Decl) (d : Decl) (after : List Decl) (i : ℕ) (retval : Status)
      → AllFilled lib beyond parent mem i before
      → decl_step lib beyond parent d (mem (i + length before)) ≡ none
      → (parse_decls lib beyond mem parent i retval (before ++ d ∷ after)).0
        ≡ (if length before == 0 then retval else ok)
  unfolding parse_decls
  parse_decls-broken [] d after i retval fs e =
      let here : decl_step lib beyond parent d (mem i) ≡ none =
        ap (λ k. decl_step lib beyond parent d (mem k)) (omega arith) ∙ e in
      ground (arith, here)
  parse_decls-broken (b ∷ bs) d after i retval fs e =
      let there : decl_step lib beyond parent d (mem (i + 1 + length bs)) ≡ none =
        ap (λ k. decl_step lib beyond parent d (mem k)) (omega arith) ∙ e in
      let rest = parse_decls-broken bs d after (i + 1) ok fs.1 there in ground (arith, fs.0.1, rest)

  -- A declaration that is mandatory and has no setting, or whose path is too long, behind at
  -- least one that was filled: conf_parse() reports success, and releases nothing.
  pub conf_parse-missing :
      (b : Decl) (before : List Decl) (d : Decl) (after : List Decl) (junk : Status)
      → AllFilled lib beyond parent mem 0 (b ∷ before)
      → decl_step lib beyond parent d (mem (1 + length before)) ≡ none
      → parent_too_long parent ≡ false
      → let (s, decls, freed) = conf_parse lib beyond mem junk parent (b ∷ before ++ d ∷ after) in
        (s ≡ ok) × (freed ≡ [])
  unfolding conf_parse
  conf_parse-missing b before d after junk fs e short =
      let verdict =
        parse_decls-broken (b ∷ before) d after 0 junk fs
          (ap (λ k. decl_step lib beyond parent d (mem k)) (omega arith) ∙ e) in
      let good : (parse_decls lib beyond mem parent 0 junk (b ∷ before ++ d ∷ after)).0 ≡ ok =
        verdict ∙ ground arith in
      ground (arith, good, short)

-- config_setting_get_elem() as libconfig documents it: the elements below the length, and NULL
-- behind them.
abbrev pub Elements : {S : Type 0} → Libconfig S → S → Type 0
Elements {S} lib sett =
    ((i : ℕ)
      → i < lib.setting_length sett
      → (e : S) × (lib.get_elem sett i ≡ some e) × (lib.kind e ≡ int_kind))
    × (lib.get_elem sett (lib.setting_length sett) ≡ none)

module _ {S : Type 0} (lib : Libconfig S) (sett : S) (elements : Elements lib sett) where
  int_source :
      (type : DataType) (e : S)
      → is_number type ≡ true
      → lib.kind e ≡ int_kind
      → setting_source lib type e ≡ some (of_num (lib.get_int e))
  unfolding setting_source
  int_source num8 e t k = ground (arith, k)
  int_source num16 e t k = ground (arith, k)
  int_source num32 e t k = ground (arith, k)
  int_source str e t k = absurd (cc)
  int_source other e t k = absurd (cc)

  -- The loop passes through all elements, within its rounds.
  set_elements-all :
      (fuel i : ℕ) (type : DataType) (flags : ℕ) (grant : ℕ → Grant) (value : Option Storage)
      → is_number type ≡ true
      → i + fuel ≡ lib.setting_length sett
      → let (s, n, value') = set_elements lib (suc fuel) sett type flags grant i value in
        (s ≡ ok) × (n ≡ lib.setting_length sett)
  unfolding set_elements
  set_elements-all zero i type flags grant value t e =
      let last : lib.get_elem sett i ≡ none = ap (lib.get_elem sett) (omega arith) ∙ elements.1 in
      simp (last, set_elements) (refl, omega arith)
  set_elements-all (suc fuel) i type flags grant value t e =
      let (elem, got, int) = elements.0 i (omega arith) in
      let src = int_source type elem t int in
      simp (got, src, set_elements)
        (set_elements-all fuel (i + 1) type flags grant _ t (omega arith))

  -- An array of numbers is accepted as a whole, whatever set_value() says to its elements: those
  -- out of bounds, and those that memory does not suffice for, are missing from the list.
  pub decl_use_config_list-accepts :
      (decl : Decl) (mem : DeclMemory)
      → is_number decl.type ≡ true
      → lib.setting_length sett ≢ 0
      → (create_storage decl.value (lib.setting_length sett) decl.type mem.creation).0 ≡ ok
      → (decl_use_config_list lib decl sett mem).0 ≡ ok
  unfolding decl_use_config_list
  decl_use_config_list-accepts decl mem t ne made =
      let value = (create_storage decl.value (lib.setting_length sett) decl.type mem.creation).1 in
      let (s, n) =
        set_elements-all (lib.setting_length sett) 0 decl.type decl.flags mem.grant value t
          (omega arith) in
      ground (arith, made, s, n)
