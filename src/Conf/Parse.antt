-- ===== src/Conf/Parse.antt =====
-- conf_parse(), the releases, and opening the configuration (conf.c).
use rattle.Base.{
  ℕ, zero, suc, ◌+◌, ◌-◌, Bool, true, false, List, [], ◌∷◌, ◌++◌, Option, none, some, Status, fail,
  ok, ◌==◌, ltb, leb, if◌then◌else◌, length,
}
use rattle.Table.State.{has_flag}
use rattle.Args.Words.{Str}
use rattle.Args.Sections.{SysArg, Sections, Memory}
use rattle.Args.Register.{Effect, got, counted, args_register, args_unregister}
use rattle.Conf.Values.{fl_required}
use rattle.Conf.Decls.{
  Libconfig, Decl, DeclMemory, decl_use_default_value, decl_use_config_value, decl_release,
}

-- CONF_SETTPATHMAX
abbrev pub path_size : ℕ
path_size = 128

-- strncpy(dst, s, n): the n bytes that it writes.
unfoldable pub padded : ℕ → Str → Str
padded zero s = []
padded (suc n) [] = 0 ∷ padded n []
padded (suc n) (c ∷ s) = c ∷ padded n s

-- The string that starts here and ends at the first zero.
unfoldable pub up_to_zero : List ℕ → Str
up_to_zero [] = []
up_to_zero (c ∷ s) = let rest = up_to_zero s in if c == 0 then [] else c ∷ rest

-- `settpath`: all of its bytes are written for each declaration.
unfoldable pub path_buffer : Str → Str → List ℕ
path_buffer parent path = parent ++ 47 ∷ padded (path_size - 1 - length parent) path

-- The string that config_lookup() is given; `beyond` is what follows the buffer in memory.
unfoldable pub lookup_path : Option Str → Str → List ℕ → Str
lookup_path none path beyond = path
lookup_path (some parent) path beyond = up_to_zero (path_buffer parent path ++ beyond)

abbrev pub too_long : Option Str → Str → Bool
too_long none path = false
too_long (some parent) path = ltb (path_size - 1 - length parent) (length path)

-- conf_release_reverse() from the declaration at the given place down to the first; the strings
-- that are freed, in that order.
unfoldable pub conf_release_reverse : ℕ → List Decl → List Decl × List Str
conf_release_reverse n [] = ([], [])
conf_release_reverse zero (d ∷ ds) = let (d', freed) = decl_release d in (d' ∷ ds, freed)
conf_release_reverse (suc n) (d ∷ ds) =
    let (ds', later) = conf_release_reverse n ds in
    let (d', freed) = decl_release d in (d' ∷ ds', later ++ freed)

unfoldable pub conf_release : List Decl → List Decl × List Str
conf_release [] = ([], [])
conf_release (d ∷ ds) =
    let (d', freed) = decl_release d in
    let (ds', later) = conf_release ds in (d' ∷ ds', freed ++ later)

abbrev pub parent_too_long : Option Str → Bool
parent_too_long none = false
parent_too_long (some parent) = leb path_size (length parent)

module _ {S : Type 0} (lib : Libconfig S) (beyond : List ℕ) where
  -- One round of the loop; `none` is a `break` that leaves `retval` alone.
  unfoldable pub decl_step : Option Str → Decl → DeclMemory → Option (Status × Decl)
  decl_step parent decl mem =
      if too_long parent decl.path
      then none
      else elim (lib.lookup (lookup_path parent decl.path beyond)) [
        | none ↦
            if has_flag decl.flags fl_required then none else some (decl_use_default_value decl mem)
        | some sett ↦ some (decl_use_config_value lib decl sett mem)
      ]

  -- The loop, from the `i`-th declaration on: `retval`, the place where it ended, and the
  -- declarations.
  unfoldable pub parse_decls :
      (ℕ → DeclMemory) → Option Str → ℕ → Status → List Decl → Status × ℕ × List Decl
  parse_decls mem parent i retval [] = (retval, i, [])
  parse_decls mem parent i retval (d ∷ ds) =
      let (s, j, ds') = parse_decls mem parent (i + 1) ok ds in
      elim (decl_step parent d (mem i)) [
        | none ↦ (retval, i, d ∷ ds)
        | some r ↦ elim r.0 [ ok ↦ (s, j, r.1 ∷ ds') | fail ↦ (fail, i, r.1 ∷ ds) ]
      ]

  -- `junk` is what `retval` holds before it is set. The release of the element that ends the
  -- declarations is left out: it is reached only with `junk`, where there is no declaration.
  unfoldable pub conf_parse :
      (ℕ → DeclMemory) → Status → Option Str → List Decl → Status × List Decl × List Str
  conf_parse mem junk parent decls =
      let (retval, j, decls') = parse_decls mem parent 0 junk decls in
      let (released, freed) = conf_release_reverse j decls' in
      if parent_too_long parent
      then (fail, decls, [])
      else elim retval [ ok ↦ (ok, decls', []) | fail ↦ (fail, released, freed) ]

-- config_error_t
pub data ConfigError : Type 0 where
  err_none err_file_io err_parse : ConfigError

-- conf_open(): whether the read succeeded, and the error it left.
unfoldable pub conf_open : Bool × ConfigError → Status
conf_open (true, err) = ok
conf_open (false, err_none) = ok
conf_open (false, err_file_io) = fail
conf_open (false, err_parse) = fail

-- conf_open_builtin(), which reads a string.
unfoldable pub conf_open_builtin : Bool × ConfigError → Status
conf_open_builtin (true, err) = ok
conf_open_builtin (false, err_none) = ok
conf_open_builtin (false, err_file_io) = fail
conf_open_builtin (false, err_parse) = fail

-- PATH_MAX of limits.h.
abbrev pub path_max : ℕ
path_max = 4096

unfoldable pub get_args_conf_file : Str → Status
get_args_conf_file path = if leb path_max (length path) then fail else ok

-- l_args
abbrev pub conf_args : List SysArg
conf_args = record { option = 102; counts = false; get = some get_args_conf_file; flags = 0 } ∷ []

-- l_args_conf_file: the last path that get_args_conf_file() accepted.
unfoldable pub file_after : Str → List Effect → Str
file_after file [] = file
file_after file (got option path ∷ es) =
    let rest = file_after path es in
    let old = file_after file es in elim (get_args_conf_file path) [ ok ↦ rest | fail ↦ old ]
file_after file (counted option n ∷ es) = file_after file es

-- CONF_ARGSSEC_ID
abbrev pub conf_section_id : ℕ
conf_section_id = 67

-- The file that is read comes last. `read` is config_read_file() with config_error_type().
unfoldable pub conf_init :
    Sections → Memory → Str → (Str → Bool × ConfigError) → Status × Sections × Str
conf_init tables mem file read =
    let (s, tables', effects) = args_register tables conf_section_id none (some conf_args) mem in
    let file' = file_after file effects in
    let (s', tables'') = args_unregister tables' conf_section_id none in
    elim s [
      | fail ↦ (fail, tables', file')
      | ok ↦ elim (conf_open (read file')) [
        | ok ↦ (ok, tables', file')
        | fail ↦ (fail, tables'', file')
      ]
    ]

unfoldable pub conf_fini : Sections → Sections
conf_fini tables = (args_unregister tables conf_section_id none).1
