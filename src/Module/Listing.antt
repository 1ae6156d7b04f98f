-- ===== src/Module/Listing.antt =====
-- load_modules(), sort_modules() and show_modules() (src/module.c).
use rattle.Base.{
  ℕ, zero, suc, ◌-◌, Bool, true, false, ◌&&◌, ◌||◌, List, [], ◌∷◌, ◌++◌, Option, none, some, Status,
  fail, ok, ◌==◌, ltb, if◌then◌else◌,
}
use rattle.Table.State.{Table}
use rattle.Table.Walk.{foreach, foreach_end}
use rattle.Args.Words.{Str}
use rattle.Conf.Parse.{path_max}
use rattle.Module.Names.{cut}
use rattle.Module.Registry.{Entry, Registry, entry_at}

-- One entry that readdir() answers: d_name, and whether d_type is DT_REG.
pub record DirEntry : Type 0 where
  pub name : Str
  pub regular : Bool

-- The path that dlopen() is given, with the character '/' between.
unfoldable pub so_file : Str → Str → Str
so_file path name = cut (path_max - 1) (path ++ 47 ∷ name)

-- The loop over the entries: what dlopen() is called with. Nothing is done with a handle.
unfoldable pub open_entries : Str → List DirEntry → List Str
open_entries path [] = []
open_entries path (e ∷ es) =
    if e.regular then so_file path e.name ∷ open_entries path es else open_entries path es

-- `opendir` answers the entries of a directory, unless it cannot be opened.
unfoldable pub load_modules_from_path : (Str → Option (List DirEntry)) → Str → Status × List Str
load_modules_from_path opendir path = elim (opendir path) [
  | none ↦ (fail, [])
  | some es ↦ (ok, open_entries path es)
]

unfoldable pub load_from_each : (Str → Option (List DirEntry)) → List Str → List Str
load_from_each opendir [] = []
load_from_each opendir (path ∷ paths) =
    (load_modules_from_path opendir path).1 ++ load_from_each opendir paths

-- The first argument is l_args_module_path, the last one the strings of l_conf_modpath.
unfoldable pub load_modules :
    Option Str → (Str → Option (List DirEntry)) → List Str → Status × List Str
load_modules none opendir modpath = (ok, load_from_each opendir modpath)
load_modules (some path) opendir modpath = (ok, (load_modules_from_path opendir path).1)

-- strcmp(s, t) <= 0, on bytes.
unfoldable pub str_leb : Str → Str → Bool
str_leb [] t = true
str_leb (c ∷ s) [] = false
str_leb (c ∷ s) (d ∷ t) = ltb c d || (c == d && str_leb s t)

abbrev pub name_at : Table Entry → ℕ → Str
name_at t p = (entry_at t p).about.name

-- sort_module_name(a, b) <= 0, for pointers to slots.
unfoldable pub sort_module_name : Table Entry → ℕ → ℕ → Bool
sort_module_name t a b = str_leb (name_at t a) (name_at t b)

-- qsort() by sort_module_name(). Where two names are the same C leaves the order open.
unfoldable pub place : Table Entry → ℕ → List ℕ → List ℕ
place t a [] = a ∷ []
place t a (b ∷ bs) = if sort_module_name t a b then a ∷ b ∷ bs else b ∷ place t a bs

unfoldable pub qsort : Table Entry → List ℕ → List ℕ
qsort t [] = []
qsort t (a ∷ rest) = place t a (qsort t rest)

abbrev pub take {ℓ} : {A : Type ℓ} → ℕ → List A → List A
take zero xs = []
take (suc n) [] = []
take (suc n) (x ∷ xs) = x ∷ take n xs

abbrev pub drop {ℓ} : {A : Type ℓ} → ℕ → List A → List A
drop zero xs = xs
drop (suc n) [] = []
drop (suc n) (x ∷ xs) = drop n xs

-- The pointers in front of the NULL that ends the list: the first `cnt` of those that the walk
-- has written are sorted. The last argument says whether calloc() succeeds.
unfoldable pub sort_modules : Registry → Bool → Option (List ℕ) × Registry
sort_modules r calloc_ok =
    let t = r.modtab in
    let cnt = t.chunk_count in
    let walked = record r { modtab = record t { pos = foreach_end t } } in
    if cnt == 0
    then (none, r)
    else if calloc_ok
    then (some (qsort t (take cnt (foreach t)) ++ drop cnt (foreach t)), walked)
    else (none, r)

-- The entries that are printed below the header line, by their slots.
unfoldable pub show_modules : Registry → Bool → List ℕ × Registry
show_modules r calloc_ok =
    let (list, r') = sort_modules r calloc_ok in
    elim list [ none ↦ ([], r') | some entries ↦ (entries, r') ]
