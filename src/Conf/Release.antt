-- ===== src/Conf/Release.antt =====
-- What is given back: the strings of a list, and the declarations that a failing conf_parse() had
-- filled.
use rattle.Base.{
  ℕ, suc, ◌+◌, ◌^◌, ◌<◌, ◌≡◌, refl, false, List, [], ◌∷◌, ◌++◌, Option, none, some, Status, fail,
  ok, get_or, arith, ap, ap₂, ◌∙◌, length,
}
use rattle.Table.Mask.{is_frag}
use rattle.Table.State.{Table, zeroed}
use rattle.Table.Walk.{foreach}
use rattle.Table.Update.{destroy}
use rattle.Table.Valid.{IsValid, used}
use rattle.Table.Cursor.{live, foreach-live}
use rattle.Args.Words.{Str}
use rattle.Conf.Numbers.{str}
use rattle.Conf.Values.{Value, text, number, unset_value, unset_all, list_destroy}
use rattle.Conf.Decls.{Libconfig, Decl, DeclMemory, decl_release}
use rattle.Conf.Parse.{
  decl_step, parse_decls, parent_too_long, conf_parse, conf_release_reverse, conf_release,
}
use rattle.Conf.Faults.{AllFilled}

-- The strings that some slots of a list of strings hold.
abbrev pub held : Value → List Str
held (text (some s)) = s ∷ []
held (text none) = []
held (number n) = []

unfoldable pub held_at : List Value → List ℕ → List Str
held_at values [] = []
held_at values (p ∷ ps) = held (get_or values p (text none)) ++ held_at values ps

unset_value-held : (v : Value) → (unset_value v str).2 ≡ held v
unfolding unset_value
unset_value-held (text (some s)) = refl
unset_value-held (text none) = refl
unset_value-held (number n) = refl

unset_all-held : (t : Table Value) (ps : List ℕ) → unset_all t str ps ≡ held_at t.head ps
unfolding unset_all held_at
unset_all-held t [] = refl
unset_all-held t (p ∷ ps) =
    ap₂ ◌++◌ (unset_value-held (get_or t.head p (text none))) (unset_all-held t ps)

destroy-zeroed : (t : Table Value) → IsValid t → destroy (text none) t ≡ (ok, zeroed)
unfolding destroy
destroy-zeroed t v = ground (arith, v.room, v.last_in)

-- Destroying a valid list of strings with fewer than 2 ^ 32 holes frees the string of each slot that
-- holds one, once each and in order, and leaves a zeroed table.
pub list_destroy-held :
    (t : Table Value)
    → IsValid t
    → t.frag_count < 2 ^ 32
    → list_destroy t str ≡ (ok, zeroed, held_at t.head (live (is_frag t.frag_mask) 0 (used t)))
unfolding list_destroy
list_destroy-held t v small =
    ap₂ (λ (r : Status × Table Value) freed. (r.0, r.1, freed)) (destroy-zeroed t v)
      (unset_all-held t (foreach t) ∙ ap (held_at t.head) (foreach-live t v small))

-- Releasing backwards from a place releases the declarations up to it and no other.
conf_release_reverse-append :
    (before : List Decl) (d : Decl) (after : List Decl)
    → (conf_release_reverse (length before) (before ++ d ∷ after)).0
      ≡ (conf_release (before ++ d ∷ [])).0 ++ after
unfolding conf_release_reverse conf_release
conf_release_reverse-append [] d after = refl
conf_release_reverse-append (b ∷ bs) d after =
    ap (◌∷◌ (decl_release b).0) (conf_release_reverse-append bs d after)

module _ {S : Type 0} (lib : Libconfig S) (beyond : List ℕ) (parent : Option Str)
    (mem : ℕ → DeclMemory) where
  -- The declarations as they are filled.
  unfoldable pub filled :
      (i : ℕ) (ds : List Decl) → AllFilled lib beyond parent mem i ds → List Decl
  filled i [] fs = []
  filled i (d ∷ ds) fs = fs.0.0 ∷ filled (i + 1) ds fs.1

  length-filled :
      (i : ℕ) (ds : List Decl) (fs : AllFilled lib beyond parent mem i ds)
      → length (filled i ds fs) ≡ length ds
  unfolding filled
  length-filled i [] fs = refl
  length-filled i (d ∷ ds) fs = ap suc (length-filled (i + 1) ds fs.1)

  parse_decls-failed :
      (before : List Decl) (d d' : Decl) (after : List Decl) (i : ℕ) (retval : Status)
      → (fs : AllFilled lib beyond parent mem i before)
      → decl_step lib beyond parent d (mem (i + length before)) ≡ some (fail, d')
      → parse_decls lib beyond mem parent i retval (before ++ d ∷ after)
        ≡ (fail, i + length before, filled i before fs ++ d' ∷ after)
  unfolding parse_decls filled
  parse_decls-failed [] d d' after i retval fs e =
      let here : decl_step lib beyond parent d (mem i) ≡ some (fail, d') =
        ap (λ k. decl_step lib beyond parent d (mem k)) (omega arith) ∙ e in
      ground (arith, here)
  parse_decls-failed (b ∷ bs) d d' after i retval fs e =
      let there : decl_step lib beyond parent d (mem (i + 1 + length bs)) ≡ some (fail, d') =
        ap (λ k. decl_step lib beyond parent d (mem k)) (omega arith) ∙ e in
      let rest = parse_decls-failed bs d d' after (i + 1) ok fs.1 there in
      ground (arith, fs.0.1, rest)

  -- Where the value of a declaration, from its setting or from its defaults, cannot be set, and those
  -- before it were filled, conf_parse() fails, and releases that declaration and all before it;
  -- those behind it are left alone. This is not so where a mandatory declaration has no setting or
  -- a path is too long, and the path of the parent is taken to fit.
  pub conf_parse-failed :
      (before : List Decl) (d d' : Decl) (after : List Decl) (junk : Status)
      → (fs : AllFilled lib beyond parent mem 0 before)
      → decl_step lib beyond parent d (mem (length before)) ≡ some (fail, d')
      → parent_too_long parent ≡ false
      → let (s, decls, freed) = conf_parse lib beyond mem junk parent (before ++ d ∷ after) in
        (s ≡ fail) × (decls ≡ (conf_release (filled 0 before fs ++ d' ∷ [])).0 ++ after)
  unfolding conf_parse
  conf_parse-failed before d d' after junk fs e short =
      let parsed =
        parse_decls-failed before d d' after 0 junk fs
          (ap (λ k. decl_step lib beyond parent d (mem k)) (omega arith) ∙ e) in
      let place : 0 + length before ≡ length (filled 0 before fs) =
        omega (arith, length-filled 0 before fs) in
      let back = conf_release_reverse-append (filled 0 before fs) d' after in
      let parsed' : parse_decls lib beyond mem parent 0 junk (before ++ d ∷ after)
          ≡ (fail, length (filled 0 before fs), filled 0 before fs ++ d' ∷ after) =
        parsed ∙ ap (λ (k : ℕ). (fail, k, filled 0 before fs ++ d' ∷ after)) place in
      ground (arith, parsed', short, back)

  parse_decls-filled :
      (ds : List Decl) (i : ℕ) (fs : AllFilled lib beyond parent mem i ds)
      → parse_decls lib beyond mem parent i ok ds ≡ (ok, i + length ds, filled i ds fs)
  unfolding parse_decls filled
  parse_decls-filled [] i fs = ap (λ (k : ℕ). (ok, k, [])) (omega arith)
  parse_decls-filled (d ∷ ds) i fs =
      let rest = parse_decls-filled ds (i + 1) fs.1 in ground (arith, fs.0.1, rest)

  -- Where every declaration is filled, conf_parse() succeeds and frees nothing.
  pub conf_parse-filled :
      (d : Decl) (ds : List Decl) (junk : Status)
      → (fs : AllFilled lib beyond parent mem 0 (d ∷ ds)) → parent_too_long parent ≡ false
      → conf_parse lib beyond mem junk parent (d ∷ ds) ≡ (ok, filled 0 (d ∷ ds) fs, [])
  unfolding conf_parse parse_decls filled
  conf_parse-filled d ds junk fs short =
      let rest = parse_decls-filled ds (0 + 1) fs.1 in ground (arith, fs.0.1, rest, short)
