-- ===== src/Conf/Paths.antt =====
-- The path that conf_parse() looks up, from a parent's name and a declaration's path.
use rattle.Base.{
  ℕ, zero, suc, ◌+◌, ◌-◌, ◌<◌, ◌≡◌, refl, Bool, true, not, ◌&&◌, List, [], ◌∷◌, ◌++◌, some, ◌==◌,
  arith, ap, length, ◌∙◌,
}
use rattle.Args.Words.{Str}
use rattle.Conf.Parse.{padded, up_to_zero, path_buffer, path_size, lookup_path}

-- A C string has no zero byte before its end.
abbrev pub no_zero : Str → Bool
no_zero [] = true
no_zero (c ∷ s) = not (c == 0) && no_zero s

up_to_zero-append : (s t : Str) → no_zero s ≡ true → up_to_zero (s ++ t) ≡ s ++ up_to_zero t
unfolding up_to_zero
up_to_zero-append [] t h = refl
up_to_zero-append (c ∷ s) t h = ground (arith, up_to_zero-append s t)

-- Where room is left behind the path, a zero follows it.
up_to_zero-padded :
    (n : ℕ) (s : Str) (t : List ℕ)
    → no_zero s ≡ true
    → length s < n
    → up_to_zero (padded n s ++ t) ≡ s
unfolding up_to_zero padded
up_to_zero-padded zero s t h lt = absurd (omega arith)
up_to_zero-padded (suc n) [] t h lt = refl
up_to_zero-padded (suc n) (c ∷ s) t h lt = ground (arith, up_to_zero-padded n s t)

-- Where the path takes all of it, none does.
padded-full : (n : ℕ) (s : Str) → length s ≡ n → padded n s ≡ s
unfolding padded
padded-full zero [] e = refl
padded-full zero (c ∷ s) e = absurd (omega arith)
padded-full (suc n) [] e = absurd (omega arith)
padded-full (suc n) (c ∷ s) e = ap (◌∷◌ c) (padded-full n s (omega arith))

module _ (parent path : Str) (beyond : List ℕ) (clean : no_zero parent ≡ true)
    (clean' : no_zero path ≡ true) where
  append_slash :
      (s t : List ℕ) → up_to_zero ((s ++ 47 ∷ t) ++ beyond) ≡ up_to_zero (s ++ 47 ∷ (t ++ beyond))
  append_slash s t = ap up_to_zero (assoc s)
    where
      assoc : (s : List ℕ) → ((s ++ 47 ∷ t) ++ beyond) ≡ (s ++ 47 ∷ (t ++ beyond))
      assoc [] = refl
      assoc (c ∷ s) = ap (◌∷◌ c) (assoc s)

  -- Where parent and path together leave room for the slash and the final zero, the setting that
  -- is looked up is the one at `parent/path`, whatever follows the buffer in memory.
  pub lookup_path-joined :
      length parent + length path < path_size - 1
      → lookup_path (some parent) path beyond ≡ parent ++ 47 ∷ path
  unfolding lookup_path path_buffer up_to_zero
  lookup_path-joined room =
      append_slash parent (padded (path_size - 1 - length parent) path)
      ∙ up_to_zero-append parent _ clean
      ∙ ap (λ s. parent ++ 47 ∷ s)
          (up_to_zero-padded (path_size - 1 - length parent) path beyond clean' (omega arith))

  -- One byte more, which conf_parse() still lets through, and the buffer holds no zero: the path
  -- that is looked up goes on with the bytes behind the buffer.
  pub lookup_path-overrun :
      length parent + length path ≡ path_size - 1
      → lookup_path (some parent) path beyond ≡ parent ++ 47 ∷ (path ++ up_to_zero beyond)
  unfolding lookup_path path_buffer up_to_zero
  lookup_path-overrun full =
      append_slash parent (padded (path_size - 1 - length parent) path)
      ∙ up_to_zero-append parent _ clean
      ∙ ap (λ s. parent ++ 47 ∷ up_to_zero (s ++ beyond))
          (padded-full (path_size - 1 - length parent) path (omega arith))
      ∙ ap (λ s. parent ++ 47 ∷ s) (up_to_zero-append path beyond clean')
