-- ===== src/Debug/Ends.antt =====
-- The descriptors of the pipe to the debugger process (modules/debug/debug.c).
use rattle.Base.{
  ℕ, suc, Status, ◌≡◌, ◌≢◌, refl, Bool, true, false, ◌||◌, List, [], ◌∷◌, some, fail, ok, ◌==◌,
  if◌then◌else◌, arith, ap,
}
use rattle.Conf.Numbers.{ℤ, pos, negsuc}
use rattle.Debug.Pipe.{
  Pipe, minus_one, without, debug_write, close, destroy_word, destroy_from, destroy_pipe,
  create_pipe, fork_process,
}

abbrev pub is_open : ℕ → List ℕ → Bool
is_open n [] = false
is_open n (f ∷ fs) = f == n || is_open n fs

is_open-without :
    (n m : ℕ) (fs : List ℕ) → is_open n (without m fs) ≡ (if m == n then false else is_open n fs)
is_open-without n m [] = ground arith
is_open-without n m (f ∷ fs) = ground (arith, is_open-without n m fs)

-- What a word that destroy_pipe() visits holds afterwards.
abbrev pub cleared : ℤ → ℤ
cleared (pos n) = minus_one
cleared (negsuc n) = negsuc n

-- destroy_pipe() closes the end that is read from and then the number that the word before the
-- pipe holds, where they are not negative, and sets them to -1. The end that is written to stays
-- as it is.
pub destroy_pipe-words :
    (d : Pipe) (below r w : ℤ)
    → d.words ≡ below ∷ r ∷ w ∷ []
    → destroy_pipe d ≡ record d {
      words = cleared below ∷ cleared r ∷ w ∷ [];
      files = close below (close r d.files);
    }
unfolding destroy_pipe destroy_from destroy_word
destroy_pipe-words d (pos b) (pos r) w e = simp e (refl)
destroy_pipe-words d (pos b) (negsuc r) w e = simp e (refl)
destroy_pipe-words d (negsuc b) (pos r) w e = simp e (refl)
destroy_pipe-words d (negsuc b) (negsuc r) w e =
    simp e (ap (λ (ws : List ℤ). record d { words = ws }) e)

-- The pipe is created and the process forks: what is open then, in the process that fork()
-- answers `pid` to.
abbrev pub forked : ℕ → ℕ → ℤ → Pipe → Status × Pipe
forked r w pid d = fork_process pid (create_pipe (some (r, w)) d).1

abbrev is_number : ℤ → ℕ → Bool
is_number (pos m) n = m == n
is_number (negsuc m) n = false

module _ (d : Pipe) (r w : ℕ) (below x y : ℤ) where
  -- The debugger process keeps the end that is read from, the process that forked it the end that
  -- is written to, and each of them only that end. Only the latter has the number of the other,
  -- and only it may write.
  pub forked-ends :
      (child : ℕ)
      → d.words ≡ below ∷ x ∷ y ∷ []
      → r ≢ w
      → is_open r d.files ≡ false
      → is_open w d.files ≡ false
      → d.is_child ≡ false
      → let (s, debugger) = forked r w (pos 0) d in
        let (s', parent) = forked r w (pos (suc child)) d in
        ((n : ℕ) → is_open n debugger.files ≡ (r == n || is_open n d.files))
        × ((n : ℕ) → is_open n parent.files ≡ (w == n || is_open n d.files))
        × (debugger.words ≡ below ∷ pos r ∷ minus_one ∷ [])
        × (parent.words ≡ below ∷ minus_one ∷ pos w ∷ [])
        × (parent.child ≡ pos (suc child))
        × (debug_write debugger ≡ fail)
        × (debug_write parent ≡ ok)
  unfolding create_pipe fork_process debug_write
  forked-ends child e ne new_r new_w alone = (
    λ n. simp e (ground (arith, is_open-without n w (r ∷ w ∷ d.files))),
    λ n. simp e (ground (arith, is_open-without n r (r ∷ w ∷ d.files))),
    simp e (refl),
    simp e (refl),
    refl,
    refl,
    ground (arith, alone),
  )

  closed_twice :
      (n : ℕ) (z : ℤ)
      → r ≢ w
      → is_number z w ≡ false
      → is_open n (close z (without r (r ∷ w ∷ d.files)))
        ≡ (if n == w then true else if n == r || is_number z n then false else is_open n d.files)
  closed_twice n (pos b) ne apart = ground (
    arith,
    is_open-without n b (without r (r ∷ w ∷ d.files)),
    is_open-without n r (r ∷ w ∷ d.files),
    apart,
  )
  closed_twice n (negsuc b) ne apart = ground (arith, is_open-without n r (r ∷ w ∷ d.files))

  -- Where the process cannot be forked, destroying the pipe leaves the end that is written to
  -- open, and closes the descriptor whose number the word before the pipe holds, if it holds one;
  -- that word is taken not to hold the number of the end that is written to.
  pub destroy_pipe-leak :
      (err : ℕ)
      → d.words ≡ below ∷ x ∷ y ∷ []
      → r ≢ w
      → is_number below w ≡ false
      → let (s, p) = forked r w (negsuc err) d in
        (s ≡ fail)
        × ((n : ℕ)
            → is_open n (destroy_pipe p).files ≡ (
                if n == w
                then true
                else if n == r || is_number below n
                then false
                else is_open n d.files))
  unfolding create_pipe fork_process
  destroy_pipe-leak err e ne apart =
      let (s, p) = forked r w (negsuc err) d in
      let ends = destroy_pipe-words p below (pos r) (pos w) (simp e (refl)) in
      (refl, λ n. rw ends (closed_twice n below ne apart))
