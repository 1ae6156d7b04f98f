-- ===== src/Coretab/Startup.antt =====
-- initialize_core_components() (src/core.c), over the state of the program.
use rattle.Base.{ℕ, suc, List, [], ◌∷◌, Option, none, some, Status, fail, ok}

-- What the init() of a part answers: OK, NOSTART, STOP, and FAIL with every other value.
pub data Answer : Type 0 where
  started not_started stop broken : Answer

-- An element of l_main_coretab.
pub record Part (S : Type 0) : Type 0 where
  pub init : S → Answer × S
  pub fini : Option (S → S)

-- The calls, by the place of the part: init() with its answer, a dtor_register() that succeeds,
-- and fini().
pub data Call : Type 0 where
  inited : ℕ → Answer → Call
  registered finished : ℕ → Call

-- The loop ends, or the program exits with EXIT_SUCCESS or EXIT_FAILURE.
pub data End : Type 0 where
  went_on exit_success exit_failure : End

module _ {S : Type 0} where
  -- The destructor of the part could not be registered.
  abbrev pub give_up : Part S → ℕ → S → End × S × List Call
  give_up part i s = elim part.fini [
    | none ↦ (exit_failure, s, inited i started ∷ [])
    | some fini ↦ (exit_failure, fini s, inited i started ∷ finished i ∷ [])
  ]

  -- The loop from the i-th part on, up to the one whose `init` is NULL. `dtor_register` answers
  -- for the destructor of each part.
  unfoldable pub initialize_from : (ℕ → Status) → ℕ → List (Part S) → S → End × S × List Call
  initialize_from dtor_register i [] s = (went_on, s, [])
  initialize_from dtor_register i (part ∷ parts) s =
      let (answer, s') = part.init s in
      let (end, s'', calls) = initialize_from dtor_register (suc i) parts s' in
      elim answer [
        | started ↦ elim (dtor_register i) [
          | fail ↦ give_up part i s'
          | ok ↦ (end, s'', inited i started ∷ registered i ∷ calls)
        ]
        | not_started ↦ (end, s'', inited i not_started ∷ calls)
        | stop ↦ (exit_success, s', inited i stop ∷ [])
        | broken ↦ (exit_failure, s', inited i broken ∷ [])
      ]

  unfoldable pub initialize_core_components : (ℕ → Status) → List (Part S) → S → End × S × List Call
  initialize_core_components dtor_register parts s = initialize_from dtor_register 0 parts s
