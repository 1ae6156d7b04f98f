-- ===== src/Coretab/Order.antt =====
-- The calls that the start of the program makes (src/core.c).
use rattle.Base.{
  ℕ, zero, suc, ◌≤◌, ◌≡◌, ◌≢◌, refl, Bool, true, false, List, [], ◌∷◌, ◌++◌, none, some, Status,
  length, arith,
}
use rattle.Coretab.Startup.{
  started, not_started, stop, broken, Part, Call, inited, registered, finished, End, went_on,
  exit_failure, initialize_from, initialize_core_components,
}

-- The parts whose init() was called, those of them that answered OK, those whose destructor was
-- registered, and those that were finished, in the order of the calls.
abbrev pub called : List Call → List ℕ
called [] = []
called (inited i a ∷ cs) = i ∷ called cs
called (registered i ∷ cs) = called cs
called (finished i ∷ cs) = called cs

abbrev pub begun : List Call → List ℕ
begun [] = []
begun (inited i started ∷ cs) = i ∷ begun cs
begun (inited i not_started ∷ cs) = begun cs
begun (inited i stop ∷ cs) = begun cs
begun (inited i broken ∷ cs) = begun cs
begun (registered i ∷ cs) = begun cs
begun (finished i ∷ cs) = begun cs

abbrev pub kept : List Call → List ℕ
kept [] = []
kept (inited i a ∷ cs) = kept cs
kept (registered i ∷ cs) = i ∷ kept cs
kept (finished i ∷ cs) = kept cs

abbrev pub ended : List Call → List ℕ
ended [] = []
ended (inited i a ∷ cs) = ended cs
ended (registered i ∷ cs) = ended cs
ended (finished i ∷ cs) = i ∷ ended cs

abbrev pub from : ℕ → ℕ → List ℕ
from i zero = []
from i (suc n) = i ∷ from (suc i) n

abbrev pub has_fini : {S : Type 0} → List (Part S) → Bool
has_fini [] = true
has_fini (part ∷ parts) = elim part.fini [ none ↦ false | some _ ↦ has_fini parts ]

-- What holds of the calls from the i-th of `n` parts on.
abbrev InOrder : ℕ → ℕ → End → List Call → Type 0
InOrder i n end cs =
    (called cs ≡ from i (length (called cs)))
    × (length (called cs) ≤ n)
    × (begun cs ≡ kept cs ++ ended cs)
    × (end ≢ exit_failure → ended cs ≡ [])
    × (end ≡ went_on → length (called cs) ≡ n)

module _ {S : Type 0} (dtor_register : ℕ → Status) where
  initialize_from-InOrder :
      (i : ℕ) (parts : List (Part S)) (s : S)
      → has_fini parts ≡ true
      → let (end, s', calls) = initialize_from dtor_register i parts s in
        InOrder i (length parts) end calls
  unfolding initialize_from
  initialize_from-InOrder i [] s h = (refl, omega arith, refl, λ z. refl, λ z. refl)
  initialize_from-InOrder i (part ∷ parts) s h =
      let rest = initialize_from-InOrder (suc i) parts (part.init s).1 in ground (arith, h, rest)

  -- For parts that each have a fini(): they are initialised in their order with none left out, and
  -- all of them if the program goes on. The destructor of each part that was started is
  -- registered, but for one that is finished at once because the program exits with a failure.
  pub initialize_core_components-InOrder :
      (parts : List (Part S)) (s : S)
      → has_fini parts ≡ true
      → let (end, s', calls) = initialize_core_components dtor_register parts s in
        (called calls ≡ from 0 (length (called calls)))
        × (length (called calls) ≤ length parts)
        × (begun calls ≡ kept calls ++ ended calls)
        × (end ≢ exit_failure → ended calls ≡ [])
        × (end ≡ went_on → length (called calls) ≡ length parts)
  unfolding initialize_core_components
  initialize_core_components-InOrder parts s h = initialize_from-InOrder 0 parts s h
