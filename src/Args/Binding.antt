-- ===== src/Args/Binding.antt =====
-- When bind_args() accepts what the user gave, and what it does then.
use rattle.Base.{
  ℕ, ◌≡◌, refl, Bool, true, false, not, ◌&&◌, ◌||◌, List, [], ◌∷◌, ◌++◌, Option, none, some, Status,
  fail, ok, ◌==◌, ltb, if◌then◌else◌, arith, ap, inl, inr, Option-cases, Status-cases, Bool-cases,
}
use rattle.Table.State.{has_flag}
use rattle.Args.Words.{Str, islower}
use rattle.Args.Sections.{UsrArg, SysArg, Entry}
use rattle.Args.Register.{
  Effect, got, usrarg_of, fl_arg, fl_one, missing, count_effect, bind_arg, bind_option, then_bind,
  bind_args_from,
}

-- `get` takes the argument.
abbrev taken_by : Option (Str → Status) → Str → Bool
taken_by none arg = false
taken_by (some get) arg = elim (get arg) [ ok ↦ true | fail ↦ false ]

abbrev takes : SysArg → Option Str → Bool
takes sys none = true
takes sys (some arg) = taken_by sys.get arg

-- What a registrant promises to accept: an option that was not given; or one that is given as
-- often as allowed, with an argument if it must have one, and only with one that it takes.
abbrev pub acceptable : SysArg → UsrArg → Bool
acceptable sys usr =
    usr.found == 0
    || (not (has_flag sys.flags fl_one && ltb 1 usr.found)
        && not (has_flag sys.flags fl_arg && missing usr.arg)
        && takes sys usr.arg)

abbrev argument_effect : SysArg → Option Str → List Effect
argument_effect sys none = []
argument_effect sys (some arg) = got sys.option arg ∷ []

-- What an option that was given does: its argument first, its count then.
abbrev pub given_effects : SysArg → UsrArg → List Effect
given_effects sys usr =
    if usr.found == 0 then [] else argument_effect sys usr.arg ++ count_effect sys usr.found

unfoldable pub all_acceptable : Entry → List SysArg → Bool
all_acceptable entry [] = true
all_acceptable entry (sys ∷ args) =
    not (islower sys.option)
    || (acceptable sys (usrarg_of entry sys.option) && all_acceptable entry args)

unfoldable pub all_effects : Entry → List SysArg → List Effect
all_effects entry [] = []
all_effects entry (sys ∷ args) =
    if islower sys.option
    then given_effects sys (usrarg_of entry sys.option) ++ all_effects entry args
    else []

bind_arg_lem :
    (sys : SysArg) (n : ℕ) (arg : Option Str)
    → ((takes sys arg ≡ true)
        → bind_arg sys n arg ≡ (ok, argument_effect sys arg ++ count_effect sys n))
      × ((takes sys arg ≡ false) → (bind_arg sys n arg).0 ≡ fail)
unfolding bind_arg
bind_arg_lem sys n none = (λ h. refl, λ h. absurd (cc))
bind_arg_lem sys n (some arg) = elim (Option-cases sys.get) [
  | inl e ↦ (λ h. ground (arith, e, h), λ h. ground (arith, e, h))
  | inr (get, e) ↦ elim (Status-cases (get arg)) [
    | inl done ↦ (λ h. ground (arith, e, done, h), λ h. ground (arith, e, done, h))
    | inr failed ↦ (λ h. ground (arith, e, failed, h), λ h. ground (arith, e, failed, h))
  ]
]

bind_option_lem :
    (sys : SysArg) (usr : UsrArg)
    → ((acceptable sys usr ≡ true) → bind_option sys usr ≡ (ok, given_effects sys usr))
      × ((acceptable sys usr ≡ false) → (bind_option sys usr).0 ≡ fail)
unfolding bind_option
bind_option_lem sys usr =
    let (accepts, rejects) = bind_arg_lem sys usr.found usr.arg in
    (λ h. ground (arith, accepts, h), λ h. ground (arith, rejects, h))

then_bind_ok : (x y : Status × List Effect) → x.0 ≡ ok → then_bind x y ≡ (y.0, x.1 ++ y.1)
then_bind_ok (ok, done) (s, more) h = refl
then_bind_ok (fail, done) (s, more) h = absurd (cc)

then_bind_fail : (x y : Status × List Effect) → x.0 ≡ fail → (then_bind x y).0 ≡ fail
then_bind_fail (fail, done) (s, more) h = refl
then_bind_fail (ok, done) (s, more) h = absurd (cc)

-- Binding succeeds exactly if every option of the registrant is acceptable as the user gave it,
-- and it hands over each argument and each count then, in the order of the registrant's array.
pub bind_args_from-acceptable :
    (entry : Entry) (args : List SysArg)
    → ((all_acceptable entry args ≡ true)
        → bind_args_from entry args ≡ (ok, all_effects entry args))
      × ((all_acceptable entry args ≡ false) → (bind_args_from entry args).0 ≡ fail)
unfolding all_acceptable all_effects bind_args_from
bind_args_from-acceptable entry [] = (λ h. refl, λ h. absurd (cc))
bind_args_from-acceptable entry (sys ∷ args) =
    let usr = usrarg_of entry sys.option in
    let (accepts, rejects) = bind_option_lem sys usr in
    let (all, some_not) = bind_args_from-acceptable entry args in
    elim (Bool-cases (islower sys.option)) [
      | inr up ↦ rw up (λ h. refl, λ h. absurd (cc))
      | inl low ↦ elim (Bool-cases (acceptable sys usr)) [
        | inr bad ↦ rw (low, bad) (λ h. absurd (cc), λ h. then_bind_fail _ _ (rejects bad))
        | inl good ↦
            let e =
              then_bind_ok (bind_option sys usr) (bind_args_from entry args)
                (ap (λ (x : Status × List Effect). x.0) (accepts good)) in
            rw (low, good, e, accepts good)
              (
                λ h. ap (λ (x : Status × List Effect). (x.0, given_effects sys usr ++ x.1)) (all h),
                some_not,
              )
      ]
    ]
