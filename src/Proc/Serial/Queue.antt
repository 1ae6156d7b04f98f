-- ===== src/Proc/Serial/Queue.antt =====
-- The process table of the serial processor and its calls (proc_serial.c).
use rattle.Base.{
  ℕ, zero, suc, Bool, false, not, ◌&&◌, List, ◌∷◌, Option, none, some, Status, fail, ok, ◌==◌,
  if◌then◌else◌, get_or,
}
use rattle.Table.State.{Table, has_flag}
use rattle.Table.Walk.{next, first_next, table_search}
use rattle.Table.Update.{Alloc, create, destroy, insert, del_current}
use rattle.Proc.Process.{Attr, fl_sticky, Process, no_process, same_attr}

-- The states of l_proc_state.
pub data SerialState : Type 0 where
  boot running stopped : SerialState

-- l_proctab and l_proc_state. `ran` is what the code does not keep: the processes that were
-- called, the last one first.
pub record Serial : Type 0 where
  pub proctab : Table Process
  pub state : SerialState
  pub ran : List Process

abbrev pub process_at : Table Process → ℕ → Process
process_at t p = get_or t.head p no_process

abbrev pub differ : Option Attr → Option Attr → Bool
differ (some a) (some b) = not (same_attr a b)
differ _ _ = false

unfoldable pub compare_process : Process → Process → Bool
compare_process entry proc =
    if not (proc.udata == 0) && not (proc.udata == entry.udata)
    then false
    else if differ proc.attr entry.attr
    then false
    else proc.process == entry.process

unfoldable pub on_unregister : Serial → Process → Serial
on_unregister s proc =
    let (found, match, t) =
      table_search no_process s.proctab (λ entry. compare_process entry proc) in
    record s { proctab = elim found [ ok ↦ (del_current no_process t).1 | fail ↦ t ] }

unfoldable pub on_register : Serial → Process → Alloc Process → Status × Serial
on_register s proc a =
    let (done, t) = insert no_process s.proctab proc a in (done, record s { proctab = t })

unfoldable pub on_stop : Serial → Status × Serial
on_stop s = elim s.state [ stopped ↦ (fail, s) | _ ↦ (ok, record s { state = stopped }) ]

-- What a process does when it is called: it may register, unregister and stop, so that it changes
-- the whole state.
abbrev pub Behaviour : Type 0
Behaviour = Serial → Process → Status × Serial

-- How a run ends: on_start() returns, the attributes of a process that has none are read, or the
-- rounds are used up.
pub data Outcome : Type 0 where
  returned : Status → Serial → Outcome
  null_read unfinished : Outcome

abbrev pub delete_current : Serial → Serial
delete_current s = record s { proctab = (del_current no_process s.proctab).1 }

-- Behind the call of a process: it is deleted unless it is sticky. Its entry is read again from
-- slot `p`.
unfoldable pub settle : Serial → ℕ → Outcome
settle s p = elim (process_at s.proctab p).attr [
  | none ↦ null_read
  | some attr ↦ returned ok (if has_flag attr.flags fl_sticky then s else delete_current s)
]

-- The body of the loop over the table, for slot `p`.
unfoldable pub serve : Behaviour → Serial → ℕ → Outcome
serve behave s p =
    let proc = process_at s.proctab p in
    let called = (behave (record s { ran = proc ∷ s.ran }) proc).1 in
    if proc.process == 0 then returned ok (delete_current s) else settle called p

abbrev pub stepped : Serial → Option ℕ × Serial
stepped s = let (c, t) = next s.proctab in (c, record s { proctab = t })

-- One pass over the table.
unfoldable pub pass : Behaviour → ℕ → Option ℕ × Serial → Outcome
pass behave zero (none, s) = returned ok s
pass behave zero (some p, s) = unfinished
pass behave (suc n) (none, s) = returned ok s
pass behave (suc n) (some p, s) = elim (serve behave s p) [
  | returned st s' ↦ pass behave n (stepped s')
  | null_read ↦ null_read
  | unfinished ↦ unfinished
]

abbrev pub pass_from_start : Behaviour → ℕ → Serial → Outcome
pass_from_start behave fuel s =
    let (c, t) = first_next s.proctab in pass behave fuel (c, record s { proctab = t })

-- The loop over passes.
unfoldable pub passes : Behaviour → ℕ → ℕ → Serial → Outcome
passes behave zero fuel s = unfinished
passes behave (suc n) fuel s = elim (pass_from_start behave fuel s) [
  | returned st s' ↦ elim s'.state [
    | running ↦ passes behave n fuel s'
    | boot ↦ returned ok s'
    | stopped ↦ returned ok s'
  ]
  | null_read ↦ null_read
  | unfinished ↦ unfinished
]

unfoldable pub on_start : Behaviour → ℕ → ℕ → Serial → Outcome
on_start behave rounds fuel s = elim s.state [
  | running ↦ returned fail s
  | boot ↦ passes behave rounds fuel (record s { state = running })
  | stopped ↦ passes behave rounds fuel (record s { state = running })
]

-- attach_module() refuses, whatever it is given.
unfoldable pub attach_module : Serial → Status
attach_module s = fail

-- __proc_serial_init() and __proc_serial_fini()
unfoldable pub serial_init : Serial → Alloc Process → Status × Serial
serial_init s a =
    let (done, t) = create no_process s.proctab 4 24 0 a in (done, record s { proctab = t })

unfoldable pub serial_fini : Serial → Serial
serial_fini s = record s { proctab = (destroy no_process s.proctab).1 }
