-- ===== src/Proc/SerialTests.antt =====
-- Processes of the serial processor, and the theorems and the code at them.
use rattle.Base.{
  Option, ℕ, ◌≡◌, ◌==◌, refl, false, [], ◌∷◌, none, some, ok, arith, if◌then◌else◌, zero, suc, ap,
  sym, ◌∙◌,
}
use rattle.Table.Mask.{is_frag}
use rattle.Table.State.{exists, fragmented, isempty, first, has_flag}
use rattle.Table.Walk.{skipped, pos_isfrag, next, next_from, first_next, visit, foreach}
use rattle.Table.Valid.{lookup}
use rattle.Proc.Process.{Attr, fl_sticky, Process, no_process}
use rattle.Proc.Serial.Drain.{OneShot, pass_from_start-OneShot}
use rattle.Proc.Serial.Order.{queue}
use rattle.Table.Write.{head-IsValid}
use rattle.Proc.Serial.Queue
use rattle.Proc.Serial.Queue.{Serial, Behaviour, Outcome, returned}
use rattle.Proc.Serial.Passes.{Quiet, StopsAt, ran_after, on_start-one_pass}
use rattle.Proc.Samples.{one, two, processes, processes-IsValid}

-- A processor whose second process stops it.
abbrev stopping : Behaviour
stopping s proc = if proc.process == 200 then (ok, record s { state = Queue.stopped }) else (ok, s)

abbrev serial : Serial
serial = record { proctab = processes; state = Queue.boot; ran = [] }

stopping-Quiet : Quiet stopping
stopping-Quiet s proc = ground arith

stopping-StopsAt : StopsAt 200 stopping
stopping-StopsAt s proc = ground arith

on_start-one_pass_example :
    (s' : Serial) × (Queue.on_start stopping 1 2 serial ≡ returned ok s')
    × (s'.proctab ≡ record processes { pos = s'.proctab.pos })
    × (s'.ran ≡ ran_after processes.head (foreach processes) [])
    × (s'.state ≡ Queue.stopped)
unfolding foreach visit first_next next next_from first isempty exists skipped pos_isfrag is_frag
    fragmented
on_start-one_pass_example =
    on_start-one_pass 200 stopping stopping-Quiet stopping-StopsAt serial 0 (λ e. absurd (cc)) refl
      refl

both_ran : ran_after processes.head (foreach processes) [] ≡ two ∷ one ∷ []
unfolding ran_after foreach visit first_next next next_from first isempty exists skipped pos_isfrag
    is_frag fragmented
both_ran = refl

-- Two processes that are not sticky, and behaviour that does nothing.
abbrev job : ℕ → Process
job n = record { process = n; attr = some (record { flags = 0; lock = 0 }); udata = 0 }

abbrev jobs : Serial
jobs = record {
  proctab = record processes { head = job 100 ∷ job 200 ∷ no_process ∷ no_process ∷ [] };
  state = Queue.running;
  ran = [];
}

abbrev nothing : Behaviour
nothing s proc = (ok, s)

abbrev held_by : Option Process → Process
held_by none = no_process
held_by (some proc) = proc

job-once :
    (n : ℕ) (proc : Process)
    → (n == 0) ≡ false
    → job n ≡ proc
    → ((proc.process == 0) ≡ false)
      × ((attr : Attr) × (proc.attr ≡ some attr) × (has_flag attr.flags fl_sticky ≡ false))
job-once n proc real e = (
  ap (λ (q : Process). q.process == 0) (sym e) ∙ real,
  (record { flags = 0; lock = 0 }, ap (λ (q : Process). q.attr) (sym e), refl),
)

jobs-OneShot : OneShot (lookup no_process jobs.proctab)
unfolding is_frag
jobs-OneShot zero proc e = job-once 100 proc refl (ap held_by e)
jobs-OneShot (suc zero) proc e = job-once 200 proc refl (ap held_by e)
jobs-OneShot (suc (suc i)) proc e = absurd (ground (arith, e))

pass_from_start-OneShot_example :
    (s' : Serial) × (Queue.pass_from_start nothing 2 jobs ≡ returned ok s')
    × ((i : ℕ) → lookup no_process s'.proctab i ≡ none)
    × (s'.ran ≡ queue (lookup no_process jobs.proctab) 0 2 [])
pass_from_start-OneShot_example =
    pass_from_start-OneShot nothing (λ s proc. (refl, refl)) jobs
      (head-IsValid jobs.proctab.head processes-IsValid refl) (omega arith) jobs-OneShot

both_queued : queue (lookup no_process jobs.proctab) 0 2 [] ≡ job 200 ∷ job 100 ∷ []
unfolding queue is_frag
both_queued = refl
