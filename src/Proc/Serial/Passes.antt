-- ===== src/Proc/Serial/Passes.antt =====
-- The passes that on_start() of the serial processor makes over its table (proc_serial.c).
use rattle.Base.{
  ℕ, zero, suc, ◌+◌, ◌≡◌, ◌≢◌, ◌⊎◌, refl, Bool, true, false, not, ◌&&◌, ◌||◌, List, [], ◌∷◌, Option,
  none, some, Status, ok, ◌==◌, if◌then◌else◌, get_or, arith, ap, ap₂, ◌∙◌, Option-cases, inl, inr,
}
use rattle.Table.State.{Table, has_flag}
use rattle.Table.Walk.{next, first_next, visit, foreach}
use rattle.Table.Ends.{ends, next-pos, foreach-ends, first_next-pos}
use rattle.Proc.Process.{Attr, fl_sticky, Process, no_process}
use rattle.Proc.Serial.Queue.{
  running, stopped, Serial, process_at, Behaviour, Outcome, returned, null_read, unfinished, settle,
  serve, stepped, pass, pass_from_start, passes, on_start,
}

Outcome-cases :
    (o : Outcome)
    → ((st : Status) × (s : Serial) × (o ≡ returned st s)) ⊎ (o ≡ null_read) ⊎ (o ≡ unfinished)
Outcome-cases (returned st s) = inl (st, s, refl)
Outcome-cases null_read = inr (inl refl)
Outcome-cases unfinished = inr (inr refl)

passes-stopped :
    (behave : Behaviour) (rounds fuel : ℕ) (s s' : Serial)
    → passes behave rounds fuel s ≡ returned ok s'
    → s'.state ≢ running
unfolding passes
passes-stopped behave zero fuel s s' h = absurd (cc)
passes-stopped behave (suc n) fuel s s' h = elim (Outcome-cases (pass_from_start behave fuel s)) [
  | inl (st, s'', e) ↦ ground (arith, h, e, passes-stopped behave n fuel s'' s')
  | inr (inl e) ↦ ground (arith, h, e)
  | inr (inr e) ↦ ground (arith, h, e)
]

-- on_start() does not succeed before the processor is stopped, whatever the processes do.
pub on_start-stopped :
    (behave : Behaviour) (rounds fuel : ℕ) (s s' : Serial)
    → on_start behave rounds fuel s ≡ returned ok s'
    → s'.state ≢ running
unfolding on_start
on_start-stopped behave rounds fuel s s' h =
    ground (arith, h, passes-stopped behave rounds fuel (record s { state = running }) s')

-- Processes that leave the table alone; what is registered and sticky in some slots; the processes
-- of some slots put before others; and whether one of them is the process `stopper`.
abbrev pub Quiet : Behaviour → Type 0
Quiet behave =
    (s : Serial) (proc : Process)
    → ((behave s proc).1.proctab ≡ s.proctab) × ((behave s proc).1.ran ≡ s.ran)

abbrev is_sticky : Option Attr → Bool
is_sticky none = false
is_sticky (some attr) = has_flag attr.flags fl_sticky

abbrev pub all_sticky : List Process → List ℕ → Bool
all_sticky head [] = true
all_sticky head (p ∷ ps) =
    not ((get_or head p no_process).process == 0)
    && (is_sticky (get_or head p no_process).attr && all_sticky head ps)

unfoldable pub ran_after : List Process → List ℕ → List Process → List Process
ran_after head [] ran = ran
ran_after head (p ∷ ps) ran = ran_after head ps (get_or head p no_process ∷ ran)

-- The processes that stop the processor are those whose function is `stopper`.
abbrev pub StopsAt : ℕ → Behaviour → Type 0
StopsAt stopper behave =
    (s : Serial) (proc : Process)
    → (behave s proc).1.state ≡ (if proc.process == stopper then stopped else s.state)

abbrev pub calls : ℕ → List Process → List ℕ → Bool
calls stopper head [] = false
calls stopper head (p ∷ ps) = (get_or head p no_process).process == stopper || calls stopper head ps

-- What a pass leaves that visits the slots `ps` of the table `t`.
abbrev pub Passed : ℕ → Table Process → List ℕ → Serial → Serial → Type 0
Passed stopper t ps s s' =
    (s'.proctab ≡ record t { pos = s'.proctab.pos })
    × (s'.ran ≡ ran_after t.head ps s.ran)
    × (s'.state ≡ (if calls stopper t.head ps then stopped else s.state))

module _ (stopper : ℕ) (behave : Behaviour) (quiet : Quiet behave)
    (stops : StopsAt stopper behave) where
  -- One process runs, and nothing else changes.
  serve-sticky :
      (s : Serial) (p : ℕ)
      → not ((process_at s.proctab p).process == 0) ≡ true
      → is_sticky (process_at s.proctab p).attr ≡ true
      → let proc = process_at s.proctab p in
        (s' : Serial) × (serve behave s p ≡ returned ok s')
        × (s'.proctab ≡ s.proctab)
        × (s'.ran ≡ proc ∷ s.ran)
        × (s'.state ≡ (if proc.process == stopper then stopped else s.state))
  unfolding serve settle
  serve-sticky s p real sticky =
      let proc = process_at s.proctab p in
      let called = record s { ran = proc ∷ s.ran } in
      let (table, ran) = quiet called proc in
      let attr : (process_at (behave called proc).1.proctab p).attr ≡ proc.attr =
        ap (λ (t : Table Process). (process_at t p).attr) table in
      (
        (behave called proc).1,
        elim (Option-cases proc.attr) [
          | inl e ↦ ground (arith, real, sticky, e)
          | inr (a, e) ↦ ground (arith, real, sticky, attr, e)
        ],
        table,
        ran,
        stops called proc,
      )

  pass-served :
      (n p : ℕ) (s s' : Serial)
      → serve behave s p ≡ returned ok s'
      → pass behave (suc n) (some p, s) ≡ pass behave n (stepped s')
  unfolding pass
  pass-served n p s s' e = ground (arith, e)

  passes-done :
      (rounds fuel : ℕ) (s s' : Serial)
      → pass_from_start behave fuel s ≡ returned ok s'
      → s'.state ≡ stopped
      → passes behave (suc rounds) fuel s ≡ returned ok s'
  unfolding passes
  passes-done rounds fuel s s' e st = ground (arith, e, st)

  pass-sticky :
      (t : Table Process) (n : ℕ) (c : Option ℕ) (s : Serial)
      → s.proctab ≡ record t { pos = s.proctab.pos }
      → all_sticky t.head (visit n (c, s.proctab)) ≡ true
      → ends n (c, s.proctab) ≡ true
      → (s' : Serial) × (pass behave n (c, s) ≡ returned ok s')
        × Passed stopper t (visit n (c, s.proctab)) s s'
  unfolding pass ends visit ran_after
  pass-sticky t zero none s same sticky over = (s, refl, (same, refl, refl))
  pass-sticky t (suc n) none s same sticky over = (s, refl, (same, refl, refl))
  pass-sticky t zero (some p) s same sticky over = absurd (cc)
  pass-sticky t (suc n) (some p) s same sticky over =
      let here : process_at s.proctab p ≡ get_or t.head p no_process =
        ap (λ (u : Table Process). process_at u p) same in
      let more = visit n (next s.proctab) in
      let (real, kept, others) : (not ((get_or t.head p no_process).process == 0) ≡ true)
          × (is_sticky (get_or t.head p no_process).attr ≡ true)
          × (all_sticky t.head more ≡ true) =
        ground (arith, sticky) in
      let (s1, served, table, ran, state) =
        serve-sticky s p (ap (λ (q : Process). not (q.process == 0)) here ∙ real)
          (ap (λ (q : Process). is_sticky q.attr) here ∙ kept) in
      let s2 : Serial = record s1 { proctab = (next s1.proctab).1 } in
      let same2 : s2.proctab ≡ record t { pos = s2.proctab.pos } =
        next-pos s1.proctab
        ∙ ap (λ (u : Table Process). record u { pos = s2.proctab.pos }) (table ∙ same) in
      let (s', run, (table', ran', state')) =
        pass-sticky t n (next s1.proctab).0 s2 same2
          (ap (λ (u : Table Process). all_sticky t.head (visit n (next u))) table ∙ others)
          (ap (λ (u : Table Process). ends n (next u)) table ∙ over) in
      let before : calls stopper t.head (visit n (next s1.proctab)) ≡ calls stopper t.head more =
        ap (λ (u : Table Process). calls stopper t.head (visit n (next u))) table in
      let called : ((process_at s.proctab p).process == stopper)
          ≡ ((get_or t.head p no_process).process == stopper) =
        ap (λ (q : Process). q.process == stopper) here in
      (
        s',
        pass-served n p s s1 served ∙ run,
        (
          table',
          ran'
              ∙ ap₂
                  (λ (u : Table Process) (r : List Process). ran_after t.head (visit n (next u)) r)
                  table (ran ∙ ap (λ (q : Process). q ∷ s.ran) here),
          ground (arith, state', state, before, called),
        ),
      )

  -- With sticky processes that leave the table alone, one of which stops the processor, on_start()
  -- ends after one pass: it returns success with the table as it was, and each process of the
  -- table has run exactly once, in the order of the slots, those behind the one that stops too.
  pub on_start-one_pass :
      (s : Serial) (rounds : ℕ)
      → s.state ≢ running
      → all_sticky s.proctab.head (foreach s.proctab) ≡ true
      → calls stopper s.proctab.head (foreach s.proctab) ≡ true
      → (s' : Serial) × (on_start behave (rounds + 1) (s.proctab.last + 1) s ≡ returned ok s')
        × (s'.proctab ≡ record s.proctab { pos = s'.proctab.pos })
        × (s'.ran ≡ ran_after s.proctab.head (foreach s.proctab) s.ran)
        × (s'.state ≡ stopped)
  unfolding on_start passes foreach
  on_start-one_pass s rounds idle sticky stop =
      let begun : Serial = record s { state = running } in
      let start = first_next s.proctab in
      let t0 : Serial = record begun { proctab = start.1 } in
      let (s', run, (table, ran, state)) =
        pass-sticky s.proctab (s.proctab.last + 1) start.0 t0 (first_next-pos s.proctab) sticky
          (foreach-ends s.proctab) in
      let over : s'.state ≡ stopped = ground (arith, state, stop) in
      let more : rounds + 1 ≡ suc rounds = omega arith in
      let ended = passes-done rounds (s.proctab.last + 1) begun s' run over in
      (s', ground (arith, idle, more, ended), table, ran, over)
