-- ===== src/Proc/Serial/Drain.antt =====
-- Passes of on_start() over processes that are not sticky (proc_serial.c).
use rattle.Base.{
  ℕ, zero, suc, ◌+◌, ◌-◌, ◌^◌, ◌≤◌, ◌<◌, ◌≡◌, ◌⊎◌, refl, false, ◌==◌, List, ◌∷◌, Option, none, some,
  ok, arith, ap, ◌∙◌, sym, inl, inr,
}
use rattle.Table.State.{Table, has_flag}
use rattle.Table.Walk.{next}
use rattle.Table.Update.{del_current}
use rattle.Table.Valid.{IsValid, used, lookup}
use rattle.Table.Gap.{next-Gap, first_next-Gap}
use rattle.Table.Reuse.{pos-IsValid}
use rattle.Proc.Process.{Attr, fl_sticky, Process, no_process}
use rattle.Proc.Serial.Queue.{
  Serial, process_at, Behaviour, Outcome, returned, settle, serve, stepped, delete_current, pass,
  pass_from_start,
}
use rattle.Proc.Serial.Passes.{Quiet}
use rattle.Proc.Serial.Order.{add_process, queue, queue-none, queue-skip}
use rattle.Proc.Serial.Removal.{ℕ_cases, Standing, removed, next-Standing}

-- Every process is one that is called, and is not sticky.
abbrev pub OneShot : (ℕ → Option Process) → Type 0
OneShot f =
    (i : ℕ) (proc : Process)
    → f i ≡ some proc
    → ((proc.process == 0) ≡ false)
      × ((attr : Attr) × (proc.attr ≡ some attr) × (has_flag attr.flags fl_sticky ≡ false))

pass-none : (behave : Behaviour) (n : ℕ) (s : Serial) → pass behave n (none, s) ≡ returned ok s
unfolding pass
pass-none behave zero s = refl
pass-none behave (suc n) s = refl

module _ (behave : Behaviour) (quiet : Quiet behave) where
  abbrev called : Serial → ℕ → Serial
  called s p =
      let proc = process_at s.proctab p in (behave (record s { ran = proc ∷ s.ran }) proc).1

  -- The process of a slot runs and is deleted.
  pass-served_once :
      (n p : ℕ) (s : Serial) (attr : Attr)
      → ((process_at s.proctab p).process == 0) ≡ false
      → (process_at s.proctab p).attr ≡ some attr
      → has_flag attr.flags fl_sticky ≡ false
      → let t = (del_current no_process s.proctab).1 in
        pass behave (suc n) (some p, s)
        ≡ pass behave n ((next t).0, record (called s p) { proctab = (next t).1 })
  unfolding pass serve settle
  pass-served_once n p s attr real has once =
      let c = called s p in
      let (table, _) =
        quiet (record s { ran = process_at s.proctab p ∷ s.ran }) (process_at s.proctab p) in
      let has' : (process_at c.proctab p).attr ≡ some attr =
        ap (λ (t : Table Process). (process_at t p).attr) table ∙ has in
      let ended : pass behave (suc n) (some p, s) ≡ pass behave n (stepped (delete_current c)) =
        ground (arith, real, has', once) in
      let continue : Table Process → Outcome = λ u.
        let t = (del_current no_process u).1 in
        pass behave n ((next t).0, record c { proctab = (next t).1 }) in
      ended ∙ ap continue table

  -- What one process leaves: nothing more to run, or the next one.
  abbrev Left : (ℕ → Option Process) → ℕ → ℕ → Serial → Type 0
  Left f n p s =
      ((s' : Serial) × (pass behave (suc n) (some p, s) ≡ returned ok s')
        × ((i : ℕ) → lookup no_process s'.proctab i ≡ none)
        × (s'.ran ≡ process_at s.proctab p ∷ s.ran)
        × ((i : ℕ) → p + 1 ≤ i → f i ≡ none))
      ⊎ ((q : ℕ) × (s2 : Serial) × (pass behave (suc n) (some p, s) ≡ pass behave n (some q, s2))
          × Standing f q s2
          × (used s2.proctab ≤ used s.proctab)
          × (p < q)
          × (q ≤ s2.proctab.last)
          × (s2.proctab.last ≤ s.proctab.last)
          × (s2.ran ≡ process_at s.proctab p ∷ s.ran)
          × ((i : ℕ) → p + 1 ≤ i → i < q → f i ≡ none))

  drain_step :
      (f : ℕ → Option Process) (n p : ℕ) (s : Serial)
      → OneShot f
      → Standing f p s
      → used s.proctab < 2 ^ 32
      → Left f n p s
  drain_step f n p s once st limit =
      let proc = process_at s.proctab p in
      let (real, (attr, has, kept)) = once p proc (sym (st.same p (omega arith)) ∙ st.live) in
      let stepping = pass-served_once n p s attr real has kept in
      let (_, ran) = quiet (record s { ran = proc ∷ s.ran }) proc in
      let t1 = (del_current no_process s.proctab).1 in
      let r = removed f p s st in
      let c = called s p in
      let continue : Option ℕ × Table Process → Outcome =
        λ x. pass behave n (x.0, record c { proctab = x.1 }) in
      elim (next-Gap no_process r.valid (omega (arith, r.fewer, limit))) [
        | inl (q, stop, _, none_on) ↦
            let s' : Serial = record c { proctab = record t1 { pos = q } } in
            let rest = λ (i : ℕ) (far : p < i). none_on i (omega (arith, far, r.behind)) in
            inl (
              s',
              stepping ∙ ap continue stop ∙ pass-none behave n s',
              λ i. elim (ℕ_cases i p) [ inl near ↦ r.gone i near | inr far ↦ rest i far ],
              ran,
              λ i far. sym (r.away i (omega (arith, far))) ∙ rest i (omega (arith, far)),
            )
        | inr (q, go, inside, above, none_on, found) ↦
            let far : p < q = elim r.cursor [
              | inl stays ↦ omega (arith, stays, above)
              | inr back ↦ absurd (omega (arith, back, above, inside))
            ] in
            let between : (i : ℕ) → p < i → i < q → lookup no_process t1 i ≡ none =
              λ i lo hi. none_on i (omega (arith, lo, r.behind)) hi in
            inr (
              q,
              record c { proctab = record t1 { pos = q } },
              stepping ∙ ap continue go,
              next-Standing f p q s.proctab t1 c r far inside between found,
              r.fewer,
              far,
              inside,
              r.shorter,
              ran,
              λ i lo hi. sym (r.away i (omega (arith, lo))) ∙ between i (omega (arith, lo)) hi,
            )
      ]

  -- From a slot on, a pass runs what is there up to slot `e`, in order, and leaves nothing.
  drain :
      (f : ℕ → Option Process) (e n p k : ℕ) (s : Serial)
      → OneShot f
      → Standing f p s
      → used s.proctab ≤ e
      → e < 2 ^ 32
      → s.proctab.last - p ≤ n
      → p + 1 + k ≡ e
      → (s' : Serial) × (pass behave (suc n) (some p, s) ≡ returned ok s')
        × ((i : ℕ) → lookup no_process s'.proctab i ≡ none)
        × (s'.ran ≡ queue f (p + 1) k (process_at s.proctab p ∷ s.ran))
  drain f e zero p k s once st bound limit fuel sum =
      elim (drain_step f 0 p s once st (omega (arith, bound, limit))) [
        | inl (s', run, empty, ran, rest) ↦
            (s', run, empty, ran ∙ sym (queue-none f (p + 1) k _ rest))
        | inr (q, s2, _, _, _, far, inside, last, _, _) ↦
            absurd (omega (arith, far, inside, last, fuel))
      ]
  drain f e (suc n) p k s once st bound limit fuel sum =
      elim (drain_step f (suc n) p s once st (omega (arith, bound, limit))) [
        | inl (s', run, empty, ran, rest) ↦
            (s', run, empty, ran ∙ sym (queue-none f (p + 1) k _ rest))
        | inr (q, s2, go, st2, fewer, far, inside, last, ran, between) ↦
            let in_use : q < used s2.proctab = ground (arith, st2.live) in
            let (s', run, empty, ran') =
              drain f e n q (e - (q + 1)) s2 once st2 (omega (arith, fewer, bound)) limit
                (omega (arith, fuel, far, last)) (omega (arith, in_use, fewer, bound)) in
            let here : f q ≡ some (process_at s2.proctab q) =
              sym (st2.same q (omega arith)) ∙ st2.live in
            let skipped =
              queue-skip f k (p + 1) q (e - (q + 1)) (process_at s.proctab p ∷ s.ran)
                (omega (arith, sum, in_use, fewer, bound)) (omega (arith, far)) between in
            (
              s',
              go ∙ run,
              empty,
              ran'
                  ∙ ap
                      (λ (r : List Process).
                        queue f (q + 1) (e - (q + 1)) (process_at s2.proctab q ∷ r))
                      ran
                  ∙ ap
                      (λ (o : Option Process).
                        queue f (q + 1) (e - (q + 1))
                          (add_process o (process_at s.proctab p ∷ s.ran)))
                      (sym here)
                  ∙ sym skipped,
            )
      ]

  -- Over processes that are not sticky and leave the table alone, one pass runs each process of
  -- the table once, in the order of the slots, and leaves no process in the table; the deletions
  -- under the loop make it miss none.
  pub pass_from_start-OneShot :
      (s : Serial)
      → IsValid s.proctab
      → used s.proctab < 2 ^ 32
      → OneShot (lookup no_process s.proctab)
      → (s' : Serial) × (pass_from_start behave (s.proctab.last + 1) s ≡ returned ok s')
        × ((i : ℕ) → lookup no_process s'.proctab i ≡ none)
        × (s'.ran ≡ queue (lookup no_process s.proctab) 0 (used s.proctab) s.ran)
  pass_from_start-OneShot s v limit once =
      let t = s.proctab in
      let f = lookup no_process t in
      let fuel = t.last + 1 in
      let continue : Option ℕ × Table Process → Outcome =
        λ x. pass behave fuel (x.0, record s { proctab = x.1 }) in
      elim (first_next-Gap no_process v (omega (arith, limit))) [
        | inl (q, stop, _, empty) ↦ (
          record s { proctab = record t { pos = q } },
          ap continue stop ∙ pass-none behave fuel (record s { proctab = record t { pos = q } }),
          λ i. empty i (omega arith),
          sym (queue-none f 0 (used t) s.ran empty),
        )
        | inr (q, go, inside, _, before, found) ↦
            let s2 : Serial = record s { proctab = record t { pos = q } } in
            let in_use : q < used t = ground (arith, found) in
            let st : Standing f q s2 = record {
              valid = pos-IsValid q v inside;
              place = refl;
              live = found;
              same = λ i lo. refl;
              below = λ i hi. before i (omega arith) hi;
            } in
            let (s', run, empty, ran) =
              drain f (used t) t.last q (used t - (q + 1)) s2 once st (omega arith) limit
                (omega arith) (omega (arith, in_use)) in
            let more : t.last + 1 ≡ suc t.last = omega arith in
            let skipped =
              queue-skip f (used t) 0 q (used t - (q + 1)) s.ran (omega (arith, in_use))
                (omega arith) before in
            (
              s',
              ap continue go ∙ ap (λ (n : ℕ). pass behave n (some q, s2)) more ∙ run,
              empty,
              ran
                  ∙ ap
                      (λ (o : Option Process).
                        queue f (q + 1) (used t - (q + 1)) (add_process o s.ran))
                      (sym found)
                  ∙ sym skipped,
            )
      ]
