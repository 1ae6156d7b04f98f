-- ===== src/Signal/Dispatch.antt =====
-- handle_signal() and the stacks of handlers (modules/signal/signal.c).
use native.Mathlib.Decide.{ℕ_discrete}
use rattle.Base.{
  ℕ, zero, suc, ◌+◌, ◌^◌, ◌≤◌, ◌<◌, ◌≡◌, ◌≢◌, refl, true, false, List, [], ◌∷◌, Option, none, some,
  ok, get_or, arith, ap, ap₂, ◌∙◌, Bool-cases, inl, inr, count_below_full,
}
use rattle.Table.Mask.{is_frag}
use rattle.Table.State.{Table, last_chunk}
use rattle.Table.Walk.{prev_from, prev, visit_back, foreach_reverse}
use rattle.Table.Update.{push}
use rattle.Table.Valid.{IsValid, Steady, used, lookup}
use rattle.Table.Back.{live_down, foreach_reverse-live_down}
use rattle.Signal.Registry.{
  Entry, no_entry, Register, no_register, Signals, Call, call_of, call_from, handle_signal,
  compare_signal_number, register_at, Memory, signal_register, push_handler,
}
use rattle.Table.Find.{search_slot}
use rattle.Table.Write.{Stores, push-Stores}
use rattle.Table.Unresolved.{push_unresolved}
use rattle.Table.Sizes.{ClearsMask}
use rattle.Table.Answer.{
  table_search_at, search_slot-matches, put_chunk_at, put_chunk_at-IsValid, put_chunk_at-get_or,
  put_chunk_at-search_slot,
}

-- The calls for the entries in some slots.
unfoldable pub calls_at : ℕ → List Entry → List ℕ → List Call
calls_at signum entries [] = []
calls_at signum entries (p ∷ ps) =
    call_of signum (get_or entries p no_entry) (calls_at signum entries ps)

abbrev add_call : ℕ → Option Entry → List Call → List Call
add_call signum none calls = calls
add_call signum (some e) calls = call_of signum e calls

-- The calls that a stack of handlers should get: slot by slot, from the last one below `n` down,
-- where a slot holds a handler that is not NULL.
unfoldable pub stack_calls : ℕ → Table Entry → ℕ → List Call
stack_calls signum t zero = []
stack_calls signum t (suc n) = add_call signum (lookup no_entry t n) (stack_calls signum t n)

module _ (signum : ℕ) where
  prev_from-head : (t : Table Entry) (p : ℕ) → (prev_from t p).1.head ≡ t.head
  unfolding prev_from
  prev_from-head t zero = refl
  prev_from-head t (suc p) = ground (arith, prev_from-head t p)

  prev-head : (t : Table Entry) → (prev t).1.head ≡ t.head
  unfolding prev
  prev-head t = ground (arith, prev_from-head t t.pos)

  call_from-calls_at :
      (n : ℕ) (x : Option ℕ × Table Entry)
      → (call_from n signum x).0 ≡ calls_at signum x.1.head (visit_back n x)
  unfolding call_from calls_at visit_back
  call_from-calls_at zero (c, t) = refl
  call_from-calls_at (suc n) (none, t) = refl
  call_from-calls_at (suc n) (some p, t) = ap (call_of signum (get_or t.head p no_entry)) (
      call_from-calls_at n (prev t)
      ∙ ap (λ h. calls_at signum h (visit_back n (prev t))) (prev-head t))

  last_chunk-head : (t : Table Entry) → (last_chunk t).1.head ≡ t.head
  unfolding last_chunk
  last_chunk-head t = ground arith

  calls_at-live_down :
      (t : Table Entry) (n : ℕ)
      → n ≤ used t
      → calls_at signum t.head (live_down (is_frag t.frag_mask) n) ≡ stack_calls signum t n
  unfolding calls_at live_down stack_calls
  calls_at-live_down t zero le = refl
  calls_at-live_down t (suc n) le = ground (arith, calls_at-live_down t n (omega arith))

-- The last slot holds no handler if it is a hole; del_current() zeroes it.
abbrev pub BlankTail : Table Entry → Type 0
BlankTail t = is_frag t.frag_mask t.last ≡ true → (get_or t.head t.last no_entry).handler ≡ 0

pub stack_calls-empty :
    (signum : ℕ) (t : Table Entry) (n : ℕ)
    → ((i : ℕ) → i < n → lookup no_entry t i ≡ none)
    → stack_calls signum t n ≡ []
unfolding stack_calls
stack_calls-empty signum t zero h = refl
stack_calls-empty signum t (suc n) h =
    let rest = stack_calls-empty signum t n (λ i l. h i (omega arith)) in
    ap₂ (add_call signum) (h n (omega arith)) rest

pub stack_calls_ext :
    (signum : ℕ) (t u : Table Entry) (n : ℕ)
    → ((i : ℕ) → i < n → lookup no_entry t i ≡ lookup no_entry u i)
    → stack_calls signum t n ≡ stack_calls signum u n
unfolding stack_calls
stack_calls_ext signum t u zero h = refl
stack_calls_ext signum t u (suc n) h =
    let rest = stack_calls_ext signum t u n (λ i l. h i (omega arith)) in
    let here = h n (omega arith) in ap₂ (add_call signum) here rest

module _ (signum : ℕ) (t : Table Entry) (v : IsValid t) (small : t.frag_count < 2 ^ 32)
    (blank_tail : BlankTail t) where
  all_holes : t.chunk_count ≡ 0 → (i : ℕ) → i < used t → lookup no_entry t i ≡ none
  all_holes z i l =
      let hole = count_below_full (is_frag t.frag_mask) (used t) i (omega (arith, v.holes)) l in
      ground (arith, hole)

  -- The loop of handle_signal() on the handlers of one signal.
  pub call_from-stack_calls :
      (call_from (t.last + 1) signum (last_chunk t)).0 ≡ stack_calls signum t (used t)
  unfolding foreach_reverse calls_at stack_calls
  call_from-stack_calls =
      let walk =
        call_from-calls_at signum (t.last + 1) (last_chunk t)
        ∙ ap (λ h. calls_at signum h (foreach_reverse t)) (last_chunk-head signum t)
        ∙ ap (calls_at signum t.head) (foreach_reverse-live_down t v small) in
      elim (ℕ_discrete t.chunk_count 0) [
        | yes z ↦
            let nothing = stack_calls-empty signum t (used t) (all_holes z) in
            walk ∙ ground (arith, nothing)
        | no nz ↦
            let more : used t ≡ suc t.last = omega (arith, v.last_used) in
            let below = calls_at-live_down signum t t.last (omega (arith, v.last_used)) in
            let split : stack_calls signum t (used t) ≡ stack_calls signum t (suc t.last) =
              ap (stack_calls signum t) more in
            elim (Bool-cases (is_frag t.frag_mask t.last)) [
              | inl hole ↦ walk ∙ ground (arith, below, split, blank_tail hole)
              | inr chunk ↦ walk ∙ ground (arith, below, split)
            ]
      ]

-- A table of handlers that has one more handler on top than `t` calls it first.
pub stack_calls-Stores :
    (signum : ℕ) (t t' : Table Entry) (e : Entry)
    → Stores no_entry t t' (used t) e
    → stack_calls signum t' (used t') ≡ call_of signum e (stack_calls signum t (used t))
unfolding stack_calls
stack_calls-Stores signum t t' e st =
    let top : used t' ≡ suc (used t) = ground (arith, st.stored, st.extent) in
    ap (stack_calls signum t') top
    ∙ ap₂ (add_call signum) st.stored
        (stack_calls_ext signum t' t (used t) (λ i l. st.others i (omega arith)))

module _ (s : Signals) (signum q : ℕ) (v : IsValid s.sigtab) (small : s.sigtab.frag_count < 2 ^ 32)
    (known : search_slot no_register (λ sig. compare_signal_number sig signum) s.sigtab
      ≡ some q) where
  abbrev here : Register
  here = register_at s.sigtab q

  -- Raising a registered signal calls the handlers of its stack, from the last one registered
  -- down, each with its own data, and skips holes and NULL handlers.
  pub handle_signal-calls :
      IsValid here.entry
      → here.entry.frag_count < 2 ^ 32
      → BlankTail here.entry
      → (handle_signal s signum).1 ≡ stack_calls signum here.entry (used here.entry)
  unfolding handle_signal
  handle_signal-calls ve small_e blank_tail =
      let at =
        table_search_at no_register (λ sig. compare_signal_number sig signum) v small q known in
      let calls = call_from-stack_calls signum here.entry ve small_e blank_tail in
      ground (arith, at, calls)

  -- The same, where the registered signal is known by an equation.
  raised :
      (sig : Register)
      → here ≡ sig
      → IsValid sig.entry
      → sig.entry.frag_count < 2 ^ 32
      → BlankTail sig.entry
      → (handle_signal s signum).1 ≡ stack_calls signum sig.entry (used sig.entry)
  raised sig e ve small_e blank_tail =
      handle_signal-calls (rw e ve) (rw e small_e) (rw e blank_tail)
      ∙ ap (λ (w : Register). stack_calls signum w.entry (used w.entry)) e

module _ (s : Signals) (signum q : ℕ) (v : IsValid s.sigtab) (small : s.sigtab.frag_count < 2 ^ 32)
    (known : search_slot no_register (λ sig. compare_signal_number sig signum) s.sigtab
      ≡ some q) where
  abbrev stacked : Register
  stacked = register_at s.sigtab q

  register_known :
      (handler udata : ℕ) (mem : Memory)
      → let new : Entry = record { handler = handler; udata = udata } in
        signal_register s signum handler udata mem
        ≡ push_handler (record s { sigtab = record s.sigtab { pos = q } }) q new mem
  unfolding signal_register
  register_known handler udata mem =
      let at =
        table_search_at no_register (λ sig. compare_signal_number sig signum) v small q known in
      ground (arith, at)

  -- A handler that is registered on a signal that has handlers already is the first to be called
  -- when the signal is raised, and those before it are called as they were.
  pub signal_register-top :
      (handler udata : ℕ) (mem : Memory)
      → IsValid stacked.entry
      → stacked.entry.frag_count < 2 ^ 32
      → Steady stacked.entry
      → (used stacked.entry ≡ stacked.entry.size → ClearsMask stacked.entry.size)
      → stacked.entry.on_constrains ≡ none
      → handler ≢ 0
      → (signal_register s signum handler udata mem).0 ≡ ok
      → (handle_signal (signal_register s signum handler udata mem).1 signum).1
        ≡ record { handler = handler; signum = signum; udata = udata }
          ∷ stack_calls signum stacked.entry (used stacked.entry)
  unfolding push_handler compare_signal_number
  signal_register-top handler udata mem ve small_e steady clears no_resolver not_null h =
      let new : Entry = record { handler = handler; udata = udata } in
      let pushed = push no_entry stacked.entry new mem.handler in
      let entries = pushed.1 in
      let sig : Register = record stacked { entry = entries } in
      let start = register_known handler udata mem in
      let done : pushed.0 ≡ ok = ground (arith, start) in
      let after : (signal_register s signum handler udata mem).1
          ≡ record s { sigtab = put_chunk_at s.sigtab q sig } =
        ground (arith, start, done) in
      let pass =
        push_unresolved no_entry stacked.entry new mem.handler ve small_e no_resolver done in
      let st =
        push-Stores no_entry stacked.entry new mem.handler ve small_e steady clears pass done in
      let (match, ne, inside) =
        search_slot-matches no_register (λ sig. compare_signal_number sig signum) v small q known in
      let s' : Signals = record s { sigtab = put_chunk_at s.sigtab q sig } in
      let valid' = put_chunk_at-IsValid no_register v q inside sig in
      let known' =
        put_chunk_at-search_slot no_register v q inside sig
          (λ sig. compare_signal_number sig signum) ne match in
      let read : register_at s'.sigtab q ≡ sig = put_chunk_at-get_or no_register v q inside sig in
      let few : entries.frag_count < 2 ^ 32 = omega (arith, st.extent, st.counted) in
      let top : entries.last ≡ used stacked.entry =
        ground (arith, st.stored, st.extent, st.valid.last_used) in
      let filled : is_frag entries.frag_mask (used stacked.entry) ≡ false =
        ground (arith, st.stored) in
      let tail_filled : is_frag entries.frag_mask entries.last ≡ false =
        ap (is_frag entries.frag_mask) top ∙ filled in
      let calls =
        raised s' signum q valid' small known' sig read st.valid few (λ hole. absurd (cc)) in
      ap (λ w. (handle_signal w signum).1) after
      ∙ calls
      ∙ stack_calls-Stores signum stacked.entry entries new st
      ∙ ground (arith, not_null)
