-- ===== src/Signal/Waiting.antt =====
-- The set of signals that signal_wait() waits for (modules/signal/signal.c).
use rattle.Base.{
  ℕ, zero, suc, ◌≡◌, refl, Bool, true, false, Option, none, some, arith, ap, ◌∙◌, Option-cases, inl,
  inr,
}
use rattle.Table.State.{Table, current}
use rattle.Table.Walk.{next, table_search}
use rattle.Table.Update.{Alloc, push, del_current}
use rattle.Signal.Registry.{
  Register, Entry, Signals, Memory, forbidden, unregister_one, unregister_from, unregister_signal,
  register_signal, push_handler, signal_register, remove_handler, signal_unregister, handle_signal,
  signal_wait, signal_init, signal_fini, unregister_signal_all, register_at, put_register, no_entry,
  searched, compare_entry_handler,
}

-- What the rest of the program may do: register, unregister, wait for a signal that comes, and
-- close and open the component.
pub data Step (s : Signals) : Signals → Type 0 where
  register :
      (signum handler udata : ℕ) (mem : Memory)
      → Step s (signal_register s signum handler udata mem).1
  unregister : (signum handler : ℕ) → Step s (signal_unregister s signum handler)
  wait : (signo : ℕ) → Step s (signal_wait s signo).0
  fini : Step s (signal_fini s)
  init : (a : Alloc Register) (stack_ok : Bool) → Step s (signal_init s a stack_ok).1

pub data Reach (s : Signals) : Signals → Type 0 where
  here : Reach s s
  later : {t u : Signals} → Reach s t → Step t u → Reach s u

abbrev pub IsSafe : Signals → Type 0
IsSafe s = (n : ℕ) → forbidden n ≡ true → s.wait_mask n ≡ false

unregister_from-mask :
    (fuel signum : ℕ) (x : Option ℕ × Table Register) (mask : ℕ → Bool) (n : ℕ)
    → mask n ≡ false
    → (unregister_from fuel signum x mask).1 n ≡ false
unfolding unregister_from
unregister_from-mask zero signum (c, t) mask n h = h
unregister_from-mask (suc fuel) signum (none, t) mask n h = h
unregister_from-mask (suc fuel) signum (some p, t) mask n h =
    let (t', mask') = unregister_one signum p t mask in
    unregister_from-mask fuel signum (next t') mask' n (ground arith)

unregister_signal-IsSafe :
    (s : Signals) (signum : ℕ) → IsSafe s → IsSafe (unregister_signal s signum)
unfolding unregister_signal
unregister_signal-IsSafe s signum safe n bad =
    unregister_from-mask _ signum _ s.wait_mask n (safe n bad)

register_signal-IsSafe :
    (s : Signals) (signum : ℕ) (mem : Memory) → IsSafe s → IsSafe (register_signal s signum mem).1
unfolding register_signal
register_signal-IsSafe s signum mem safe n bad = ground (arith, safe n bad)

push_handler-IsSafe :
    (s : Signals) (p : ℕ) (new : Entry) (mem : Memory)
    → IsSafe s
    → IsSafe (push_handler s p new mem).1
unfolding push_handler
push_handler-IsSafe s p new mem safe n bad =
    let sig = register_at s.sigtab p in
    let entries = (push no_entry sig.entry new mem.handler).1 in
    let s' : Signals = record s { sigtab = put_register s.sigtab p entries } in
    ground (arith, safe n bad, unregister_signal-IsSafe s' sig.num safe n bad)

signal_register-IsSafe :
    (s : Signals) (signum handler udata : ℕ) (mem : Memory)
    → IsSafe s
    → IsSafe (signal_register s signum handler udata mem).1
unfolding signal_register
signal_register-IsSafe s signum handler udata mem safe n bad =
    let s' : Signals = record s { sigtab = (searched s signum).2 } in
    let s'' = (register_signal s' signum mem).1 in
    let new : Entry = record { handler = handler; udata = udata } in
    let safe'' = register_signal-IsSafe s' signum mem safe in
    elim (Option-cases (searched s signum).1) [
      | inr (p, known) ↦ ground (arith, known, push_handler-IsSafe s' p new mem safe n bad)
      | inl fresh ↦ elim (Option-cases (current s''.sigtab)) [
        | inl e ↦ ground (arith, fresh, e, safe'' n bad)
        | inr (p, e) ↦
            ground (arith, fresh, e, safe'' n bad, push_handler-IsSafe s'' p new mem safe'' n bad)
      ]
    ]

remove_handler-IsSafe :
    (s : Signals) (p handler : ℕ) → IsSafe s → IsSafe (remove_handler s p handler)
unfolding remove_handler
remove_handler-IsSafe s p handler safe n bad =
    let sig = register_at s.sigtab p in
    let entries = (table_search no_entry sig.entry (λ e. compare_entry_handler e handler)).2 in
    let left = (del_current no_entry entries).1 in
    let s' : Signals = record s { sigtab = put_register s.sigtab p left } in
    ground (arith, safe n bad, unregister_signal-IsSafe s' sig.num safe n bad)

signal_unregister-IsSafe :
    (s : Signals) (signum handler : ℕ) → IsSafe s → IsSafe (signal_unregister s signum handler)
unfolding signal_unregister
signal_unregister-IsSafe s signum handler safe n bad =
    let s' : Signals = record s { sigtab = (searched s signum).2 } in
    elim (Option-cases (searched s signum).1) [
      | inl fresh ↦ ground (arith, fresh, safe n bad)
      | inr (p, known) ↦ ground (arith, known, remove_handler-IsSafe s' p handler safe n bad)
    ]

signal_wait-mask : (s : Signals) (signo : ℕ) → (signal_wait s signo).0.wait_mask ≡ s.wait_mask
unfolding signal_wait handle_signal
signal_wait-mask s signo = ground arith

signal_init-IsSafe :
    (s : Signals) (a : Alloc Register) (stack_ok : Bool) → IsSafe (signal_init s a stack_ok).1
unfolding signal_init
signal_init-IsSafe s a stack_ok n bad = ground arith

Step-IsSafe : {s t : Signals} → Step s t → IsSafe s → IsSafe t
unfolding signal_fini unregister_signal_all
Step-IsSafe {s} (register signum handler udata mem) safe =
    signal_register-IsSafe s signum handler udata mem safe
Step-IsSafe {s} (unregister signum handler) safe = signal_unregister-IsSafe s signum handler safe
Step-IsSafe {s} (wait signo) safe =
    λ n bad. ap (λ (m : ℕ → Bool). m n) (signal_wait-mask s signo) ∙ safe n bad
Step-IsSafe {s} fini safe = λ n bad. refl
Step-IsSafe {s} (init a stack_ok) safe = signal_init-IsSafe s a stack_ok

-- From any state in which SIGSEGV, SIGKILL, SIGSTOP, SIGILL and SIGFPE are not waited for, none of
-- them is ever waited for, whatever is registered, unregistered and received in between.
pub Reach-IsSafe : {s t : Signals} → Reach s t → IsSafe s → IsSafe t
Reach-IsSafe here safe = safe
Reach-IsSafe (later r st) safe = Step-IsSafe st (Reach-IsSafe r safe)
