-- ===== src/Signal/Registry.antt =====
-- The signal table of signal.c: each registered signal has a table of handlers. A handler is a
-- number, 0 for NULL, and so is its user data; `wait_mask` is l_wait_sigmask.
use rattle.Base.{
  ℕ, zero, suc, ◌+◌, Bool, true, false, ◌||◌, List, [], ◌∷◌, Option, none, some, Status, fail, ok,
  ◌==◌, if◌then◌else◌, get_or, set,
}
use rattle.Table.State.{Table, zeroed, isempty, current, last_chunk, set_constrains}
use rattle.Table.Walk.{foreach, next, prev, first_next, table_search}
use rattle.Table.Update.{Alloc, create, destroy, push, del_current}

-- signal_entry_t
pub record Entry : Type 0 where
  pub handler : ℕ
  pub udata : ℕ

abbrev pub no_entry : Entry
no_entry = record { handler = 0; udata = 0 }

-- signal_register_t
pub record Register : Type 0 where
  pub num : ℕ
  pub entry : Table Entry

abbrev pub no_register : Register
no_register = record { num = 0; entry = zeroed }

pub record Signals : Type 0 where
  pub sigtab : Table Register
  pub wait_mask : ℕ → Bool
  pub altstack : Bool

unfoldable pub compare_signal_number : Register → ℕ → Bool
compare_signal_number sig signum = sig.num == signum

unfoldable pub compare_entry_handler : Entry → ℕ → Bool
compare_entry_handler entry handler = entry.handler == handler

unfoldable pub constrains_on_entry : Entry → Entry → Bool
constrains_on_entry entry find = compare_entry_handler entry find.handler

-- sigaddset() and sigdelset()
abbrev pub sigaddset : (ℕ → Bool) → ℕ → ℕ → Bool
sigaddset mask signum n = n == signum || mask n

abbrev pub sigdelset : (ℕ → Bool) → ℕ → ℕ → Bool
sigdelset mask signum n = if n == signum then false else mask n

-- SIGSEGV, SIGKILL, SIGSTOP, SIGILL and SIGFPE, by their numbers on Linux.
abbrev pub forbidden : ℕ → Bool
forbidden signum = signum == 11 || signum == 9 || signum == 19 || signum == 4 || signum == 8

-- What the allocator answers during a registration: to the table of a new signal, to the push of
-- that signal, and to the push of the handler.
pub record Memory : Type 0 where
  pub creation : Alloc Entry
  pub signal : Alloc Register
  pub handler : Alloc Entry

abbrev pub register_at : Table Register → ℕ → Register
register_at t p = get_or t.head p no_register

abbrev pub put_register : Table Register → ℕ → Table Entry → Table Register
put_register t p entries = record t {
  head = set t.head p (record (register_at t p) { entry = entries });
}

-- One round of unregister_signal(), on the table and the mask: the slot is deleted if it has the
-- number.
abbrev pub unregister_one : ℕ → ℕ → Table Register → (ℕ → Bool) → Table Register × (ℕ → Bool)
unregister_one signum p t mask =
    let entries = (destroy no_entry (register_at t p).entry).1 in
    if (register_at t p).num == signum
    then ((del_current no_register (put_register t p entries)).1, sigdelset mask signum)
    else (t, mask)

unfoldable pub unregister_from :
    ℕ → ℕ → Option ℕ × Table Register → (ℕ → Bool) → Table Register × (ℕ → Bool)
unregister_from zero signum (c, t) mask = (t, mask)
unregister_from (suc n) signum (none, t) mask = (t, mask)
unregister_from (suc n) signum (some p, t) mask =
    let (t', mask') = unregister_one signum p t mask in unregister_from n signum (next t') mask'

unfoldable pub unregister_signal : Signals → ℕ → Signals
unregister_signal s signum =
    let (t, mask) = unregister_from (s.sigtab.last + 1) signum (first_next s.sigtab) s.wait_mask in
    record s { sigtab = t; wait_mask = mask }

abbrev pub searched : Signals → ℕ → Status × Option ℕ × Table Register
searched s signum = table_search no_register s.sigtab (λ sig. compare_signal_number sig signum)

-- register_signal(), with what the search leaves.
unfoldable pub register_signal : Signals → ℕ → Memory → Status × Signals
register_signal s signum mem =
    let (found, match, t) = searched s signum in
    let (made, entries) = create no_entry zeroed 4 16 0 mem.creation in
    let new : Register = record {
      num = signum;
      entry = set_constrains entries constrains_on_entry;
    } in
    let (pushed, t') = push no_register t new mem.signal in
    if forbidden signum then (fail, s) else elim match [
      | some _ ↦ (fail, record s { sigtab = t })
      | none ↦ elim made [
        | fail ↦ (fail, record s { sigtab = t })
        | ok ↦ elim pushed [
          | fail ↦ (fail, record s { sigtab = t' })
          | ok ↦ (ok, record s { sigtab = t'; wait_mask = sigaddset s.wait_mask signum })
        ]
      ]
    ]

-- The handler goes on the stack of the signal in slot `p`.
unfoldable pub push_handler : Signals → ℕ → Entry → Memory → Status × Signals
push_handler s p new mem =
    let sig = register_at s.sigtab p in
    let (pushed, entries) = push no_entry sig.entry new mem.handler in
    let s' = record s { sigtab = put_register s.sigtab p entries } in
    elim pushed [
      | ok ↦ (ok, s')
      | fail ↦ (fail, if isempty entries then unregister_signal s' sig.num else s')
    ]

-- Behind a registration of the signal the pointer is the current one.
abbrev pub push_current : Signals → Entry → Memory → Status × Signals
push_current s new mem = elim (current s.sigtab) [
  | some p ↦ push_handler s p new mem
  | none ↦ (fail, s)
]

unfoldable pub signal_register : Signals → ℕ → ℕ → ℕ → Memory → Status × Signals
signal_register s signum handler udata mem =
    let (found, match, t) = searched s signum in
    let s' = record s { sigtab = t } in
    let new : Entry = record { handler = handler; udata = udata } in
    let (registered, s'') = register_signal s' signum mem in
    elim match [
      | some p ↦ push_handler s' p new mem
      | none ↦ elim registered [ fail ↦ (fail, s'') | ok ↦ push_current s'' new mem ]
    ]

-- The handler in the table of the signal in slot `p`.
unfoldable pub remove_handler : Signals → ℕ → ℕ → Signals
remove_handler s p handler =
    let sig = register_at s.sigtab p in
    let (found, match, entries) =
      table_search no_entry sig.entry (λ e. compare_entry_handler e handler) in
    let left = (del_current no_entry entries).1 in
    let s' = record s { sigtab = put_register s.sigtab p left } in
    elim match [
      | none ↦ record s { sigtab = put_register s.sigtab p entries }
      | some _ ↦ if isempty left then unregister_signal s' sig.num else s'
    ]

unfoldable pub signal_unregister : Signals → ℕ → ℕ → Signals
signal_unregister s signum handler =
    let (found, match, t) = searched s signum in
    let s' = record s { sigtab = t } in
    elim match [ none ↦ s' | some p ↦ remove_handler s' p handler ]

-- A call of a handler: the handler, the signal and the user data.
pub record Call : Type 0 where
  pub handler : ℕ
  pub signum : ℕ
  pub udata : ℕ

abbrev pub call_of : ℕ → Entry → List Call → List Call
call_of signum e calls =
    if e.handler == 0
    then calls
    else record { handler = e.handler; signum = signum; udata = e.udata } ∷ calls

-- The loop of handle_signal(), over handlers that leave the tables alone.
unfoldable pub call_from : ℕ → ℕ → Option ℕ × Table Entry → List Call × Table Entry
call_from zero signum (c, t) = ([], t)
call_from (suc n) signum (none, t) = ([], t)
call_from (suc n) signum (some p, t) =
    let (calls, t') = call_from n signum (prev t) in
    (call_of signum (get_or t.head p no_entry) calls, t')

unfoldable pub handle_signal : Signals → ℕ → Signals × List Call
handle_signal s signum =
    let (found, match, t) = searched s signum in
    elim match [
      | none ↦ (record s { sigtab = t }, [])
      | some p ↦
          let entries = (register_at t p).entry in
          let (calls, entries') = call_from (entries.last + 1) signum (last_chunk entries) in
          (record s { sigtab = put_register t p entries' }, calls)
    ]

-- signal_wait(), where sigwaitinfo() answers `signo`.
unfoldable pub signal_wait : Signals → ℕ → Signals × List Call
signal_wait s signo = handle_signal s signo

-- The tables of the given slots are destroyed.
unfoldable pub destroy_entries : Table Register → List ℕ → Table Register
destroy_entries t [] = t
destroy_entries t (p ∷ ps) =
    destroy_entries (put_register t p (destroy no_entry (register_at t p).entry).1) ps

unfoldable pub unregister_signal_all : Signals → Signals
unregister_signal_all s = record s {
  sigtab = destroy_entries s.sigtab (foreach s.sigtab);
  wait_mask = λ n. false;
}

unfoldable pub signal_fini : Signals → Signals
signal_fini s =
    let s' = unregister_signal_all s in
    record s' { sigtab = (destroy no_register s'.sigtab).1; altstack = false }

-- `stack_ok`: whether the alternate stack can be had.
unfoldable pub signal_init : Signals → Alloc Register → Bool → Status × Signals
signal_init s a stack_ok =
    let (made, t) = create no_register s.sigtab 4 104 0 a in
    let s' = record s { sigtab = t; wait_mask = λ n. false } in
    elim made [
      | fail ↦ (fail, s')
      | ok ↦
          if stack_ok
          then (ok, record s' { altstack = true })
          else (fail, record s' { sigtab = (destroy no_register t).1 })
    ]
