-- ===== src/Args/Merging.antt =====
-- What the operations of args.c do to a section that exists.
use rattle.Base.{
  ℕ, zero, suc, ◌+◌, ◌^◌, ◌<◌, ◌≡◌, refl, true, List, [], ◌∷◌, Option, none, some, Status, ok, ◌==◌,
  if◌then◌else◌, get_or, set, get_or-set, length, length-set, replicate, arith, ap, ap₂, ◌∙◌, sym,
  Status-cases, inl, inr,
}
use rattle.Table.State.{Table, exists, current, zeroed}
use rattle.Table.Walk.{table_search, satisfy_constrains}
use rattle.Table.Update.{insert}
use rattle.Table.Valid.{IsValid, used, current_lem}
use rattle.Table.Find.{search_slot, search_slot-some, table_search_lem, status_of}
use rattle.Table.Sizes.{ClearsMask}
use rattle.Table.Reuse.{free_slot, pos-IsValid}
use rattle.Table.Write.{Stores, insert-Stores, constrained, verdict, head-IsValid}
use rattle.Table.Unresolved.{insert-resolved}
use rattle.Args.Words.{Str}
use rattle.Args.Sections.{
  UsrArg, SysArg, Entry, no_usrarg, blank_entry, Sections, section_at, pointer_to_section,
  compare_entry_name, constrains_on_entry, merge_usrargs, update_on_constrains, Memory,
  ready_section, occurrence, insert_args,
}
use rattle.Args.Register.{bind_args, bind_current, registration, args_register, args_unregister}

-- Nothing new, nothing changed.
merge_usrargs-nothing : (us : List UsrArg) (n : ℕ) → merge_usrargs us (replicate n no_usrarg) ≡ us
unfolding merge_usrargs
merge_usrargs-nothing [] n = refl
merge_usrargs-nothing (u ∷ us) zero = refl
merge_usrargs-nothing (u ∷ us) (suc n) = ap (◌∷◌ u) (merge_usrargs-nothing us n)

-- Merging one occurrence: its option counts once more and has the new argument, each other option
-- is left alone.
pub merge_usrargs-get_or :
    (us : List UsrArg) (n k j : ℕ) (arg : Option Str)
    → n ≡ length us
    → k < n
    → let new : UsrArg = record { found = 1; arg = arg } in
      let old = get_or us j no_usrarg in
      get_or (merge_usrargs us (set (replicate n no_usrarg) k new)) j no_usrarg
      ≡ (if j == k then record { found = old.found + 1; arg = arg } else old)
unfolding merge_usrargs
merge_usrargs-get_or [] n k j arg len lt = absurd (omega arith)
merge_usrargs-get_or (u ∷ us) zero k j arg len lt = absurd (omega arith)
merge_usrargs-get_or (u ∷ us) (suc n) zero zero arg len lt = refl
merge_usrargs-get_or (u ∷ us) (suc n) zero (suc j) arg len lt =
    ap (λ ws. get_or ws j no_usrarg) (merge_usrargs-nothing us n) ∙ ground arith
merge_usrargs-get_or (u ∷ us) (suc n) (suc k) zero arg len lt = ground arith
merge_usrargs-get_or (u ∷ us) (suc n) (suc k) (suc j) arg len lt =
    merge_usrargs-get_or us n k j arg (omega arith) (omega arith) ∙ ground arith

-- A section table as create_section() leaves it and insertions keep it.
pub record IsSection (t : Table Entry) : Type 0 where
  pub valid : IsValid t
  pub no_holes : t.frag_count ≡ 0
  pub compares : t.constrains ≡ some constrains_on_entry
  pub updates : t.on_constrains ≡ some update_on_constrains

-- The slot of the entry with this name, if the section has it.
abbrev pub slot_of : Table Entry → Option Str → Option ℕ
slot_of t name = search_slot blank_entry (λ e. compare_entry_name e name) t

abbrev pub entry_at : Table Entry → ℕ → Entry
entry_at t q = get_or t.head q blank_entry

-- The section with the entry in slot `q` replaced; the cursor is left there.
abbrev pub put_entry : Table Entry → ℕ → Entry → Table Entry
put_entry t q e = record t { head = set t.head q e; pos = q }

module _ (tables : Sections) (sec i : ℕ) (at : pointer_to_section sec ≡ some i)
    (section : IsSection (section_at tables i)) where
  abbrev here : Table Entry
  here = section_at tables i

  there : exists here ≡ true
  there = section.valid.there

  small : here.frag_count < 2 ^ 32
  small = omega (arith, section.no_holes)

  ready : (mem : Memory) → ready_section here mem.creation ≡ (ok, here)
  unfolding ready_section
  ready mem = simp (there, ready_section)

  insert-occurrence :
      (name : Option Str) (opt q : ℕ) (arg : Option Str) (mem : Memory)
      → slot_of here name ≡ some q
      → let new = occurrence name opt arg in
        let old = entry_at here q in
        insert blank_entry here new mem.insertion
        ≡ (ok, put_entry here q (record old { usrargs = merge_usrargs old.usrargs new.usrargs }))
  unfolding occurrence constrains_on_entry update_on_constrains
  insert-occurrence name opt q arg mem slot =
      insert-resolved blank_entry here (occurrence name opt arg) mem.insertion constrains_on_entry
        update_on_constrains q section.valid small section.compares section.updates slot

  -- An occurrence of an option for a name that the section knows adds to the entry of that name,
  -- and changes nothing else.
  pub insert_args-known :
      (name : Option Str) (opt q : ℕ) (arg : Option Str) (mem : Memory)
      → slot_of here name ≡ some q
      → let old = entry_at here q in
        let merged = merge_usrargs old.usrargs (occurrence name opt arg).usrargs in
        insert_args tables sec name opt arg mem
        ≡ (ok, set tables i (put_entry here q (record old { usrargs = merged })))
  unfolding insert_args
  insert_args-known name opt q arg mem slot =
      simp (at, ready mem, insert-occurrence name opt q arg mem slot, insert_args)

  -- The check of the constrains passes where the section does not know the name.
  unknown_passes :
      (src : Entry)
      → slot_of here src.name ≡ none
      → (satisfy_constrains blank_entry here src).0 ≡ ok
  unfolding constrains_on_entry
  unknown_passes src slot =
      let (c, s, stands) =
        table_search_lem blank_entry (λ e. constrains_on_entry e src) here section.valid small in
      ap (λ (r : Status × Table Entry). r.0)
        (constrained blank_entry here src constrains_on_entry section.compares)
      ∙ ap verdict (c ∙ slot)

  insert-registration :
      (name : Option Str) (q : ℕ) (args : List SysArg) (mem : Memory)
      → slot_of here name ≡ some q
      → insert blank_entry here (registration name (some args)) mem.insertion
        ≡ (ok, put_entry here q (record (entry_at here q) { sysargs = some args }))
  unfolding constrains_on_entry update_on_constrains
  insert-registration name q args mem slot =
      insert-resolved blank_entry here (registration name (some args)) mem.insertion
        constrains_on_entry update_on_constrains q section.valid small section.compares
        section.updates slot

  -- The entry that was written is the current one.
  current_put :
      (name : Option Str) (q : ℕ) (e : Entry) (args : List SysArg)
      → slot_of here name ≡ some q
      → bind_current (put_entry here q e) (some args) ≡ bind_args e (some args)
  unfolding bind_current
  current_put name q e args slot =
      let (ne, inside) =
        search_slot-some blank_entry (λ e. compare_entry_name e name) here section.valid q slot in
      let valid =
        head-IsValid (set here.head q e) (pos-IsValid q section.valid inside)
          (length-set here.head q e) in
      let now : current (put_entry here q e) ≡ some q = current_lem valid ∙ ground arith in
      let room : q < length here.head = omega (arith, section.valid.room, section.valid.last_in) in
      let read : get_or (set here.head q e) q blank_entry ≡ e =
        get_or-set here.head q q e blank_entry room ∙ ground arith in
      simp (now, read, bind_current)

  -- A registration for a name that has options from the command line: the registrant's options
  -- are bound to these, and stay registered with the entry, also where binding fails.
  pub args_register-known :
      (name : Option Str) (q : ℕ) (args : List SysArg) (mem : Memory)
      → slot_of here name ≡ some q
      → let entry = record (entry_at here q) { sysargs = some args } in
        let (s, effects) = bind_args entry (some args) in
        args_register tables sec name (some args) mem
        ≡ (s, set tables i (put_entry here q entry), effects)
  unfolding args_register
  args_register-known name q args mem slot =
      let entry : Entry = record (entry_at here q) { sysargs = some args } in
      let inserted = insert-registration name q args mem slot in
      let bound = current_put name q entry args slot in
      elim (Status-cases (bind_args entry (some args)).0) [
        | inl done ↦ simp (at, ready mem, inserted, bound, done, args_register)
        | inr failed ↦ simp (at, ready mem, inserted, bound, failed, args_register)
      ]

  search_known :
      (name : Option Str) (q : ℕ)
      → slot_of here name ≡ some q
      → table_search blank_entry here (λ e. compare_entry_name e name)
        ≡ (ok, some q, record here { pos = q })
  search_known name q slot =
      let (c, s, stands) =
        table_search_lem blank_entry (λ e. compare_entry_name e name) here section.valid small in
      let found = c ∙ slot in
      let moved = stands.same ∙ ap (λ (p : ℕ). record here { pos = p }) (stands.answered q found) in
      ap₂ (λ (s : Status) (r : Option ℕ × Table Entry). (s, r.0, r.1))
        (s ∙ ap (status_of {A = ℕ}) found)
        (ap₂ (λ (c : Option ℕ) (t : Table Entry). (c, t)) found moved)

  -- Unregistering a name that the section knows clears its registration and keeps what the user
  -- gave.
  pub args_unregister-known :
      (name : Option Str) (q : ℕ)
      → slot_of here name ≡ some q
      → args_unregister tables sec name
        ≡ (ok, set tables i (put_entry here q (record (entry_at here q) { sysargs = none })))
  unfolding args_unregister
  args_unregister-known name q slot = simp (at, there, search_known name q slot, args_unregister)

pub pointer_to_section-lt : (sec i : ℕ) → pointer_to_section sec ≡ some i → i < 27
unfolding pointer_to_section
pointer_to_section-lt sec i h = ground arith

module _ (tables : Sections) (sec i : ℕ) (at : pointer_to_section sec ≡ some i)
    (section : IsSection (section_at tables i)) where
  insert_args_cases :
      (name : Option Str) (opt : ℕ) (arg : Option Str) (mem : Memory)
      → let (s, t') =
          insert blank_entry (section_at tables i) (occurrence name opt arg) mem.insertion in
        insert_args tables sec name opt arg mem ≡ (s, set tables i t')
  unfolding insert_args
  insert_args_cases name opt arg mem =
      elim (Status-cases
        (insert blank_entry (section_at tables i) (occurrence name opt arg) mem.insertion).0) [
          | inl done ↦ simp (at, ready tables sec i at section mem, done, insert_args)
          | inr failed ↦ simp (at, ready tables sec i at section mem, failed, insert_args)
        ]

  -- The first occurrence of an option for a name that the section does not know, where memory
  -- suffices: the section has one entry more, which holds that occurrence alone.
  pub insert_args-unknown :
      (name : Option Str) (opt : ℕ) (arg : Option Str) (mem : Memory)
      → length tables ≡ 27
      → slot_of (section_at tables i) name ≡ none
      → (used (section_at tables i) ≡ (section_at tables i).size
          → ClearsMask (section_at tables i).size)
      → (insert_args tables sec name opt arg mem).0 ≡ ok
      → let t = section_at tables i in
        let tables' = (insert_args tables sec name opt arg mem).1 in
        Stores blank_entry t (section_at tables' i) (free_slot t) (occurrence name opt arg)
  unfolding occurrence
  insert_args-unknown name opt arg mem len slot clears h =
      let t = section_at tables i in
      let t' = (insert blank_entry t (occurrence name opt arg) mem.insertion).1 in
      let cases = insert_args_cases name opt arg mem in
      let done = sym (ap (λ (r : Status × Sections). r.0) cases) ∙ h in
      let read : section_at (set tables i t') i ≡ t' =
        get_or-set tables i i t' zeroed (omega (arith, pointer_to_section-lt sec i at))
        ∙ ground arith in
      rw (cases, read)
        (insert-Stores blank_entry t (occurrence name opt arg) mem.insertion section.valid
          (small tables sec i at section) (λ e. section.no_holes) clears
          (unknown_passes tables sec i at section (occurrence name opt arg) slot) done)
