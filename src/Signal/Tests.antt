-- ===== src/Signal/Tests.antt =====
-- Two handlers on one signal, and the theorems and the code at them.
use rattle.Base.{◌≡◌, refl, true, false, [], ◌∷◌, none, arith, count_below, each_under, inc_size}
use rattle.Table.Mask.{is_frag, frag_mask_size}
use rattle.Table.State.{Table, exists, current, isempty}
use rattle.Table.Walk.{skipped, pos_isfrag, table_search, search_from, satisfy_constrains}
use rattle.Table.Update.{push, write_chunk, get_tail_next, take_tail_next}
use rattle.Table.Valid.{IsValid}
use rattle.Table.Find.{search_slot}
use rattle.Table.Samples.{clear_check_sound}
use rattle.Signal.Registry.{
  Entry, no_entry, Signals, Memory, compare_signal_number, signal_register, push_handler,
  handle_signal,
}
use rattle.Signal.Dispatch.{stack_calls, handle_signal-calls, signal_register-top}
use rattle.Signal.Waiting.{here, later, register, IsSafe, Reach-IsSafe}

-- Handler 7 was registered first, then handler 8.
abbrev handlers : Table Entry
handlers = record {
  head =
      record { handler = 7; udata = 70 }
      ∷ record { handler = 8; udata = 80 }
      ∷ no_entry
      ∷ no_entry
      ∷ [];
  tail = 1;
  size = 4;
  pos = 1;
  last = 1;
  chunk_size = 16;
  chunk_count = 2;
  frag_count = 0;
  frag_mask = 0 ∷ [];
  flags = 1;
  constrains = none;
  on_constrains = none;
  dangling = false;
}

handlers-IsValid : IsValid handlers
unfolding exists frag_mask_size count_below is_frag each_under
handlers-IsValid = record {
  there = refl;
  solid = refl;
  room = refl;
  mask_room = refl;
  bytes = omega arith;
  limit = omega arith;
  last_used = refl;
  last_in = omega arith;
  pos_in = omega arith;
  tail_last = refl;
  holes = refl;
  clear = λ i lo hi. clear_check_sound (0 ∷ []) 2 8 i refl lo hi;
}

abbrev signals : Signals
signals = record {
  sigtab = record {
    head = record { num = 2; entry = handlers } ∷ [];
    tail = 0;
    size = 1;
    pos = 0;
    last = 0;
    chunk_size = 104;
    chunk_count = 1;
    frag_count = 0;
    frag_mask = 0 ∷ [];
    flags = 1;
    constrains = none;
    on_constrains = none;
    dangling = false;
  };
  wait_mask = λ n. false;
  altstack = true;
}

signals-IsValid : IsValid signals.sigtab
unfolding exists frag_mask_size count_below is_frag each_under
signals-IsValid = record {
  there = refl;
  solid = refl;
  room = refl;
  mask_room = refl;
  bytes = omega arith;
  limit = omega arith;
  last_used = refl;
  last_in = omega arith;
  pos_in = omega arith;
  tail_last = refl;
  holes = refl;
  clear = λ i lo hi. clear_check_sound (0 ∷ []) 1 8 i refl lo hi;
}

abbrev memory : Memory
memory = record {
  creation = record {
    head_ok = true;
    head_moved = false;
    mask_ok = true;
    junk = no_entry;
    junk_byte = λ i. 0;
  };
  signal = record {
    head_ok = true;
    head_moved = false;
    mask_ok = true;
    junk = record { num = 0; entry = handlers };
    junk_byte = λ i. 0;
  };
  handler = record {
    head_ok = true;
    head_moved = false;
    mask_ok = true;
    junk = no_entry;
    junk_byte = λ i. 0;
  };
}

handle_signal-calls_example : (handle_signal signals 2).1 ≡ stack_calls 2 handlers 2
unfolding search_slot current isempty exists skipped pos_isfrag is_frag compare_signal_number
handle_signal-calls_example =
    handle_signal-calls signals 2 0 signals-IsValid (omega arith) refl handlers-IsValid
      (omega arith) (λ hole. absurd (cc))

stack_calls-handlers :
    stack_calls 2 handlers 2
    ≡ record { handler = 8; signum = 2; udata = 80 }
      ∷ record { handler = 7; signum = 2; udata = 70 }
      ∷ []
unfolding stack_calls is_frag
stack_calls-handlers = refl

signal_register-top_example :
    (handle_signal (signal_register signals 2 9 90 memory).1 2).1
    ≡ record { handler = 9; signum = 2; udata = 90 } ∷ stack_calls 2 handlers 2
unfolding search_slot current isempty exists skipped pos_isfrag is_frag compare_signal_number
    signal_register push_handler push write_chunk get_tail_next take_tail_next satisfy_constrains
    table_search search_from inc_size
signal_register-top_example =
    signal_register-top signals 2 0 signals-IsValid (omega arith) refl 9 90 memory handlers-IsValid
      (omega arith) (λ z. absurd (omega arith)) (λ z. absurd (omega arith)) refl
      (λ z. absurd (omega arith)) refl

-- A handler for SIGINT, and one for SIGKILL, which is refused.
Reach-IsSafe_example :
    IsSafe (signal_register (signal_register signals 2 9 90 memory).1 9 9 90 memory).1
Reach-IsSafe_example =
    Reach-IsSafe (later (later here (register 2 9 90 memory)) (register 9 9 90 memory))
      (λ n bad. refl)
