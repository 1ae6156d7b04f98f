-- ===== src/Module/Tests.antt =====
-- A core and a module at which the theorems apply.
use rattle.Base.{ℕ, true, false, [], ◌∷◌, none, some, fail, ok}
use rattle.Table.Update.{Alloc}
use rattle.Conf.Numbers.{pos}
use rattle.Conf.Values.{Value, number}
use rattle.Conf.Decls.{Libconfig, other_kind}
use rattle.Module.Attach.{no_hook, Module, Core, Around}

abbrev empty_file : Libconfig ℕ
empty_file = record {
  lookup = λ path. none;
  is_array = λ s. false;
  setting_length = λ s. 0;
  get_elem = λ s i. none;
  kind = λ s. other_kind;
  get_string = λ s. none;
  get_int = λ s. pos 0;
}

abbrev value_memory : Alloc Value
value_memory = record {
  head_ok = true;
  head_moved = false;
  mask_ok = true;
  junk = number 0;
  junk_byte = λ i. 0;
}

abbrev around : Around ℕ
around = record {
  lib = empty_file;
  beyond = [];
  memory = λ i. record {
    creation = value_memory;
    grant = λ j. record { slot = value_memory; copied = true };
  };
  junk = fail;
  hook_ok = true;
  insertion = record {
    head_ok = true;
    head_moved = false;
    mask_ok = true;
    junk = no_hook;
    junk_byte = λ i. 0;
  };
}

abbrev core : Core
core = record {
  name = 99 ∷ [];
  conf_label = none;
  ver_major = 1;
  lone = false;
  hook_size = 8;
  attach = some fail;
  detaches = true;
  hook_table = record {
    head = no_hook ∷ [];
    tail = 0;
    size = 1;
    pos = 0;
    last = 0;
    chunk_size = 8;
    chunk_count = 0;
    frag_count = 0;
    frag_mask = 0 ∷ [];
    flags = 1;
    constrains = none;
    on_constrains = none;
    dangling = false;
  };
}

-- Its callback accepts; the core's does not.
abbrev entry : Module
entry = record {
  name = 109 ∷ 111 ∷ [];
  core = none;
  attach = some (ok, 1);
  detaches = true;
  hook_size = 8;
  config = none;
}
