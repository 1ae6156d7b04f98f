-- ===== src/Debug/Core.antt =====
-- The debugger core (modules/debug/debug.c) and the one module that is written for it
-- (modules/debug/trace/debug_trace.c). waitpid() is taken to return; what it answers only goes to
-- the log.
use rattle.Base.{
  ℕ, suc, Bool, true, List, [], ◌∷◌, Option, none, some, Status, fail, ok, ◌==◌, if◌then◌else◌,
  get_or, map,
}
use rattle.Table.State.{Table, isempty}
use rattle.Table.Walk.{foreach}
use rattle.Args.Words.{Str}
use rattle.Conf.Numbers.{ℤ, str}
use rattle.Conf.Values.{Value, text, number, Storage, single, many, blank_value, fl_list}
use rattle.Conf.Decls.{Libconfig, Decl, DeclMemory}
use rattle.Conf.Parse.{conf_parse, conf_release}
use rattle.Module.Attach.{Hook, Around}
use rattle.Module.Registry.{
  Registry, Constants, core_named, CoreMemory, module_core_attach, module_core_detach,
  ratt_module_attach, returned, null_read,
}
use rattle.Debug.Pipe.{Pipe, create_pipe, fork_process, destroy_pipe}

-- RATT_DEBUG_NAME and DEBUG_CONF_LABEL, "debug".
abbrev pub debug_name : Str
debug_name = 100 ∷ 101 ∷ 98 ∷ 117 ∷ 103 ∷ []

-- RATTD_DEBUG_MODULE, "backtrace", and the path "module".
abbrev pub backtrace : Str
backtrace = 98 ∷ 97 ∷ 99 ∷ 107 ∷ 116 ∷ 114 ∷ 97 ∷ 99 ∷ 101 ∷ []

abbrev pub module_path : Str
module_path = 109 ∷ 111 ∷ 100 ∷ 117 ∷ 108 ∷ 101 ∷ []

-- l_conf over the table l_conf_module.
abbrev pub debug_conf : Table Value → List Decl
debug_conf list =
    record {
      path = module_path;
      defval = some (backtrace ∷ []);
      value = some (many list);
      type = str;
      flags = fl_list;
    }
    ∷ []

-- The registry of modules, l_conf, the pipe, and the processes that were waited for.
pub record Debugger : Type 0 where
  pub registry : Registry
  pub config : List Decl
  pub pipe : Pipe
  pub waited : List ℤ

-- What the calls of debug_init() meet: g_main_args_debug_enable, libconfig and the memory for the
-- declarations, the memory for the core, what each module meets, and the answers of pipe() and
-- fork().
pub record Host (A : Type 0) : Type 0 where
  pub enabled : Bool
  pub lib : Libconfig A
  pub beyond : List ℕ
  pub memory : ℕ → DeclMemory
  pub junk : Status
  pub core_memory : CoreMemory
  pub around : ℕ → Around A
  pub pipe : Option (ℕ × ℕ)
  pub fork : ℤ

-- OK, FAIL and NOSTART.
pub data Start : Type 0 where
  started failed not_started : Start

-- How a call ends; `null_pointer` is a read through NULL.
pub data Ended : Type 0 where
  ended : Start → Debugger → Ended
  null_pointer : Ended

-- The strings of l_conf_module that a walk of the list visits; NULL is `none`.
abbrev pub string_of : Value → Option Str
string_of (text s) = s
string_of (number n) = none

abbrev pub strings : Storage → List (Option Str)
strings (single v) = []
strings (many t) = map (λ p. string_of (get_or t.head p (blank_value str))) (foreach t)

unfoldable pub module_names : List Decl → List (Option Str)
module_names [] = []
module_names (d ∷ ds) = elim d.value [ none ↦ [] | some storage ↦ strings storage ]

-- The loop over the configured modules. ratt_module_attach() takes the length of the name.
unfoldable pub attach_modules :
    {A : Type 0} → (ℕ → Around A) → List (Option Str) → Registry → Option Registry
attach_modules around [] r = some r
attach_modules around (none ∷ names) r = none
attach_modules around (some name ∷ names) r =
    attach_modules (λ i. around (suc i)) names (ratt_module_attach (around 0) r debug_name name).1

abbrev pub hooks_of : Registry → Table Hook
hooks_of r = (core_named r.cores debug_name).hook_table

-- module_core_detach() and conf_release(), with the given result.
unfoldable pub give_back : Start → Debugger → Ended
give_back s d = elim (module_core_detach d.registry debug_name) [
  | null_read ↦ null_pointer
  | returned _ r _ ↦ ended s (record d { registry = r; config = (conf_release d.config).0 })
]

-- The part of debug_init() behind the loop.
unfoldable pub open_pipe : {A : Type 0} → Host A → Debugger → Ended
open_pipe host d =
    let (piped, p) = create_pipe host.pipe d.pipe in
    let (forked, p') = fork_process host.fork p in
    if isempty (hooks_of d.registry) then give_back failed d else elim piped [
      | fail ↦ give_back failed (record d { pipe = p })
      | ok ↦ elim forked [
        | fail ↦ give_back failed (record d { pipe = destroy_pipe p' })
        | ok ↦ ended started (record d { pipe = p' })
      ]
    ]

-- The part behind module_core_attach().
unfoldable pub load_modules : {A : Type 0} → Host A → Debugger → Ended
load_modules host d = elim (attach_modules host.around (module_names d.config) d.registry) [
  | none ↦ null_pointer
  | some r ↦ open_pipe host (record d { registry = r })
]

unfoldable pub debug_init : {A : Type 0} → Constants → Host A → Debugger → Ended
debug_init k host d =
    let (parsed, decls, _) =
      conf_parse host.lib host.beyond host.memory host.junk (some debug_name) d.config in
    let (attached, r) = module_core_attach k d.registry debug_name host.core_memory in
    if host.enabled
    then (elim parsed [
      | fail ↦ ended failed (record d { config = decls })
      | ok ↦ elim attached [
        | fail ↦ ended failed (record d { registry = r; config = (conf_release decls).0 })
        | ok ↦ load_modules host (record d { registry = r; config = decls })
      ]
    ])
    else ended not_started d

-- The result of debug_fini(), which is a void function, is `started`.
unfoldable pub debug_fini : Debugger → Ended
debug_fini d =
    let waited = if d.pipe.is_child then d.waited else d.pipe.child ∷ d.waited in
    give_back started (record d { pipe = destroy_pipe d.pipe; waited = waited })

-- on_fork() and attach_module() of debug_trace.c: the result, the version that is left in the
-- hook, and whether `on_fork` of the hook points to on_fork().
unfoldable pub on_fork : ℕ → Status
on_fork flags = ok

unfoldable pub attach_trace : ℕ → Status × ℕ × Bool
attach_trace version = (ok, if version == 1 then version else 1, true)
