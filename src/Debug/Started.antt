-- ===== src/Debug/Started.antt =====
-- How debug_init() and debug_fini() end (modules/debug/debug.c).
use rattle.Base.{
  ℕ, zero, suc, ◌≡◌, ◌≢◌, refl, Bool, true, false, not, ◌&&◌, List, [], ◌∷◌, Option, none, some,
  Status, fail, ok, if◌then◌else◌, arith, ◌∙◌, Bool-cases, Status-cases, Option-cases, inl, inr,
  ◌⊎◌,
}
use rattle.Conf.Numbers.{ℤ, pos, negsuc}
use rattle.Conf.Parse.{conf_parse, conf_release}
use rattle.Conf.Decls.{Decl}
use rattle.Table.State.{isempty}
use rattle.Args.Words.{Str}
use rattle.Module.Attach.{Around}
use rattle.Module.Registry.{Registry, Constants, module_core_attach, ratt_module_attach}
use rattle.Module.Listed.{
  Open, Listed, Listed-null_read, module_core_attach-Listed, ratt_module_attach-cortab,
}
use rattle.Table.Reuse.{free_slot}
use rattle.Debug.Pipe.{Pipe, create_pipe, fork_process, destroy_pipe}
use rattle.Debug.Core.{
  debug_name, Debugger, Host, Start, started, failed, not_started, ended, null_pointer,
  module_names, attach_modules, hooks_of, give_back, open_pipe, load_modules, debug_init,
  debug_fini,
}

attach_modules-cortab :
    {A : Type 0} (around : ℕ → Around A) (names : List (Option Str)) (r r' : Registry)
    → attach_modules around names r ≡ some r'
    → r'.cortab ≡ r.cortab
unfolding attach_modules
attach_modules-cortab around [] r r' e = ground (arith, e)
attach_modules-cortab around (none ∷ names) r r' e = absurd (cc)
attach_modules-cortab around (some name ∷ names) r r' e =
    attach_modules-cortab (λ i. around (suc i)) names
      (ratt_module_attach (around 0) r debug_name name).1 r' e
    ∙ ratt_module_attach-cortab (around 0) r debug_name name

-- A debugger whose core is listed cannot give it back.
give_back-null_pointer :
    (s : Start) (d : Debugger) (q : ℕ)
    → Listed d.registry.cortab debug_name q
    → give_back s d ≡ null_pointer
unfolding give_back
give_back-null_pointer s d q l = ground (arith, Listed-null_read d.registry debug_name q l)

-- What is left to go wrong behind the modules: whether a module is attached, the pipe is there,
-- and the process forks.
abbrev pub forks : ℤ → Bool
forks (pos n) = true
forks (negsuc n) = false

abbrev pub is_some : Option (ℕ × ℕ) → Bool
is_some none = false
is_some (some _) = true

abbrev pub ready : {A : Type 0} → Host A → Registry → Bool
ready host r = not (isempty (hooks_of r)) && is_some host.pipe && forks host.fork

abbrev pub with_pipe : {A : Type 0} → Host A → Pipe → Pipe
with_pipe host p = (fork_process host.fork (create_pipe host.pipe p).1).1

module _ {A : Type 0} (host : Host A) where
  fork_process-ok : (pid : ℤ) (p : Pipe) → (fork_process pid p).0 ≡ (if forks pid then ok else fail)
  unfolding fork_process
  fork_process-ok (pos zero) p = refl
  fork_process-ok (pos (suc n)) p = refl
  fork_process-ok (negsuc n) p = refl

  create_pipe-ok :
      (o : Option (ℕ × ℕ)) (p : Pipe) → (create_pipe o p).0 ≡ (if is_some o then ok else fail)
  unfolding create_pipe
  create_pipe-ok none p = refl
  create_pipe-ok (some (r, w)) p = refl

  open_pipe-ends :
      (d : Debugger) (q : ℕ)
      → Listed d.registry.cortab debug_name q
      → open_pipe host d ≡ (
          if ready host d.registry
          then ended started (record d { pipe = with_pipe host d.pipe })
          else null_pointer)
  unfolding open_pipe
  open_pipe-ends d q l =
      let p = (create_pipe host.pipe d.pipe).1 in
      let p' = (fork_process host.fork p).1 in
      ground (
        arith,
        create_pipe-ok host.pipe d.pipe,
        fork_process-ok host.fork p,
        give_back-null_pointer failed d q l,
        give_back-null_pointer failed (record d { pipe = p }) q l,
        give_back-null_pointer failed (record d { pipe = destroy_pipe p' }) q l,
      )

  -- Behind the core's own registration nothing answers FAIL: either all goes well or the call
  -- reads through NULL.
  load_modules-ends :
      (d : Debugger) (q : ℕ) (r : Registry)
      → Listed d.registry.cortab debug_name q
      → attach_modules host.around (module_names d.config) d.registry ≡ some r
      → load_modules host d ≡ (
          if ready host r
          then ended started (record d { registry = r; pipe = with_pipe host d.pipe })
          else null_pointer)
  unfolding load_modules
  load_modules-ends d q r l e =
      let same = attach_modules-cortab host.around (module_names d.config) d.registry r e in
      let l' : Listed r.cortab debug_name q = rw same l in
      ground (arith, e, open_pipe-ends (record d { registry = r }) q l')

module _ {A : Type 0} (k : Constants) (host : Host A) (d : Debugger) where
  abbrev pub configured : Status × List Decl × List Str
  configured = conf_parse host.lib host.beyond host.memory host.junk (some debug_name) d.config

  abbrev pub listed : Status × Registry
  listed = module_core_attach k d.registry debug_name host.core_memory

  -- Where the configuration is parsed, the core attached and every configured name a string,
  -- debug_init() succeeds if a module is attached, the pipe is there and the process forks; in
  -- every other case it reads through NULL while it undoes what it did, and never answers FAIL.
  pub debug_init-attached :
      (r : Registry)
      → Open d.registry.cortab
      → host.enabled ≡ true
      → configured.0 ≡ ok
      → listed.0 ≡ ok
      → attach_modules host.around (module_names configured.1) listed.1 ≡ some r
      → debug_init k host d ≡ (
          if ready host r
          then ended started
              (record d { registry = r; config = configured.1; pipe = with_pipe host d.pipe })
          else null_pointer)
  unfolding debug_init
  debug_init-attached r o on parsed attached e =
      let l = module_core_attach-Listed k d.registry debug_name host.core_memory o attached in
      let behind =
        load_modules-ends host (record d { registry = listed.1; config = configured.1 })
          (free_slot d.registry.cortab) r l e in
      ground (arith, on, parsed, attached, behind)

  debug_init-behind :
      (s : Start) (d' : Debugger)
      → s ≢ not_started
      → debug_init k host d ≡ ended s d'
      → configured.0 ≡ ok
      → listed.0 ≡ ok
      → (host.enabled ≡ true)
        × (load_modules host (record d { registry = listed.1; config = configured.1 }) ≡ ended s d')
  unfolding debug_init
  debug_init-behind s d' begun e parsed attached = elim (Bool-cases host.enabled) [
    | inl on ↦ (on, ground (arith, on, parsed, attached, e))
    | inr off ↦ absurd (ground (arith, off, e))
  ]

  load_modules-some :
      (before d' : Debugger) (s : Start)
      → load_modules host before ≡ ended s d'
      → (r : Registry) × (attach_modules host.around (module_names before.config) before.registry
          ≡ some r)
  unfolding load_modules
  load_modules-some before d' s e =
      elim (Option-cases
        (attach_modules host.around (module_names before.config) before.registry)) [
          | inl null ↦ absurd (ground (arith, null, e))
          | inr (r, there) ↦ (r, there)
        ]

  started-steps :
      (d' : Debugger)
      → debug_init k host d ≡ ended started d'
      → (configured.0 ≡ ok) × (listed.0 ≡ ok)
  unfolding debug_init
  started-steps d' e = ground (arith, e)

  -- What a started debugger leaves: its core is listed, a module is attached, and the pipe is
  -- what the fork made of it.
  started-left :
      (d' : Debugger)
      → Open d.registry.cortab
      → debug_init k host d ≡ ended started d'
      → Listed d'.registry.cortab debug_name (free_slot d.registry.cortab)
        × (ready host d'.registry ≡ true)
        × (d'.pipe ≡ with_pipe host d.pipe)
  started-left d' o e =
      let (parsed, attached) = started-steps d' e in
      let (on, behind) = debug_init-behind started d' (λ z. cc) e parsed attached in
      let loaded : Debugger = record d { registry = listed.1; config = configured.1 } in
      let (r, there) = load_modules-some loaded d' started behind in
      let l = module_core_attach-Listed k d.registry debug_name host.core_memory o attached in
      let ends = load_modules-ends host loaded (free_slot d.registry.cortab) r l there in
      let same = attach_modules-cortab host.around (module_names configured.1) listed.1 r there in
      let l' : Listed r.cortab debug_name (free_slot d.registry.cortab) = rw same l in
      elim (Bool-cases (ready host r)) [
        | inr bad ↦ absurd (ground (arith, ends, behind, bad))
        | inl good ↦
            let left : ended started (record loaded { registry = r; pipe = with_pipe host d.pipe })
                ≡ ended started d' =
              ground (arith, ends, behind, good) in
            let registry_eq : d'.registry ≡ r = ground (arith, left) in
            (rw registry_eq l', rw registry_eq good, ground (arith, left))
      ]

  -- A debugger that was started is never shut down: debug_fini() reads through NULL when it
  -- detaches the core, in the process that forked and in the one that was forked alike.
  pub debug_init-debug_fini :
      (d' : Debugger)
      → Open d.registry.cortab
      → debug_init k host d ≡ ended started d'
      → debug_fini d' ≡ null_pointer
  unfolding debug_fini
  debug_init-debug_fini d' o e =
      let (l, _, _) = started-left d' o e in
      let waited = if d'.pipe.is_child then d'.waited else d'.pipe.child ∷ d'.waited in
      give_back-null_pointer started (record d' { pipe = destroy_pipe d'.pipe; waited = waited })
        (free_slot d.registry.cortab) l

  -- debug_init() answers FAIL only where the configuration is not parsed or the core is not
  -- attached; the pipe is as it was then, and a core that is not attached has its configuration
  -- released.
  pub debug_init-failed :
      (d' : Debugger)
      → Open d.registry.cortab
      → debug_init k host d ≡ ended failed d'
      → (d'.pipe ≡ d.pipe)
        × (((configured.0 ≡ fail) × (d'.registry ≡ d.registry) × (d'.config ≡ configured.1))
            ⊎ ((configured.0 ≡ ok)
                × (listed.0 ≡ fail)
                × (d'.registry ≡ listed.1)
                × (d'.config ≡ (conf_release configured.1).0)))
  unfolding debug_init
  debug_init-failed d' o e = elim (Status-cases configured.0) [
    | inr broken ↦ (
      ground (arith, broken, e),
      inl (broken, ground (arith, broken, e), ground (arith, broken, e)),
    )
    | inl parsed ↦ elim (Status-cases listed.0) [
      | inr refused ↦ (
        ground (arith, parsed, refused, e),
        inr (
          parsed,
          refused,
          ground (arith, parsed, refused, e),
          ground (arith, parsed, refused, e),
        ),
      )
      | inl attached ↦
          let (on, behind) = debug_init-behind failed d' (λ z. cc) e parsed attached in
          let loaded : Debugger = record d { registry = listed.1; config = configured.1 } in
          let (r, there) = load_modules-some loaded d' failed behind in
          let l = module_core_attach-Listed k d.registry debug_name host.core_memory o attached in
          let ends = load_modules-ends host loaded (free_slot d.registry.cortab) r l there in
          absurd (ground (arith, ends, behind))
    ]
  ]
