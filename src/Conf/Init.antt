-- ===== src/Conf/Init.antt =====
-- conf_init() on a command line that names the file.
use rattle.Base.{
  ℕ, ◌<◌, ◌≡◌, ◌≢◌, refl, Bool, List, [], ◌∷◌, none, some, Status, ok, arith, ap, ◌∙◌, length, set,
}
use rattle.Args.Words.{Str}
use rattle.Args.Sections.{Sections, section_at, pointer_to_section, Memory, Entry}
use rattle.Args.Register.{
  Effect, got, usrarg_of, bind_args, bind_args_from, bind_option, bind_arg, args_register,
}
use rattle.Args.Merging.{IsSection, slot_of, entry_at, put_entry, args_register-known}
use rattle.Conf.Parse.{
  ConfigError, conf_open, path_max, get_args_conf_file, conf_args, file_after, conf_init,
}

-- The entry binds -f to the path, and does nothing else.
bind_args-path :
    (entry : Entry) (path : Str)
    → (usrarg_of entry 102).found ≢ 0
    → (usrarg_of entry 102).arg ≡ some path
    → length path < path_max
    → bind_args entry (some conf_args) ≡ (ok, got 102 path ∷ [])
unfolding bind_args bind_args_from bind_option bind_arg get_args_conf_file
bind_args-path entry path ne given short = ground (arith, given)

file_after-path :
    (file path : Str) → length path < path_max → file_after file (got 102 path ∷ []) ≡ path
unfolding file_after get_args_conf_file
file_after-path file path short = ground arith

module _ (tables : Sections) (mem : Memory) (file path : Str) (q : ℕ)
    (read : Str → Bool × ConfigError) where
  -- Where the command line gave -f with a path that is short enough to the section of the
  -- configuration, and the file can be read, conf_init() succeeds and that file is the one read,
  -- not the default; the options stay registered.
  pub conf_init-path :
      IsSection (section_at tables 2)
      → slot_of (section_at tables 2) none ≡ some q
      → (usrarg_of (entry_at (section_at tables 2) q) 102).found ≢ 0
      → (usrarg_of (entry_at (section_at tables 2) q) 102).arg ≡ some path
      → length path < path_max
      → conf_open (read path) ≡ ok
      → let entry = record (entry_at (section_at tables 2) q) { sysargs = some conf_args } in
        conf_init tables mem file read
        ≡ (ok, set tables 2 (put_entry (section_at tables 2) q entry), path)
  unfolding conf_init pointer_to_section
  conf_init-path section slot ne given short opened =
      let entry = record (entry_at (section_at tables 2) q) { sysargs = some conf_args } in
      let bound = bind_args-path entry path ne given short in
      let registered = args_register-known tables 67 2 refl section none q conf_args mem slot in
      let registered' : args_register tables 67 none (some conf_args) mem
          ≡ (ok, set tables 2 (put_entry (section_at tables 2) q entry), got 102 path ∷ []) =
        registered
        ∙ ap
            (λ (r : Status × List Effect).
              (r.0, set tables 2 (put_entry (section_at tables 2) q entry), r.1))
            bound in
      simp (registered', file_after-path file path short, opened, conf_init)
