-- ===== src/Module/Balance.antt =====
-- What attach_module() takes and gives back (src/module.c).
use rattle.Base.{ℕ, ◌+◌, ◌≡◌, Bool, true, false, List, [], ◌∷◌, if◌then◌else◌}
use rattle.Module.Attach.{
  Module, Effect, parsed, released, allocated, freed, module_attached, module_detached,
  core_attached, core_detached,
}

-- How often something happened.
abbrev pub times : (Effect → Bool) → List Effect → ℕ
times p [] = 0
times p (e ∷ es) = (if p e then 1 else 0) + times p es

abbrev pub is_parsed : Effect → Bool
is_parsed parsed = true
is_parsed _ = false

abbrev pub is_released : Effect → Bool
is_released released = true
is_released _ = false

abbrev pub is_allocated : Effect → Bool
is_allocated allocated = true
is_allocated _ = false

abbrev pub is_freed : Effect → Bool
is_freed freed = true
is_freed _ = false

abbrev pub is_attached : Effect → Bool
is_attached module_attached = true
is_attached _ = false

abbrev pub is_detached : Effect → Bool
is_detached module_detached = true
is_detached _ = false

abbrev pub is_core_attached : Effect → Bool
is_core_attached core_attached = true
is_core_attached _ = false

abbrev pub is_core_detached : Effect → Bool
is_core_detached core_detached = true
is_core_detached _ = false

-- Neither memory nor configuration is touched.
abbrev OnlyCalls : List Effect → Type 0
OnlyCalls es =
    (times is_parsed es ≡ 0)
    × (times is_released es ≡ 0)
    × (times is_allocated es ≡ 0)
    × (times is_freed es ≡ 0)

-- No callback ran.
abbrev NoCalls : List Effect → Type 0
NoCalls es =
    (times is_attached es ≡ 0)
    × (times is_detached es ≡ 0)
    × (times is_core_attached es ≡ 0)
    × (times is_core_detached es ≡ 0)
