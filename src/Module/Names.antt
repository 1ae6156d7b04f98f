-- ===== src/Module/Names.antt =====
-- The names of modules and cores (src/module.c).
use rattle.Base.{
  ℕ, zero, suc, ◌+◌, ◌-◌, Bool, true, false, ◌&&◌, [], ◌∷◌, ◌++◌, ◌==◌, ltb, if◌then◌else◌, length,
}
use rattle.Args.Words.{Str}

-- RATTMODNAMSIZ, the size of the buffer for a full name.
abbrev pub name_size : ℕ
name_size = 32

-- strncmp(prefix, s, strlen(prefix)) == 0
abbrev pub starts_with : Str → Str → Bool
starts_with [] s = true
starts_with (c ∷ prefix) [] = false
starts_with (c ∷ prefix) (d ∷ s) = c == d && starts_with prefix s

-- snprintf() into a buffer of `n` + 1 bytes.
unfoldable pub cut : ℕ → Str → Str
cut zero s = []
cut (suc n) [] = []
cut (suc n) (c ∷ s) = c ∷ cut n s

-- s[n]; the end of a string reads as zero.
abbrev pub byte_at : Str → ℕ → ℕ
byte_at [] n = 0
byte_at (c ∷ s) zero = c
byte_at (c ∷ s) (suc n) = byte_at s n

-- The character '_'.
abbrev pub underscore : ℕ
underscore = 95

-- The name that ratt_module_attach() looks for: the given one, if it has the core's name and an
-- underscore in front, or else the two put together.
unfoldable pub full_name : Str → Str → Str
full_name core modname =
    if ltb (length core + 2) (length modname)
      && (starts_with core modname && byte_at modname (length core) == underscore)
    then modname
    else cut (name_size - 1) (core ++ underscore ∷ modname)
