-- ===== src/Version.antt =====
-- The version numbers that the library reports (src/rattle.c).
mod Tests
use rattle.Base.{ℕ, ◌≡◌, ◌≢◌, Option, none, some, ◌==◌, if◌then◌else◌, arith}

-- The numbers that the build configures: RATTLE_VERSION_MAJOR, _MINOR and _PATCH.
pub record VersionNumbers : Type 0 where
  pub major : ℕ
  pub minor : ℕ
  pub patch : ℕ

-- The integers of the caller, by their addresses.
abbrev pub Ints : Type 0
Ints = ℕ → ℕ

-- `if (p) *p = value`
abbrev pub store_if : Option ℕ → ℕ → Ints → Ints
store_if none value memory q = memory q
store_if (some p) value memory q = if q == p then value else memory q

unfoldable pub rattle_version_numbers :
    VersionNumbers → Option ℕ → Option ℕ → Option ℕ → Ints → Ints
rattle_version_numbers v maj min patch memory =
    store_if patch v.patch (store_if min v.minor (store_if maj v.major memory))

-- Three different addresses hold the three numbers afterwards, and every other integer of the
-- caller is as it was; a pointer that is NULL is passed over.
pub rattle_version_numbers-stored :
    (v : VersionNumbers) (memory : Ints) (a b c : ℕ)
    → a ≢ b
    → b ≢ c
    → a ≢ c
    → let after = rattle_version_numbers v (some a) (some b) (some c) memory in
      (after a ≡ v.major)
      × (after b ≡ v.minor)
      × (after c ≡ v.patch)
      × ((q : ℕ) → q ≢ a → q ≢ b → q ≢ c → after q ≡ memory q)
      × ((q : ℕ) → rattle_version_numbers v none none none memory q ≡ memory q)
unfolding rattle_version_numbers
rattle_version_numbers-stored v memory a b c ab bc ac =
    (ground arith, ground arith, ground arith, λ q x y z. ground arith, λ q. ground arith)
