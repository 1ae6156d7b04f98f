-- ===== src/Version/Tests.antt =====
-- The version numbers of the configured build (src/rattle.c).
use rattle.Base.{◌≡◌, refl, none, some}
use rattle.Version.{VersionNumbers, rattle_version_numbers}

abbrev configured : VersionNumbers
configured = record { major = 0; minor = 0; patch = 0 }

-- Two of the numbers are asked for.
two_numbers :
    rattle_version_numbers (record configured { minor = 3 }) none (some 4) (some 5) (λ q. 7) 4 ≡ 3
unfolding rattle_version_numbers
two_numbers = refl
