-- ===== src/Module/Prefix.antt =====
-- Full and relative names of modules (src/module.c).
use rattle.Base.{
  ℕ, zero, suc, ◌+◌, ◌≤◌, ◌≡◌, refl, true, false, [], ◌∷◌, ◌++◌, length, length-append, arith, ap,
  ==_refl,
}
use rattle.Args.Words.{Str}
use rattle.Module.Names.{starts_with, cut, byte_at, underscore, full_name}

starts_with-append : (s t : Str) → starts_with s (s ++ t) ≡ true
starts_with-append [] t = refl
starts_with-append (c ∷ s) t = ground (arith, ==_refl c, starts_with-append s t)

byte_at-append : (s t : Str) (c : ℕ) → byte_at (s ++ c ∷ t) (length s) ≡ c
byte_at-append [] t c = refl
byte_at-append (d ∷ s) t c = byte_at-append s t c

cut-short : (n : ℕ) (s : Str) → length s ≤ n → cut n s ≡ s
unfolding cut
cut-short zero [] h = refl
cut-short zero (c ∷ s) h = absurd (omega arith)
cut-short (suc n) [] h = refl
cut-short (suc n) (c ∷ s) h = ap (◌∷◌ c) (cut-short n s (omega arith))

-- For a module whose own name does not start with that of the core, has two bytes at least and
-- fits the buffer with the prefix, the full and the relative name stand for the same name.
pub full_name-relative :
    (core name : Str)
    → starts_with core name ≡ false
    → 2 ≤ length name
    → length core + length name ≤ 30
    → (full_name core name ≡ core ++ underscore ∷ name)
      × (full_name core (core ++ underscore ∷ name) ≡ core ++ underscore ∷ name)
unfolding full_name
full_name-relative core name other long fits =
    let whole = length-append core (underscore ∷ name) in
    let short = cut-short 31 (core ++ underscore ∷ name) (omega (arith, whole)) in
    (
      ground (arith, other, short),
      ground (
        arith,
        whole,
        starts_with-append core (underscore ∷ name),
        byte_at-append core name underscore,
      ),
    )
