-- ===== src/Proc/Serial/Order.antt =====
-- The processes of a table in the order of their slots.
use native.Mathlib.Decide.{ℕ_discrete}
use rattle.Base.{
  ℕ, zero, suc, ◌+◌, ◌≤◌, ◌<◌, ◌≡◌, refl, List, ◌∷◌, Option, none, some, arith, ap, ap₂, ◌∙◌,
}
use rattle.Proc.Process.{Process}

abbrev pub add_process : Option Process → List Process → List Process
add_process none ran = ran
add_process (some proc) ran = proc ∷ ran

-- The processes that some slots hold, `n` of them from `low` on, put before others one by one.
unfoldable pub queue : (ℕ → Option Process) → ℕ → ℕ → List Process → List Process
queue f low zero ran = ran
queue f low (suc n) ran = queue f (low + 1) n (add_process (f low) ran)

pub queue-none :
    (f : ℕ → Option Process) (low n : ℕ) (ran : List Process)
    → ((i : ℕ) → low ≤ i → f i ≡ none)
    → queue f low n ran ≡ ran
unfolding queue
queue-none f low zero ran h = refl
queue-none f low (suc n) ran h =
    ap (λ (o : Option Process). queue f (low + 1) n (add_process o ran)) (h low (omega arith))
    ∙ queue-none f (low + 1) n ran (λ i lo. h i (omega (arith, lo)))

pub queue-skip :
    (f : ℕ → Option Process) (n low q k : ℕ) (ran : List Process)
    → low + n ≡ q + 1 + k
    → low ≤ q
    → ((i : ℕ) → low ≤ i → i < q → f i ≡ none)
    → queue f low n ran ≡ queue f (q + 1) k (add_process (f q) ran)
unfolding queue
queue-skip f zero low q k ran sum le h = absurd (omega (arith, sum, le))
queue-skip f (suc n) low q k ran sum le h = elim (ℕ_discrete low q) [
  | yes here ↦
      let rest : n ≡ k = omega (arith, sum, here) in
      ap₂ (λ (l m : ℕ). queue f (l + 1) m (add_process (f l) ran)) here rest
  | no before ↦
      ap (λ (o : Option Process). queue f (low + 1) n (add_process o ran))
        (h low (omega arith) (omega (arith, le, before)))
      ∙ queue-skip f n (low + 1) q k ran (omega (arith, sum)) (omega (arith, le, before))
          (λ i lo hi. h i (omega (arith, lo)) hi)
]
