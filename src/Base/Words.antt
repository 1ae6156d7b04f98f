-- ===== src/Base/Words.antt =====
-- `size_t` counters: increments and decrements wrap at 2 ^ 64.
use Prim.Native.Nat.{ℕ, zero, suc, ◌+◌, ◌-◌, ◌%◌, ◌^◌, ◌≤◌, ◌<◌}
use mathlib.Core.Path.{◌≡◌, refl, ap}
use mathlib.Core.Bool.{Bool, true, false}
use native.Mathlib.Omega.{arith}
use mathlib.Core.Logic.{inl, inr, ◌≢◌}
use rattle.Base.Tests.{if◌then◌else◌, ◌==◌, ==_iff, Bool-cases}

unfoldable pub inc_size : ℕ → ℕ
inc_size n = (n + 1) % 2 ^ 64

unfoldable pub dec_size : ℕ → ℕ
dec_size n = (n + (2 ^ 64 - 1)) % 2 ^ 64

pub inc_size_lem : (n : ℕ) → n + 1 < 2 ^ 64 → inc_size n ≡ n + 1
unfolding inc_size
inc_size_lem n h = omega arith

pub dec_size_lem : (n : ℕ) → 0 < n → n < 2 ^ 64 → dec_size n ≡ n - 1
unfolding dec_size
dec_size_lem n p h = omega arith

-- How many numbers below the bound pass the test.
unfoldable pub count_below : (ℕ → Bool) → ℕ → ℕ
count_below f zero = 0
count_below f (suc n) = (if f n then 1 else 0) + count_below f n

pub count_below-le : (f : ℕ → Bool) (n : ℕ) → count_below f n ≤ n
unfolding count_below
count_below-le f zero = omega arith
count_below-le f (suc n) = ground (arith, count_below-le f n)

pub count_below_ext :
    (f g : ℕ → Bool) (n : ℕ) → ((i : ℕ) → i < n → f i ≡ g i) → count_below f n ≡ count_below g n
unfolding count_below
count_below_ext f g zero h = refl
count_below_ext f g (suc n) h =
    ground (arith, h n, count_below_ext f g n (λ i l. h i (omega arith)))

-- One more number passes.
pub count_below_more :
    (f g : ℕ → Bool) (p n : ℕ)
    → p < n
    → f p ≡ false
    → g p ≡ true
    → ((i : ℕ) → (i == p) ≡ false → g i ≡ f i)
    → count_below g n ≡ count_below f n + 1
unfolding count_below
count_below_more f g p zero lt u s h = absurd (omega arith)
count_below_more f g p (suc n) lt u s h = elim (Bool-cases (n == p)) [
  | inl here ↦
      let n' : n ≡ p = (==_iff n p).0 here in
      let rest = count_below_ext g f n (λ i l. h i (ground arith)) in
      ground (arith, ap f n', ap g n')
  | inr there ↦
      let lt' : p < n = ground arith in
      let rest = count_below_more f g p n lt' u s h in ground (arith, h n there)
]

pub count_below_zero : (f : ℕ → Bool) (n i : ℕ) → count_below f n ≡ 0 → i < n → f i ≡ false
unfolding count_below
count_below_zero f zero i e l = absurd (omega arith)
count_below_zero f (suc n) i e l = ground (arith, count_below_zero f n i)

pub count_below_full : (f : ℕ → Bool) (n i : ℕ) → count_below f n ≡ n → i < n → f i ≡ true
unfolding count_below
count_below_full f zero i e l = absurd (omega arith)
count_below_full f (suc n) i e l = ground (arith, count_below-le f n, count_below_full f n i)

pub count_below_some :
    (f : ℕ → Bool) (n : ℕ) → count_below f n ≢ 0 → (h : ℕ) × (h < n) × (f h ≡ true)
unfolding count_below
count_below_some f zero ne = absurd (ne refl)
count_below_some f (suc n) ne = elim (Bool-cases (f n)) [
  | inl here ↦ (n, omega arith, here)
  | inr not_here ↦ let (h, l, e) = count_below_some f n (ground arith) in (h, omega arith, e)
]
