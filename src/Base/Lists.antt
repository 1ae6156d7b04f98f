-- ===== src/Base/Lists.antt =====
-- Lists measured and indexed by native numbers, under the library's names.
use Prim.Native.Nat.{ℕ, zero, suc, ◌+◌, ◌<◌, ◌≤◌}
use mathlib.Core.Path.{◌≡◌, refl, ap}
use mathlib.Core.List.{List, [], ◌∷◌, ◌++◌}
use mathlib.Core.Option.{Option, none, some}
use native.Mathlib.Omega.{arith}
use rattle.Base.Tests.{◌==◌, if◌then◌else◌}

module _ {ℓ} {A : Type ℓ} where
  abbrev pub length : List A → ℕ
  length [] = 0
  length (x ∷ xs) = suc (length xs)

  abbrev pub get_elem? : List A → ℕ → Option A
  get_elem? [] i = none
  get_elem? (x ∷ xs) zero = some x
  get_elem? (x ∷ xs) (suc i) = get_elem? xs i

  abbrev pub get_or : List A → ℕ → A → A
  get_or [] i d = d
  get_or (x ∷ xs) zero d = x
  get_or (x ∷ xs) (suc i) d = get_or xs i d

  -- A write out of bounds changes nothing.
  abbrev pub set : List A → ℕ → A → List A
  set [] i v = []
  set (x ∷ xs) zero v = v ∷ xs
  set (x ∷ xs) (suc i) v = x ∷ set xs i v

  abbrev pub replicate : ℕ → A → List A
  replicate zero a = []
  replicate (suc n) a = a ∷ replicate n a

  pub length-append : (xs ys : List A) → length (xs ++ ys) ≡ length xs + length ys
  length-append [] ys = omega arith
  length-append (x ∷ xs) ys = omega (arith, length-append xs ys)

  pub length-set : (xs : List A) (i : ℕ) (v : A) → length (set xs i v) ≡ length xs
  length-set [] i v = refl
  length-set (x ∷ xs) zero v = refl
  length-set (x ∷ xs) (suc i) v = ap suc (length-set xs i v)

  pub length-replicate : (n : ℕ) (a : A) → length (replicate n a) ≡ n
  length-replicate zero a = refl
  length-replicate (suc n) a = ap suc (length-replicate n a)

  pub get_or-set :
      (xs : List A) (i j : ℕ) (v d : A)
      → i < length xs
      → get_or (set xs i v) j d ≡ (if j == i then v else get_or xs j d)
  get_or-set [] i j v d h = absurd (omega arith)
  get_or-set (x ∷ xs) zero zero v d h = refl
  get_or-set (x ∷ xs) zero (suc j) v d h = ground arith
  get_or-set (x ∷ xs) (suc i) zero v d h = ground arith
  get_or-set (x ∷ xs) (suc i) (suc j) v d h = ground (arith, get_or-set xs i j v d)

  pub get_or-append_left :
      (xs ys : List A) (i : ℕ) (d : A) → i < length xs → get_or (xs ++ ys) i d ≡ get_or xs i d
  get_or-append_left [] ys i d h = absurd (omega arith)
  get_or-append_left (x ∷ xs) ys zero d h = refl
  get_or-append_left (x ∷ xs) ys (suc i) d h = get_or-append_left xs ys i d (omega arith)

  -- memset(start + i, v, n): `n` places from index `i` on are overwritten.
  unfoldable pub fill : List A → ℕ → ℕ → A → List A
  fill [] i n v = []
  fill (x ∷ xs) zero zero v = x ∷ xs
  fill (x ∷ xs) zero (suc n) v = v ∷ fill xs zero n v
  fill (x ∷ xs) (suc i) n v = x ∷ fill xs i n v

  pub length-fill : (xs : List A) (i n : ℕ) (v : A) → length (fill xs i n v) ≡ length xs
  unfolding fill
  length-fill [] i n v = refl
  length-fill (x ∷ xs) zero zero v = refl
  length-fill (x ∷ xs) zero (suc n) v = ap suc (length-fill xs zero n v)
  length-fill (x ∷ xs) (suc i) n v = ap suc (length-fill xs i n v)

  pub get_or-fill_below :
      (xs : List A) (i n j : ℕ) (v d : A) → j < i → get_or (fill xs i n v) j d ≡ get_or xs j d
  unfolding fill
  get_or-fill_below [] i n j v d h = refl
  get_or-fill_below (x ∷ xs) zero n j v d h = absurd (omega arith)
  get_or-fill_below (x ∷ xs) (suc i) n zero v d h = refl
  get_or-fill_below (x ∷ xs) (suc i) n (suc j) v d h = get_or-fill_below xs i n j v d (omega arith)

  pub get_or-fill_within :
      (xs : List A) (i n j : ℕ) (v d : A)
      → i ≤ j
      → j < i + n
      → j < length xs
      → get_or (fill xs i n v) j d ≡ v
  unfolding fill
  get_or-fill_within [] i n j v d a b c = absurd (omega arith)
  get_or-fill_within (x ∷ xs) zero zero j v d a b c = absurd (omega arith)
  get_or-fill_within (x ∷ xs) zero (suc n) zero v d a b c = refl
  get_or-fill_within (x ∷ xs) zero (suc n) (suc j) v d a b c =
      get_or-fill_within xs zero n j v d (omega arith) (omega arith) (omega arith)
  get_or-fill_within (x ∷ xs) (suc i) n zero v d a b c = absurd (omega arith)
  get_or-fill_within (x ∷ xs) (suc i) n (suc j) v d a b c =
      get_or-fill_within xs i n j v d (omega arith) (omega arith) (omega arith)

  pub fill-zero : (xs : List A) (i : ℕ) (v : A) → fill xs i 0 v ≡ xs
  unfolding fill
  fill-zero [] i v = refl
  fill-zero (x ∷ xs) zero v = refl
  fill-zero (x ∷ xs) (suc i) v = ap (◌∷◌ x) (fill-zero xs i v)

  pub get_or-fill_above :
      (xs : List A) (i n j : ℕ) (v d : A) → i + n ≤ j → get_or (fill xs i n v) j d ≡ get_or xs j d
  unfolding fill
  get_or-fill_above [] i n j v d h = refl
  get_or-fill_above (x ∷ xs) zero zero j v d h = refl
  get_or-fill_above (x ∷ xs) zero (suc n) zero v d h = absurd (omega arith)
  get_or-fill_above (x ∷ xs) zero (suc n) (suc j) v d h =
      get_or-fill_above xs zero n j v d (omega arith)
  get_or-fill_above (x ∷ xs) (suc i) n zero v d h = absurd (omega arith)
  get_or-fill_above (x ∷ xs) (suc i) n (suc j) v d h = get_or-fill_above xs i n j v d (omega arith)

  pub get_or-append_right :
      (xs ys : List A) (i k : ℕ) (d : A) → i ≡ length xs + k → get_or (xs ++ ys) i d ≡ get_or ys k d
  get_or-append_right [] ys i k d e = ap (λ j. get_or ys j d) (omega arith)
  get_or-append_right (x ∷ xs) ys zero k d e = absurd (omega arith)
  get_or-append_right (x ∷ xs) ys (suc i) k d e = get_or-append_right xs ys i k d (omega arith)
