-- ===== src/Table/Back.antt =====
-- RATT_TABLE_FOREACH_REVERSE against a plain list of slots.
use native.Mathlib.Decide.{ℕ_discrete}
use rattle.Base.{
  ℕ, zero, suc, ◌+◌, ◌^◌, ◌≤◌, ◌<◌, ◌≡◌, refl, Bool, true, false, List, [], ◌∷◌, ◌==◌,
  if◌then◌else◌, arith, ap, Bool-cases, inl, inr, ◌∙◌,
}
use rattle.Table.Mask.{is_frag}
use rattle.Table.State.{Table, isempty, last_chunk}
use rattle.Table.Walk.{skipped, prev_from, prev, visit_back, foreach_reverse}
use rattle.Table.Valid.{IsValid, isempty_lem, skipped_lem}
use rattle.Table.Cursor.{skipped-pos, isempty-pos}

-- The slots below `n` that pass the test, from the last one down.
unfoldable pub live_down : (ℕ → Bool) → ℕ → List ℕ
live_down hole zero = []
live_down hole (suc n) = if hole n then live_down hole n else n ∷ live_down hole n

pub live_down_ext :
    (f g : ℕ → Bool) (n : ℕ) → ((i : ℕ) → i < n → f i ≡ g i) → live_down f n ≡ live_down g n
unfolding live_down
live_down_ext f g zero h = refl
live_down_ext f g (suc n) h =
    let rest = live_down_ext f g n (λ i l. h i (omega arith)) in rw (h n (omega arith), rest)

module _ {A : Type 0} where
  prev_from-pos : (t : Table A) (q p : ℕ) → prev_from (record t { pos = q }) p ≡ prev_from t p
  unfolding prev_from
  prev_from-pos t q zero = refl
  prev_from-pos t q (suc p) =
      let same = skipped-pos t q p in let rest = prev_from-pos t q p in rw (same, rest)

  prev_lem : (t : Table A) → isempty t ≡ false → prev t ≡ prev_from t t.pos
  unfolding prev
  prev_lem t ne = rw ne

  visit_back-prev_from :
      (p fuel : ℕ) (t : Table A)
      → isempty t ≡ false
      → p ≤ fuel
      → visit_back fuel (prev_from t p) ≡ live_down (skipped t) p
  unfolding visit_back prev_from live_down
  visit_back-prev_from zero zero t ne le = refl
  visit_back-prev_from zero (suc fuel) t ne le = refl
  visit_back-prev_from (suc p) zero t ne le = absurd (omega arith)
  visit_back-prev_from (suc p) (suc fuel) t ne le = elim (Bool-cases (skipped t p)) [
    | inl hole ↦ rw hole (visit_back-prev_from p (suc fuel) t ne (omega arith))
    | inr chunk ↦
        let stepped = prev_lem (record t { pos = p }) (isempty-pos t p ∙ ne) in
        rw chunk (
          ap (◌∷◌ p) (
            ap (visit_back fuel) (stepped ∙ prev_from-pos t p p)
            ∙ visit_back-prev_from p fuel t ne (omega arith)))
  ]

  -- RATT_TABLE_FOREACH_REVERSE visits the last slot in use, be it a hole or not, and then exactly
  -- the slots before it that hold a chunk, from the last one down.
  pub foreach_reverse-live_down :
      (t : Table A)
      → IsValid t
      → t.frag_count < 2 ^ 32
      → foreach_reverse t
        ≡ (if t.chunk_count == 0 then [] else t.last ∷ live_down (is_frag t.frag_mask) t.last)
  unfolding foreach_reverse visit_back last_chunk
  foreach_reverse-live_down t v small =
      let more : t.last + 1 ≡ suc t.last = omega arith in
      elim (ℕ_discrete t.chunk_count 0) [
        | yes z ↦
            let e : isempty t ≡ true = isempty_lem v ∙ ground arith in rw (more, e) (ground arith)
        | no nz ↦
            let e : isempty t ≡ false = isempty_lem v ∙ ground arith in
            let t' : Table A = record t { pos = t.last } in
            let stepped = prev_lem t' (isempty-pos t t.last ∙ e) ∙ prev_from-pos t t.last t.last in
            let rest =
              ap (visit_back t.last) stepped
              ∙ visit_back-prev_from t.last t.last t e (omega arith)
              ∙ live_down_ext (skipped t) (is_frag t.frag_mask) t.last
                  (λ i l. skipped_lem v small nz i (omega arith)) in
            rw (more, e) (ground (arith, v.tail_last, rest))
      ]
