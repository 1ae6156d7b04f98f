-- ===== src/Table/FillingTests.antt =====
-- A table that is filled behind its first size.
use rattle.Base.{ℕ, ◌≡◌, refl, List, [], ◌∷◌, ok, length, get_elem?, arith, inl, inr}
use rattle.Table.State.{zeroed, exists}
use rattle.Table.Update.{create}
use rattle.Table.Valid.{IsValid, lookup}
use rattle.Table.Filling.{push_all, push_all-created}
use rattle.Table.Samples.{willing}

abbrev five : List ℕ
five = 10 ∷ 20 ∷ 30 ∷ 40 ∷ 50 ∷ []

push_all-created_example :
    let (s, u) = push_all 0 (λ i. willing) 0 five (create 0 zeroed 2 8 0 willing).1 in
    (s ≡ ok)
    × IsValid u
    × (u.chunk_count ≡ length five)
    × ((j : ℕ) → lookup 0 u j ≡ get_elem? five j)
unfolding create exists
push_all-created_example =
    push_all-created 0 (λ i. willing) (λ i. refl) (λ i. refl) zeroed 2 8 0 willing five refl
      (inr (inl refl)) refl (omega arith)
