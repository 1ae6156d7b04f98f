-- ===== src/Table/Tests.antt =====
-- The theorems at the sample tables, and runs of the code on them.
use rattle.Base.{
  ℕ, ◌+◌, ◌<◌, ◌≡◌, refl, true, false, [], ◌∷◌, none, fail, ok, ◌==◌, if◌then◌else◌, arith, inl,
  inr, inc_size, dec_size,
}
use rattle.Table.Mask.{is_frag, frag_mask_size, frag_mask_set, frag_mask_unset, fsbset, ffs}
use rattle.Table.State.{zeroed, exists, isempty, istail, ishead, fragmented, current, first}
use rattle.Table.Walk.{
  skipped, pos_isfrag, next_from, next, first_next, visit, foreach, foreach_reverse, search_from,
  table_search, satisfy_constrains, frag_slot, set_pos_frag_first,
}
use rattle.Table.Update.{
  grown_size, realloc_and_move, take_tail_next, get_tail_next, take_frag, get_frag_first,
  write_chunk, push, insert, del_current, create, destroy,
}
use rattle.Table.Valid.{IsValid, lookup}
use rattle.Table.Create.{destroy-IsValid}
use rattle.Table.Grow.{realloc_and_move-IsValid}
use rattle.Table.Cursor.{live, foreach-live}
use rattle.Table.Back.{live_down, foreach_reverse-live_down}
use rattle.Table.Ends.{ends, foreach-ends}
use rattle.Table.Find.{Stands, search_slot, status_of, table_search_lem}
use rattle.Table.Reuse.{free_slot}
use rattle.Table.Write.{Stores, push-Stores, insert-Stores}
use rattle.Table.Delete.{del_current-chunk}
use rattle.Table.Emptied.{insert-emptied}
use rattle.Table.Samples.{
  willing, sample, sample-IsValid, emptied, emptied-IsValid, single, single-IsValid,
}

-- A table of one slot, filled and emptied by the code itself.
emptied_by_the_code :
    (del_current 0 (push 0 (create 0 zeroed 2 8 0 willing).1 5 willing).1).1 ≡ emptied
unfolding create exists frag_mask_size push write_chunk satisfy_constrains get_tail_next isempty
    take_tail_next inc_size del_current current is_frag istail ishead frag_mask_set dec_size
emptied_by_the_code = refl

foreach-sample : foreach sample ≡ 0 ∷ 2 ∷ []
unfolding foreach visit first_next first next next_from isempty exists skipped fragmented pos_isfrag
    is_frag
foreach-sample = refl

foreach-live_example : foreach sample ≡ live (is_frag (2 ∷ [])) 0 3
foreach-live_example = foreach-live sample sample-IsValid (omega arith)

insert-Stores_example : Stores 0 sample (insert 0 sample 20 willing).1 (free_slot sample) 20
unfolding insert write_chunk satisfy_constrains table_search current isempty exists search_from
    first_next first next next_from skipped fragmented pos_isfrag is_frag get_frag_first
    set_pos_frag_first frag_slot fsbset ffs take_frag frag_mask_unset
insert-Stores_example =
    insert-Stores 0 sample 20 willing sample-IsValid (omega arith) (λ e. absurd (omega arith))
      (λ e. absurd (omega arith)) refl refl

push-Stores_example : Stores 0 sample (push 0 sample 40 willing).1 3 40
unfolding push write_chunk satisfy_constrains table_search current isempty exists search_from
    first_next first next next_from skipped fragmented pos_isfrag is_frag get_tail_next
    take_tail_next inc_size
push-Stores_example =
    push-Stores 0 sample 40 willing sample-IsValid (omega arith) (λ e. absurd (omega arith))
      (λ e. absurd (omega arith)) refl refl

destroy-IsValid_example : ((destroy 0 sample).0 ≡ ok) × (exists (destroy 0 sample).1 ≡ false)
destroy-IsValid_example = destroy-IsValid 0 sample sample-IsValid

realloc_and_move-IsValid_example :
    let t' = (realloc_and_move 0 single willing).1 in
    IsValid t'
    × (t'.size ≡ grown_size 1)
    × (1 < t'.size)
    × (t'.chunk_count ≡ 1)
    × (t'.frag_count ≡ 0)
    × (t'.last ≡ 0)
    × (t'.flags ≡ 1)
    × ((i : ℕ) → lookup 0 t' i ≡ lookup 0 single i)
unfolding realloc_and_move grown_size
realloc_and_move-IsValid_example =
    realloc_and_move-IsValid 0 willing single-IsValid refl (inr (inl (omega arith))) refl

table_search_lem_example :
    let (s, c, t') = table_search 0 sample (λ n. n == 30) in
    (c ≡ search_slot 0 (λ n. n == 30) sample) × (s ≡ status_of c) × Stands sample (c, t')
table_search_lem_example = table_search_lem 0 (λ n. n == 30) sample sample-IsValid (omega arith)

del_current-chunk_example :
    let (s, t') = del_current 0 sample in
    (s ≡ ok)
    × IsValid t'
    × (t'.chunk_count + 1 ≡ 2)
    × ((i : ℕ) → lookup 0 t' i ≡ (if i == 0 then none else lookup 0 sample i))
unfolding is_frag
del_current-chunk_example = del_current-chunk 0 sample-IsValid (λ e. absurd (omega arith)) refl

insert-emptied_example : (insert 0 emptied 5 willing).0 ≡ fail
insert-emptied_example =
    insert-emptied 0 emptied 5 emptied-IsValid (omega arith) (refl, λ e. absurd (omega arith))
      willing refl

foreach_reverse-live_down_example : foreach_reverse sample ≡ 2 ∷ live_down (is_frag (2 ∷ [])) 2
foreach_reverse-live_down_example = foreach_reverse-live_down sample sample-IsValid (omega arith)

foreach-ends_example : ends 3 (first_next sample) ≡ true
foreach-ends_example = foreach-ends sample
