-- ===== src/Sort/Tests.antt =====
-- Runs of the sort and instances of its theorems, on numbers.
use crts.Prelude.{ℕ, ◌≡◌, refl, List, [], ◌∷◌, some, arith, ltb}
use crts.Sort.{
  sorted, insert_down, insert_from, insert_sort, scan_up, scan_down, swap, partition_loop,
  partition, sort_within, sort,
}
use crts.Sort.Order.{StrictOrder}
use crts.Sort.Quick.{Sorts, sort-Sorts}

abbrev digits : List ℕ
digits = 5 ∷ 1 ∷ 9 ∷ 5 ∷ 0 ∷ 7 ∷ 3 ∷ []

ltb-StrictOrder : StrictOrder ltb
ltb-StrictOrder = record { asym = λ a b h. ground arith; le_trans = λ a b c h k. ground arith }

-- The first exchange replaces the pivot 5 by 3.
partition_digits : partition ltb digits ≡ some (2, 3 ∷ 1 ∷ 0 ∷ 5 ∷ 9 ∷ 7 ∷ 5 ∷ [])
unfolding partition partition_loop scan_up scan_down swap
partition_digits = refl

sort_digits : sort ltb 3 digits ≡ some (0 ∷ 1 ∷ 3 ∷ 5 ∷ 5 ∷ 7 ∷ 9 ∷ [])
unfolding sort sort_within sorted insert_sort insert_from insert_down partition partition_loop
    scan_up scan_down swap
sort_digits = refl

sort-Sorts_example : Sorts ltb digits (sort ltb 3 digits)
sort-Sorts_example = sort-Sorts ltb ltb-StrictOrder 3 digits
