-- ===== src/Sort.antt =====
-- native/generic/sort.h, the sort that is instantiated for an element type and an order.
mod Insertion
mod Order
mod Partition
mod Quick
mod Scan
pub mod Tests
use crts.Prelude.{
  ℕ, zero, suc, ◌+◌, ◌-◌, Bool, true, false, Option, none, some, List, [], ◌∷◌, ◌++◌, arith, length,
  get_elem?, set, take, drop, ltb, leb, if◌then◌else◌, ◌>>=◌,
}

-- The array, given by the elements before an index, from the last to the first, and those after.
module _ {ℓ} {A : Type ℓ} where
  abbrev pub downwards : List A → List A → List A
  downwards [] after = after
  downwards (x ∷ before) after = downwards before (x ∷ after)

  -- CHI_SWAP.
  unfoldable pub swap : List A → ℕ → ℕ → Option (List A)
  swap xs p q = do x ← get_elem? xs p; y ← get_elem? xs q; some (set (set xs p y) q x)

-- A loop that reads outside of the array is `none`, as is one that runs out of fuel.
module _ {ℓ} {A : Type ℓ} (less : A → A → Bool) where
  -- The inner loop of the insertion sort. It walks down the elements before `t`, which are given
  -- from the last to the first, and moves those up that are greater.
  unfoldable pub insert_down : A → List A → List A
  insert_down t [] = t ∷ []
  insert_down t (x ∷ before) = if less t x then x ∷ insert_down t before else t ∷ x ∷ before

  -- The outer loop; the elements before `i` are given from the last to the first.
  unfoldable pub insert_from : List A → List A → List A
  insert_from before [] = downwards before []
  insert_from before (t ∷ after) = insert_from (insert_down t before) after

  unfoldable pub insert_sort : List A → List A
  insert_sort [] = []
  insert_sort (x ∷ xs) = insert_from (x ∷ []) xs

  unfoldable pub sorted : List A → Bool
  sorted [] = true
  sorted (x ∷ []) = true
  sorted (x ∷ y ∷ ys) = if less y x then false else sorted (y ∷ ys)

  -- `do { ++p; } while (*p < *a)`, where `rest` are the elements from the new `p` on.
  unfoldable pub scan_up : A → List A → ℕ → Option ℕ
  scan_up v [] p = none
  scan_up v (x ∷ rest) p = if less x v then scan_up v rest (suc p) else some p

  -- `do { --q; } while (*a < *q)`.
  unfoldable pub scan_down : A → List A → ℕ → Option ℕ
  scan_down v xs zero = none
  scan_down v xs (suc q) = do x ← get_elem? xs q; if less v x then scan_down v xs q else some q

  -- The endless loop, on fuel; `p` is one more than the pointer, which starts before the array.
  unfoldable pub partition_loop : ℕ → List A → ℕ → ℕ → Option (ℕ × List A)
  partition_loop zero xs p q = none
  partition_loop (suc fuel) xs p q =
      let again = partition_loop fuel in
      do
        v ← get_elem? xs 0
        p' ← scan_up v (drop p xs) p
        q' ← scan_down v xs q
        if leb q' p' then some (q', xs) else (swap xs p' q' >>= λ xs'. again xs' (suc p') q')

  unfoldable pub partition : List A → Option (ℕ × List A)
  partition xs = partition_loop (suc (length xs)) xs 0 (length xs)

  -- The sort, with fuel for the depth of its recursion.
  unfoldable pub sort_within : ℕ → ℕ → List A → Option (List A)
  sort_within cutoff zero xs = none
  sort_within cutoff (suc fuel) xs =
      let again = sort_within cutoff fuel in
      if sorted xs
      then some xs
      else if ltb (length xs) cutoff
      then some (insert_sort xs)
      else (partition xs >>= λ split. again (take (split.0 + 1) split.1) >>= λ low.
          again (drop (split.0 + 1) split.1) >>= λ high. some (low ++ high))

  unfoldable pub sort : ℕ → List A → Option (List A)
  sort cutoff xs = sort_within cutoff (suc (length xs)) xs
