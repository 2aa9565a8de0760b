-- ===== src/Sort/Quick.antt =====
-- The sort as a whole.
use crts.Prelude.{
  all, ℕ, zero, suc, ◌+◌, ◌<◌, ◌≡◌, ◌∙◌, refl, sym, ap, Bool, true, not, List, [], ◌∷◌, ◌++◌,
  Option, some, arith, ltb, length, get_elem?, take, drop, take-append-drop, length-take,
  length-drop, Bool-cases, inl, inr,
}
use crts.Sort.{sorted, insert_sort, sort_within, sort}
use crts.Prelude.Counts.{count, count-append, SameElements}
use crts.Sort.Order.{
  all_at, all-SameElements, StrictOrder, at_least, at_most, IsSorted, IsSorted-append,
}
use crts.Sort.Insertion.{insert_sort-SameElements, insert_sort-IsSorted, sorted-IsSorted}
use crts.Sort.Scan.{get_elem?-drop}
use crts.Sort.Partition.{IsSplit, partition-IsSplit}

module _ {ℓ} {A : Type ℓ} where
  get_elem?-take :
      (n : ℕ) (xs : List A) (i : ℕ) (x : A)
      → get_elem? (take n xs) i ≡ some x
      → (i < n) × (get_elem? xs i ≡ some x)
  get_elem?-take zero xs i x h = absurd cc
  get_elem?-take (suc n) [] i x h = absurd cc
  get_elem?-take (suc n) (y ∷ xs) zero x h = (omega arith, h)
  get_elem?-take (suc n) (y ∷ xs) (suc i) x h =
      let (lt, g) = get_elem?-take n xs i x h in (omega arith, g)

module _ {ℓ} {A : Type ℓ} (less : A → A → Bool) where
  abbrev pub Sorts : List A → Option (List A) → Type ℓ
  Sorts xs r = (ys : List A) × (r ≡ some ys) × IsSorted less ys × SameElements ys xs

module _ {ℓ} {A : Type ℓ} (less : A → A → Bool) (ord : StrictOrder less) where
  short-sorted : (xs : List A) → length xs < 2 → sorted less xs ≡ true
  unfolding sorted
  short-sorted [] h = refl
  short-sorted (x ∷ []) h = refl
  short-sorted (x ∷ y ∷ ys) h = absurd (omega arith)

  -- The two parts of a split array, each put in order.
  joined :
      (xs ys : List A) (k : ℕ) (split : IsSplit less xs k ys) (low high : List A)
      → IsSorted less low
      → IsSorted less high
      → SameElements low (take (k + 1) ys)
      → SameElements high (drop (k + 1) ys)
      → IsSorted less (low ++ high) × SameElements (low ++ high) xs
  joined xs ys k split low high sl sh el eh =
      let v = split.pivot in
      let below : all (at_most less v) (take (k + 1) ys) ≡ true =
        all_at (at_most less v) (take (k + 1) ys) (λ i x g.
          let (lt, g') = get_elem?-take (k + 1) ys i x g in
          ap not (split.below i x (omega arith) g')) in
      let above : all (at_least less v) (drop (k + 1) ys) ≡ true =
        all_at (at_least less v) (drop (k + 1) ys) (λ i x g.
          ap not
            (split.above (k + 1 + i) x (omega arith) (sym (get_elem?-drop (k + 1) ys i) ∙ g))) in
      (
        IsSorted-append less ord v low high sl sh
            (all-SameElements _ _ low (λ test. sym (el test)) below)
            (all-SameElements _ _ high (λ test. sym (eh test)) above),
        λ test. omega (
          arith,
          count-append test low high,
          el test,
          eh test,
          split.same test,
          count-append test (take (k + 1) ys) (drop (k + 1) ys),
          ap (count test) (take-append-drop (k + 1) ys),
        ),
      )

  sort_within-Sorts :
      (cutoff fuel : ℕ) (xs : List A)
      → length xs < fuel
      → Sorts less xs (sort_within less cutoff fuel xs)
  unfolding sort_within
  sort_within-Sorts cutoff zero xs h = absurd (omega arith)
  sort_within-Sorts cutoff (suc fuel) xs h = elim (Bool-cases (sorted less xs)) [
    | inl e ↦ (xs, rw e refl, sorted-IsSorted less ord xs e, λ test. refl)
    | inr e ↦ elim (Bool-cases (ltb (length xs) cutoff)) [
      | inl short ↦ (
        insert_sort less xs,
        rw (e, short) refl,
        insert_sort-IsSorted less ord xs,
        insert_sort-SameElements less xs,
      )
      | inr long ↦
          let many : 1 < length xs = elim (Bool-cases (ltb (length xs) 2)) [
            | inl few ↦ absurd (let s = short-sorted xs (ground arith) in cc)
            | inr many ↦ ground arith
          ] in
          let (k, ys, result, split) = partition-IsSplit less ord xs many in
          let inside = split.inside in
          let total = split.same_length in
          let n-take = length-take (k + 1) ys in
          let n-drop = length-drop (k + 1) ys in
          let (low, low_is, low_sorted, low_same) =
            sort_within-Sorts cutoff fuel (take (k + 1) ys) (omega arith) in
          let (high, high_is, high_sorted, high_same) =
            sort_within-Sorts cutoff fuel (drop (k + 1) ys) (omega arith) in
          let (is_sorted, same) =
            joined xs ys k split low high low_sorted high_sorted low_same high_same in
          (
            low ++ high,
            rw (e, long, result, low_is, high_is) (refl {a = some (low ++ high)}),
            is_sorted,
            same,
          )
    ]
  ]

  -- For a strict weak order and any cutoff, the sort ends, reads inside of the array only, and
  -- leaves the same elements, as often, in order.
  pub sort-Sorts : (cutoff : ℕ) (xs : List A) → Sorts less xs (sort less cutoff xs)
  unfolding sort
  sort-Sorts cutoff xs = sort_within-Sorts cutoff (suc (length xs)) xs (omega arith)
