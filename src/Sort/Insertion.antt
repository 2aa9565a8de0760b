-- ===== src/Sort/Insertion.antt =====
-- The insertion sort, and the test whether an array is in order.
use crts.Prelude.{all, ◌+◌, ◌≡◌, refl, sym, Bool, true, List, [], ◌∷◌, arith, Bool-cases, inl, inr}
use crts.Sort.{insert_down, downwards, insert_from, insert_sort, sorted}
use crts.Prelude.Counts.{bit, count, SameElements}
use crts.Sort.Order.{
  all-SameElements, all_mono, all_at, all_and, StrictOrder, at_least, at_most, IsSorted,
  IsSortedDown, le-at_least, le-at_most,
}

module _ {ℓ} {A : Type ℓ} (less : A → A → Bool) where
  insert_down-count :
      (test : A → Bool) (t : A) (before : List A)
      → count test (insert_down less t before) ≡ bit (test t) + count test before
  unfolding insert_down
  insert_down-count test t [] = refl
  insert_down-count test t (x ∷ before) = elim (Bool-cases (less t x)) [
    | inl e ↦ rw e (omega (arith, insert_down-count test t before))
    | inr e ↦ rw e refl
  ]

  downwards-count :
      (test : A → Bool) (before after : List A)
      → count test (downwards before after) ≡ count test before + count test after
  downwards-count test [] after = omega arith
  downwards-count test (x ∷ before) after = omega (arith, downwards-count test before (x ∷ after))

  insert_from-count :
      (test : A → Bool) (before after : List A)
      → count test (insert_from less before after) ≡ count test before + count test after
  unfolding insert_from
  insert_from-count test before [] = downwards-count test before []
  insert_from-count test before (t ∷ after) = omega (
    arith,
    insert_from-count test (insert_down less t before) after,
    insert_down-count test t before,
  )

  pub insert_sort-SameElements : (xs : List A) → SameElements (insert_sort less xs) xs
  unfolding insert_sort
  insert_sort-SameElements [] test = refl
  insert_sort-SameElements (x ∷ xs) test = omega (arith, insert_from-count test (x ∷ []) xs)

module _ {ℓ} {A : Type ℓ} (less : A → A → Bool) (ord : StrictOrder less) where
  insert_down-IsSortedDown :
      (t : A) (before : List A)
      → IsSortedDown less before
      → IsSortedDown less (insert_down less t before)
  unfolding insert_down
  insert_down-IsSortedDown t [] h = (refl, tt)
  insert_down-IsSortedDown t (x ∷ before) (h, hs) = elim (Bool-cases (less t x)) [
    | inl e ↦
        let both : all (at_most less x) (t ∷ before) ≡ true = rw (ord.asym t x e) h in
        rw e (
          all-SameElements (at_most less x) (t ∷ before) (insert_down less t before)
              (λ test. sym (insert_down-count less test t before)) both,
          insert_down-IsSortedDown t before hs,
        )
    | inr e ↦
        let rest : all (at_most less t) before ≡ true =
          all_mono (at_most less x) (at_most less t) before (λ z. le-at_most less ord t x z e) h in
        rw e (rw e rest, (h, hs))
  ]

  downwards-IsSorted :
      (before after : List A)
      → IsSortedDown less before
      → IsSorted less after
      → all (λ x. all (at_least less x) after) before ≡ true
      → IsSorted less (downwards before after)
  downwards-IsSorted [] after hb ha cross = ha
  downwards-IsSorted (x ∷ before) after hb ha cross =
      let first : all (at_least less x) after ≡ true = grind arith in
      let rest : all (λ y. all (at_least less y) after) before ≡ true = grind arith in
      downwards-IsSorted before (x ∷ after) hb.1 (first, ha)
        (all_and (at_most less x) (λ y. all (at_least less y) after) before hb.0 rest)

  insert_from-IsSorted :
      (before after : List A)
      → IsSortedDown less before
      → IsSorted less (insert_from less before after)
  unfolding insert_from
  insert_from-IsSorted before [] h =
      downwards-IsSorted before [] h tt (all_at (λ x. true) before (λ i x e. refl))
  insert_from-IsSorted before (t ∷ after) h =
      insert_from-IsSorted (insert_down less t before) after (insert_down-IsSortedDown t before h)

  pub insert_sort-IsSorted : (xs : List A) → IsSorted less (insert_sort less xs)
  unfolding insert_sort
  insert_sort-IsSorted [] = tt
  insert_sort-IsSorted (x ∷ xs) = insert_from-IsSorted (x ∷ []) xs (refl, tt)

  -- The test compares neighbours only; by transitivity this is enough.
  pub sorted-IsSorted : (xs : List A) → sorted less xs ≡ true → IsSorted less xs
  unfolding sorted
  sorted-IsSorted [] h = tt
  sorted-IsSorted (x ∷ []) h = (refl, tt)
  sorted-IsSorted (x ∷ y ∷ ys) h = elim (Bool-cases (less y x)) [
    | inl e ↦ absurd (grind arith)
    | inr e ↦
        let (hy, hys) = sorted-IsSorted (y ∷ ys) (grind arith) in
        let rest : all (at_least less x) ys ≡ true =
          all_mono (at_least less y) (at_least less x) ys (λ z. le-at_least less ord x y z e) hy in
        (rw e rest, (hy, hys))
  ]
