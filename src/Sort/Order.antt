-- ===== src/Sort/Order.antt =====
-- What a sort promises: the result is in order, and has the same elements as often.
use crts.Prelude.{
  all, ℕ, zero, suc, ◌+◌, ◌≡◌, refl, Bool, true, false, not, ◌&&◌, List, [], ◌∷◌, ◌++◌, some, arith,
  get_elem?, set, Bool-cases, inl, inr,
}
use crts.Prelude.Counts.{bit, count, SameElements}

module _ {ℓ} {A : Type ℓ} where
  -- A test that all elements pass is one whose negation none passes.
  pub all-count :
      (test : A → Bool) (xs : List A) → all test xs ≡ true → count (λ x. not (test x)) xs ≡ 0
  all-count test [] h = refl
  all-count test (x ∷ xs) h = grind (arith, all-count test xs)

  pub count-all :
      (test : A → Bool) (xs : List A) → count (λ x. not (test x)) xs ≡ 0 → all test xs ≡ true
  count-all test [] h = refl
  count-all test (x ∷ xs) h = grind (arith, count-all test xs)

  pub all-SameElements :
      (test : A → Bool) (xs ys : List A)
      → SameElements xs ys
      → all test xs ≡ true
      → all test ys ≡ true
  all-SameElements test xs ys s h =
      count-all test ys (omega (arith, s (λ x. not (test x)), all-count test xs h))

  pub all_mono :
      (f g : A → Bool) (xs : List A)
      → ((x : A) → f x ≡ true → g x ≡ true)
      → all f xs ≡ true
      → all g xs ≡ true
  all_mono f g [] le h = refl
  all_mono f g (x ∷ xs) le h = grind (arith, le x, all_mono f g xs le)

  pub all_at :
      (test : A → Bool) (xs : List A)
      → ((i : ℕ) (x : A) → get_elem? xs i ≡ some x → test x ≡ true)
      → all test xs ≡ true
  all_at test [] h = refl
  all_at test (x ∷ xs) h = rw (h 0 x refl) (all_at test xs (λ i. h (suc i)))

  pub all_append :
      (test : A → Bool) (xs ys : List A)
      → all test xs ≡ true
      → all test ys ≡ true
      → all test (xs ++ ys) ≡ true
  all_append test [] ys h k = k
  all_append test (x ∷ xs) ys h k = grind (arith, all_append test xs ys)

  pub all_and :
      (f g : A → Bool) (xs : List A)
      → all f xs ≡ true
      → all g xs ≡ true
      → all (λ x. f x && g x) xs ≡ true
  all_and f g [] h k = refl
  all_and f g (x ∷ xs) h k = grind (arith, all_and f g xs)

  -- A write changes the counts by the old and the new element.
  pub count-set :
      (test : A → Bool) (xs : List A) (i : ℕ) (x y : A)
      → get_elem? xs i ≡ some x
      → count test (set xs i y) + bit (test x) ≡ count test xs + bit (test y)
  count-set test [] i x y h = cc
  count-set test (z ∷ xs) zero x y h = grind arith
  count-set test (z ∷ xs) (suc i) x y h = omega (arith, count-set test xs i x y h)

-- The order that the sort is instantiated with.
pub record StrictOrder {ℓ} {A : Type ℓ} (less : A → A → Bool) : Type ℓ where
  pub asym : (a b : A) → less a b ≡ true → less b a ≡ false
  -- If not b < a and not c < b, then not c < a.
  pub le_trans : (a b c : A) → less b a ≡ false → less c b ≡ false → less c a ≡ false

module _ {ℓ} {A : Type ℓ} (less : A → A → Bool) where
  abbrev pub at_least : A → A → Bool
  at_least v x = not (less x v)

  abbrev pub at_most : A → A → Bool
  at_most v x = not (less v x)

  -- No element is less than an earlier one.
  abbrev pub IsSorted : List A → Type 0
  IsSorted [] = Unit
  IsSorted (x ∷ xs) = (all (at_least x) xs ≡ true) × IsSorted xs

  abbrev pub IsSortedDown : List A → Type 0
  IsSortedDown [] = Unit
  IsSortedDown (x ∷ xs) = (all (at_most x) xs ≡ true) × IsSortedDown xs

module _ {ℓ} {A : Type ℓ} (less : A → A → Bool) (ord : StrictOrder less) where
  pub irrefl : (a : A) → less a a ≡ false
  irrefl a = elim (Bool-cases (less a a)) [ inl e ↦ ord.asym a a e | inr e ↦ e ]

  pub le-at_least :
      (u v x : A) → less v u ≡ false → at_least less v x ≡ true → at_least less u x ≡ true
  le-at_least u v x h k = grind (arith, ord.le_trans u v x)

  pub le-at_most :
      (u v x : A) → less u v ≡ false → at_most less v x ≡ true → at_most less u x ≡ true
  le-at_most u v x h k = grind (arith, ord.le_trans x v u)

  -- Two sorted parts with a value between them.
  pub IsSorted-append :
      (v : A) (xs ys : List A)
      → IsSorted less xs
      → IsSorted less ys
      → all (at_most less v) xs ≡ true
      → all (at_least less v) ys ≡ true
      → IsSorted less (xs ++ ys)
  IsSorted-append v [] ys hx hy bx by = hy
  IsSorted-append v (x ∷ xs) ys hx hy bx by =
      let head : at_most less v x ≡ true = grind arith in
      let tail : all (at_most less v) xs ≡ true = grind arith in
      (
        all_append (at_least less x) xs ys hx.0 (
            all_mono (at_least less v) (at_least less x) ys (λ z. le-at_least x v z (grind arith))
              by),
        IsSorted-append v xs ys hx.1 hy tail by,
      )
