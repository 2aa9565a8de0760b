-- ===== src/Prelude/Counts.antt =====
-- Lists with the same elements, by counting those that pass a test.
use crts.Prelude.{ℕ, ◌+◌, ◌≡◌, Bool, true, false, List, [], ◌∷◌, ◌++◌, arith}

abbrev pub bit : Bool → ℕ
bit true = 1
bit false = 0

module _ {ℓ} {A : Type ℓ} where
  abbrev pub count : (A → Bool) → List A → ℕ
  count test [] = 0
  count test (x ∷ xs) = bit (test x) + count test xs

  -- Two lists have the same elements, as often, when no test on elements tells them apart.
  abbrev pub SameElements : List A → List A → Type ℓ
  SameElements xs ys = (test : A → Bool) → count test xs ≡ count test ys

  pub count-append :
      (test : A → Bool) (xs ys : List A) → count test (xs ++ ys) ≡ count test xs + count test ys
  count-append test [] ys = omega arith
  count-append test (x ∷ xs) ys = omega (arith, count-append test xs ys)
