-- ===== src/Bigint/Integer/Bits/Made.antt =====
-- The result of an operation on magnitudes.
use crts.Prelude.{
  ℕ, ◌+◌, ◌≤◌, ◌≡◌, refl, ◌∙◌, Bool, true, false, Bool-cases, inl, inr, List, length, arith, ◌==◌,
}
use crts.Bigint.Digits.{value, IsDigits}
use crts.Bigint.Integer.{ZInt, z_err, IsNormal, z_new_ok, z_new_checked, z_trim, trim, is_empty}
use crts.Bigint.Integer.Normal.{IsTidy, trim_lem}

-- The normal form of a number, in at most n digits; or an allocation of no more than n + 1 digits
-- has failed, and the result is the error value.
pub data Made (base : ℕ) (malloc : ℕ → Bool) (n v : ℕ) : ZInt → Type 0 where
  made :
      (r : ZInt)
      → IsNormal base r
      → r.neg ≡ false
      → value base r.digits ≡ v
      → length r.digits ≤ n
      → Made base malloc n v r
  lost : (k : ℕ) → k ≤ n + 1 → malloc k ≡ false → Made base malloc n v z_err

module _ (base : ℕ) (malloc : ℕ → Bool) where
  -- What is written stands in the result, if the allocation succeeds.
  pub checked-Made :
      (n v k : ℕ) (err : Bool) (d : List ℕ)
      → err ≡ false
      → k ≤ n + 1
      → IsTidy base d
      → value base d ≡ v
      → length d ≤ n
      → Made base malloc n v (z_new_checked malloc err k (false, d))
  unfolding z_new_checked z_new_ok
  checked-Made n v k true d e le t same fits = cc
  checked-Made n v k false d e le (dd, dt) same fits =
      let r : ZInt = record { digits = d; alloc = k; neg = false; err = false } in
      let there =
        made r (record { digits_fit = dd; trimmed = dt; zero_sign = λ _. refl; no_error = refl })
          refl same fits in
      elim (Bool-cases (k == 0)) [
        | inl none ↦ rw none there
        | inr some_digits ↦ elim (Bool-cases (malloc k)) [
          | inl ok ↦ rw (some_digits, ok) there
          | inr no_memory ↦ rw (some_digits, no_memory) (lost k le no_memory)
        ]
      ]

  pub trimmed-Made :
      (n v k : ℕ) (err : Bool) (d : List ℕ)
      → err ≡ false
      → k ≤ n + 1
      → IsDigits base d
      → value base d ≡ v
      → length d ≤ n
      → Made base malloc n v (z_new_checked malloc err k (z_trim false d))
  unfolding z_trim
  trimmed-Made n v k err d e le h same fits =
      let (t, tv, tl) = trim_lem base d h in
      let there = checked-Made n v k err (trim d) e le t (tv ∙ same) (omega arith) in
      elim (Bool-cases (is_empty (trim d))) [ inl none ↦ rw none there | inr more ↦ rw more there ]
