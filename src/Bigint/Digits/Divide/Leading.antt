-- ===== src/Bigint/Digits/Divide/Leading.antt =====
-- The leading digits of a number, and what they say of a quotient.
use Prim.Native.Nat.pow
use native.Mathlib.Nat.{pow-succ', mul-le-mul, mul-le-mul_right, lt_of_mul-lt-mul_right}
use crts.Prelude.{
  ℕ, zero, suc, ◌+◌, ◌*◌, ◌^◌, ◌≤◌, ◌<◌, ◌≡◌, ap, Bool-cases, inl, inr, List, [], ◌∷◌, ltb, length,
  take, get_or, length-take, arith,
}
use crts.Bigint.Digits.{value, IsDigits}
use crts.Bigint.Digits.Value.{value-lt, IsDigits-take}
use crts.Bigint.Digits.Divide.Estimate.{Largest}

module _ (base : ℕ) (big : 1 < base) where
  pub value-take-suc :
      (n : ℕ) (xs : List ℕ)
      → value base (take (suc n) xs) ≡ value base (take n xs) + base ^ n * get_or xs n 0
  value-take-suc zero [] = omega arith
  value-take-suc zero (x ∷ xs) = omega (arith, ap (λ (k : ℕ). k * x) (pow.zero base))
  value-take-suc (suc n) [] = omega arith
  value-take-suc (suc n) (x ∷ xs) = omega (
    arith,
    ap (λ (k : ℕ). base * k) (value-take-suc n xs),
    ap (λ (k : ℕ). k * get_or xs n 0) (pow-succ' base n),
  )

  pub get-digit : (xs : List ℕ) (i : ℕ) → IsDigits base xs → get_or xs i 0 < base
  get-digit [] i h = omega arith
  get-digit (x ∷ xs) zero h = h.0
  get-digit (x ∷ xs) (suc i) h = get-digit xs i h.1

  pub take-lt :
      (n : ℕ) (xs : List ℕ) → IsDigits base xs → n ≤ length xs → value base (take n xs) < base ^ n
  take-lt n xs h le =
      let same : length (take n xs) ≡ n = omega (arith, length-take n xs) in
      omega (arith, value-lt base (take n xs) (IsDigits-take base n xs h), ap (λ k. base ^ k) same)

  -- The top digits of a number, and what is below them.
  pub top_two :
      (k : ℕ) (xs : List ℕ)
      → value base (take (suc (suc k)) xs)
        ≡ (get_or xs (suc k) 0 * base + get_or xs k 0) * base ^ k + value base (take k xs)
  top_two k xs = omega (
    arith,
    value-take-suc (suc k) xs,
    value-take-suc k xs,
    ap (λ (t : ℕ). t * get_or xs (suc k) 0) (pow-succ' base k),
  )

  pub top_three :
      (k : ℕ) (xs : List ℕ)
      → value base (take (suc (suc (suc k))) xs)
        ≡ ((get_or xs (suc (suc k)) 0 * base + get_or xs (suc k) 0) * base + get_or xs k 0)
            * base ^ k
          + value base (take k xs)
  top_three k xs = omega (
    arith,
    value-take-suc (suc (suc k)) xs,
    top_two k xs,
    ap (λ (t : ℕ). t * get_or xs (suc (suc k)) 0) (pow-succ' base (suc k)),
    ap (λ (t : ℕ). t * base * get_or xs (suc (suc k)) 0) (pow-succ' base k),
  )

  -- Digits below the leading ones move the quotient by one at most.
  module _ (x w p xl wl u v q : ℕ) (u_split : u ≡ x * p + xl) (v_split : v ≡ w * p + wl)
      (xl_low : xl < p) (wl_low : wl < p) (wide : base ≤ w) (small : u < base * v)
      (h : Largest base x w q) where
    pub not_too_small : u < (q + 1) * v
    not_too_small = elim (Bool-cases (ltb u ((q + 1) * v))) [
      | inl below ↦ ground arith
      | inr above ↦
          let fits : (q + 1) * v ≤ u = ground arith in
          let digit : q + 1 < base = lt_of_mul-lt-mul_right v (omega arith) in
          let scaled : (q + 1) * w * p < (x + 1) * p =
            omega (arith, ap (λ (k : ℕ). (q + 1) * k) v_split) in
          let less : (q + 1) * w < x + 1 = lt_of_mul-lt-mul_right p scaled in
          absurd (omega (arith, h.most (q + 1) digit (omega arith)))
    ]

    pub one_too_large : q * v ≤ u + v
    one_too_large =
        let lead : q * w * p ≤ x * p = mul-le-mul_right p h.below in
        let low : q * wl ≤ base * p = mul-le-mul (omega (arith, h.digit)) (omega arith) in
        let room : base * p ≤ w * p = mul-le-mul_right p wide in
        omega (arith, ap (λ (k : ℕ). q * k) v_split)
