-- ===== src/Bigint/Digits/Divide/Whole.antt =====
-- The division of digit arrays: by one digit, or with scratch space for the normalized arrays.
use crts.Prelude.{
  ℕ, zero, suc, ◌+◌, ◌-◌, ◌^◌, ◌≤◌, ◌<◌, ◌≡◌, refl, ap, Bool, true, false, not, ◌&&◌, ◌||◌,
  Bool-cases, inl, inr, some, List, [], ◌∷◌, ltb, ◌==◌, length, get_or, arith,
}
use crts.Num.Size.{IsClz}
use crts.Bigint.Digits.{IsDigits}
use crts.Bigint.Digits.Whole.{zd_div_1_lem}
use crts.Bigint.Digits.Divide.{Division, failed, divided, zd_div_knuth, zd_divmod}
use crts.Bigint.Digits.Divide.Leading.{get-digit}
use crts.Bigint.Digits.Divide.Scale.{clz-Shifts}
use crts.Bigint.Digits.Divide.Normal.{Quotient, rows-Quotient}

-- A base with a digit that is not zero.
pub some_digit : (base : ℕ) (xs : List ℕ) (i : ℕ) → IsDigits base xs → 0 < get_or xs i 0 → 1 < base
some_digit base [] i h pos = absurd (omega arith)
some_digit base (x ∷ xs) zero h pos = omega (arith, h.0)
some_digit base (x ∷ xs) (suc i) h pos = some_digit base xs i h.1 pos

-- Is there memory for a division of m by n digits? One digit needs no scratch space.
abbrev pub division_ok : (ℕ → Bool) → ℕ → ℕ → ℕ → Bool
division_ok malloc scratch m n = n == 1 || not (ltb scratch (n + m + 1) && not (malloc (n + m + 1)))

-- The result of a division, with memory and without.
pub data IsDivision (base : ℕ) (u v : List ℕ) : Bool → Division → Type 0 where
  exact_division : (q r : List ℕ) → Quotient base u v q r → IsDivision base u v true (divided q r)
  no_memory : IsDivision base u v false failed

module _ (bits : ℕ) (wide : bits ≤ 64) (clz : ℕ → ℕ) (law : IsClz clz) (malloc : ℕ → Bool)
    (scratch : ℕ) where
  zd_div_knuth-IsDivision :
      (u v : List ℕ) (k : ℕ)
      → IsDigits (2 ^ bits) u
      → IsDigits (2 ^ bits) v
      → length v ≡ suc (suc k)
      → length v ≤ length u
      → 0 < get_or v (length v - 1) 0
      → (d : Division) × (zd_div_knuth bits clz malloc scratch u v ≡ some d)
        × IsDivision
            (2 ^ bits)
            u
            v
            (not (ltb scratch (length v + length u + 1) && not (malloc (length v + length u + 1))))
            d
  unfolding zd_div_knuth
  zd_div_knuth-IsDivision u v k hu hv size longer pos =
      let i : length v - 1 ≡ suc k = omega arith in
      let some_top : 0 < get_or v (suc k) 0 = omega (arith, ap (λ j. get_or v j 0) i) in
      let (fits, low, high) =
        clz-Shifts bits wide clz law (get_or v (suc k) 0) some_top
          (get-digit (2 ^ bits) (some_digit (2 ^ bits) v (suc k) hv some_top) v (suc k) hv) in
      let (row, ends, h) = rows-Quotient bits _ fits u v k hu hv size longer low high in
      elim (Bool-cases
        (ltb scratch (length v + length u + 1) && not (malloc (length v + length u + 1)))) [
          | inl refused ↦ rw (i, refused) (failed, refl, no_memory)
          | inr served ↦ rw (i, served, ends) (divided row.0 _, refl, exact_division _ _ h)
        ]

  -- For digits of up to 64 bits, a divisor whose top digit is not zero and a dividend that is not
  -- shorter, zd_divmod ends: where no scratch space is allocated or the allocation succeeds, with
  -- the quotient and a rest below the divisor, in as many digits as the arrays have; else it fails.
  pub zd_divmod-IsDivision :
      (u v : List ℕ)
      → IsDigits (2 ^ bits) u
      → IsDigits (2 ^ bits) v
      → 0 < length v
      → length v ≤ length u
      → 0 < get_or v (length v - 1) 0
      → (d : Division) × (zd_divmod bits clz malloc scratch u v ≡ some d)
        × IsDivision (2 ^ bits) u v (division_ok malloc scratch (length u) (length v)) d
  unfolding zd_divmod
  zd_divmod-IsDivision u [] hu hv pos longer top = absurd (omega arith)
  zd_divmod-IsDivision u (x ∷ []) hu hv pos longer top =
      let big : 1 < 2 ^ bits = omega (arith, hv.0) in
      let (e, (dq, lq), lt) = zd_div_1_lem (2 ^ bits) big u x hu hv.0 top in
      (
        divided _ _,
        refl,
        exact_division _ _ (record {
          quotient = omega (arith, e);
          rest = omega arith;
          quotient_digits = (dq, omega (arith, lq));
          rest_digits = ((omega (arith, lt, hv.0), tt), refl);
        }),
      )
  zd_divmod-IsDivision u (x ∷ y ∷ v) hu hv pos longer top =
      let more : (suc (suc (length v)) == 1) ≡ false = ground arith in
      rw more (zd_div_knuth-IsDivision u (x ∷ y ∷ v) (length v) hu hv refl longer top)
