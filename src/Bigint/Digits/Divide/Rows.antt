-- ===== src/Bigint/Digits/Divide/Rows.antt =====
-- The digits of the quotient, from the top: they divide the array by a divisor whose top digit is
-- at least half the base.
use native.Mathlib.Nat.{mul-le-mul_left}
use crts.Prelude.{
  ℕ, zero, suc, ◌+◌, ◌*◌, ◌≤◌, ◌<◌, ◌≡◌, refl, ap, some, List, [], ◌∷◌, length, take, drop, get_or,
  arith, take_all,
}
use crts.Bigint.Digits.{value, IsDigits}
use crts.Bigint.Digits.Divide.{knuth_rows}
use crts.Bigint.Digits.Divide.Step.{knuth_step-Stepped}

module _ (base : ℕ) (big : 1 < base) (v : List ℕ) (hv : IsDigits base v) (k : ℕ)
    (size : length v ≡ suc (suc k)) (half : base ≤ 2 * get_or v (suc k) 0) where
  -- q is the quotient of u and the first digits of w are the rest.
  pub record Rows (rows : ℕ) (u q w : List ℕ) : Type 0 where
    pub count : length q ≡ rows
    pub digits : IsDigits base q
    pub array : IsDigits base w
    pub as_long : length w ≡ length u
    pub quotient : value base q * value base v + value base (take (length v) w) ≡ value base u
    pub rest : value base (take (length v) w) < value base v

  -- The rows end, where the digits above them are less than v.
  pub knuth_rows-Rows :
      (rows : ℕ) (u : List ℕ)
      → IsDigits base u
      → length u ≡ rows + length v
      → value base (drop rows u) < value base v
      → (r : List ℕ × List ℕ) × (knuth_rows base rows u v ≡ some r) × Rows rows u r.0 r.1
  unfolding knuth_rows
  knuth_rows-Rows zero u hu n top =
      let all = ap (value base) (take_all (length v) u (omega arith)) in
      (
        ([], u),
        refl,
        record {
          count = refl;
          digits = tt;
          array = hu;
          as_long = refl;
          quotient = omega (arith, all);
          rest = omega (arith, all);
        },
      )
  knuth_rows-Rows (suc rows) [] hu n top = absurd (omega arith)
  knuth_rows-Rows (suc rows) (x ∷ u) hu n top =
      let ((q, w), ends, h) = knuth_rows-Rows rows u hu.1 (omega arith) top in
      let below : base * (value base (take (length v) w) + 1) ≤ base * value base v =
        mul-le-mul_left base (omega (arith, h.rest)) in
      let ((w', d), stepped, s) =
        knuth_step-Stepped base big k (x ∷ w) v (hu.0, h.array) hv size (omega (arith, h.as_long))
          half (omega (arith, hu.0)) in
      rw (ends, stepped)
        (
          (d ∷ q, w'),
          refl,
          record {
            count = ap suc h.count;
            digits = (s.digit, h.digits);
            array = s.digits;
            as_long = omega (arith, s.size, h.as_long);
            quotient = omega (arith, s.quotient, ap (λ (t : ℕ). base * t) h.quotient);
            rest = s.rest;
          },
        )
