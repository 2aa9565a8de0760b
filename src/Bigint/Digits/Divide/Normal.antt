-- ===== src/Bigint/Digits/Divide/Normal.antt =====
-- The rows on a normalized divisor, with the rest shifted back, divide.
use native.Mathlib.Nat.{
  pow-succ', one-le-pow, mul-le-mul_left, mul-le-mul_right, lt_of_mul-lt-mul_left,
  lt_of_mul-lt-mul_right, le_of_mul-le-mul_right,
}
use crts.Prelude.{
  ℕ, suc, ◌+◌, ◌-◌, ◌*◌, ◌^◌, ◌≤◌, ◌<◌, ◌≡◌, ap, ◌∙◌, some, List, [], ◌∷◌, ◌++◌, length, take, drop,
  take_all, get_or, length-append, length-take, arith,
}
use crts.Bigint.Digits.{value, IsDigits}
use crts.Bigint.Digits.Value.{
  zero_of_lt, pow-add, pow-le-pow, value-lt, value-snoc, value-take-drop, IsDigits-append,
  IsDigits-take,
}
use crts.Bigint.Digits.Add.{Holds}
use crts.Bigint.Digits.Shift.{split_width}
use crts.Bigint.Digits.Divide.{normalized, denormalized, knuth_rows}
use crts.Bigint.Digits.Divide.Leading.{value-take-suc, take-lt}
use crts.Bigint.Digits.Divide.Scale.{normalized_lem, denormalized_lem}
use crts.Bigint.Digits.Divide.Rows.{knuth_rows-Rows}

-- The quotient and the rest of a division by an array of digits.
pub record Quotient (base : ℕ) (u v q r : List ℕ) : Type 0 where
  pub quotient : value base q * value base v + value base r ≡ value base u
  pub rest : value base r < value base v
  pub quotient_digits : Holds base (length u - length v + 1) q
  pub rest_digits : Holds base (length v) r

module _ (bits : ℕ) (s : ℕ) (fits : s < bits) (u v : List ℕ) (k : ℕ) (hu : IsDigits (2 ^ bits) u)
    (hv : IsDigits (2 ^ bits) v) (size : length v ≡ suc (suc k)) (longer : length v ≤ length u)
    (low : get_or v (suc k) 0 < 2 ^ (bits - s))
    (high : 2 ^ (bits - s) ≤ 2 * get_or v (suc k) 0) where
  abbrev base : ℕ
  base = 2 ^ bits

  abbrev vn : List ℕ
  vn = (normalized bits v s).0

  big : 1 < base
  big = omega (arith, pow-le-pow 2 1 bits (omega arith) (omega arith))

  split : 2 ^ (bits - s) * 2 ^ s ≡ base
  split = split_width bits s (omega arith)

  bounds :
      (a : List ℕ)
      → IsDigits base a
      → length a ≡ suc (suc k)
      → (get_or a (suc k) 0 * base ^ suc k ≤ value base a)
        × (value base a < (get_or a (suc k) 0 + 1) * base ^ suc k)
  bounds a ha n =
      let all : value base (take (suc (suc k)) a) ≡ value base a =
        ap (value base) (take_all (suc (suc k)) a (omega arith)) in
      let parts = value-take-suc base big (suc k) a in
      (
        omega (arith, all, parts),
        omega (arith, all, parts, take-lt base big (suc k) a ha (omega arith)),
      )

  -- Nothing is shifted out of the divisor.
  vn_value : value base vn ≡ value base v * 2 ^ s
  vn_value =
      let (e, _, _) = normalized_lem bits s fits v hv in
      let p = base ^ suc k in
      let (_, below) = bounds v hv size in
      let scaled : (value base v + 1) * 2 ^ s ≤ (get_or v (suc k) 0 + 1) * p * 2 ^ s =
        mul-le-mul_right (2 ^ s) (omega arith) in
      let room : (get_or v (suc k) 0 + 1) * 2 ^ s ≤ 2 ^ (bits - s) * 2 ^ s =
        mul-le-mul_right (2 ^ s) (omega arith) in
      let whole : p * ((get_or v (suc k) 0 + 1) * 2 ^ s) ≤ p * base =
        mul-le-mul_left p (omega (arith, split)) in
      let n : base ^ length v ≡ base * p = ap (◌^◌ base) size ∙ pow-succ' base (suc k) in
      let none =
        zero_of_lt (base ^ length v) (normalized bits v s).1
          (omega (arith, one-le-pow s 2 (omega arith))) in
      omega (arith, e, ap (λ (t : ℕ). base ^ length v * t) none)

  -- Its top digit is at least half the base then.
  vn_half : base ≤ 2 * get_or vn (suc k) 0
  vn_half =
      let (_, (dn, ln), _) = normalized_lem bits s fits v hv in
      let p = base ^ suc k in
      let (above, _) = bounds v hv size in
      let (_, below) = bounds vn dn (omega arith) in
      let half : 2 ^ (bits - s) * 2 ^ s ≤ 2 * get_or v (suc k) 0 * 2 ^ s =
        mul-le-mul_right (2 ^ s) high in
      let half_p : base * p ≤ 2 * get_or v (suc k) 0 * 2 ^ s * p =
        mul-le-mul_right p (omega (arith, split)) in
      let scaled : get_or v (suc k) 0 * p * 2 ^ s ≤ value base v * 2 ^ s =
        mul-le-mul_right (2 ^ s) above in
      let less : base < 2 * get_or vn (suc k) 0 + 2 =
        lt_of_mul-lt-mul_right p (omega (arith, vn_value)) in
      let even : base ≡ 2 * 2 ^ (bits - 1) =
        ap (λ (t : ℕ). 2 ^ t) (omega arith) ∙ pow-succ' 2 (bits - 1) in
      omega arith

  abbrev un : List ℕ
  un = (normalized bits u s).0 ++ (normalized bits u s).1 ∷ []

  un_value : value base un ≡ value base u * 2 ^ s
  un_value =
      let (e, (_, l), _) = normalized_lem bits s fits u hu in
      omega (
        arith,
        e,
        value-snoc base (normalized bits u s).0 (normalized bits u s).1,
        ap (λ (t : ℕ). base ^ t * (normalized bits u s).1) l,
      )

  un_digits : Holds base (length u + 1) un
  un_digits =
      let (_, (dn, l), lt) = normalized_lem bits s fits u hu in
      let le = pow-le-pow 2 s bits (omega arith) (omega arith) in
      (
        IsDigits-append base (normalized bits u s).0 _ dn (omega arith, tt),
        omega (arith, length-append (normalized bits u s).0 ((normalized bits u s).1 ∷ [])),
      )

  abbrev rows : ℕ
  rows = length u - length v + 1

  -- The digits above the rows are less than the divisor.
  un_top : value base (drop rows un) < value base vn
  un_top =
      let (_, l) = un_digits in
      let p = base ^ suc k in
      let (above, _) = bounds v hv size in
      let scaled : (value base u + 1) * 2 ^ s ≤ base ^ length u * 2 ^ s =
        mul-le-mul_right (2 ^ s) (omega (arith, value-lt base u hu)) in
      let places : base ^ length u ≡ base ^ rows * p =
        ap (◌^◌ base) (omega arith) ∙ pow-add base rows (suc k) in
      let less : value base (drop rows un) < p * 2 ^ s = lt_of_mul-lt-mul_left (base ^ rows) (
        omega (
          arith,
          value-take-drop base rows un (omega arith),
          un_value,
          one-le-pow s 2 (omega arith),
          ap (λ (t : ℕ). t * 2 ^ s) places,
        )) in
      let some_top : 1 * p ≤ get_or v (suc k) 0 * p =
        mul-le-mul_right p (omega (arith, one-le-pow (bits - s) 2 (omega arith))) in
      let under : p * 2 ^ s ≤ value base v * 2 ^ s = mul-le-mul_right (2 ^ s) (omega arith) in
      omega (arith, vn_value)

  -- The rows and the shift back divide u by v.
  pub rows-Quotient :
      (r : List ℕ × List ℕ) × (knuth_rows base rows un vn ≡ some r)
      × Quotient base u v r.0 (denormalized bits (take (length v) r.1) s)
  rows-Quotient =
      let (_, (dv, lv), _) = normalized_lem bits s fits v hv in
      let (du, lu) = un_digits in
      let ((q, w), ends, h) =
        knuth_rows-Rows base big vn dv k (omega arith) vn_half rows un du (omega arith) un_top in
      let a = take (length v) w in
      let same : value base (take (length vn) w) ≡ value base a =
        ap (λ n. value base (take n w)) lv in
      let pos : 0 < 2 ^ s = one-le-pow s 2 (omega arith) in
      let sum : value base q * value base v * 2 ^ s + value base a ≡ value base u * 2 ^ s =
        omega (arith, h.quotient, same, un_value, ap (λ (t : ℕ). value base q * t) vn_value) in
      let enough : value base q * value base v ≤ value base u =
        le_of_mul-le-mul_right {k = 2 ^ s} (omega arith) pos in
      let x = value base u - value base q * value base v in
      let whole : value base u ≡ value base q * value base v + x = omega arith in
      let shifted : value base a ≡ 2 ^ s * x =
        omega (arith, sum, ap (λ (t : ℕ). t * 2 ^ s) whole) in
      let below : x < value base v =
        lt_of_mul-lt-mul_right (2 ^ s) (omega (arith, h.rest, same, vn_value)) in
      let (e, (dr, lr)) =
        denormalized_lem bits s fits a x (IsDigits-take base (length v) w h.array) shifted in
      (
        (q, w),
        ends,
        record {
          quotient = omega (arith, e);
          rest = omega (arith, e);
          quotient_digits = (h.digits, h.count);
          rest_digits = (dr, omega (arith, lr, length-take (length v) w, h.as_long));
        },
      )
