-- ===== src/Bigint/Digits/Divide/Estimate.antt =====
-- The estimate of a digit from the top three digits of u and the top two of v.
use native.Mathlib.Nat.{
  add-mod_right, add-mul-div_left, mul-add-mod_self_left, div-le_self, mod-lt, mod-eq_of_lt,
  div-add-mod, mul-le-mul, mul-le-mul_left, mul-le-mul_right,
}
use crts.Prelude.{
  ℕ, zero, suc, ◌+◌, ◌-◌, ◌*◌, ◌/◌, ◌%◌, ◌≤◌, ◌<◌, ◌≡◌, refl, ap, ◌∙◌, Bool, true, false, ◌&&◌,
  ◌||◌, Option, some, ltb, leb, ◌==◌, Bool-cases, inl, inr, arith, if◌then◌else◌, ◌-◌,
}
use crts.Bigint.Digits.{bit, add_overflow, sub_overflow, zd_dd_mul, zd_dd_div}
use crts.Bigint.Digits.Step.{zd_dd_mul_lem, zd_dd_div_lem, add_overflow_lem}
use crts.Bigint.Digits.Divide.{calculate}

-- `q` is the largest digit whose product with `w` is not above `x`.
pub record Largest (base x w q : ℕ) : Type 0 where
  pub digit : q < base
  pub below : q * w ≤ x
  pub most : (t : ℕ) → t < base → t * w ≤ x → t ≤ q

module _ (base : ℕ) (big : 1 < base) (v1 v2 u0 u1 u2 : ℕ) where
  abbrev divisor : ℕ
  divisor = v1 * base + v2

  abbrev dividend : ℕ
  dividend = (u0 * base + u1) * base + u2

  fits : (q r : ℕ) → q * v1 + r ≡ u0 * base + u1 → q * v2 ≤ r * base + u2 → q * divisor ≤ dividend
  fits q r e h = omega (arith, ap (λ (k : ℕ). k * base) e)

  exceeds :
      (q r : ℕ) → q * v1 + r ≡ u0 * base + u1 → r * base + u2 < q * v2 → dividend < q * divisor
  exceeds q r e h = omega (arith, ap (λ (k : ℕ). k * base) e)

  -- A rest that is no digit is large enough.
  fits_over :
      (q r : ℕ)
      → q < base
      → v2 < base
      → base ≤ r
      → q * v1 + r ≡ u0 * base + u1
      → q * divisor ≤ dividend
  fits_over q r hq hv hr e =
      let le : q * v2 ≤ base * base = mul-le-mul (omega arith) (omega arith) in
      let more : base * base ≤ r * base = mul-le-mul_right base hr in fits q r e (omega arith)

  -- Products that grow past `dividend` are not reached by smaller digits.
  lower :
      (q : ℕ)
      → dividend < q * divisor
      → ((t : ℕ) → t < base → t * divisor ≤ dividend → t ≤ q)
      → (t : ℕ) → t < base
      → t * divisor ≤ dividend
      → t ≤ q - 1
  lower q h most t ht le = elim (Bool-cases (t == q)) [
    | inl same ↦
        let e : t ≡ q = ground arith in absurd (omega (arith, ap (λ (k : ℕ). k * divisor) e))
    | inr other ↦ let ne = most t ht le in ground arith
  ]

  -- The two tests of the high and the low digit are one of the whole numbers.
  product_test :
      (q r : ℕ)
      → q < base
      → v2 < base
      → u2 < base
      → (let (h, l) = zd_dd_mul base q v2 in
          ((ltb h r || (h == r && leb l u2)) ≡ leb (q * v2) (r * base + u2)))
  product_test q r hq hv hu =
      let (h, l) = zd_dd_mul base q v2 in
      let (e, lh, ll) = zd_dd_mul_lem base big q v2 hq hv in
      elim (Bool-cases (ltb h r)) [
        | inl less ↦
            let le : base * (h + 1) ≤ base * r = mul-le-mul_left base (ground arith) in ground arith
        | inr more ↦ elim (Bool-cases (h == r)) [
          | inl same ↦
              let s : base * h ≡ base * r = ap (λ (k : ℕ). base * k) (ground arith) in ground arith
          | inr other ↦
              let le : base * (r + 1) ≤ base * h = mul-le-mul_left base (ground arith) in
              ground arith
        ]
      ]

  decrement :
      (qh : Bool) (q : ℕ)
      → q < base
      → 0 < bit qh * base + q
      → (let (q', under) = sub_overflow base q 1 in
          ((bit (under == 0 && qh) * base + q' ≡ bit qh * base + q - 1) × (q' < base)))
  unfolding sub_overflow
  decrement true zero hq pos = grind arith
  decrement true (suc q) hq pos = grind arith
  decrement false zero hq pos = absurd (omega arith)
  decrement false (suc q) hq pos = grind arith

  module _ (digits : (v2 < base) × (u2 < base)) (top : u0 ≤ v1) (next : u1 < base)
      (v1_digit : v1 < base) where
    -- A Q that does not fit in a digit leaves a rest that does.
    rest_fits : (q r : ℕ) → q * v1 + r ≡ u0 * base + u1 → base ≤ q → r < base
    rest_fits q r e h =
        let le : u0 * base ≤ v1 * base = mul-le-mul_right base top in
        let more : base * v1 ≤ q * v1 = mul-le-mul_right v1 h in omega arith

    digit_of : (q r : ℕ) → q * v1 + r ≡ u0 * base + u1 → base ≤ r → q < base
    digit_of q r e much = elim (Bool-cases (ltb q base)) [
      | inl below ↦ ground arith
      | inr above ↦ absurd (omega (arith, rest_fits q r e (ground arith)))
    ]

    wrapped : (b : Bool) (x y : ℕ) → bit b * base + x ≡ y → y < base → x ≡ y
    wrapped true x y e h = absurd (omega arith)
    wrapped false x y e h = omega arith

    -- What holds of Qh, Q and R before each round.
    record Rests (qh : Bool) (q r : ℕ) : Type 0 where
      q_digit : q < base
      r_digit : r < base
      sum : (bit qh * base + q) * v1 + r ≡ u0 * base + u1
      most : (t : ℕ) → t < base → t * divisor ≤ dividend → t ≤ bit qh * base + q

    abbrev Ends : Option ℕ → Type 0
    Ends o = (d : ℕ) × (o ≡ some d) × Largest base dividend divisor d

    -- The rounds after a Q that is too large.
    lowered-Largest :
        (fuel : ℕ) (qh : Bool) (q r : ℕ)
        → Rests qh q r
        → base ≤ r + suc fuel * v1
        → 0 < bit qh * base + q
        → ((t : ℕ) → t < base → t * divisor ≤ dividend → t ≤ bit qh * base + q - 1)
        → ((qh' : Bool) (q' r' : ℕ)
            → Rests qh' q' r'
            → base ≤ r' + fuel * v1
            → Ends (calculate base fuel v1 v2 u2 qh' q' r'))
        → (let (q', under) = sub_overflow base q 1 in
            let (r', over) = add_overflow base r v1 in
            Ends (
              if over == 0 then calculate base fuel v1 v2 u2 (under == 0 && qh) q' r' else some q'))
    lowered-Largest fuel qh q r h enough pos most rest =
        let (q', under) = sub_overflow base q 1 in
        let (r', over) = add_overflow base r v1 in
        let (less, hq') = decrement qh q h.q_digit pos in
        let (sum, hr', ho) = add_overflow_lem base big r v1 h.r_digit v1_digit in
        let q1 = bit qh * base + q - 1 in
        let one : bit qh * base + q ≡ q1 + 1 = omega arith in
        let e : q1 * v1 + (r + v1) ≡ u0 * base + u1 =
          omega (arith, h.sum, ap (λ (k : ℕ). k * v1) one) in
        elim (Bool-cases (over == 0)) [
          | inl small ↦
              let none : over ≡ 0 = ground arith in
              let same : r' ≡ r + v1 = omega (arith, ap (λ (k : ℕ). base * k) none) in
              rw small (
                rest (under == 0 && qh) q' r'
                  (record {
                    q_digit = hq';
                    r_digit = hr';
                    sum = omega (arith, e, same, ap (λ (k : ℕ). k * v1) less);
                    most = λ t ht le. omega (arith, less, most t ht le);
                  })
                  (omega (arith, same)))
          | inr large ↦
              let one_over : over ≡ 1 = ground arith in
              let much : base ≤ r + v1 = omega (arith, ap (λ (k : ℕ). base * k) one_over) in
              let digit : q1 < base = digit_of q1 (r + v1) e much in
              let same : q' ≡ q1 = wrapped (under == 0 && qh) q' q1 less digit in
              rw (large, same)
                (
                  q1,
                  refl,
                  record {
                    digit = digit;
                    below = fits_over q1 (r + v1) digit digits.0 much e;
                    most = most;
                  },
                )
        ]

    calculate-Largest :
        (fuel : ℕ) (qh : Bool) (q r : ℕ)
        → Rests qh q r
        → base ≤ r + fuel * v1
        → Ends (calculate base fuel v1 v2 u2 qh q r)
    unfolding calculate
    calculate-Largest zero qh q r h enough = absurd (omega (arith, h.r_digit))
    calculate-Largest (suc fuel) true q r h enough =
        lowered-Largest fuel true q r h enough (omega arith) (λ t ht le. omega arith)
          (calculate-Largest fuel)
    calculate-Largest (suc fuel) false q r h enough =
        let test = product_test q r h.q_digit digits.0 digits.1 in
        elim (Bool-cases (leb (q * v2) (r * base + u2))) [
          | inl right ↦
              rw (test, right)
                (
                  q,
                  refl,
                  record {
                    digit = h.q_digit;
                    below = fits q r (omega (arith, h.sum)) (ground arith);
                    most = λ t ht le. omega (arith, h.most t ht le);
                  },
                )
          | inr wrong ↦
              let more : r * base + u2 < q * v2 = ground arith in
              let pos : 0 < q = positive q more in
              rw (test, wrong)
                (lowered-Largest fuel false q r h enough (omega arith)
                  (λ t ht le. omega (
                    arith,
                    lower q (exceeds q r (omega (arith, h.sum)) more)
                        (λ t ht le. omega (arith, h.most t ht le)) t ht le,
                  ))
                  (calculate-Largest fuel))
        ]
      where
        positive : (q : ℕ) → r * base + u2 < q * v2 → 0 < q
        positive zero more = absurd (omega arith)
        positive (suc q) more = omega arith

    rest_lt : (q r t : ℕ) → q * v1 + r ≡ u0 * base + u1 → r < v1 → t * divisor ≤ dividend → t ≤ q
    rest_lt q r t e hr le = elim (Bool-cases (leb t q)) [
      | inl small ↦ ground arith
      | inr large ↦
          let more : (q + 1) * v1 ≤ t * v1 = mul-le-mul_right v1 (ground arith) in
          let all : (u0 * base + u1 + 1) * base ≤ t * v1 * base =
            mul-le-mul_right base (omega arith) in
          absurd (omega arith)
    ]

    first-Rests : 0 < v1 → (let (q, r) = zd_dd_div base u0 u1 v1 in Rests (u0 == v1) q r)
    unfolding zd_dd_div
    first-Rests pos = elim (Bool-cases (u0 == v1)) [
      | inl same ↦
          let e : u0 ≡ v1 = ground arith in
          let quotient : (v1 * base + u1) / v1 ≡ u1 / v1 + base =
            ap (λ k. k / v1) (omega arith) ∙ add-mul-div_left u1 base pos in
          let rest : (v1 * base + u1) % v1 ≡ u1 % v1 = mul-add-mod_self_left v1 base u1 in
          let little : u1 / v1 < base = le_lt (div-le_self u1 v1) next in
          let below = mod-lt u1 pos in
          let q_same : (u1 / v1 + base) % base ≡ u1 / v1 = wrap (u1 / v1) little in
          let r_same : u1 % v1 % base ≡ u1 % v1 = mod-eq_of_lt (omega arith) in
          let sum : (1 * base + u1 / v1) * v1 + u1 % v1 ≡ u0 * base + u1 =
            omega (arith, div-add-mod u1 v1, ap (λ (k : ℕ). k * base) e) in
          rw (same, e, quotient, rest, q_same, r_same)
            (record {
              q_digit = little;
              r_digit = omega arith;
              sum = sum;
              most = λ t ht le. omega arith;
            })
      | inr other ↦
          let (e, lq, lr) = zd_dd_div_lem base big u0 u1 v1 (ground arith) next v1_digit in
          rw other (record {
            q_digit = lq;
            r_digit = omega arith;
            sum = omega (arith, e);
            most = λ t ht le. omega (arith, rest_lt _ _ t e lr le);
          })
    ]
      where
        le_lt : {x y z : ℕ} → x ≤ y → y < z → x < z
        le_lt h k = omega arith

        wrap : (x : ℕ) → x < base → (x + base) % base ≡ x
        wrap x h = add-mod_right x base ∙ mod-eq_of_lt h

    -- The estimate of the digit ends, with the largest digit that the leading digits allow.
    pub estimate-Largest :
        base ≤ 2 * v1
        → (let (q, r) = zd_dd_div base u0 u1 v1 in Ends (calculate base 2 v1 v2 u2 (u0 == v1) q r))
    estimate-Largest half = calculate-Largest 2 _ _ _ (first-Rests (omega arith)) (omega arith)
