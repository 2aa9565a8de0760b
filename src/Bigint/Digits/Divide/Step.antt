-- ===== src/Bigint/Digits/Divide/Step.antt =====
-- One digit of the quotient: the estimate is at most one too large, and adding back mends it.
use native.Mathlib.Nat.{mul-le-mul_left, mul-le-mul_right, mod-lt, mod-eq_of_lt, add-mod_right}
use crts.Prelude.{
  ℕ, zero, suc, ◌+◌, ◌-◌, ◌*◌, ◌%◌, ◌^◌, ◌≤◌, ◌<◌, ◌≡◌, refl, sym, ap, ◌∙◌, Bool-cases, inl, inr,
  some, List, [], ◌∷◌, ◌++◌, leb, ◌==◌, length, take, drop, take_all, get_or, length-take,
  length-drop, length-append, arith,
}
use crts.Bigint.Digits.{value, IsDigits, sub_overflow, zd_add_n, zd_submul_1}
use crts.Bigint.Digits.Value.{zero_of_lt, value-lt, IsDigits-append, IsDigits-take, IsDigits-drop}
use crts.Bigint.Digits.Step.{sub_overflow_lem}
use crts.Bigint.Digits.Add.{Holds, zd_add_n_lem}
use crts.Bigint.Digits.Mul.{zd_submul_1_lem}
use crts.Bigint.Digits.Divide.{multiply_subtract, zd_div_knuth_step}
use crts.Bigint.Digits.Divide.Estimate.{estimate-Largest}
use crts.Bigint.Digits.Divide.Leading.{
  value-take-suc, get-digit, take-lt, top_two, top_three, not_too_small, one_too_large,
}

take-append : (xs ys : List ℕ) (n : ℕ) → length xs ≡ n → take n (xs ++ ys) ≡ xs
take-append [] ys zero e = refl
take-append [] ys (suc n) e = absurd (omega arith)
take-append (x ∷ xs) ys zero e = absurd (omega arith)
take-append (x ∷ xs) ys (suc n) e = ap (◌∷◌ x) (take-append xs ys n (omega arith))

module _ (base : ℕ) (big : 1 < base) where
  less_one : (q : ℕ) → 0 < q → q < base → (q + base - 1) % base ≡ q - 1
  less_one zero pos h = elim pos [ ]
  less_one (suc q) pos h =
      ap (λ k. k % base) (omega arith)
      ∙ add-mod_right q base
      ∙ mod-eq_of_lt (omega arith)
      ∙ omega arith

  carried : (p x r s : ℕ) → x < p → r < p → s ≤ base → x + p * s ≡ r + p * base → x ≡ r
  carried p x r s hx hr hs e = elim (Bool-cases (s == base)) [
    | inl same ↦ let f : s ≡ base = ground arith in omega (arith, ap (λ (k : ℕ). p * k) f)
    | inr less ↦
        let le : p * (s + 1) ≤ p * base = mul-le-mul_left p (ground arith) in absurd (omega arith)
  ]

  positive : (q v x : ℕ) → x < q * v → 0 < q
  positive zero v x h = absurd (omega arith)
  positive (suc q) v x h = omega arith

  -- If the subtraction of q * v borrows, adding v back leaves the rest of q - 1.
  added_back :
      (p w t q v u back carry : ℕ)
      → w < p
      → t < base
      → back < p
      → carry ≤ 1
      → v < p
      → w + p * t + v * q ≡ u + p * base
      → back + p * carry ≡ w + v
      → u < (q + 1) * v
      → q * v ≤ u + v
      → (0 < q) × (back ≡ u + v - q * v) × (u < q * v)
  added_back p w t q v u back carry hw ht hb hc hv e f most near =
      let full : p * (t + 1) ≤ p * base = mul-le-mul_left p (omega arith) in
      (
        positive q v u (omega arith),
        carried p back (u + v - q * v) (t + carry) hb (omega arith) (omega arith) (omega arith),
        omega arith,
      )

  -- After a step: the digit, and the rest in the place of the digits that were divided.
  pub record Stepped (u v w : List ℕ) (d : ℕ) : Type 0 where
    pub digit : d < base
    pub digits : IsDigits base w
    pub size : length w ≡ length u
    pub quotient :
        d * value base v + value base (take (length v) w) ≡ value base (take (suc (length v)) u)
    pub rest : value base (take (length v) w) < value base v

  module _ (u v : List ℕ) (hu : IsDigits base u) (hv : IsDigits base v)
      (long : length v + 1 ≤ length u) (q : ℕ) (hq : q < base)
      (most : value base (take (suc (length v)) u) < (q + 1) * value base v)
      (near : q * value base v ≤ value base (take (suc (length v)) u) + value base v) where
    -- What stands in the array when the digits `low` and `t` are written.
    written :
        (low : List ℕ) (t d : ℕ)
        → Holds base (length v) low
        → t < base
        → d < base
        → d * value base v + value base low ≡ value base (take (suc (length v)) u)
        → value base low < value base v
        → Stepped u v (low ++ t ∷ drop (length v + 1) u) d
    written low t d (hl, len) ht hd e lt =
        let same : value base (take (length v) (low ++ t ∷ drop (length v + 1) u))
            ≡ value base low =
          ap (value base) (take-append low _ (length v) len) in
        record {
          digit = hd;
          digits = IsDigits-append base low _ hl (ht, IsDigits-drop base (length v + 1) u hu);
          size =
              omega (
                arith,
                length-append low (t ∷ drop (length v + 1) u),
                length-drop (length v + 1) u,
              );
          quotient = omega (arith, same);
          rest = omega (arith, same);
        }

    multiply_subtract-Stepped : let (w, d) = multiply_subtract base u v q in Stepped u v w d
    unfolding multiply_subtract
    multiply_subtract-Stepped =
        let n = length v in
        let big_u = value base (take (suc n) u) in
        let top = get_or u n 0 in
        let (low, c) = zd_submul_1 base (take n u) v q 0 in
        let (t, b) = sub_overflow base top c in
        let (back, carry) = zd_add_n base low v 0 in
        let (e, (dl, nl), hc) =
          zd_submul_1_lem base big (take n u) v q 0 (IsDigits-take base n u hu) hv
            (omega (arith, length-take n u)) hq (omega arith) in
        let (eb, ht, hb) = sub_overflow_lem base big top c (get-digit base big u n hu) hc in
        let (ea, holds, hcarry) = zd_add_n_lem base big low v 0 dl hv nl (omega arith) in
        let low_lt : value base low < base ^ n =
          omega (arith, value-lt base low dl, ap (λ k. base ^ k) nl) in
        let v_lt : value base v < base ^ n = value-lt base v hv in
        let all : value base low + base ^ n * t + value base v * q ≡ big_u + base ^ n * base * b =
          omega (arith, value-take-suc base big n u, ap (λ (k : ℕ). base ^ n * k) eb) in
        elim (Bool-cases (b == 0)) [
          | inl enough ↦
              let none : b ≡ 0 = ground arith in
              let gone : base ^ n * base * b ≡ 0 =
                omega (arith, ap (λ (k : ℕ). base ^ n * base * k) none) in
              let zero_top : t ≡ 0 = zero_of_lt (base ^ n) t (omega arith) in
              rw enough (
                written low t q (dl, nl) ht hq
                  (omega (arith, ap (λ (k : ℕ). base ^ n * k) zero_top)) (omega arith))
          | inr little ↦
              let one : b ≡ 1 = ground arith in
              let whole : base ^ n * base * b ≡ base ^ n * base =
                omega (arith, ap (λ (k : ℕ). base ^ n * base * k) one) in
              let (dback, nback) = holds in
              let back_lt : value base back < base ^ n =
                omega (arith, value-lt base back dback, ap (λ k. base ^ k) nback) in
              let (pos, rest, under) =
                added_back (base ^ n) (value base low) t q (value base v) big_u (value base back)
                  carry low_lt ht back_lt hcarry v_lt (omega arith) (omega arith) most near in
              let split : q ≡ q - 1 + 1 = omega arith in
              let wrap : (q + base - 1) % base ≡ q - 1 = less_one q pos hq in
              rw (little, wrap)
                (written back ((t + carry) % base) (q - 1) holds (mod-lt _ (omega arith))
                  (omega arith) (omega (arith, rest, ap (λ (k : ℕ). k * value base v) split))
                  (omega (arith, rest)))
        ]

  module _ (k : ℕ) (u v : List ℕ) (hu : IsDigits base u) (hv : IsDigits base v)
      (size : length v ≡ suc (suc k)) (long : length v + 1 ≤ length u)
      (half : base ≤ 2 * get_or v (suc k) 0)
      (small : value base (take (suc (length v)) u) < base * value base v) where
    v_top :
        value base v ≡ (get_or v (suc k) 0 * base + get_or v k 0) * base ^ k + value base (take k v)
    v_top = ap (value base) (sym (take_all (suc (suc k)) v (omega arith))) ∙ top_two base big k v

    u_top :
        value base (take (suc (length v)) u)
        ≡ ((get_or u (length v) 0 * base + get_or u (suc k) 0) * base + get_or u k 0) * base ^ k
          + value base (take k u)
    u_top = rw size (top_three base big k u)

    -- The top digit of u is not above that of v.
    top_le : get_or u (length v) 0 ≤ get_or v (suc k) 0
    top_le =
        let u0 = get_or u (length v) 0 in
        let v1 = get_or v (suc k) 0 in
        elim (Bool-cases (leb u0 v1)) [
          | inl low ↦ ground arith
          | inr high ↦
              let p = base ^ k in
              let below : value base v + 1 ≤ (v1 * base + get_or v k 0 + 1) * p =
                omega (arith, v_top, take-lt base big k v hv (omega arith)) in
              let digit : (get_or v k 0 + 1) * p ≤ base * p =
                mul-le-mul_right p (omega (arith, get-digit base big v k hv)) in
              let scaled : base * (value base v + 1) ≤ base * ((v1 * base + base) * p) =
                mul-le-mul_left base (omega arith) in
              let more : (v1 + 1) * (base * base * p) ≤ u0 * (base * base * p) =
                mul-le-mul_right (base * base * p) (ground arith) in
              absurd (omega (arith, u_top))
        ]

    -- A step ends. It takes the largest multiple of v away from the top digits of u.
    pub knuth_step-Stepped :
        (row : List ℕ × ℕ) × (zd_div_knuth_step base u v ≡ some row) × Stepped u v row.0 row.1
    unfolding zd_div_knuth_step
    knuth_step-Stepped =
        let v1 = get_or v (suc k) 0 in
        let v2 = get_or v k 0 in
        let u0 = get_or u (length v) 0 in
        let u1 = get_or u (suc k) 0 in
        let u2 = get_or u k 0 in
        let (d, ends, h) =
          estimate-Largest base big v1 v2 u0 u1 u2
            (get-digit base big v k hv, get-digit base big u k hu) top_le
            (get-digit base big u (suc k) hu) (get-digit base big v (suc k) hv) half in
        let i : length v - 1 ≡ suc k = omega arith in
        let j : length v - 2 ≡ k = omega arith in
        let p_lt = take-lt base big k v hv (omega arith) in
        let up_lt = take-lt base big k u hu (omega arith) in
        let product : 1 * base ≤ v1 * base = mul-le-mul_right base (omega arith) in
        let wide : base ≤ v1 * base + v2 = omega arith in
        let most = not_too_small base big _ _ _ _ _ _ _ d u_top v_top up_lt p_lt wide small h in
        let near = one_too_large base big _ _ _ _ _ _ _ d u_top v_top up_lt p_lt wide small h in
        rw (i, j, ends)
          (
            multiply_subtract base u v d,
            refl,
            multiply_subtract-Stepped u v hu hv long d h.digit most near,
          )
