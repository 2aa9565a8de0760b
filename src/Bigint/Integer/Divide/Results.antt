-- ===== src/Bigint/Integer/Divide/Results.antt =====
-- What z_quorem makes of the quotient and the rest of the digits.
use native.Mathlib.Nat.{mul-le-mul_left, lt_of_mul-lt-mul_right}
use crts.Prelude.{
  ℕ, suc, ◌+◌, ◌-◌, ◌*◌, ◌^◌, ◌≤◌, ◌<◌, ◌≡◌, refl, sym, ap, ◌∙◌, Bool, true, false, ◌&&◌, List, [],
  ◌∷◌, ◌++◌, ◌==◌, if◌then◌else◌, length, length-append, get_or, differs, arith,
}
use crts.Prelude.Int.{signed, signed_add, signed_mul, signed_zero, ◌+ℤ◌, ◌*ℤ◌}
use crts.Bigint.Digits.{value, IsDigits}
use crts.Bigint.Digits.Value.{pow-add, value-lt, value-snoc, IsDigits-left}
use crts.Bigint.Digits.Divide.{divided}
use crts.Bigint.Digits.Divide.Normal.{Quotient}
use crts.Bigint.Integer.{ZInt, IsNormal, IsTrimmed, to_ℤ, is_empty, trim, z_trim, z_trim_1}
use crts.Bigint.Integer.Normal.{
  trim_lem, z_trim_1_lem, signed_if_empty, shorter-lt, le-value, IsTrimmed-of_le,
}
use crts.Bigint.Integer.Divide.{quorem_results}

-- q is the quotient of a by b and r the rest.
pub record QuoRem (base : ℕ) (a b q r : ZInt) : Type 0 where
  pub q_normal : IsNormal base q
  pub r_normal : IsNormal base r
  pub q_fits : length q.digits ≤ q.alloc
  pub r_fits : length r.digits ≤ r.alloc
  pub q_alloc : q.alloc ≡ length a.digits + 1 - length b.digits
  pub r_alloc : r.alloc ≡ length b.digits
  pub sum : to_ℤ base a ≡ to_ℤ base q *ℤ to_ℤ base b +ℤ to_ℤ base r
  pub rest : value base r.digits < value base b.digits
  pub sign : r.neg ≡ (if is_empty r.digits then false else a.neg)

-- A list that is not empty has a last element.
pub snoc_view : (xs : List ℕ) → 0 < length xs → (f : List ℕ) × (t : ℕ) × (xs ≡ f ++ t ∷ [])
snoc_view [] h = absurd (omega arith)
snoc_view (x ∷ []) h = ([], x, refl)
snoc_view (x ∷ y ∷ xs) h =
    let (f, t, e) = snoc_view (y ∷ xs) (omega arith) in (x ∷ f, t, ap (◌∷◌ x) e)

trimmed_top : (x : ℕ) (xs : List ℕ) → IsTrimmed (x ∷ xs) → 0 < get_or (x ∷ xs) (length xs) 0
trimmed_top x [] h = h
trimmed_top x (y ∷ xs) h = trimmed_top y xs h

pub top_digit : (xs : List ℕ) → 0 < length xs → IsTrimmed xs → 0 < get_or xs (length xs - 1) 0
top_digit [] pos h = absurd (omega arith)
top_digit (x ∷ xs) pos h =
    let last : suc (length xs) - 1 ≡ length xs = omega arith in rw last (trimmed_top x xs h)

signed_sum :
    (s t : Bool) (x y z : ℕ)
    → signed s (x * y + z) ≡ signed (differs s t) x *ℤ signed t y +ℤ signed s z
signed_sum s t x y z =
    signed_add s s (x * y) z refl
    ∙ ap (λ w. w +ℤ signed s z)
        (ap (λ k. signed k (x * y)) (sym (twice s t)) ∙ signed_mul (differs s t) t x y)
  where
    twice : (s t : Bool) → differs (differs s t) t ≡ s
    twice true true = refl
    twice true false = refl
    twice false true = refl
    twice false false = refl

empty_sign :
    (s : Bool) (xs : List ℕ) → (xs ≡ [] → s ≡ false) → s ≡ (if is_empty xs then false else s)
unfolding is_empty
empty_sign s [] h = h refl
empty_sign s (x ∷ xs) h = refl

module _ (base : ℕ) (big : 1 < base) where
  -- The quotient needs all of its digits but one.
  Quotient-IsTrimmed :
      (u v f r : List ℕ) (t : ℕ)
      → IsTrimmed u
      → IsDigits base v
      → length v ≤ length u
      → 0 < length v
      → Quotient base u v (f ++ t ∷ []) r
      → t ≡ 0
      → IsTrimmed f
  Quotient-IsTrimmed [] v f r t hu hv longer pos h none = absurd (omega arith)
  Quotient-IsTrimmed (y ∷ u) v [] r t hu hv longer pos h none = tt
  Quotient-IsTrimmed (y ∷ u) v (x ∷ f) r t hu hv longer pos h none =
      let (digits, count) = h.quotient_digits in
      let q = value base (x ∷ f) in
      let v_lt = value-lt base v hv in
      let same : value base (x ∷ f ++ t ∷ []) ≡ q =
        omega (arith, value-snoc base (x ∷ f) t, ap (λ (k : ℕ). base ^ length (x ∷ f) * k) none) in
      let above : (q + 1) * value base v ≤ (q + 1) * base ^ length v =
        mul-le-mul_left (q + 1) (omega arith) in
      let places : base ^ length u ≡ base ^ length f * base ^ length v =
        ap (◌^◌ base) (omega (arith, length-append f (t ∷ [])))
        ∙ pow-add base (length f) (length v) in
      let less : base ^ length f < q + 1 = lt_of_mul-lt-mul_right (base ^ length v) (
        omega (
          arith,
          le-value base y u (omega arith) hu,
          h.quotient,
          h.rest,
          ap (λ (k : ℕ). k * value base v) same,
        )) in
      IsTrimmed-of_le base x f (IsDigits-left base (x ∷ f) (t ∷ []) digits) (omega arith)

  pub results-QuoRem :
      (a b : ZInt) (f r : List ℕ) (t qsize : ℕ)
      → IsNormal base a
      → IsNormal base b
      → length b.digits ≤ length a.digits
      → 0 < length b.digits
      → qsize ≡ length a.digits - length b.digits + 1
      → Quotient base a.digits b.digits (f ++ t ∷ []) r
      → (let (x, y) =
            quorem_results qsize (length b.digits) a.neg b.neg (divided (f ++ t ∷ []) r) in
          QuoRem base a b x y)
  unfolding quorem_results z_trim to_ℤ
  results-QuoRem a b f r t qsize ha hb longer pos size h =
      let (rd, rl) = h.rest_digits in
      let (qd, ql) = h.quotient_digits in
      let ((rt, rs), rv, rle) = trim_lem base r rd in
      let (rsign, rvalue) = signed_if_empty base a.neg (trim r) in
      let ((qt, qs), qv, qle) =
        z_trim_1_lem base f t qd
          (Quotient-IsTrimmed a.digits b.digits f r t ha.trimmed hb.digits_fit longer pos h) in
      let (qsign, qvalue) = signed_if_empty base (differs a.neg b.neg) (z_trim_1 (f ++ t ∷ [])) in
      let some_size : (qsize == 0) ≡ false = ground arith in
      let qneg = if is_empty (z_trim_1 (f ++ t ∷ [])) then false else differs a.neg b.neg in
      rw (some_size, and_true (differs a.neg b.neg))
        (record {
          q_normal = record { digits_fit = qt; trimmed = qs; zero_sign = qsign; no_error = refl };
          r_normal = record { digits_fit = rt; trimmed = rs; zero_sign = rsign; no_error = refl };
          q_fits = omega (arith, length-append f (t ∷ []));
          r_fits = omega arith;
          q_alloc = omega arith;
          r_alloc = refl;
          sum =
              ap (signed a.neg) (sym h.quotient)
              ∙ signed_sum a.neg b.neg (value base (f ++ t ∷ [])) (value base b.digits)
                  (value base r)
              ∙ ap (λ w. w *ℤ signed b.neg (value base b.digits) +ℤ signed a.neg (value base r))
                  (ap (signed (differs a.neg b.neg)) (sym qv) ∙ sym qvalue)
              ∙ ap
                  (λ w.
                    signed qneg (value base (z_trim_1 (f ++ t ∷ [])))
                      *ℤ signed b.neg (value base b.digits)
                    +ℤ w)
                  (ap (signed a.neg) (sym rv) ∙ sym rvalue);
          rest = omega (arith, rv, h.rest);
          sign = refl;
        })
    where
      and_true : (b : Bool) → (b && true) ≡ b
      and_true true = refl
      and_true false = refl

  -- A dividend with fewer digits is the rest.
  pub short-QuoRem :
      (a b : ZInt)
      → IsNormal base a
      → IsNormal base b
      → length a.digits < length b.digits
      → QuoRem base a b
          (record {
            digits = [];
            alloc = length a.digits + 1 - length b.digits;
            neg = false;
            err = false;
          })
          (record { digits = a.digits; alloc = length b.digits; neg = a.neg; err = false })
  unfolding to_ℤ
  short-QuoRem a b ha hb less = record {
    q_normal = record { digits_fit = tt; trimmed = tt; zero_sign = λ e. refl; no_error = refl };
    r_normal = record {
      digits_fit = ha.digits_fit;
      trimmed = ha.trimmed;
      zero_sign = ha.zero_sign;
      no_error = refl;
    };
    q_fits = omega arith;
    r_fits = omega arith;
    q_alloc = refl;
    r_alloc = refl;
    sum =
        ap (signed a.neg) (omega arith)
        ∙ signed_sum a.neg b.neg 0 (value base b.digits) (value base a.digits)
        ∙ ap (λ w. w *ℤ signed b.neg (value base b.digits) +ℤ signed a.neg (value base a.digits))
            (signed_zero (differs a.neg b.neg) ∙ sym (signed_zero false));
    rest = shorter-lt base b.digits a.digits big hb.trimmed ha.digits_fit less;
    sign = empty_sign a.neg a.digits ha.zero_sign;
  }
