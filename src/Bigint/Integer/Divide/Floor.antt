-- ===== src/Bigint/Integer/Divide/Floor.antt =====
-- z_divmod: the quotient rounded down, and a rest with the sign of the divisor.
use crts.Prelude.{
  ℕ, ◌+◌, ◌-◌, ◌*◌, ◌^◌, ◌≤◌, ◌<◌, max, ◌≡◌, ◌≢◌, refl, sym, subst, ap, ◌∙◌, Bool, true, false, not,
  ◌&&◌, Bool-cases, inl, inr, some, List, [], ◌∷◌, length, differs, if◌then◌else◌, arith,
}
use crts.Prelude.Int.{
  ℤ, pos, pos_part, neg_part, signed, signed_zero, signed_sub, ◌+ℤ◌, ◌-ℤ◌, ◌*ℤ◌, +ℤ_comm, +ℤ_parts,
  -ℤ_parts, *ℤ_parts, eq_of_parts,
}
use crts.Num.Size.{IsClz}
use crts.Bigint.Digits.{value}
use crts.Bigint.Integer.{ZInt, z_err, IsNormal, to_ℤ, IsTrimmed, is_empty, z_add}
use crts.Bigint.Integer.Normal.{value-pos}
use crts.Bigint.Integer.Gives.{Gives}
use crts.Bigint.Integer.Sum.{z_add-Gives, z_sub_1-Gives}
use crts.Bigint.Integer.Divide.{lowered, z_divmod}
use crts.Bigint.Integer.Divide.Results.{QuoRem}
use crts.Bigint.Integer.Divide.Quorem.{DividesTo, quorem_ok, z_quorem-DividesTo}

-- The normal form of v; or an error, where an allocation of at most n digits fails.
pub data Served (base : ℕ) (malloc : ℕ → Bool) (n : ℕ) (v : ℤ) : ZInt → Type 0 where
  served : (r : ZInt) → Gives base true v r → Served base malloc n v r
  refused : (k : ℕ) → k ≤ n → malloc k ≡ false → Served base malloc n v z_err

-- d is the quotient of a by b rounded down and m is the rest, which is zero or has the sign of b.
pub record Floors (base : ℕ) (malloc : ℕ → Bool) (a b d m : ZInt) : Type 0 where
  pub quotient : ℤ
  pub rest : ℕ
  pub sum : to_ℤ base a ≡ quotient *ℤ to_ℤ base b +ℤ signed b.neg rest
  pub below : rest < value base b.digits
  pub d_served : Served base malloc (length a.digits + 1 - length b.digits + 1) quotient d
  pub m_served : Served base malloc (length b.digits + 1) (signed b.neg rest) m

abbrev pub FloorsTo : ℕ → (ℕ → Bool) → Bool → ZInt → ZInt → ZInt × ZInt → Type 0
FloorsTo base malloc true a b r = Floors base malloc a b r.0 r.1
FloorsTo base malloc false a b r = (r.0 ≡ z_err) × (r.1 ≡ z_err)

-- One multiple less is made up for in the rest.
one_less : (q b r : ℤ) → q *ℤ b +ℤ r ≡ (q -ℤ pos 1) *ℤ b +ℤ (r +ℤ b)
one_less q b r =
    let p = q -ℤ pos 1 in
    let step : pos_part p + neg_part q + 1 ≡ neg_part p + pos_part q =
      omega (arith, -ℤ_parts q (pos 1)) in
    eq_of_parts _ _ (
      omega (
        arith,
        ap (λ (k : ℕ). k * pos_part b) step,
        ap (λ (k : ℕ). k * neg_part b) step,
        *ℤ_parts q b,
        *ℤ_parts p b,
        +ℤ_parts (q *ℤ b) r,
        +ℤ_parts (p *ℤ b) (r +ℤ b),
        +ℤ_parts r b,
      ))

-- What a sign is where z_divmod leaves the rest as it is, and where it does not.
kept_sign :
    (base : ℕ) (xs : List ℕ) (s t r : Bool)
    → (not (is_empty xs) && differs s t) ≡ false
    → r ≡ (if is_empty xs then false else s)
    → signed r (value base xs) ≡ signed t (value base xs)
unfolding is_empty
kept_sign base [] s t r h e = signed_zero r ∙ sym (signed_zero t)
kept_sign base (x ∷ xs) true true r h e = ap (λ k. signed k (value base (x ∷ xs))) e
kept_sign base (x ∷ xs) false false r h e = ap (λ k. signed k (value base (x ∷ xs))) e
kept_sign base (x ∷ xs) true false r h e = cc
kept_sign base (x ∷ xs) false true r h e = cc

other_sign :
    (base : ℕ) (xs : List ℕ) (s t r : Bool)
    → 0 < base
    → IsTrimmed xs
    → (not (is_empty xs) && differs s t) ≡ true
    → r ≡ (if is_empty xs then false else s)
    → (t ≢ r) × (0 < value base xs)
unfolding is_empty
other_sign base [] s t r base_pos h f e = cc
other_sign base (x ∷ xs) true true r base_pos h f e = cc
other_sign base (x ∷ xs) false false r base_pos h f e = cc
other_sign base (x ∷ xs) true false r base_pos h f e = (λ k. cc, value-pos base x xs base_pos h)
other_sign base (x ∷ xs) false true r base_pos h f e = (λ k. cc, value-pos base x xs base_pos h)

module _ (base : ℕ) (malloc : ℕ → Bool) (big : 1 < base) where
  Gives-Served :
      (k n : ℕ) (v : ℤ) (ok : Bool) (r : ZInt)
      → k ≤ n
      → malloc k ≡ ok
      → Gives base ok v r
      → Served base malloc n v r
  Gives-Served k n v true r le e h = served r h
  Gives-Served k n v false r le e h = subst (λ x. Served base malloc n v x) (sym h) (refused k le e)

module _ (bits : ℕ) (big : 1 < 2 ^ bits) (clz : ℕ → ℕ) (malloc : ℕ → Bool) (scratch : ℕ) where
  abbrev base : ℕ
  base = 2 ^ bits

  same_rest :
      (a b r : ZInt)
      → (not (is_empty r.digits) && differs a.neg b.neg) ≡ false
      → r.neg ≡ (if is_empty r.digits then false else a.neg)
      → to_ℤ base r ≡ signed b.neg (value base r.digits)
  unfolding to_ℤ
  same_rest a b r plain e = kept_sign base r.digits a.neg b.neg r.neg plain e

  lowered-Floors :
      (a b q r : ZInt)
      → IsNormal base b
      → QuoRem base a b q r
      → (let (d, m) = lowered bits clz malloc scratch a b (q, r) in Floors base malloc a b d m)
  unfolding lowered
  lowered-Floors a b q r hb h = elim (Bool-cases (not (is_empty r.digits) && differs a.neg b.neg)) [
    | inr plain ↦ rw plain (record {
      quotient = to_ℤ base q;
      rest = value base r.digits;
      sum = h.sum ∙ ap (λ w. to_ℤ base q *ℤ to_ℤ base b +ℤ w) (same_rest a b r plain h.sign);
      below = h.rest;
      d_served = served q (h.q_normal, refl, h.q_fits);
      m_served = served r (h.r_normal, same_rest a b r plain h.sign, h.r_fits);
    })
    | inl turned ↦
        let (ne, some_rest) =
          other_sign base r.digits a.neg b.neg r.neg (omega arith) h.r_normal.trimmed turned
            h.sign in
        let left = value base b.digits - value base r.digits in
        let rest : signed b.neg left ≡ to_ℤ base r +ℤ to_ℤ base b =
          unfold to_ℤ in
          (signed_sub b.neg r.neg (value base b.digits) (value base r.digits) left ne
              (omega (arith, h.rest))
            ∙ +ℤ_comm _ _) in
        rw turned (record {
          quotient = to_ℤ base q -ℤ pos 1;
          rest = left;
          sum =
              h.sum
              ∙ one_less (to_ℤ base q) (to_ℤ base b) (to_ℤ base r)
              ∙ ap (λ w. (to_ℤ base q -ℤ pos 1) *ℤ to_ℤ base b +ℤ w) (sym rest);
          below = omega (arith, h.rest);
          d_served =
              Gives-Served base malloc big (length q.digits + 1) _ _ _ _
                (omega (arith, h.q_fits, h.q_alloc)) refl
                (z_sub_1-Gives base malloc big q 1 h.q_normal (omega arith) big);
          m_served =
              Gives-Served base malloc big (max (length r.digits) (length b.digits) + 1) _ _ _ _
                (omega (arith, h.r_fits, h.r_alloc)) refl
                (subst
                  (λ w.
                    Gives base (malloc (max (length r.digits) (length b.digits) + 1)) w
                      (z_add base malloc r b))
                  (sym rest) (z_add-Gives base malloc big r b h.r_normal hb));
        })
  ]

  lowered-FloorsTo :
      (a b q r : ZInt) (ok : Bool)
      → IsNormal base b
      → DividesTo base ok a b (q, r)
      → FloorsTo base malloc ok a b (lowered bits clz malloc scratch a b (q, r))
  unfolding lowered is_empty
  lowered-FloorsTo a b q r true hb h = lowered-Floors a b q r hb h
  lowered-FloorsTo a b q r false hb (e, f) = rw (e, f) (refl, refl)

  -- For digits of up to 64 bits and operands in normal form, the divisor not zero, z_divmod ends.
  -- Where the allocations of z_quorem succeed, there are a quotient and a rest with a = quotient * b
  -- + rest, the rest smaller in magnitude than b and with the sign of b or zero. Each result is the
  -- normal form of its number, or the error value where another allocation fails, of no more digits
  -- than it takes. Else both results are error values.
  pub z_divmod-FloorsTo :
      bits ≤ 64
      → IsClz clz
      → (a b : ZInt) → IsNormal base a
      → IsNormal base b
      → 0 < length b.digits
      → (r : ZInt × ZInt) × (z_divmod bits clz malloc scratch a b ≡ some r)
        × FloorsTo base malloc (quorem_ok malloc scratch (length a.digits) (length b.digits)) a b r
  unfolding z_divmod
  z_divmod-FloorsTo wide law a b ha hb some_digits =
      let ((q, r), ends, h) =
        z_quorem-DividesTo bits wide clz law malloc scratch a b ha hb some_digits in
      rw ends (lowered bits clz malloc scratch a b (q, r), refl, lowered-FloorsTo a b q r _ hb h)
