-- ===== src/Bigint/Integer/Divide/Quorem.antt =====
-- z_quorem: the quotient rounded towards zero, and a rest with the sign of the dividend.
use crts.Prelude.{
  ℕ, ◌+◌, ◌-◌, ◌^◌, ◌≤◌, ◌<◌, ◌≡◌, refl, sym, subst, Bool, true, false, ◌&&◌, ◌||◌, Bool-cases, inl,
  inr, some, ltb, ◌==◌, length, arith,
}
use crts.Num.Size.{IsClz}
use crts.Bigint.Digits.Divide.{Division, divided}
use crts.Bigint.Digits.Divide.Normal.{Quotient}
use crts.Bigint.Digits.Divide.Whole.{
  some_digit, division_ok, IsDivision, exact_division, no_memory, zd_divmod-IsDivision,
}
use crts.Bigint.Integer.{ZInt, z_err, IsNormal, z_new_ok}
use crts.Bigint.Integer.Divide.{quorem_results, z_quorem}
use crts.Bigint.Integer.Gives.{no_err}
use crts.Bigint.Integer.Divide.Results.{QuoRem, snoc_view, top_digit, results-QuoRem, short-QuoRem}

-- Are the allocations of a division of m by n digits served? Those of no digits are not made, and
-- the scratch space is for divisors of two digits or more.
abbrev pub quorem_ok : (ℕ → Bool) → ℕ → ℕ → ℕ → Bool
quorem_ok malloc scratch m n =
    (z_new_ok malloc false (m + 1 - n) && z_new_ok malloc false n)
    && (ltb m n || division_ok malloc scratch m n)

abbrev pub DividesTo : ℕ → Bool → ZInt → ZInt → ZInt × ZInt → Type 0
DividesTo base true a b r = QuoRem base a b r.0 r.1
DividesTo base false a b r = (r.0 ≡ z_err) × (r.1 ≡ z_err)

module _ (bits : ℕ) (wide : bits ≤ 64) (clz : ℕ → ℕ) (law : IsClz clz) (malloc : ℕ → Bool)
    (scratch : ℕ) where
  abbrev base : ℕ
  base = 2 ^ bits

  division-DividesTo :
      (a b : ZInt) (qsize : ℕ) (ok : Bool) (d : Division)
      → 1 < base
      → IsNormal base a
      → IsNormal base b
      → length b.digits ≤ length a.digits
      → 0 < length b.digits
      → qsize ≡ length a.digits - length b.digits + 1
      → IsDivision base a.digits b.digits ok d
      → DividesTo base ok a b (quorem_results qsize (length b.digits) a.neg b.neg d)
  division-DividesTo a b qsize ok d big ha hb longer pos size no_memory =
      unfold quorem_results in (refl, refl)
  division-DividesTo a b qsize ok d big ha hb longer pos size (exact_division q r h) =
      let (f, t, view) = snoc_view q (omega (arith, h.quotient_digits.1)) in
      subst
        (λ x.
          DividesTo base true a b
            (quorem_results qsize (length b.digits) a.neg b.neg (divided x r)))
        (sym view)
        (results-QuoRem base big a b f r t qsize ha hb longer pos size
          (subst (λ x. Quotient base a.digits b.digits x r) view h))

  -- For digits of up to 64 bits and operands in normal form, the divisor not zero, z_quorem ends.
  -- Where the allocations that it makes succeed, it returns normal forms of a quotient and a rest
  -- with a = quotient * b + rest, the rest smaller in magnitude than b and with the sign of a or
  -- zero; else it returns two error values.
  pub z_quorem-DividesTo :
      (a b : ZInt)
      → IsNormal base a
      → IsNormal base b
      → 0 < length b.digits
      → (r : ZInt × ZInt) × (z_quorem bits clz malloc scratch a b ≡ some r)
        × DividesTo base (quorem_ok malloc scratch (length a.digits) (length b.digits)) a b r
  unfolding z_quorem
  z_quorem-DividesTo a b ha hb pos =
      let n = length b.digits in
      let qsize = length a.digits + 1 - n in
      let fine : (a.err || b.err) ≡ false = no_err a.err b.err ha.no_error hb.no_error in
      let top = top_digit b.digits pos hb.trimmed in
      let big : 1 < base = some_digit base b.digits (n - 1) hb.digits_fit top in
      elim (Bool-cases (z_new_ok malloc false qsize && z_new_ok malloc false n)) [
        | inr refused ↦ rw (fine, refused) ((z_err, z_err), refl, (refl, refl))
        | inl made ↦ elim (Bool-cases (ltb (length a.digits) n)) [
          | inl short ↦
              let none : (qsize == 0) ≡ true = ground arith in
              rw (fine, made, none, short) (_, refl, short-QuoRem base big a b ha hb (ground arith))
          | inr long ↦
              let some_size : (qsize == 0) ≡ false = ground arith in
              let (d, ends, h) =
                zd_divmod-IsDivision bits wide clz law malloc scratch a.digits b.digits
                  ha.digits_fit hb.digits_fit pos (ground arith) top in
              rw (fine, made, some_size, long, ends)
                (
                  _,
                  refl,
                  division-DividesTo a b qsize _ d big ha hb (ground arith) pos (ground arith) h,
                )
        ]
      ]
