-- ===== src/Bigint/Integer/Bits/Or.antt =====
-- z_or, bit by bit in two's complement.
use Prim.Native.Nat.{bit_and, bit_or}
use crts.Prelude.{
  ℕ, ◌+◌, ◌-◌, ◌^◌, ◌≤◌, ◌<◌, max, ◌≡◌, refl, sym, ap, subst, ◌∙◌, Bool, true, false, not, ◌&&◌,
  ◌||◌, length, arith,
}
use crts.Prelude.Int.{pos, negsuc}
use crts.Bigint.Digits.{value}
use crts.Bigint.Digits.Bitwise.Tables.{bit_andnot, has_bit, has_bit-and, has_bit-or, has_bit-andnot}
use crts.Bigint.Integer.{ZInt, IsNormal}
use crts.Bigint.Integer.Bits.{
  unsigned_or, unsigned_and, unsigned_andnot, unsigned_dec, negative_inc, z_or,
}
use crts.Bigint.Integer.Bits.Complement.{Stands, Made→Stands, inc-Stands}
use crts.Bigint.Integer.Bits.Signs.{BitsOf, Reads→BitsOf, itself, before}
use crts.Bigint.Integer.Bits.Results.{or_results, and_results, andnot_results}

-- One bit of the result, where an operand is negative.
or_pn : (p q : Bool) → not (q && not p) ≡ (p || not q)
or_pn true true = refl
or_pn true false = refl
or_pn false true = refl
or_pn false false = refl

or_np : (p q : Bool) → not (p && not q) ≡ (not p || q)
or_np true true = refl
or_np true false = refl
or_np false true = refl
or_np false false = refl

or_nn : (p q : Bool) → not (p && q) ≡ (not p || not q)
or_nn true true = refl
or_nn true false = refl
or_nn false true = refl
or_nn false false = refl

module _ (bits : ℕ) (big : 1 < 2 ^ bits) (malloc : ℕ → Bool) where
  abbrev base : ℕ
  base = 2 ^ bits

  -- What is computed for each pair of signs.
  module _ (a b : ZInt) where
    z_or_pp : a.neg ≡ false → b.neg ≡ false → z_or bits malloc a b ≡ unsigned_or malloc a b
    unfolding z_or
    z_or_pp e g = rw (e, g) refl

    z_or_pn :
        a.neg ≡ false
        → b.neg ≡ true
        → z_or bits malloc a b
          ≡ negative_inc bits malloc (unsigned_andnot bits malloc (unsigned_dec bits malloc b) a)
    unfolding z_or
    z_or_pn e g = rw (e, g) refl

    z_or_np :
        a.neg ≡ true
        → b.neg ≡ false
        → z_or bits malloc a b
          ≡ negative_inc bits malloc (unsigned_andnot bits malloc (unsigned_dec bits malloc a) b)
    unfolding z_or
    z_or_np e g = rw (e, g) refl

    z_or_nn :
        a.neg ≡ true
        → b.neg ≡ true
        → z_or bits malloc a b
          ≡ negative_inc bits malloc
              (unsigned_and malloc (unsigned_dec bits malloc a) (unsigned_dec bits malloc b))
    unfolding z_or
    z_or_nn e g = rw (e, g) refl

  -- For operands in normal form, each bit of the integer that z_or returns, in two's complement,
  -- is the disjunction of the operands' bits, and the result is in normal form; or it is in error, since
  -- an allocation of at most one digit more than the longer operand has failed.
  pub z_or-BitsOf :
      (a b : ZInt)
      → IsNormal base a
      → IsNormal base b
      → BitsOf base malloc
          (max (length a.digits) (length b.digits) + 1)
          ◌||◌
          a
          b
          (z_or bits malloc a b)
  z_or-BitsOf a b ha hb =
      let n = max (length a.digits) (length b.digits) in
      let va = value base a.digits in
      let vb = value base b.digits in
      let fa : length a.digits ≤ n = omega arith in
      let fb : length b.digits ≤ n = omega arith in
      Reads→BitsOf bits big malloc n (n + 1) ◌||◌ a b (z_or bits malloc a b) ha hb fa fb
        (λ e g. (
          pos (bit_or va vb),
          λ i. has_bit-or i va vb,
          subst (λ r. Stands base malloc (n + 1) (pos (bit_or va vb)) r) (sym (z_or_pp a b e g))
              (Made→Stands bits big malloc n _ _ (
                or_results bits big malloc n va vb _ _ (itself bits big malloc n a ha fa e)
                  (itself bits big malloc n b hb fb g))),
        ))
        (λ e g. (
          negsuc (bit_andnot (vb - 1) va),
          λ i. ap not (has_bit-andnot i (vb - 1) va) ∙ or_pn (has_bit i va) (has_bit i (vb - 1)),
          subst (λ r. Stands base malloc (n + 1) (negsuc (bit_andnot (vb - 1) va)) r)
              (sym (z_or_pn a b e g))
              (inc-Stands bits big malloc n _ _ (
                andnot_results bits big malloc n (vb - 1) va _ _
                  (before bits big malloc n b hb fb g) (itself bits big malloc n a ha fa e))),
        ))
        (λ e g. (
          negsuc (bit_andnot (va - 1) vb),
          λ i. ap not (has_bit-andnot i (va - 1) vb) ∙ or_np (has_bit i (va - 1)) (has_bit i vb),
          subst (λ r. Stands base malloc (n + 1) (negsuc (bit_andnot (va - 1) vb)) r)
              (sym (z_or_np a b e g))
              (inc-Stands bits big malloc n _ _ (
                andnot_results bits big malloc n (va - 1) vb _ _
                  (before bits big malloc n a ha fa e) (itself bits big malloc n b hb fb g))),
        ))
        (λ e g. (
          negsuc (bit_and (va - 1) (vb - 1)),
          λ i.
              ap not (has_bit-and i (va - 1) (vb - 1))
              ∙ or_nn (has_bit i (va - 1)) (has_bit i (vb - 1)),
          subst (λ r. Stands base malloc (n + 1) (negsuc (bit_and (va - 1) (vb - 1))) r)
              (sym (z_or_nn a b e g))
              (inc-Stands bits big malloc n _ _ (
                and_results bits big malloc n (va - 1) (vb - 1) _ _
                  (before bits big malloc n a ha fa e) (before bits big malloc n b hb fb g))),
        ))
