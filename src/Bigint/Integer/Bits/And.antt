-- ===== src/Bigint/Integer/Bits/And.antt =====
-- z_and, bit by bit in two's complement.
use Prim.Native.Nat.{bit_and, bit_or}
use crts.Prelude.{
  ℕ, ◌+◌, ◌-◌, ◌^◌, ◌≤◌, ◌<◌, max, ◌≡◌, refl, sym, ap, subst, ◌∙◌, Bool, true, false, not, ◌&&◌,
  ◌||◌, length, arith,
}
use crts.Prelude.Int.{pos, negsuc}
use crts.Bigint.Digits.{value}
use crts.Bigint.Digits.Bitwise.Tables.{bit_andnot, has_bit, has_bit-and, has_bit-or, has_bit-andnot}
use crts.Bigint.Integer.{ZInt, IsNormal}
use crts.Bigint.Integer.Bits.{
  unsigned_or, unsigned_and, unsigned_andnot, unsigned_dec, negative_inc, z_and,
}
use crts.Bigint.Integer.Bits.Complement.{Stands, Made→Stands, inc-Stands}
use crts.Bigint.Integer.Bits.Signs.{BitsOf, Reads→BitsOf, itself, before}
use crts.Bigint.Integer.Bits.Results.{or_results, and_results, andnot_results}

-- One bit of the result, where an operand is negative.
and_np : (p q : Bool) → (q && not p) ≡ (not p && q)
and_np true true = refl
and_np true false = refl
and_np false true = refl
and_np false false = refl

and_nn : (p q : Bool) → not (p || q) ≡ (not p && not q)
and_nn true true = refl
and_nn true false = refl
and_nn false true = refl
and_nn false false = refl

module _ (bits : ℕ) (big : 1 < 2 ^ bits) (malloc : ℕ → Bool) where
  abbrev base : ℕ
  base = 2 ^ bits

  -- What is computed for each pair of signs.
  module _ (a b : ZInt) where
    z_and_pp : a.neg ≡ false → b.neg ≡ false → z_and bits malloc a b ≡ unsigned_and malloc a b
    unfolding z_and
    z_and_pp e g = rw (e, g) refl

    z_and_pn :
        a.neg ≡ false
        → b.neg ≡ true
        → z_and bits malloc a b ≡ unsigned_andnot bits malloc a (unsigned_dec bits malloc b)
    unfolding z_and
    z_and_pn e g = rw (e, g) refl

    z_and_np :
        a.neg ≡ true
        → b.neg ≡ false
        → z_and bits malloc a b ≡ unsigned_andnot bits malloc b (unsigned_dec bits malloc a)
    unfolding z_and
    z_and_np e g = rw (e, g) refl

    z_and_nn :
        a.neg ≡ true
        → b.neg ≡ true
        → z_and bits malloc a b
          ≡ negative_inc bits malloc
              (unsigned_or malloc (unsigned_dec bits malloc a) (unsigned_dec bits malloc b))
    unfolding z_and
    z_and_nn e g = rw (e, g) refl

  -- For operands in normal form, each bit of the integer that z_and returns, in two's complement,
  -- is the conjunction of the operands' bits, and the result is in normal form; or it is in error, since
  -- an allocation of at most one digit more than the longer operand has failed.
  pub z_and-BitsOf :
      (a b : ZInt)
      → IsNormal base a
      → IsNormal base b
      → BitsOf base malloc
          (max (length a.digits) (length b.digits) + 1)
          ◌&&◌
          a
          b
          (z_and bits malloc a b)
  z_and-BitsOf a b ha hb =
      let n = max (length a.digits) (length b.digits) in
      let va = value base a.digits in
      let vb = value base b.digits in
      let fa : length a.digits ≤ n = omega arith in
      let fb : length b.digits ≤ n = omega arith in
      Reads→BitsOf bits big malloc n (n + 1) ◌&&◌ a b (z_and bits malloc a b) ha hb fa fb
        (λ e g. (
          pos (bit_and va vb),
          λ i. has_bit-and i va vb,
          subst (λ r. Stands base malloc (n + 1) (pos (bit_and va vb)) r) (sym (z_and_pp a b e g))
              (Made→Stands bits big malloc n _ _ (
                and_results bits big malloc n va vb _ _ (itself bits big malloc n a ha fa e)
                  (itself bits big malloc n b hb fb g))),
        ))
        (λ e g. (
          pos (bit_andnot va (vb - 1)),
          λ i. has_bit-andnot i va (vb - 1),
          subst (λ r. Stands base malloc (n + 1) (pos (bit_andnot va (vb - 1))) r)
              (sym (z_and_pn a b e g))
              (Made→Stands bits big malloc n _ _ (
                andnot_results bits big malloc n va (vb - 1) _ _
                  (itself bits big malloc n a ha fa e) (before bits big malloc n b hb fb g))),
        ))
        (λ e g. (
          pos (bit_andnot vb (va - 1)),
          λ i. has_bit-andnot i vb (va - 1) ∙ and_np (has_bit i (va - 1)) (has_bit i vb),
          subst (λ r. Stands base malloc (n + 1) (pos (bit_andnot vb (va - 1))) r)
              (sym (z_and_np a b e g))
              (Made→Stands bits big malloc n _ _ (
                andnot_results bits big malloc n vb (va - 1) _ _
                  (itself bits big malloc n b hb fb g) (before bits big malloc n a ha fa e))),
        ))
        (λ e g. (
          negsuc (bit_or (va - 1) (vb - 1)),
          λ i.
              ap not (has_bit-or i (va - 1) (vb - 1))
              ∙ and_nn (has_bit i (va - 1)) (has_bit i (vb - 1)),
          subst (λ r. Stands base malloc (n + 1) (negsuc (bit_or (va - 1) (vb - 1))) r)
              (sym (z_and_nn a b e g))
              (inc-Stands bits big malloc n _ _ (
                or_results bits big malloc n (va - 1) (vb - 1) _ _
                  (before bits big malloc n a ha fa e) (before bits big malloc n b hb fb g))),
        ))
