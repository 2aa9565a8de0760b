-- ===== src/Bigint/Integer/Bits/Xor.antt =====
-- z_xor, bit by bit in two's complement.
use Prim.Native.Nat.{bit_xor}
use crts.Prelude.{
  ℕ, ◌+◌, ◌-◌, ◌^◌, ◌≤◌, ◌<◌, max, ◌≡◌, refl, sym, ap, subst, ◌∙◌, Bool, true, false, not, length,
  arith, differs,
}
use crts.Prelude.Int.{pos, negsuc}
use crts.Bigint.Digits.{value}
use crts.Bigint.Digits.Bitwise.Tables.{has_bit, has_bit-xor}
use crts.Bigint.Integer.{ZInt, IsNormal}
use crts.Bigint.Integer.Bits.{unsigned_xor, unsigned_dec, negative_inc, z_xor}
use crts.Bigint.Integer.Bits.Complement.{Stands, Made→Stands, inc-Stands}
use crts.Bigint.Integer.Bits.Signs.{BitsOf, Reads→BitsOf, itself, before}
use crts.Bigint.Integer.Bits.Results.{xor_results}

-- One bit of the result, where an operand is negative.
xor_pn : (p q : Bool) → not (differs p q) ≡ differs p (not q)
xor_pn true true = refl
xor_pn true false = refl
xor_pn false true = refl
xor_pn false false = refl

xor_np : (p q : Bool) → not (differs q p) ≡ differs (not p) q
xor_np true true = refl
xor_np true false = refl
xor_np false true = refl
xor_np false false = refl

xor_nn : (p q : Bool) → differs p q ≡ differs (not p) (not q)
xor_nn true true = refl
xor_nn true false = refl
xor_nn false true = refl
xor_nn false false = refl

module _ (bits : ℕ) (big : 1 < 2 ^ bits) (malloc : ℕ → Bool) where
  abbrev base : ℕ
  base = 2 ^ bits

  -- What is computed for each pair of signs.
  module _ (a b : ZInt) where
    z_xor_pp : a.neg ≡ false → b.neg ≡ false → z_xor bits malloc a b ≡ unsigned_xor malloc a b
    unfolding z_xor
    z_xor_pp e g = rw (e, g) refl

    z_xor_pn :
        a.neg ≡ false
        → b.neg ≡ true
        → z_xor bits malloc a b
          ≡ negative_inc bits malloc (unsigned_xor malloc a (unsigned_dec bits malloc b))
    unfolding z_xor
    z_xor_pn e g = rw (e, g) refl

    z_xor_np :
        a.neg ≡ true
        → b.neg ≡ false
        → z_xor bits malloc a b
          ≡ negative_inc bits malloc (unsigned_xor malloc b (unsigned_dec bits malloc a))
    unfolding z_xor
    z_xor_np e g = rw (e, g) refl

    z_xor_nn :
        a.neg ≡ true
        → b.neg ≡ true
        → z_xor bits malloc a b
          ≡ unsigned_xor malloc (unsigned_dec bits malloc a) (unsigned_dec bits malloc b)
    unfolding z_xor
    z_xor_nn e g = rw (e, g) refl

  -- For operands in normal form, each bit of the integer that z_xor returns, in two's complement,
  -- is the exclusive or of the operands' bits, and the result is in normal form; or it is in error, since
  -- an allocation of at most one digit more than the longer operand has failed.
  pub z_xor-BitsOf :
      (a b : ZInt)
      → IsNormal base a
      → IsNormal base b
      → BitsOf base malloc
          (max (length a.digits) (length b.digits) + 1)
          differs
          a
          b
          (z_xor bits malloc a b)
  z_xor-BitsOf a b ha hb =
      let n = max (length a.digits) (length b.digits) in
      let va = value base a.digits in
      let vb = value base b.digits in
      let fa : length a.digits ≤ n = omega arith in
      let fb : length b.digits ≤ n = omega arith in
      Reads→BitsOf bits big malloc n (n + 1) differs a b (z_xor bits malloc a b) ha hb fa fb
        (λ e g. (
          pos (bit_xor va vb),
          λ i. has_bit-xor i va vb,
          subst (λ r. Stands base malloc (n + 1) (pos (bit_xor va vb)) r) (sym (z_xor_pp a b e g))
              (Made→Stands bits big malloc n _ _ (
                xor_results bits big malloc n va vb _ _ (itself bits big malloc n a ha fa e)
                  (itself bits big malloc n b hb fb g))),
        ))
        (λ e g. (
          negsuc (bit_xor va (vb - 1)),
          λ i. ap not (has_bit-xor i va (vb - 1)) ∙ xor_pn (has_bit i va) (has_bit i (vb - 1)),
          subst (λ r. Stands base malloc (n + 1) (negsuc (bit_xor va (vb - 1))) r)
              (sym (z_xor_pn a b e g))
              (inc-Stands bits big malloc n _ _ (
                xor_results bits big malloc n va (vb - 1) _ _ (itself bits big malloc n a ha fa e)
                  (before bits big malloc n b hb fb g))),
        ))
        (λ e g. (
          negsuc (bit_xor vb (va - 1)),
          λ i. ap not (has_bit-xor i vb (va - 1)) ∙ xor_np (has_bit i (va - 1)) (has_bit i vb),
          subst (λ r. Stands base malloc (n + 1) (negsuc (bit_xor vb (va - 1))) r)
              (sym (z_xor_np a b e g))
              (inc-Stands bits big malloc n _ _ (
                xor_results bits big malloc n vb (va - 1) _ _ (itself bits big malloc n b hb fb g)
                  (before bits big malloc n a ha fa e))),
        ))
        (λ e g. (
          pos (bit_xor (va - 1) (vb - 1)),
          λ i. has_bit-xor i (va - 1) (vb - 1) ∙ xor_nn (has_bit i (va - 1)) (has_bit i (vb - 1)),
          subst (λ r. Stands base malloc (n + 1) (pos (bit_xor (va - 1) (vb - 1))) r)
              (sym (z_xor_nn a b e g))
              (Made→Stands bits big malloc n _ _ (
                xor_results bits big malloc n (va - 1) (vb - 1) _ _
                  (before bits big malloc n a ha fa e) (before bits big malloc n b hb fb g))),
        ))
