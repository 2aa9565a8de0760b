-- ===== src/Bigint/Integer/Bits/Whole.antt =====
-- The three bit operations on integers.
use crts.Prelude.{ℕ, ◌+◌, ◌^◌, ◌<◌, max, Bool, ◌&&◌, ◌||◌, length, differs}
use crts.Bigint.Integer.{ZInt, IsNormal}
use crts.Bigint.Integer.Bits.{z_xor, z_and, z_or}
use crts.Bigint.Integer.Bits.Signs.{BitsOf}
use crts.Bigint.Integer.Bits.Xor.{z_xor-BitsOf}
use crts.Bigint.Integer.Bits.And.{z_and-BitsOf}
use crts.Bigint.Integer.Bits.Or.{z_or-BitsOf}

-- For operands in normal form z_and, z_or and z_xor return an integer in normal form of which each
-- bit, in two's complement, is the conjunction, the disjunction and the exclusive or of the bits of
-- the operands; or a result in error, where an allocation of at most one digit more than the longer
-- operand fails.
pub bits-BitsOf :
    (bits : ℕ) (malloc : ℕ → Bool) (a b : ZInt)
    → 1 < 2 ^ bits
    → IsNormal (2 ^ bits) a
    → IsNormal (2 ^ bits) b
    → (let n = max (length a.digits) (length b.digits) + 1 in
        (BitsOf (2 ^ bits) malloc n ◌&&◌ a b (z_and bits malloc a b)
          × BitsOf (2 ^ bits) malloc n ◌||◌ a b (z_or bits malloc a b)
          × BitsOf (2 ^ bits) malloc n differs a b (z_xor bits malloc a b)))
bits-BitsOf bits malloc a b big ha hb = (
  z_and-BitsOf bits big malloc a b ha hb,
  z_or-BitsOf bits big malloc a b ha hb,
  z_xor-BitsOf bits big malloc a b ha hb,
)
