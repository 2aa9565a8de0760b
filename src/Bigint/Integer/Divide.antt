-- ===== src/Bigint/Integer/Divide.antt =====
-- The divisions of native/bigint/z.h: z_quorem towards zero, z_divmod downwards.
-- Both results are computed; a result whose pointer is null is freed by the code instead. The other
-- parameters are those of the division of digits. None would be a division of digits without end.
mod Results
mod Quorem
pub mod Tests
pub mod Floor
use crts.Prelude.{
  ℕ, ◌+◌, ◌-◌, ◌^◌, Bool, true, false, not, ◌&&◌, ◌||◌, Option, some, ◌>>=◌, List, [], ◌∷◌, ltb,
  ◌==◌, if◌then◌else◌, length, differs,
}
use crts.Bigint.Digits.Divide.{Division, failed, divided, zd_divmod}
use crts.Bigint.Integer.{ZInt, z_err, z_new_ok, z_trim, z_trim_1, is_empty, z_sub_1, z_add}

-- What z_quorem makes of the written digits; `n` and `qsize` digits are allocated.
unfoldable pub quorem_results : ℕ → ℕ → Bool → Bool → Division → ZInt × ZInt
quorem_results qsize n aneg bneg failed = (z_err, z_err)
quorem_results qsize n aneg bneg (divided q r) =
    let (rneg, rest) = z_trim aneg r in
    let digits = z_trim_1 q in
    (
      record {
        digits = digits;
        alloc = qsize;
        neg = if is_empty digits then false else differs aneg bneg && not (qsize == 0);
        err = false;
      },
      record { digits = rest; alloc = n; neg = rneg; err = false },
    )

module _ (bits : ℕ) (clz : ℕ → ℕ) (malloc : ℕ → Bool) (scratch : ℕ) where
  unfoldable pub z_quorem : ZInt → ZInt → Option (ZInt × ZInt)
  z_quorem a b =
      let n = length b.digits in
      let qsize = length a.digits + 1 - n in
      let err = a.err || b.err in
      let made = z_new_ok malloc err qsize && z_new_ok malloc err n in
      if made && qsize == 0
      then some (
        record { digits = []; alloc = qsize; neg = false; err = false },
        record { digits = a.digits; alloc = n; neg = a.neg; err = false },
      )
      else if not made
      then some (z_err, z_err)
      else zd_divmod bits clz malloc scratch a.digits b.digits >>= λ d.
          some (quorem_results qsize n a.neg b.neg d)

  unfoldable pub z_quo : ZInt → ZInt → Option ZInt
  z_quo a b = z_quorem a b >>= λ r. some r.0

  unfoldable pub z_rem : ZInt → ZInt → Option ZInt
  z_rem a b = z_quorem a b >>= λ r. some r.1

  -- Where the rest is not zero and the signs differ, the quotient is one less.
  unfoldable pub lowered : ZInt → ZInt → ZInt × ZInt → ZInt × ZInt
  lowered a b (q, r) =
      if not (is_empty r.digits) && differs a.neg b.neg
      then (z_sub_1 (2 ^ bits) malloc q 1, z_add (2 ^ bits) malloc r b)
      else (q, r)

  unfoldable pub z_divmod : ZInt → ZInt → Option (ZInt × ZInt)
  z_divmod a b = z_quorem a b >>= λ r. some (lowered a b r)

  unfoldable pub z_div : ZInt → ZInt → Option ZInt
  z_div a b = z_divmod a b >>= λ r. some r.0

  unfoldable pub z_mod : ZInt → ZInt → Option ZInt
  z_mod a b = z_divmod a b >>= λ r. some r.1
