-- ===== src/Bigint/Integer/Bits/Results.antt =====
-- The operations on magnitudes, where an operand may be in error.
use Prim.Native.Nat.{bit_and, bit_or, bit_xor}
use crts.Prelude.{ℕ, ◌^◌, ◌<◌, ◌≡◌, Bool, true, ◌||◌, Bool-cases, inl, inr, length, arith, ltb}
use crts.Bigint.Digits.Bitwise.Tables.{bit_andnot}
use crts.Bigint.Integer.{ZInt, z_err}
use crts.Bigint.Integer.Bits.{unsigned_xor, unsigned_or, unsigned_and, unsigned_andnot}
use crts.Bigint.Integer.Bits.Made.{Made}
use crts.Bigint.Integer.Bits.Unsigned.{xor-Made, or-Made, and-Made, andnot-Made}
use crts.Bigint.Integer.Gives.{checked-err}
use crts.Bigint.Integer.Bits.{xor_ordered, or_ordered}
use crts.Bigint.Integer.Bits.Complement.{lift}

module _ (bits : ℕ) (big : 1 < 2 ^ bits) (malloc : ℕ → Bool) where
  abbrev base : ℕ
  base = 2 ^ bits

  ordered_err : (x y : ZInt) → (x.err || y.err) ≡ true → (y.err || x.err) ≡ true
  ordered_err x y e = ground arith

  pub xor-err : (x y : ZInt) → (x.err || y.err) ≡ true → unsigned_xor malloc x y ≡ z_err
  unfolding unsigned_xor xor_ordered
  xor-err x y e = elim (Bool-cases (ltb (length x.digits) (length y.digits))) [
    | inl less ↦ rw (less, ordered_err x y e) (checked-err malloc _ _)
    | inr more ↦ rw (more, e) (checked-err malloc _ _)
  ]

  pub or-err : (x y : ZInt) → (x.err || y.err) ≡ true → unsigned_or malloc x y ≡ z_err
  unfolding unsigned_or or_ordered
  or-err x y e = elim (Bool-cases (ltb (length x.digits) (length y.digits))) [
    | inl less ↦ rw (less, ordered_err x y e) (checked-err malloc _ _)
    | inr more ↦ rw (more, e) (checked-err malloc _ _)
  ]

  pub and-err : (x y : ZInt) → (x.err || y.err) ≡ true → unsigned_and malloc x y ≡ z_err
  unfolding unsigned_and
  and-err x y e = rw e (checked-err malloc _ _)

  pub andnot-err : (x y : ZInt) → (x.err || y.err) ≡ true → unsigned_andnot bits malloc x y ≡ z_err
  unfolding unsigned_andnot
  andnot-err x y e = rw e (checked-err malloc _ _)

  -- Each operation on results: of integers that are not negative, or that are in error.
  pub xor_results :
      (n v w : ℕ) (x y : ZInt)
      → Made base malloc n v x
      → Made base malloc n w y
      → Made base malloc n (bit_xor v w) (unsigned_xor malloc x y)
  xor_results n =
      lift bits big malloc n bit_xor (unsigned_xor malloc) (xor-Made bits malloc n) xor-err

  pub or_results :
      (n v w : ℕ) (x y : ZInt)
      → Made base malloc n v x
      → Made base malloc n w y
      → Made base malloc n (bit_or v w) (unsigned_or malloc x y)
  or_results n = lift bits big malloc n bit_or (unsigned_or malloc) (or-Made bits malloc n) or-err

  pub and_results :
      (n v w : ℕ) (x y : ZInt)
      → Made base malloc n v x
      → Made base malloc n w y
      → Made base malloc n (bit_and v w) (unsigned_and malloc x y)
  and_results n =
      lift bits big malloc n bit_and (unsigned_and malloc)
        (λ x y hx hy lx ly. and-Made bits malloc n x y hx hy lx) and-err

  pub andnot_results :
      (n v w : ℕ) (x y : ZInt)
      → Made base malloc n v x
      → Made base malloc n w y
      → Made base malloc n (bit_andnot v w) (unsigned_andnot bits malloc x y)
  andnot_results n =
      lift bits big malloc n bit_andnot (unsigned_andnot bits malloc)
        (λ x y hx hy lx ly. andnot-Made bits malloc n x y hx hy lx) andnot-err
