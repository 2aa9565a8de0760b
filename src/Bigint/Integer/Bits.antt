-- ===== src/Bigint/Integer/Bits.antt =====
-- The bit operations of native/bigint/z.h, on integers in two's complement.
-- `_z_trim` leaves an array of no digits as it is, so `_z_unsigned_and` calls it in any case here.
mod Made
mod Unsigned
mod Complement
mod Results
pub mod Signs
pub mod Xor
pub mod And
pub mod Or
pub mod Whole
mod Tests
use crts.Prelude.{
  ℕ, ◌+◌, ◌^◌, min, Bool, true, false, not, ◌&&◌, ◌||◌, List, ◌++◌, ltb, if◌then◌else◌, length,
  drop,
}
use crts.Bigint.Digits.{zd_sub_1}
use crts.Bigint.Digits.Bitwise.{zd_or_n, zd_and_n, zd_andnot_n, zd_xor_n}
use crts.Bigint.Integer.{ZInt, z_new_checked, z_trim, z_add_1}

-- `_z_unsigned_xor` and `_z_unsigned_or` for an `a` that is not shorter than `b`.
unfoldable pub xor_ordered : (ℕ → Bool) → ZInt → ZInt → ZInt
xor_ordered malloc a b =
    let n = length b.digits in
    let digits = zd_xor_n a.digits b.digits ++ drop n a.digits in
    z_new_checked malloc (a.err || b.err) (length a.digits)
      (if ltb n (length a.digits) then (false, digits) else z_trim false digits)

unfoldable pub or_ordered : (ℕ → Bool) → ZInt → ZInt → ZInt
or_ordered malloc a b =
    z_new_checked malloc (a.err || b.err) (length a.digits)
      (false, zd_or_n a.digits b.digits ++ drop (length b.digits) a.digits)

unfoldable pub unsigned_xor : (ℕ → Bool) → ZInt → ZInt → ZInt
unsigned_xor malloc a b =
    if ltb (length a.digits) (length b.digits)
    then xor_ordered malloc b a
    else xor_ordered malloc a b

unfoldable pub unsigned_or : (ℕ → Bool) → ZInt → ZInt → ZInt
unsigned_or malloc a b =
    if ltb (length a.digits) (length b.digits) then or_ordered malloc b a else or_ordered malloc a b

unfoldable pub unsigned_and : (ℕ → Bool) → ZInt → ZInt → ZInt
unsigned_and malloc a b =
    z_new_checked malloc (a.err || b.err) (min (length a.digits) (length b.digits))
      (z_trim false (zd_and_n a.digits b.digits))

module _ (bits : ℕ) (malloc : ℕ → Bool) where
  unfoldable pub unsigned_andnot : ZInt → ZInt → ZInt
  unsigned_andnot a b =
      z_new_checked malloc (a.err || b.err) (length a.digits)
        (z_trim false (zd_andnot_n bits a.digits b.digits ++ drop (length b.digits) a.digits))

  unfoldable pub unsigned_dec : ZInt → ZInt
  unsigned_dec a =
      z_new_checked malloc a.err (length a.digits + 1)
        (z_trim false (zd_sub_1 (2 ^ bits) a.digits 1).0)

  -- `z_add_1(a, 1)` with `neg` set.
  unfoldable pub negative_inc : ZInt → ZInt
  negative_inc a = record (z_add_1 (2 ^ bits) malloc a 1) { neg = true }

  -- The operand that is negative, if only one is, comes second.
  unfoldable pub z_xor : ZInt → ZInt → ZInt
  z_xor a b =
      let (p, n) = if a.neg then (b, a) else (a, b) in
      let x = unsigned_dec n in
      if not a.neg && not b.neg
      then unsigned_xor malloc a b
      else if p.neg && n.neg
      then unsigned_xor malloc x (unsigned_dec p)
      else negative_inc (unsigned_xor malloc p x)

  unfoldable pub z_and : ZInt → ZInt → ZInt
  z_and a b =
      let (p, n) = if a.neg then (b, a) else (a, b) in
      let x = unsigned_dec n in
      if not a.neg && not b.neg
      then unsigned_and malloc a b
      else if p.neg && n.neg
      then negative_inc (unsigned_or malloc x (unsigned_dec p))
      else unsigned_andnot p x

  unfoldable pub z_or : ZInt → ZInt → ZInt
  z_or a b =
      let (p, n) = if a.neg then (b, a) else (a, b) in
      let x = unsigned_dec n in
      if not a.neg && not b.neg
      then unsigned_or malloc a b
      else if p.neg && n.neg
      then negative_inc (unsigned_and malloc x (unsigned_dec p))
      else negative_inc (unsigned_andnot x p)
