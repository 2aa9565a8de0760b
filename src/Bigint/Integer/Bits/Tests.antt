-- ===== src/Bigint/Integer/Bits/Tests.antt =====
-- Runs of the bit operations, with digits of eight bits, and an instance of the theorem about them.
use crts.Prelude.{◌≡◌, refl, false, [], ◌∷◌, ◌&&◌, ◌||◌, arith, differs}
use crts.Bigint.Digits.{add_overflow, sub_overflow, zd_add_1, zd_sub_1}
use crts.Bigint.Digits.Bitwise.{zd_andnot_n, zd_xor_n}
use crts.Bigint.Integer.{
  is_empty, trim, z_trim, z_grow, z_new_ok, z_new_checked, addsub_1, z_addsub_1, z_add_1,
}
use crts.Bigint.Integer.Bits.{
  xor_ordered, unsigned_xor, unsigned_andnot, unsigned_dec, negative_inc, z_xor, z_and, z_or,
}
use crts.Bigint.Integer.Bits.Signs.{BitsOf}
use crts.Bigint.Integer.Bits.Whole.{bits-BitsOf}
use crts.Bigint.Integer.Divide.Tests.{
  some_heap, dividend, divisor, dividend-IsNormal, divisor-IsNormal,
}

-- -65790 and 51201.
and_run :
    ((z_and 8 some_heap dividend divisor).digits ≡ 0 ∷ 200 ∷ [])
    × ((z_and 8 some_heap dividend divisor).neg ≡ false)
unfolding z_and unsigned_dec unsigned_andnot zd_andnot_n zd_sub_1 sub_overflow trim z_trim is_empty
    z_new_ok z_new_checked
and_run = (refl, refl)

xor_run : (z_xor 8 some_heap dividend divisor).digits ≡ 253 ∷ 200 ∷ 1 ∷ []
unfolding z_xor unsigned_dec unsigned_xor xor_ordered negative_inc zd_xor_n zd_sub_1 sub_overflow
    trim z_trim is_empty z_new_ok z_new_checked z_add_1 z_addsub_1 addsub_1 zd_add_1 add_overflow
    z_grow
xor_run = refl

or_run : (z_or 8 some_heap dividend divisor).digits ≡ 253 ∷ 0 ∷ 1 ∷ []
unfolding z_or unsigned_dec unsigned_andnot negative_inc zd_andnot_n zd_sub_1 sub_overflow trim
    z_trim is_empty z_new_ok z_new_checked z_add_1 z_addsub_1 addsub_1 zd_add_1 add_overflow z_grow
or_run = refl

bits-BitsOf_example :
    BitsOf 256 some_heap 4 ◌&&◌ dividend divisor (z_and 8 some_heap dividend divisor)
    × BitsOf 256 some_heap 4 ◌||◌ dividend divisor (z_or 8 some_heap dividend divisor)
    × BitsOf 256 some_heap 4 differs dividend divisor (z_xor 8 some_heap dividend divisor)
bits-BitsOf_example =
    bits-BitsOf 8 some_heap dividend divisor (omega arith) dividend-IsNormal divisor-IsNormal
