-- ===== src/Bigint/Integer/Divide/Tests.antt =====
-- Runs of the divisions, with digits of eight bits, and instances of the theorems about them.
use crts.Prelude.{ℕ, ◌≡◌, refl, ap, Bool, true, false, some, [], ◌∷◌, arith, ltb, length}
use crts.Num.Tests.{leading_zeros, leading_zeros-IsClz}
use crts.Bigint.Digits.{
  add_overflow, sub_overflow, add_carry, sub_borrow, zd_add_1, zd_sub_1, zd_add_n, zd_add, zd_sub_n,
  zd_sub, zd_cmp, cmp_digit, zd_submul_1, zd_div_1, zd_dd_mul, zd_dd_div, zd_shl, zd_shr,
}
use crts.Bigint.Digits.Divide.{
  Division, divided, calculate, multiply_subtract, zd_div_knuth_step, knuth_rows, normalized,
  denormalized, zd_div_knuth, zd_divmod,
}
use crts.Bigint.Digits.Divide.Whole.{IsDivision, division_ok, zd_divmod-IsDivision}
use crts.Bigint.Integer.{
  ZInt, IsNormal, is_empty, trim, z_trim, z_trim_1, z_grow, z_new_ok, z_new_checked, addsub_1,
  z_addsub_1, z_sub_1, addsub, addsub_ordered, z_addsub, z_add,
}
use crts.Bigint.Integer.Divide.{quorem_results, z_quorem, lowered, z_divmod}
use crts.Bigint.Integer.Divide.Quorem.{DividesTo, quorem_ok, z_quorem-DividesTo}
use crts.Bigint.Integer.Divide.Floor.{FloorsTo, z_divmod-FloorsTo}

-- An allocator that serves up to eight digits.
abbrev pub some_heap : ℕ → Bool
some_heap n = ltb n 9

-- -65790 and 51201.
abbrev pub dividend : ZInt
dividend = record { digits = 254 ∷ 0 ∷ 1 ∷ []; alloc = 4; neg = true; err = false }

abbrev pub divisor : ZInt
divisor = record { digits = 1 ∷ 200 ∷ []; alloc = 4; neg = false; err = false }

pub dividend-IsNormal : IsNormal 256 dividend
dividend-IsNormal = record {
  digits_fit = omega arith;
  trimmed = omega arith;
  zero_sign = λ e. absurd (omega (arith, ap length e));
  no_error = refl;
}

pub divisor-IsNormal : IsNormal 256 divisor
divisor-IsNormal = record {
  digits_fit = omega arith;
  trimmed = omega arith;
  zero_sign = λ e. refl;
  no_error = refl;
}

-- The digit 3 is estimated here; adding back makes it 2.
add_back :
    zd_divmod 8 leading_zeros some_heap 4 (1 ∷ 1 ∷ 128 ∷ 1 ∷ []) (254 ∷ 0 ∷ 128 ∷ [])
    ≡ some (divided (2 ∷ 0 ∷ []) (5 ∷ 255 ∷ 127 ∷ []))
unfolding zd_divmod zd_div_knuth knuth_rows zd_div_knuth_step calculate multiply_subtract normalized
    denormalized zd_div_1 zd_dd_div zd_dd_mul zd_submul_1 zd_add_n add_carry sub_overflow
    add_overflow
add_back = refl

-- -65790 is -2 * 51201 + 36612.
floor_run :
    z_divmod 8 leading_zeros some_heap 4 dividend divisor
    ≡ some (
      record { digits = 2 ∷ []; alloc = 2; neg = true; err = false },
      record { digits = 4 ∷ 143 ∷ []; alloc = 3; neg = false; err = false },
    )
unfolding z_divmod z_quorem quorem_results lowered zd_divmod zd_div_knuth knuth_rows
    zd_div_knuth_step calculate multiply_subtract normalized denormalized zd_div_1 zd_dd_div
    zd_dd_mul zd_submul_1 zd_add_n add_carry sub_overflow add_overflow zd_shl zd_shr is_empty trim
    z_trim z_trim_1 z_new_ok z_new_checked z_sub_1 z_addsub_1 addsub_1 z_add z_addsub addsub_ordered
    addsub z_grow zd_add_1 zd_sub_1 zd_sub_n zd_sub zd_add sub_borrow zd_cmp cmp_digit
floor_run = refl

zd_divmod-IsDivision_example :
    (d : Division) × (zd_divmod 8 leading_zeros some_heap 4
        (1 ∷ 1 ∷ 128 ∷ 1 ∷ [])
        (254 ∷ 0 ∷ 128 ∷ [])
      ≡ some d)
    × IsDivision 256 (1 ∷ 1 ∷ 128 ∷ 1 ∷ []) (254 ∷ 0 ∷ 128 ∷ []) (division_ok some_heap 4 4 3) d
zd_divmod-IsDivision_example =
    zd_divmod-IsDivision 8 (omega arith) leading_zeros leading_zeros-IsClz some_heap 4
      (1 ∷ 1 ∷ 128 ∷ 1 ∷ []) (254 ∷ 0 ∷ 128 ∷ []) (omega arith) (omega arith) (omega arith)
      (omega arith) (omega arith)

z_quorem-DividesTo_example :
    (r : ZInt × ZInt) × (z_quorem 8 leading_zeros some_heap 4 dividend divisor ≡ some r)
    × DividesTo 256 (quorem_ok some_heap 4 3 2) dividend divisor r
z_quorem-DividesTo_example =
    z_quorem-DividesTo 8 (omega arith) leading_zeros leading_zeros-IsClz some_heap 4 dividend
      divisor dividend-IsNormal divisor-IsNormal (omega arith)

z_divmod-FloorsTo_example :
    (r : ZInt × ZInt) × (z_divmod 8 leading_zeros some_heap 4 dividend divisor ≡ some r)
    × FloorsTo 256 some_heap (quorem_ok some_heap 4 3 2) dividend divisor r
z_divmod-FloorsTo_example =
    z_divmod-FloorsTo 8 (omega arith) leading_zeros some_heap 4 (omega arith) leading_zeros-IsClz
      dividend divisor dividend-IsNormal divisor-IsNormal (omega arith)
