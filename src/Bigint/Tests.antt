-- ===== src/Bigint/Tests.antt =====
-- Runs of the functions of native/bigint, and instances of the theorems about them, with digits of
-- eight bits.
use crts.Prelude.{
  ℕ, ◌+◌, ◌*◌, ◌/◌, ◌^◌, ◌≤◌, ◌≡◌, refl, Bool, true, false, List, [], ◌∷◌, arith, ltb,
}
use crts.Prelude.Int.{pos, ◌+ℤ◌, ◌-ℤ◌, ◌*ℤ◌}
use crts.Bigint.Digits.{value, IsDigits, zd_add}
use crts.Bigint.Digits.Add.{Holds}
use crts.Bigint.Digits.Whole.{zd_add_lem}
use crts.Bigint.Integer.{
  ZInt, IsTrimmed, IsNormal, to_ℤ, z_add, z_mul, z_cmp, z_neg, z_shl, z_shr, is_empty,
}
use crts.Bigint.Integer.Gives.{Gives}
use crts.Bigint.Integer.Normal.{IsTidy}
use crts.Bigint.Integer.Sum.{z_add-Gives}
use crts.Bigint.Integer.Times.{z_mul-Gives, z_neg-value}
use crts.Bigint.Integer.Compare.{SaysInt, z_cmp-SaysInt}
use crts.Bigint.Integer.Shift.{z_shl-Gives}
use crts.Bigint.Integer.ShiftRight.{z_shr-truncates, z_shr-negative_zero}

-- An allocator that serves up to eight digits.
abbrev small_heap : ℕ → Bool
small_heap n = ltb n 9

abbrev number : Bool → List ℕ → ZInt
number neg digits = record { digits = digits; alloc = 4; neg = neg; err = false }

number-IsNormal :
    (neg : Bool) (x : ℕ) (xs : List ℕ)
    → IsDigits 256 (x ∷ xs)
    → IsTrimmed (x ∷ xs)
    → IsNormal 256 (number neg (x ∷ xs))
number-IsNormal neg x xs d t = record {
  digits_fit = d;
  trimmed = t;
  zero_sign = λ e. elim_cons e;
  no_error = refl;
}
  where
    elim_cons : x ∷ xs ≡ [] → neg ≡ false
    elim_cons e = cc

-- 70000 and -65790.
abbrev seventy : ZInt
seventy = number false (112 ∷ 17 ∷ 1 ∷ [])

abbrev minus : ZInt
minus = number true (254 ∷ 0 ∷ 1 ∷ [])

seventy-IsNormal : IsNormal 256 seventy
seventy-IsNormal = number-IsNormal false 112 (17 ∷ 1 ∷ []) (omega arith) (omega arith)

minus-IsNormal : IsNormal 256 minus
minus-IsNormal = number-IsNormal true 254 (0 ∷ 1 ∷ []) (omega arith) (omega arith)

z_add-Gives_example :
    Gives 256
      (small_heap 4)
      (to_ℤ 256 seventy +ℤ to_ℤ 256 minus)
      (z_add 256 small_heap seventy minus)
z_add-Gives_example =
    z_add-Gives 256 small_heap (omega arith) seventy minus seventy-IsNormal minus-IsNormal

-- The allocator refuses nothing here: six digits.
z_mul-Gives_example :
    Gives 256
      (small_heap 6)
      (to_ℤ 256 seventy *ℤ to_ℤ 256 minus)
      (z_mul 256 small_heap false seventy minus)
z_mul-Gives_example =
    z_mul-Gives 256 small_heap (omega arith) false seventy minus seventy-IsNormal minus-IsNormal
      (λ e. cc)

z_cmp-SaysInt_example : SaysInt (z_cmp minus seventy) (to_ℤ 256 minus) (to_ℤ 256 seventy)
z_cmp-SaysInt_example =
    z_cmp-SaysInt 256 (omega arith) minus seventy minus-IsNormal seventy-IsNormal

z_neg-value_example :
    IsNormal 256 (z_neg minus) × (to_ℤ 256 (z_neg minus) ≡ pos 0 -ℤ to_ℤ 256 minus)
z_neg-value_example = z_neg-value 256 small_heap (omega arith) minus minus-IsNormal

z_shl-Gives_example :
    Gives 256 (small_heap 5) (to_ℤ 256 minus *ℤ pos (2 ^ 11)) (z_shl 8 small_heap minus 11)
unfolding is_empty
z_shl-Gives_example = z_shl-Gives 8 (omega arith) small_heap minus 11 minus-IsNormal

z_shr-negative_zero_example :
    ((z_shr 8 small_heap minus 17).digits ≡ []) × ¬ (IsNormal 256 (z_shr 8 small_heap minus 17))
z_shr-negative_zero_example =
    z_shr-negative_zero 8 (omega arith) small_heap minus 17 minus-IsNormal (omega arith) refl refl
      (omega arith)

zd_add_lem_example :
    (value 256 (zd_add 256 (250 ∷ 3 ∷ []) (9 ∷ [])).0
        + 256 ^ 2 * (zd_add 256 (250 ∷ 3 ∷ []) (9 ∷ [])).1
      ≡ value 256 (250 ∷ 3 ∷ []) + value 256 (9 ∷ []))
    × Holds 256 2 (zd_add 256 (250 ∷ 3 ∷ []) (9 ∷ [])).0
    × ((zd_add 256 (250 ∷ 3 ∷ []) (9 ∷ [])).1 ≤ 1)
zd_add_lem_example =
    zd_add_lem 256 (omega arith) (250 ∷ 3 ∷ []) (9 ∷ []) (omega arith) (omega arith) (omega arith)

z_shr-truncates_example :
    (value 256 (z_shr 8 small_heap minus 9).digits ≡ value 256 (254 ∷ 0 ∷ 1 ∷ []) / 2 ^ 9)
    × ((z_shr 8 small_heap minus 9).neg ≡ true)
    × IsTidy 256 (z_shr 8 small_heap minus 9).digits
z_shr-truncates_example =
    z_shr-truncates 8 (omega arith) small_heap minus 9 minus-IsNormal (omega arith) refl
