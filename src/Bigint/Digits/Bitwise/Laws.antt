-- ===== src/Bigint/Digits/Bitwise/Laws.antt =====
-- Zero, order and exchange of operands for the operations on bits.
use Prim.Native.Nat.{
  bit_and, bit_or, bit_xor, differ, bit_and-bitwise, bit_or-bitwise, bit_xor-bitwise,
}
use crts.Prelude.{ℕ, zero, suc, ◌/◌, ◌%◌, ◌≤◌, ◌<◌, ◌≡◌, refl, ap, ◌∙◌, arith}
use crts.Prelude.Bits.{bit_or-halves, bit_or-zero, bit_and-zero}
use crts.Prelude.Order.{below_induction}
use crts.Bigint.Digits.Bitwise.Numbers.{bit_xor-halves}
use crts.Bigint.Digits.Bitwise.Tables.{bit_andnot}

pub grows : (a b : ℕ) → a ≤ bit_or a b
grows a b = below_induction (λ a. (b : ℕ) → a ≤ bit_or a b) a step b
  where
    step : (a : ℕ) → ((h : ℕ) → h < a → (b : ℕ) → h ≤ bit_or h b) → (b : ℕ) → a ≤ bit_or a b
    step zero ih b = omega arith
    step (suc a) ih b = omega (arith, bit_or-halves (suc a) b, ih (suc a / 2) (omega arith) (b / 2))

pub or_nothing : (b : ℕ) → bit_or 0 b ≡ b
or_nothing b = omega (arith, bit_or-bitwise 0 b)

pub differ_zero : (x : ℕ) → differ x 0 ≡ x
differ_zero zero = refl
differ_zero (suc x) = refl

pub xor_zero : (a : ℕ) → bit_xor a 0 ≡ a
xor_zero a = below_induction (λ a. bit_xor a 0 ≡ a) a step
  where
    step : (a : ℕ) → ((h : ℕ) → h < a → bit_xor h 0 ≡ h) → bit_xor a 0 ≡ a
    step zero ih = omega (arith, bit_xor-bitwise 0 0)
    step (suc a) ih =
        omega
          (arith, bit_xor-halves (suc a) 0, differ_zero (suc a % 2), ih (suc a / 2) (omega arith))

pub differ_comm : (x y : ℕ) → differ x y ≡ differ y x
differ_comm zero zero = refl
differ_comm zero (suc y) = refl
differ_comm (suc x) zero = refl
differ_comm (suc x) (suc y) = differ_comm x y

pub xor_comm : (a b : ℕ) → bit_xor a b ≡ bit_xor b a
xor_comm a b = below_induction (λ a. (b : ℕ) → bit_xor a b ≡ bit_xor b a) a step b
  where
    step :
        (a : ℕ)
        → ((h : ℕ) → h < a → (b : ℕ) → bit_xor h b ≡ bit_xor b h)
        → (b : ℕ) → bit_xor a b ≡ bit_xor b a
    step zero ih b = omega (arith, bit_xor-bitwise 0 b, xor_zero b)
    step (suc a) ih b = omega (
      arith,
      bit_xor-halves (suc a) b,
      bit_xor-halves b (suc a),
      differ_comm (suc a % 2) (b % 2),
      ih (suc a / 2) (omega arith) (b / 2),
    )

pub or_comm : (a b : ℕ) → bit_or a b ≡ bit_or b a
or_comm a b = below_induction (λ a. (b : ℕ) → bit_or a b ≡ bit_or b a) a step b
  where
    step :
        (a : ℕ)
        → ((h : ℕ) → h < a → (b : ℕ) → bit_or h b ≡ bit_or b h)
        → (b : ℕ) → bit_or a b ≡ bit_or b a
    step zero ih b = omega (arith, or_nothing b, bit_or-zero b)
    step (suc a) ih b = omega (
      arith,
      bit_or-halves (suc a) b,
      bit_or-halves b (suc a),
      ih (suc a / 2) (omega arith) (b / 2),
    )

pub and_nothing : (b : ℕ) → bit_and 0 b ≡ 0
and_nothing b = omega (arith, bit_and-bitwise 0 b)

pub andnot_zero : (a : ℕ) → bit_andnot a 0 ≡ a
andnot_zero a = ap (bit_xor a) (bit_and-zero a) ∙ xor_zero a

pub andnot_nothing : (b : ℕ) → bit_andnot 0 b ≡ 0
andnot_nothing b = ap (bit_xor 0) (and_nothing b) ∙ xor_zero 0
