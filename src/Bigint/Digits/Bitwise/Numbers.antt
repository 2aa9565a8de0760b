-- ===== src/Bigint/Digits/Bitwise/Numbers.antt =====
-- Combining the digits bit by bit combines the numbers.
use Prim.Native.Nat.pow
use Prim.Native.Nat.{bit_xor, differ, min, bit_xor-bitwise}
use native.Mathlib.Nat.{pow-succ'}
use crts.Prelude.{
  ℕ, zero, suc, ◌+◌, ◌*◌, ◌/◌, ◌%◌, ◌^◌, ◌≤◌, ◌<◌, ◌≡◌, ◌⊎◌, inl, inr, refl, ap, ◌∙◌, List, [], ◌∷◌,
  ◌++◌, length, drop, arith,
}
use crts.Prelude.Bits.{digits-stable}
use crts.Bigint.Digits.{value, IsDigits}
use crts.Bigint.Digits.Bitwise.{zip_digits}

pub bit_xor-halves : (a b : ℕ) → bit_xor a b ≡ bit_xor (a / 2) (b / 2) * 2 + differ (a % 2) (b % 2)
bit_xor-halves zero b = omega (arith, bit_xor-bitwise 0 b, bit_xor-bitwise 0 (b / 2))
bit_xor-halves (suc a) b = omega (
  arith,
  bit_xor-bitwise (suc a) b,
  bit_xor-bitwise (suc a / 2) (b / 2),
  digits-stable (λ b. b) differ (suc a / 2) a (suc a / 2) (b / 2) (omega arith) (omega arith),
)

-- An operation that works on each bit by itself.
pub record Lanes (op : ℕ → ℕ → ℕ) : Type 0 where
  pub low : ℕ → ℕ → ℕ
  pub halves : (a b : ℕ) → op a b ≡ op (a / 2) (b / 2) * 2 + low (a % 2) (b % 2)
  pub low_bit : (x y : ℕ) → low (x % 2) (y % 2) < 2
  pub nothing : op 0 0 ≡ 0

module _ (op : ℕ → ℕ → ℕ) (l : Lanes op) where
  both : (f : ℕ → ℕ → ℕ) {a a' b b' : ℕ} → a ≡ a' → b ≡ b' → f a b ≡ f a' b'
  both f {a} {a'} {b} {b'} e e' = ap (λ t. f t b) e ∙ ap (f a') e'

  -- High parts and low parts are combined by themselves.
  pub split :
      (k a x b y : ℕ)
      → x < 2 ^ k
      → y < 2 ^ k
      → op (a * 2 ^ k + x) (b * 2 ^ k + y) ≡ op a b * 2 ^ k + op x y
  split zero a x b y hx hy =
      let one = pow.zero 2 in
      let x0 : x ≡ 0 = omega arith in
      let y0 : y ≡ 0 = omega arith in
      let ea : a * 2 ^ 0 + x ≡ a = omega (arith, ap (λ (k : ℕ). a * k) one) in
      let eb : b * 2 ^ 0 + y ≡ b = omega (arith, ap (λ (k : ℕ). b * k) one) in
      omega (arith, both op ea eb, both op x0 y0, l.nothing, ap (λ (k : ℕ). op a b * k) one)
  split (suc k) a x b y hx hy =
      let two = pow-succ' 2 k in
      let ea = ap (λ (t : ℕ). a * t) two in
      let eb = ap (λ (t : ℕ). b * t) two in
      let ha : (a * 2 ^ suc k + x) / 2 ≡ a * 2 ^ k + x / 2 = omega (arith, ea) in
      let hb : (b * 2 ^ suc k + y) / 2 ≡ b * 2 ^ k + y / 2 = omega (arith, eb) in
      let ma : (a * 2 ^ suc k + x) % 2 ≡ x % 2 = omega (arith, ea) in
      let mb : (b * 2 ^ suc k + y) % 2 ≡ y % 2 = omega (arith, eb) in
      omega (
        arith,
        l.halves (a * 2 ^ suc k + x) (b * 2 ^ suc k + y),
        both op ha hb,
        both l.low ma mb,
        split k a (x / 2) b (y / 2) (omega arith) (omega arith),
        l.halves x y,
        ap (λ (t : ℕ). op a b * t) two,
      )

  pub below : (k x y : ℕ) → x < 2 ^ k → y < 2 ^ k → op x y < 2 ^ k
  below zero x y hx hy =
      let x0 : x ≡ 0 = omega (arith, pow.zero 2) in
      let y0 : y ≡ 0 = omega (arith, pow.zero 2) in
      omega (arith, both op x0 y0, l.nothing, pow.zero 2)
  below (suc k) x y hx hy =
      let two = pow-succ' 2 k in
      omega (
        arith,
        two,
        l.halves x y,
        l.low_bit x y,
        below k (x / 2) (y / 2) (omega arith) (omega arith),
      )

  module _ (bits : ℕ) (digit_op : ℕ → ℕ → ℕ)
      (same : (x y : ℕ) → x < 2 ^ bits → y < 2 ^ bits → digit_op x y ≡ op x y) where
    -- One array goes on alone, where the operation keeps what meets zero.
    pub merged_value :
        (a b : List ℕ)
        → IsDigits (2 ^ bits) a
        → IsDigits (2 ^ bits) b
        → ((x : ℕ) → op x 0 ≡ x)
        → (length b ≤ length a) ⊎ ((y : ℕ) → op 0 y ≡ 0)
        → (value (2 ^ bits) (zip_digits digit_op a b ++ drop (length b) a)
            ≡ op (value (2 ^ bits) a) (value (2 ^ bits) b))
          × IsDigits (2 ^ bits) (zip_digits digit_op a b ++ drop (length b) a)
          × (length (zip_digits digit_op a b ++ drop (length b) a) ≡ length a)
    merged_value [] [] ha hb right left = (omega (arith, l.nothing), tt, refl)
    merged_value [] (y ∷ b) ha hb right (inl le) = absurd (omega arith)
    merged_value [] (y ∷ b) ha hb right (inr zero_left) =
        (omega (arith, zero_left (value (2 ^ bits) (y ∷ b))), tt, refl)
    merged_value (x ∷ a) [] ha hb right left =
        (omega (arith, right (value (2 ^ bits) (x ∷ a))), ha, refl)
    merged_value (x ∷ a) (y ∷ b) ha hb right left =
        let (e, d, n) = merged_value a b ha.1 hb.1 right (shorter left) in
        let va = value (2 ^ bits) a in
        let vb = value (2 ^ bits) b in
        let s = same x y ha.0 hb.0 in
        let fa : x + 2 ^ bits * va ≡ va * 2 ^ bits + x = omega arith in
        let fb : y + 2 ^ bits * vb ≡ vb * 2 ^ bits + y = omega arith in
        (
          omega (
            arith,
            s,
            ap (λ (t : ℕ). 2 ^ bits * t) e,
            both op fa fb,
            split bits va x vb y ha.0 hb.0,
          ),
          (omega (arith, s, below bits x y ha.0 hb.0), d),
          ap suc n,
        )
      where
        shorter :
            (length (y ∷ b) ≤ length (x ∷ a)) ⊎ ((y : ℕ) → op 0 y ≡ 0)
            → (length b ≤ length a) ⊎ ((y : ℕ) → op 0 y ≡ 0)
        shorter (inl le) = inl (omega arith)
        shorter (inr z) = inr z

    -- Both end with the shorter one, where the operation clears what meets zero.
    pub cut_value :
        (a b : List ℕ)
        → IsDigits (2 ^ bits) a
        → IsDigits (2 ^ bits) b
        → ((x : ℕ) → op x 0 ≡ 0)
        → ((y : ℕ) → op 0 y ≡ 0)
        → (value (2 ^ bits) (zip_digits digit_op a b)
            ≡ op (value (2 ^ bits) a) (value (2 ^ bits) b))
          × IsDigits (2 ^ bits) (zip_digits digit_op a b)
          × (length (zip_digits digit_op a b) ≡ min (length a) (length b))
    cut_value [] b ha hb right left = (omega (arith, left (value (2 ^ bits) b)), tt, omega arith)
    cut_value (x ∷ a) [] ha hb right left =
        (omega (arith, right (value (2 ^ bits) (x ∷ a))), tt, omega arith)
    cut_value (x ∷ a) (y ∷ b) ha hb right left =
        let (e, d, n) = cut_value a b ha.1 hb.1 right left in
        let va = value (2 ^ bits) a in
        let vb = value (2 ^ bits) b in
        let s = same x y ha.0 hb.0 in
        let fa : x + 2 ^ bits * va ≡ va * 2 ^ bits + x = omega arith in
        let fb : y + 2 ^ bits * vb ≡ vb * 2 ^ bits + y = omega arith in
        (
          omega (
            arith,
            s,
            ap (λ (t : ℕ). 2 ^ bits * t) e,
            both op fa fb,
            split bits va x vb y ha.0 hb.0,
          ),
          (omega (arith, s, below bits x y ha.0 hb.0), d),
          omega arith,
        )
