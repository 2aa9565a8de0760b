-- ===== src/Prelude/Bits.antt =====
-- `|` of disjoint bit fields and `&` with a mask of low bits, as arithmetic, at every width.
use Prim.Native.Nat.pow
use Prim.Native.Nat.{bit_and, bit_or, digits, min, max, bit_and-bitwise, bit_or-bitwise}
use native.Mathlib.Nat.{pow-succ', one-le-pow}
use crts.Prelude.Order.{below_induction}
use crts.Prelude.{ℕ, zero, suc, ◌+◌, ◌-◌, ◌*◌, ◌/◌, ◌%◌, ◌^◌, ◌≤◌, ◌<◌, ◌≡◌, refl, ap, arith}

-- More fuel than digits makes no difference.
module _ (rest : ℕ → ℕ) (op : ℕ → ℕ → ℕ) where
  pub digits-stable : (a j k b : ℕ) → a ≤ j → a ≤ k → digits rest op j a b ≡ digits rest op k a b
  digits-stable a j k b =
      below_induction
        (λ a. (j k b : ℕ) → a ≤ j → a ≤ k → digits rest op j a b ≡ digits rest op k a b) a step j k
        b
    where
      step :
          (a : ℕ)
          → ((h : ℕ)
              → h < a
              → (j k b : ℕ) → h ≤ j
              → h ≤ k
              → digits rest op j h b ≡ digits rest op k h b)
          → (j k b : ℕ) → a ≤ j
          → a ≤ k
          → digits rest op j a b ≡ digits rest op k a b
      step zero ih zero zero b p q = refl
      step zero ih zero (suc k) b p q = refl
      step zero ih (suc j) zero b p q = refl
      step zero ih (suc j) (suc k) b p q = refl
      step (suc a) ih zero k b p q = absurd (omega arith)
      step (suc a) ih (suc j) zero b p q = absurd (omega arith)
      step (suc a) ih (suc j) (suc k) b p q =
          ap (λ (t : ℕ). t * 2 + op (suc a % 2) (b % 2))
            (ih (suc a / 2) (omega arith) j k (b / 2) (omega arith) (omega arith))

-- The lowest bit and the others.
pub bit_or-halves : (a b : ℕ) → bit_or a b ≡ bit_or (a / 2) (b / 2) * 2 + max (a % 2) (b % 2)
bit_or-halves zero b = omega (arith, bit_or-bitwise 0 b, bit_or-bitwise 0 (b / 2))
bit_or-halves (suc a) b = omega (
  arith,
  bit_or-bitwise (suc a) b,
  bit_or-bitwise (suc a / 2) (b / 2),
  digits-stable (λ b. b) max (suc a / 2) a (suc a / 2) (b / 2) (omega arith) (omega arith),
)

pub bit_and-halves : (a b : ℕ) → bit_and a b ≡ bit_and (a / 2) (b / 2) * 2 + min (a % 2) (b % 2)
bit_and-halves zero b = omega (arith, bit_and-bitwise 0 b, bit_and-bitwise 0 (b / 2))
bit_and-halves (suc a) b = omega (
  arith,
  bit_and-bitwise (suc a) b,
  bit_and-bitwise (suc a / 2) (b / 2),
  digits-stable (λ b. 0) min (suc a / 2) a (suc a / 2) (b / 2) (omega arith) (omega arith),
)

pub bit_or-zero : (a : ℕ) → bit_or a 0 ≡ a
bit_or-zero a = below_induction (λ a. bit_or a 0 ≡ a) a step
  where
    step : (a : ℕ) → ((h : ℕ) → h < a → bit_or h 0 ≡ h) → bit_or a 0 ≡ a
    step zero ih = refl
    step (suc a) ih = omega (arith, bit_or-halves (suc a) 0, ih (suc a / 2) (omega arith))

pub bit_and-zero : (a : ℕ) → bit_and a 0 ≡ 0
bit_and-zero a = below_induction (λ a. bit_and a 0 ≡ 0) a step
  where
    step : (a : ℕ) → ((h : ℕ) → h < a → bit_and h 0 ≡ 0) → bit_and a 0 ≡ 0
    step zero ih = refl
    step (suc a) ih = omega (arith, bit_and-halves (suc a) 0, ih (suc a / 2) (omega arith))

double_field : (q k : ℕ) → q * 2 ^ suc k ≡ 2 * (q * 2 ^ k)
double_field q k = omega (arith, ap (◌*◌ q) (pow-succ' 2 k))

-- A high field over `k` low bits.
pub bit_or-field : (k high low : ℕ) → low < 2 ^ k → bit_or (high * 2 ^ k) low ≡ high * 2 ^ k + low
bit_or-field zero high low h = ground (arith, pow.zero 2, bit_or-zero high)
bit_or-field (suc k) high low h = ground (
  arith,
  pow-succ' 2 k,
  double_field high k,
  bit_or-halves (high * 2 ^ suc k) low,
  bit_or-field k high (low / 2) (omega (arith, pow-succ' 2 k)),
)

pub bit_or-field_right :
    (k high low : ℕ) → low < 2 ^ k → bit_or low (high * 2 ^ k) ≡ high * 2 ^ k + low
bit_or-field_right zero high zero h = ground (arith, pow.zero 2, bit_or-bitwise 0 high)
bit_or-field_right zero high (suc low) h = absurd (omega (arith, pow.zero 2))
bit_or-field_right (suc k) high low h = ground (
  arith,
  pow-succ' 2 k,
  double_field high k,
  bit_or-halves low (high * 2 ^ suc k),
  bit_or-field_right k high (low / 2) (omega (arith, pow-succ' 2 k)),
)

bit_and-low : (k high low : ℕ) → low < 2 ^ k → bit_and (high * 2 ^ k + low) (2 ^ k - 1) ≡ low
bit_and-low zero high low h = ground (arith, pow.zero 2, bit_and-zero high)
bit_and-low (suc k) high low h = ground (
  arith,
  pow-succ' 2 k,
  one-le-pow k 2,
  double_field high k,
  bit_and-halves (high * 2 ^ suc k + low) (2 ^ suc k - 1),
  bit_and-low k high (low / 2) (omega (arith, pow-succ' 2 k)),
)

-- The mask of `k` ones takes the remainder by 2 ^ k.
pub bit_and-mask : (k a : ℕ) → bit_and a (2 ^ k - 1) ≡ a % 2 ^ k
bit_and-mask k a = ground (arith, one-le-pow k 2, bit_and-low k (a / 2 ^ k) (a % 2 ^ k))
