-- ===== src/Bigint/Digits/Bitwise/Tables.antt =====
-- The operations on bits, and each bit of their results.
use Prim.Native.Nat.pow
use Prim.Native.Nat.{bit_and, bit_or, bit_xor, differ, min, max, bit_xor-bitwise}
use native.Mathlib.Nat.{pow-succ'}
use crts.Prelude.{
  ℕ, zero, suc, ◌-◌, ◌/◌, ◌%◌, ◌^◌, ◌<◌, ◌≡◌, ◌⊎◌, inl, inr, refl, ap, ◌∙◌, Bool, not, ◌&&◌, ◌||◌,
  ◌==◌, differs, arith,
}
use crts.Prelude.Bits.{bit_and-halves, bit_or-halves, bit_and-zero, bit_or-zero}
use crts.Bigint.Digits.Bitwise.Numbers.{Lanes, bit_xor-halves}

parity : (n : ℕ) → (n % 2 ≡ 0) ⊎ (n % 2 ≡ 1)
parity n = ground arith

-- A table of bits, for each of the two pairs.
module _ (P : ℕ → ℕ → Type 0) (p : P 0 0) (q : P 0 1) (r : P 1 0) (s : P 1 1) where
  pub by_parity : (x y : ℕ) → P (x % 2) (y % 2)
  by_parity x y = elim (parity x) [
    | inl e ↦ elim (parity y) [ inl f ↦ rw (e, f) p | inr f ↦ rw (e, f) q ]
    | inr e ↦ elim (parity y) [ inl f ↦ rw (e, f) r | inr f ↦ rw (e, f) s ]
  ]

abbrev pub and_lanes : Lanes bit_and
and_lanes = record {
  low = min;
  halves = bit_and-halves;
  low_bit = λ x y. omega arith;
  nothing = bit_and-zero 0;
}

abbrev pub or_lanes : Lanes bit_or
or_lanes = record {
  low = max;
  halves = bit_or-halves;
  low_bit = λ x y. omega arith;
  nothing = bit_or-zero 0;
}

pub xor_lanes : Lanes bit_xor
xor_lanes = record {
  low = differ;
  halves = bit_xor-halves;
  low_bit =
      by_parity (λ x y. differ x y < 2) (omega arith) (omega arith) (omega arith) (omega arith);
  nothing = omega (arith, bit_xor-bitwise 0 0);
}

-- The bits of a that b has not.
abbrev pub bit_andnot : ℕ → ℕ → ℕ
bit_andnot a b = bit_xor a (bit_and a b)

abbrev pub andnot_lanes : Lanes bit_andnot
andnot_lanes = record {
  low = λ x y. differ x (min x y);
  halves = λ a b.
      (let h = bit_and-halves a b in
        let c : bit_and a b / 2 ≡ bit_and (a / 2) (b / 2) = omega arith in
        let d : bit_and a b % 2 ≡ min (a % 2) (b % 2) = omega arith in
        omega
          (arith, bit_xor-halves a (bit_and a b), ap (bit_xor (a / 2)) c, ap (differ (a % 2)) d));
  low_bit =
      by_parity (λ x y. differ x (min x y) < 2) (omega arith) (omega arith) (omega arith)
        (omega arith);
  nothing = ap (bit_xor 0) (bit_and-zero 0) ∙ omega (arith, bit_xor-bitwise 0 0);
}

-- `x & ~y` on digits of k bits.
pub and_complement :
    (k x y : ℕ) → x < 2 ^ k → y < 2 ^ k → bit_and x (2 ^ k - 1 - y) ≡ bit_andnot x y
and_complement zero x y hx hy =
    let x0 : x ≡ 0 = omega (arith, pow.zero 2) in
    let y0 : y ≡ 0 = omega (arith, pow.zero 2) in
    let z0 : 2 ^ 0 - 1 - y ≡ 0 = omega (arith, pow.zero 2) in
    omega (
      arith,
      ap (bit_and x) z0,
      bit_and-zero x,
      ap (λ t. bit_andnot t y) x0,
      ap (bit_andnot 0) y0,
      andnot_lanes.nothing,
    )
and_complement (suc k) x y hx hy =
    let two = pow-succ' 2 k in
    let z = 2 ^ suc k - 1 - y in
    let h : z / 2 ≡ 2 ^ k - 1 - y / 2 = omega arith in
    let m : z % 2 ≡ 1 - y % 2 = omega arith in
    let t = by_parity (λ x y. min x (1 - y) ≡ differ x (min x y)) refl refl refl refl x y in
    omega (
      arith,
      bit_and-halves x z,
      ap (bit_and (x / 2)) h,
      ap (min (x % 2)) m,
      and_complement k (x / 2) (y / 2) (omega arith) (omega arith),
      andnot_lanes.halves x y,
      t,
    )

-- Bit i of a number.
abbrev pub has_bit : ℕ → ℕ → Bool
has_bit zero n = n % 2 == 1
has_bit (suc i) n = has_bit i (n / 2)

module _ (op : ℕ → ℕ → ℕ) (l : Lanes op) (f : Bool → Bool → Bool)
    (table : (x y : ℕ) → (l.low (x % 2) (y % 2) == 1) ≡ f (x % 2 == 1) (y % 2 == 1)) where
  has_bit-op : (i a b : ℕ) → has_bit i (op a b) ≡ f (has_bit i a) (has_bit i b)
  has_bit-op zero a b =
      let h = l.halves a b in
      let lt = l.low_bit a b in
      let e : op a b % 2 ≡ l.low (a % 2) (b % 2) = omega arith in ap (λ k. k == 1) e ∙ table a b
  has_bit-op (suc i) a b =
      let h = l.halves a b in
      let lt = l.low_bit a b in
      let e : op a b / 2 ≡ op (a / 2) (b / 2) = omega arith in
      ap (has_bit i) e ∙ has_bit-op i (a / 2) (b / 2)

pub has_bit-and : (i a b : ℕ) → has_bit i (bit_and a b) ≡ (has_bit i a && has_bit i b)
has_bit-and =
    has_bit-op bit_and and_lanes ◌&&◌
      (by_parity (λ x y. (min x y == 1) ≡ ((x == 1) && (y == 1))) refl refl refl refl)

pub has_bit-or : (i a b : ℕ) → has_bit i (bit_or a b) ≡ (has_bit i a || has_bit i b)
has_bit-or =
    has_bit-op bit_or or_lanes ◌||◌
      (by_parity (λ x y. (max x y == 1) ≡ ((x == 1) || (y == 1))) refl refl refl refl)

pub has_bit-xor : (i a b : ℕ) → has_bit i (bit_xor a b) ≡ differs (has_bit i a) (has_bit i b)
unfolding xor_lanes
has_bit-xor =
    has_bit-op bit_xor xor_lanes differs
      (by_parity (λ x y. (differ x y == 1) ≡ differs (x == 1) (y == 1)) refl refl refl refl)

pub has_bit-andnot : (i a b : ℕ) → has_bit i (bit_andnot a b) ≡ (has_bit i a && not (has_bit i b))
unfolding andnot_lanes
has_bit-andnot =
    has_bit-op bit_andnot andnot_lanes (λ p q. p && not q)
      (by_parity (λ x y. (differ x (min x y) == 1) ≡ ((x == 1) && not (y == 1))) refl refl refl
        refl)
