-- ===== src/Bigint/Digits/Divide/Scale.antt =====
-- The normalization of a division, by shifting.
use Prim.Native.Nat.pow
use native.Mathlib.Nat.{pow-succ', one-le-pow, mul-le-mul_left}
use crts.Prelude.{
  ℕ, suc, ◌+◌, ◌-◌, ◌*◌, ◌^◌, ◌≤◌, ◌<◌, ◌≡◌, refl, ap, ◌∙◌, Bool-cases, inl, inr, List, ltb, ◌==◌,
  length, arith,
}
use crts.Num.Size.{IsClz}
use crts.Bigint.Digits.{value, IsDigits}
use crts.Bigint.Digits.Value.{pow-le-pow}
use crts.Bigint.Digits.Add.{Holds}
use crts.Bigint.Digits.Shift.{shl_lem, shr_lem}
use crts.Bigint.Digits.Divide.{normalized, denormalized}

exact : (p x y low : ℕ) → p * x ≡ p * y + low → low < p → y ≡ x
exact p x y low e h = elim (Bool-cases (ltb y x)) [
  | inl less ↦
      let le : p * (y + 1) ≤ p * x = mul-le-mul_left p (ground arith) in absurd (omega arith)
  | inr more ↦ elim (Bool-cases (ltb x y)) [
    | inl less ↦
        let le : p * (x + 1) ≤ p * y = mul-le-mul_left p (ground arith) in absurd (omega arith)
    | inr same ↦ ground arith
  ]
]

module _ (bits s : ℕ) (fits : s < bits) where
  pub normalized_lem :
      (a : List ℕ)
      → IsDigits (2 ^ bits) a
      → (value (2 ^ bits) (normalized bits a s).0 + (2 ^ bits) ^ length a * (normalized bits a s).1
          ≡ value (2 ^ bits) a * 2 ^ s)
        × Holds (2 ^ bits) (length a) (normalized bits a s).0
        × ((normalized bits a s).1 < 2 ^ s)
  unfolding normalized
  normalized_lem a ha = elim (Bool-cases (s == 0)) [
    | inl none ↦
        let e : s ≡ 0 = ground arith in
        let one : 2 ^ s ≡ 1 = ap (◌^◌ 2) e ∙ pow.zero 2 in
        rw none (
          omega (arith, ap (λ (k : ℕ). value (2 ^ bits) a * k) one),
          (ha, refl),
          omega (arith, one),
        )
    | inr more ↦
        let (e, h, lt) = shl_lem bits s (omega arith) a 0 ha (one-le-pow s 2 (omega arith)) in
        rw more (omega (arith, e), h, lt)
  ]

  pub denormalized_lem :
      (a : List ℕ) (x : ℕ)
      → IsDigits (2 ^ bits) a
      → value (2 ^ bits) a ≡ 2 ^ s * x
      → (value (2 ^ bits) (denormalized bits a s) ≡ x)
        × Holds (2 ^ bits) (length a) (denormalized bits a s)
  unfolding denormalized
  denormalized_lem a x ha e = elim (Bool-cases (s == 0)) [
    | inl none ↦
        let z : s ≡ 0 = ground arith in
        let one : 2 ^ s ≡ 1 = ap (◌^◌ 2) z ∙ pow.zero 2 in
        rw none (omega (arith, ap (λ (k : ℕ). k * x) one), (ha, refl))
    | inr more ↦
        let (low, f, lt, _, h) = shr_lem bits s (omega arith) a ha in
        rw more (exact (2 ^ s) x _ low (omega arith) lt, h)
  ]

-- The shift that brings the top digit to at least half the base.
module _ (bits : ℕ) (wide : bits ≤ 64) (clz : ℕ → ℕ) (law : IsClz clz) (x : ℕ) (pos : 0 < x)
    (digit : x < 2 ^ bits) where
  abbrev pub Shifts : ℕ → Type 0
  Shifts s = (s < bits) × (x < 2 ^ (bits - s)) × (2 ^ (bits - s) ≤ 2 * x)

  pub clz-Shifts : Shifts (clz x + bits - 64)
  clz-Shifts =
      let word : x < 2 ^ 64 = omega (arith, pow-le-pow 2 bits 64 (omega arith) wide) in
      let below = law.below x pos word in
      let low = law.low x pos word in
      let high = law.high x pos word in
      let enough : 63 - clz x < bits = elim (Bool-cases (ltb (63 - clz x) bits)) [
        | inl less ↦ ground arith
        | inr more ↦
            absurd (omega (arith, pow-le-pow 2 bits (63 - clz x) (omega arith) (ground arith)))
      ] in
      let same : bits - (clz x + bits - 64) ≡ suc (63 - clz x) = omega arith in
      let top : 64 - clz x ≡ suc (63 - clz x) = omega arith in
      (
        omega arith,
        rw same (omega (arith, ap (λ (k : ℕ). 2 ^ k) top)),
        rw same (omega (arith, pow-succ' 2 (63 - clz x))),
      )
