-- ===== src/Bigint/Integer/Compare.antt =====
-- z_cmp orders integers in normal form as the integers that they stand for.
use native.Mathlib.Nat.{one-le-pow}
use crts.Prelude.{
  ℕ, ◌+◌, ◌<◌, ◌≡◌, refl, sym, ap, Bool, true, false, List, [], ◌∷◌, arith, length, ◌==◌, ltb,
  differs, if◌then◌else◌, Bool-cases, inl, inr,
}
use crts.Prelude.Int.{ℤ, signed, pos_part, neg_part}
use crts.Bigint.Digits.{value, Cmp, less, equal, greater}
use crts.Bigint.Digits.Whole.{Says, zd_cmp-Says}
use crts.Bigint.Integer.{ZInt, IsNormal, IsTrimmed, to_ℤ, cmp_sizes, z_cmp}
use crts.Bigint.Integer.Normal.{IsTidy, le-value, shorter-lt}

-- What a comparison says of two integers.
abbrev pub SaysInt : Cmp → ℤ → ℤ → Type 0
SaysInt less a b = pos_part a + neg_part b < pos_part b + neg_part a
SaysInt equal a b = a ≡ b
SaysInt greater a b = pos_part b + neg_part a < pos_part a + neg_part b

SaysInt-signed :
    (c : Cmp) (s : Bool) (m n : ℕ)
    → (if s then Says c n m else Says c m n)
    → SaysInt c (signed s m) (signed s n)
unfolding signed
SaysInt-signed less true m n h = ground arith
SaysInt-signed less false m n h = ground arith
SaysInt-signed equal true m n h = ap (signed true) (sym h)
SaysInt-signed equal false m n h = ap (signed false) h
SaysInt-signed greater true m n h = ground arith
SaysInt-signed greater false m n h = ground arith

negative-lt : (m n : ℕ) → 0 < m → SaysInt less (signed true m) (signed false n)
unfolding signed
negative-lt m n h = ground arith

module _ (base : ℕ) (big : 1 < base) where
  cmp_sizes-Says :
      (a b : List ℕ)
      → IsTidy base a
      → IsTidy base b
      → Says (cmp_sizes a b) (value base a) (value base b)
  unfolding cmp_sizes
  cmp_sizes-Says a b ha hb = elim (Bool-cases (length a == length b)) [
    | inl e ↦ rw e (zd_cmp-Says base big a b ha.0 hb.0 (ground arith))
    | inr ne ↦ rw ne (elim (Bool-cases (ltb (length a) (length b))) [
      | inl l ↦ rw l (shorter-lt base b a big hb.1 ha.0 (ground arith))
      | inr g ↦ rw g (shorter-lt base a b big ha.1 hb.0 (ground arith))
    ])
  ]

  positive : (a : List ℕ) → IsTrimmed a → (a ≡ [] → true ≡ false) → 0 < value base a
  positive [] t h = absurd (grind (arith, h refl))
  positive (x ∷ a) t h =
      omega (arith, le-value base x a (omega arith) t, one-le-pow (length a) base (omega arith))

  signs :
      (s t : Bool) (a b : List ℕ)
      → IsTidy base a
      → IsTidy base b
      → (a ≡ [] → s ≡ false)
      → (b ≡ [] → t ≡ false)
      → SaysInt
          (if differs s t
            then if s then less else greater
            else if s
            then cmp_sizes b a
            else cmp_sizes a b)
          (signed s (value base a))
          (signed t (value base b))
  signs true true a b ha hb sa sb =
      SaysInt-signed (cmp_sizes b a) true (value base a) (value base b) (cmp_sizes-Says b a hb ha)
  signs true false a b ha hb sa sb = negative-lt (value base a) (value base b) (positive a ha.1 sa)
  signs false true a b ha hb sa sb = negative-lt (value base b) (value base a) (positive b hb.1 sb)
  signs false false a b ha hb sa sb =
      SaysInt-signed (cmp_sizes a b) false (value base a) (value base b) (cmp_sizes-Says a b ha hb)

  -- For operands in normal form, z_cmp tells in which order the integers stand.
  pub z_cmp-SaysInt :
      (a b : ZInt)
      → IsNormal base a
      → IsNormal base b
      → SaysInt (z_cmp a b) (to_ℤ base a) (to_ℤ base b)
  unfolding z_cmp to_ℤ
  z_cmp-SaysInt a b ha hb =
      signs a.neg b.neg a.digits b.digits (ha.digits_fit, ha.trimmed) (hb.digits_fit, hb.trimmed)
        ha.zero_sign hb.zero_sign
