-- ===== src/Bigint/Integer/Bits/Signs.antt =====
-- The bits of integers in two's complement, by their signs.
use crts.Prelude.{
  ℕ, ◌-◌, ◌^◌, ◌≤◌, ◌<◌, ◌≡◌, refl, Bool, true, false, not, Bool-cases, inl, inr, List, [], ◌∷◌,
  length, arith,
}
use crts.Prelude.Int.{ℤ, pos, negsuc, signed}
use crts.Bigint.Digits.{value}
use crts.Bigint.Digits.Bitwise.Tables.{has_bit}
use crts.Bigint.Integer.{ZInt, IsNormal, IsTrimmed, to_ℤ}
use crts.Bigint.Integer.Normal.{value-pos}
use crts.Bigint.Integer.Bits.{unsigned_dec}
use crts.Bigint.Integer.Bits.Made.{Made, made}
use crts.Bigint.Integer.Bits.Unsigned.{dec-Made}
use crts.Bigint.Integer.Bits.Complement.{Stands, stands, no_room}

-- Bit i of an integer in two's complement: -(n + 1) has the bits that n has not.
abbrev pub bit_ℤ : ℕ → ℤ → Bool
bit_ℤ i (pos n) = has_bit i n
bit_ℤ i (negsuc n) = not (has_bit i n)

-- An integer in normal form of which each bit is f of those of a and b; or an allocation of at most
-- n digits has failed, and the result is in error.
pub data BitsOf (base : ℕ) (malloc : ℕ → Bool) (n : ℕ) (f : Bool → Bool → Bool) (a b : ZInt)
    : ZInt → Type 0 where
  bits_of :
      (r : ZInt)
      → IsNormal base r
      → ((i : ℕ) → bit_ℤ i (to_ℤ base r) ≡ f (bit_ℤ i (to_ℤ base a)) (bit_ℤ i (to_ℤ base b)))
      → BitsOf base malloc n f a b r
  no_memory :
      (k : ℕ) (r : ZInt) → k ≤ n → malloc k ≡ false → r.err ≡ true → BitsOf base malloc n f a b r

positive : (s : Bool) (x : ℕ) → s ≡ false → signed s x ≡ pos x
unfolding signed
positive false x e = refl
positive true x e = cc

negative : (s : Bool) (x : ℕ) → s ≡ true → 0 < x → signed s x ≡ negsuc (x - 1)
unfolding signed
negative false x e h = cc
negative true x e h = ground arith

not_zero :
    (base : ℕ) (s : Bool) (xs : List ℕ)
    → 0 < base
    → IsTrimmed xs
    → (xs ≡ [] → s ≡ false)
    → s ≡ true
    → 0 < value base xs
not_zero base s [] base_pos t z e = cc (z refl)
not_zero base s (x ∷ xs) base_pos t z e = value-pos base x xs base_pos t

module _ (bits : ℕ) (big : 1 < 2 ^ bits) (malloc : ℕ → Bool) where
  abbrev base : ℕ
  base = 2 ^ bits

  -- The magnitude of an operand, or what z_xor and the others take of a negative one.
  module _ (n : ℕ) (a : ZInt) (ha : IsNormal base a) (fits : length a.digits ≤ n) where
    pub itself : a.neg ≡ false → Made base malloc n (value base a.digits) a
    itself e = made a ha e refl fits

    itself_pos : a.neg ≡ false → to_ℤ base a ≡ pos (value base a.digits)
    unfolding to_ℤ
    itself_pos e = positive a.neg (value base a.digits) e

    some_value : a.neg ≡ true → 0 < value base a.digits
    some_value e = not_zero base a.neg a.digits (omega arith) ha.trimmed ha.zero_sign e

    pub before :
        a.neg ≡ true → Made base malloc n (value base a.digits - 1) (unsigned_dec bits malloc a)
    before e = dec-Made bits malloc n a big ha (some_value e) fits

    before_negsuc : a.neg ≡ true → to_ℤ base a ≡ negsuc (value base a.digits - 1)
    unfolding to_ℤ
    before_negsuc e = negative a.neg (value base a.digits) e (some_value e)

  -- The bits of a result from those of the integers of the operands.
  done :
      (n : ℕ) (f : Bool → Bool → Bool) (a b : ZInt) (x y v : ℤ) (r : ZInt)
      → to_ℤ base a ≡ x
      → to_ℤ base b ≡ y
      → ((i : ℕ) → bit_ℤ i v ≡ f (bit_ℤ i x) (bit_ℤ i y))
      → Stands base malloc n v r
      → BitsOf base malloc n f a b r
  done n f a b x y v _ ea eb same (no_room k r le e err) = no_memory k r le e err
  done n f a b x y v _ ea eb same (stands r h e) = bits_of r h (λ i. rw (e, ea, eb) (same i))

  -- A result that stands for an integer whose bits are those of x and y, combined by f.
  abbrev pub Reads : ℕ → (Bool → Bool → Bool) → ℤ → ℤ → ZInt → Type 0
  Reads n f x y r =
      (v : ℤ) × ((i : ℕ) → bit_ℤ i v ≡ f (bit_ℤ i x) (bit_ℤ i y)) × Stands base malloc n v r

  -- An operation is right if it is for each pair of signs.
  pub Reads→BitsOf :
      (n k : ℕ) (f : Bool → Bool → Bool) (a b r : ZInt)
      → IsNormal base a
      → IsNormal base b
      → length a.digits ≤ n
      → length b.digits ≤ n
      → (let va = value base a.digits in
          let vb = value base b.digits in
          ((a.neg ≡ false → b.neg ≡ false → Reads k f (pos va) (pos vb) r)
            → (a.neg ≡ false → b.neg ≡ true → Reads k f (pos va) (negsuc (vb - 1)) r)
            → (a.neg ≡ true → b.neg ≡ false → Reads k f (negsuc (va - 1)) (pos vb) r)
            → (a.neg ≡ true → b.neg ≡ true → Reads k f (negsuc (va - 1)) (negsuc (vb - 1)) r)
            → BitsOf base malloc k f a b r))
  Reads→BitsOf n k f a b r ha hb fa fb pp pn np nn = elim (Bool-cases a.neg) [
    | inl e ↦ elim (Bool-cases b.neg) [
      | inl g ↦
          let (v, bits_v, st) = nn e g in
          done k f a b _ _ v r (before_negsuc n a ha fa e) (before_negsuc n b hb fb g) bits_v st
      | inr g ↦
          let (v, bits_v, st) = np e g in
          done k f a b _ _ v r (before_negsuc n a ha fa e) (itself_pos n b hb fb g) bits_v st
    ]
    | inr e ↦ elim (Bool-cases b.neg) [
      | inl g ↦
          let (v, bits_v, st) = pn e g in
          done k f a b _ _ v r (itself_pos n a ha fa e) (before_negsuc n b hb fb g) bits_v st
      | inr g ↦
          let (v, bits_v, st) = pp e g in
          done k f a b _ _ v r (itself_pos n a ha fa e) (itself_pos n b hb fb g) bits_v st
    ]
  ]
