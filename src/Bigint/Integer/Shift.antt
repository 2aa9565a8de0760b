-- ===== src/Bigint/Integer/Shift.antt =====
-- z_shl and z_shr.
use Prim.Native.Nat.{pred}
use Prim.Native.Nat.pow
use native.Mathlib.Nat.{one-le-pow, mul-le-mul_left, lt_of_lt_of_le, mul-pos, mod-lt}
use crts.Prelude.{
  ℕ, suc, zero, ◌+◌, ◌*◌, ◌/◌, ◌%◌, ◌^◌, ◌≤◌, ◌<◌, ◌≡◌, refl, ap, subst, ◌∙◌, Bool, true, false,
  List, [], ◌∷◌, ◌++◌, arith, length, replicate, ◌==◌, if◌then◌else◌, Bool-cases, inl, inr,
  length-append, length-replicate,
}
use crts.Prelude.Int.{pos, signed, signed_scale, ◌*ℤ◌}
use crts.Bigint.Digits.{value, IsDigits, zd_shl}
use crts.Bigint.Digits.Shift.{shl_lem}
use crts.Bigint.Digits.Value.{value-zeros, IsDigits-zeros, pow_split, pow-le-pow}
use crts.Bigint.Integer.{
  ZInt, IsNormal, IsTrimmed, to_ℤ, is_empty, z_new_checked, z_grow, shl_digits, z_shl,
}
use crts.Bigint.Integer.Normal.{
  IsTidy, Stands, le-value, value-pos, not_empty, not_empty-length, empty-value, IsTrimmed-of_le,
  z_grow_lem,
}
use crts.Bigint.Integer.Gives.{Gives, checked-Gives, zero-Gives, tidy}

IsTrimmed-zeros : (n x : ℕ) (xs : List ℕ) → IsTrimmed (x ∷ xs) → IsTrimmed (replicate n 0 ++ x ∷ xs)
IsTrimmed-zeros zero x xs h = h
IsTrimmed-zeros (suc zero) x xs h = h
IsTrimmed-zeros (suc (suc n)) x xs h = IsTrimmed-zeros (suc n) x xs h

module _ (bits : ℕ) (some_bits : 0 < bits) where
  two_pos : (n : ℕ) → 0 < 2 ^ n
  two_pos n = one-le-pow n 2 (omega arith)

  -- The bits within a digit.
  grown :
      (x : ℕ) (a r : List ℕ) (c s : ℕ)
      → s < bits
      → IsTrimmed (x ∷ a)
      → IsDigits (2 ^ bits) r
      → length r ≡ length (x ∷ a)
      → c < 2 ^ s
      → value (2 ^ bits) r + (2 ^ bits) ^ length (x ∷ a) * c ≡ value (2 ^ bits) (x ∷ a) * 2 ^ s
      → IsTidy (2 ^ bits) (z_grow r c)
        × (value (2 ^ bits) (z_grow r c) ≡ value (2 ^ bits) (x ∷ a) * 2 ^ s)
        × (length (z_grow r c) ≤ length (x ∷ a) + 1)
  grown x a [] c s lt t dr n hc e = absurd (omega arith)
  grown x a (z ∷ r) c s lt t dr n hc e =
      let base = 2 ^ bits in
      let v = value base (x ∷ a) in
      let low : base ^ length a ≤ v = le-value base x a (two_pos bits) t in
      let up : v * 1 ≤ v * 2 ^ s = mul-le-mul_left v (two_pos s) in
      let fits : c < base = lt_of_lt_of_le hc (pow-le-pow 2 s bits (omega arith) (omega arith)) in
      let top : c ≡ 0 → IsTrimmed (z ∷ r) = λ zero_c. IsTrimmed-of_le base z r dr (
        omega (
          arith,
          e,
          low,
          up,
          ap (λ (k : ℕ). base ^ length (x ∷ a) * k) zero_c,
          ap (λ (k : ℕ). base ^ pred k) n,
        )) in
      let (td, e', le) = z_grow_lem base (z ∷ r) c dr fits top in
      (td, omega (arith, e', e, ap (λ (k : ℕ). base ^ k * c) n), omega arith)

  zeros-IsTidy :
      (n : ℕ) (xs : List ℕ)
      → IsTidy (2 ^ bits) xs
      → 0 < value (2 ^ bits) xs
      → IsTidy (2 ^ bits) (replicate n 0 ++ xs)
  zeros-IsTidy n [] h some = absurd (omega arith)
  zeros-IsTidy n (x ∷ xs) h some =
      (IsDigits-zeros (2 ^ bits) n (x ∷ xs) (two_pos bits) h.0, IsTrimmed-zeros n x xs h.1)

  -- The digits within the words, then whole words of zeros.
  within :
      (x : ℕ) (a : List ℕ) (s : ℕ)
      → s < bits
      → IsTidy (2 ^ bits) (x ∷ a)
      → let top =
          (if s == 0
            then x ∷ a
            else z_grow (zd_shl bits (x ∷ a) s 0).0 (zd_shl bits (x ∷ a) s 0).1) in
        IsTidy (2 ^ bits) top
        × (value (2 ^ bits) top ≡ value (2 ^ bits) (x ∷ a) * 2 ^ s)
        × (length top ≤ length (x ∷ a) + 1)
  within x a s lt (d, t) = elim (Bool-cases (s == 0)) [
    | inl e ↦
        let zero_s : s ≡ 0 = ground arith in
        rw (e, zero_s)
          (
            (d, t),
            omega (arith, ap (λ (k : ℕ). value (2 ^ bits) (x ∷ a) * k) (pow.zero 2)),
            omega arith,
          )
    | inr ne ↦
        let (e, (dr, n), u) = shl_lem bits s (omega arith) (x ∷ a) 0 d (two_pos s) in
        rw ne (grown x a _ _ s lt t dr n u (omega (arith, e)))
  ]

  shl_digits-Stands :
      (neg : Bool) (a : List ℕ) (b : ℕ)
      → IsTidy (2 ^ bits) a
      → 0 < length a
      → Stands
          (2 ^ bits)
          (signed neg (value (2 ^ bits) a * 2 ^ b))
          (length a + b / bits + 1)
          (neg, shl_digits bits a b)
  unfolding shl_digits
  shl_digits-Stands neg [] b h some = absurd (omega arith)
  shl_digits-Stands neg (x ∷ a) b h some =
      let base = 2 ^ bits in
      let s = b % bits in
      let n = b / bits in
      let (td, v, le) = within x a s (mod-lt b some_bits) h in
      let top =
        (if s == 0
          then x ∷ a
          else z_grow (zd_shl bits (x ∷ a) s 0).0 (zd_shl bits (x ∷ a) s 0).1) in
      let positive : 0 < value base top =
        rw v (mul-pos (value-pos base x a (two_pos bits) h.1) (two_pos s)) in
      let total : value base (replicate n 0 ++ top) ≡ value base (x ∷ a) * 2 ^ b = omega (
        arith,
        value-zeros base n top,
        ap (λ (t : ℕ). base ^ n * t) v,
        ap (λ (t : ℕ). value base (x ∷ a) * t) (pow_split bits b),
      ) in
      (
        zeros-IsTidy n top td positive,
        not_empty base _ (rw total (mul-pos (value-pos base x a (two_pos bits) h.1) (two_pos b))),
        ap (signed neg) total,
        omega (arith, length-append (replicate n 0) top, length-replicate {A = ℕ} n 0),
      )

  -- For an operand in normal form, z_shl returns the normal form of its product with 2 ^ b if its
  -- one allocation succeeds (zero needs none); else it returns the error value.
  pub z_shl-Gives :
      (malloc : ℕ → Bool) (a : ZInt) (b : ℕ)
      → IsNormal (2 ^ bits) a
      → Gives
          (2 ^ bits)
          (if is_empty a.digits then true else malloc (length a.digits + b / bits + 1))
          (to_ℤ (2 ^ bits) a *ℤ pos (2 ^ b))
          (z_shl bits malloc a b)
  unfolding z_shl to_ℤ
  z_shl-Gives malloc a b h = elim (Bool-cases (is_empty a.digits)) [
    | inl e ↦
        let none : 0 ≡ value (2 ^ bits) a.digits * 2 ^ b =
          omega (arith, ap (λ (t : ℕ). t * 2 ^ b) (empty-value (2 ^ bits) a.digits e)) in
        rw e (
          subst (λ v. Gives (2 ^ bits) true v (z_new_checked malloc a.err 0 (false, [])))
            (ap (signed a.neg) none ∙ signed_scale a.neg (value (2 ^ bits) a.digits) (2 ^ b))
            (zero-Gives (2 ^ bits) malloc a.neg a.err h.no_error))
    | inr some ↦
        rw (some, h.no_error, ← signed_scale a.neg (value (2 ^ bits) a.digits) (2 ^ b))
          (checked-Gives (2 ^ bits) malloc _ _ _ _ (omega arith) refl (
            shl_digits-Stands a.neg a.digits b (tidy (2 ^ bits) h)
              (not_empty-length a.digits some)))
  ]
