-- ===== src/Bigint/Integer/Bits/Unsigned.antt =====
-- The operations on magnitudes.
use Prim.Native.Nat.{bit_and, bit_or, bit_xor}
use native.Mathlib.Nat.{one-le-pow}
use crts.Prelude.{
  ℕ, zero, suc, ◌-◌, ◌*◌, ◌^◌, ◌≤◌, ◌<◌, ◌≡◌, refl, ap, Bool, true, Bool-cases, inl, inr, List, [],
  ◌∷◌, ◌++◌, ltb, length, drop, arith, length-drop,
}
use crts.Prelude.Bits.{bit_or-zero, bit_and-zero}
use crts.Bigint.Digits.{value, IsDigits, zd_sub_1}
use crts.Bigint.Digits.Add.{zd_sub_1_lem}
use crts.Bigint.Digits.Value.{zero_of_lt, value-lt}
use crts.Bigint.Digits.Bitwise.{zip_digits, zd_or_n, zd_and_n, zd_andnot_n, zd_xor_n}
use crts.Bigint.Digits.Bitwise.Numbers.{merged_value, cut_value}
use crts.Bigint.Digits.Bitwise.Tables.{
  and_lanes, or_lanes, xor_lanes, andnot_lanes, bit_andnot, and_complement,
}
use crts.Bigint.Integer.{ZInt, IsNormal, IsTrimmed}
use crts.Bigint.Integer.Normal.{le-value, IsTrimmed-of_le}
use crts.Bigint.Integer.Bits.{
  xor_ordered, or_ordered, unsigned_xor, unsigned_or, unsigned_and, unsigned_andnot, unsigned_dec,
}
use crts.Bigint.Integer.Gives.{no_err}
use crts.Bigint.Integer.Bits.Made.{Made, checked-Made, trimmed-Made}
use crts.Bigint.Digits.Bitwise.Laws.{
  grows, xor_zero, xor_comm, or_comm, and_nothing, andnot_zero, andnot_nothing,
}

IsTrimmed-behind : (xs ys : List ℕ) → 0 < length ys → IsTrimmed ys → IsTrimmed (xs ++ ys)
IsTrimmed-behind [] ys pos h = h
IsTrimmed-behind (x ∷ []) [] pos h = absurd (omega arith)
IsTrimmed-behind (x ∷ []) (y ∷ ys) pos h = h
IsTrimmed-behind (x ∷ z ∷ xs) ys pos h = IsTrimmed-behind (z ∷ xs) ys pos h

IsTrimmed-drop : (n : ℕ) (xs : List ℕ) → IsTrimmed xs → IsTrimmed (drop n xs)
IsTrimmed-drop zero xs h = h
IsTrimmed-drop (suc n) [] h = tt
IsTrimmed-drop (suc n) (x ∷ []) h = IsTrimmed-drop n [] tt
IsTrimmed-drop (suc n) (x ∷ y ∷ xs) h = IsTrimmed-drop n (y ∷ xs) h

IsTrimmed-reach :
    (base : ℕ) (a r : List ℕ)
    → 0 < base
    → IsDigits base r
    → length r ≡ length a
    → IsTrimmed a
    → value base a ≤ value base r
    → IsTrimmed r
IsTrimmed-reach base a [] pos hr n ha le = tt
IsTrimmed-reach base [] (y ∷ r) pos hr n ha le = absurd (omega arith)
IsTrimmed-reach base (x ∷ a) (y ∷ r) pos hr n ha le =
    IsTrimmed-of_le base y r hr
      (omega (arith, le-value base x a pos ha, ap (λ (k : ℕ). base ^ k) (the_rest n)))
  where
    the_rest : suc (length r) ≡ suc (length a) → length r ≡ length a
    the_rest e = omega arith

module _ (bits : ℕ) (malloc : ℕ → Bool) where
  abbrev base : ℕ
  base = 2 ^ bits

  base_pos : 0 < base
  base_pos = one-le-pow bits 2 (omega arith)

  xor_ordered-Made :
      (n : ℕ) (a b : ZInt)
      → IsNormal base a
      → IsNormal base b
      → length b.digits ≤ length a.digits
      → length a.digits ≤ n
      → Made base malloc n
          (bit_xor (value base a.digits) (value base b.digits))
          (xor_ordered malloc a b)
  unfolding xor_ordered zd_xor_n
  xor_ordered-Made n a b ha hb shorter fits =
      let (v, d, l) =
        merged_value bit_xor xor_lanes bits bit_xor (λ x y hx hy. refl) a.digits b.digits
          ha.digits_fit hb.digits_fit xor_zero (inl shorter) in
      let fine = no_err a.err b.err ha.no_error hb.no_error in
      elim (Bool-cases (ltb (length b.digits) (length a.digits))) [
        | inl less ↦ rw less (
            checked-Made base malloc n _ _ _ _ fine (omega arith)
              (
                d,
                IsTrimmed-behind (zip_digits bit_xor a.digits b.digits)
                    (drop (length b.digits) a.digits)
                    (omega (arith, length-drop (length b.digits) a.digits, less_of less))
                    (IsTrimmed-drop (length b.digits) a.digits ha.trimmed),
              )
              v (omega arith))
        | inr same ↦
            rw same (trimmed-Made base malloc n _ _ _ _ fine (omega arith) d v (omega arith))
      ]
    where
      less_of : ltb (length b.digits) (length a.digits) ≡ true → length b.digits < length a.digits
      less_of e = ground arith

  or_ordered-Made :
      (n : ℕ) (a b : ZInt)
      → IsNormal base a
      → IsNormal base b
      → length b.digits ≤ length a.digits
      → length a.digits ≤ n
      → Made base malloc n
          (bit_or (value base a.digits) (value base b.digits))
          (or_ordered malloc a b)
  unfolding or_ordered zd_or_n
  or_ordered-Made n a b ha hb shorter fits =
      let (v, d, l) =
        merged_value bit_or or_lanes bits bit_or (λ x y hx hy. refl) a.digits b.digits ha.digits_fit
          hb.digits_fit bit_or-zero (inl shorter) in
      let fine = no_err a.err b.err ha.no_error hb.no_error in
      let more = grows (value base a.digits) (value base b.digits) in
      checked-Made base malloc n _ _ _ _ fine (omega arith)
        (d, IsTrimmed-reach base a.digits _ base_pos d l ha.trimmed (omega arith)) v (omega arith)

  pub and-Made :
      (n : ℕ) (a b : ZInt)
      → IsNormal base a
      → IsNormal base b
      → length a.digits ≤ n
      → Made base malloc n
          (bit_and (value base a.digits) (value base b.digits))
          (unsigned_and malloc a b)
  unfolding unsigned_and zd_and_n
  and-Made n a b ha hb fits =
      let (v, d, l) =
        cut_value bit_and and_lanes bits bit_and (λ x y hx hy. refl) a.digits b.digits ha.digits_fit
          hb.digits_fit bit_and-zero and_nothing in
      trimmed-Made base malloc n _ _ _ _ (no_err a.err b.err ha.no_error hb.no_error) (omega arith)
        d v (omega arith)

  pub andnot-Made :
      (n : ℕ) (a b : ZInt)
      → IsNormal base a
      → IsNormal base b
      → length a.digits ≤ n
      → Made base malloc n
          (bit_andnot (value base a.digits) (value base b.digits))
          (unsigned_andnot bits malloc a b)
  unfolding unsigned_andnot zd_andnot_n
  andnot-Made n a b ha hb fits =
      let (v, d, l) =
        merged_value bit_andnot andnot_lanes bits (λ x y. bit_and x (2 ^ bits - 1 - y))
          (and_complement bits) a.digits b.digits ha.digits_fit hb.digits_fit andnot_zero
          (inr andnot_nothing) in
      trimmed-Made base malloc n _ _ _ _ (no_err a.err b.err ha.no_error hb.no_error) (omega arith)
        d v (omega arith)

  pub dec-Made :
      (n : ℕ) (a : ZInt)
      → 1 < base
      → IsNormal base a
      → 0 < value base a.digits
      → length a.digits ≤ n
      → Made base malloc n (value base a.digits - 1) (unsigned_dec bits malloc a)
  unfolding unsigned_dec
  dec-Made n a big ha pos fits =
      let (e, (d, l), _) = zd_sub_1_lem base big a.digits 1 ha.digits_fit big in
      let r = (zd_sub_1 base a.digits 1).0 in
      let low : value base r < base ^ length a.digits =
        omega (arith, value-lt base r d, ap (λ (k : ℕ). base ^ k) l) in
      let none = zero_of_lt (base ^ length a.digits) (zd_sub_1 base a.digits 1).1 (omega arith) in
      let v : value base r ≡ value base a.digits - 1 =
        omega (arith, ap (λ (k : ℕ). base ^ length a.digits * k) none) in
      trimmed-Made base malloc n _ _ _ _ ha.no_error (omega arith) d v (omega arith)

  pub xor-Made :
      (n : ℕ) (a b : ZInt)
      → IsNormal base a
      → IsNormal base b
      → length a.digits ≤ n
      → length b.digits ≤ n
      → Made base malloc n
          (bit_xor (value base a.digits) (value base b.digits))
          (unsigned_xor malloc a b)
  unfolding unsigned_xor
  xor-Made n a b ha hb fa fb = elim (Bool-cases (ltb (length a.digits) (length b.digits))) [
    | inl less ↦
        rw (less, xor_comm (value base a.digits) (value base b.digits))
          (xor_ordered-Made n b a hb ha (ground arith) fb)
    | inr more ↦ rw more (xor_ordered-Made n a b ha hb (ground arith) fa)
  ]

  pub or-Made :
      (n : ℕ) (a b : ZInt)
      → IsNormal base a
      → IsNormal base b
      → length a.digits ≤ n
      → length b.digits ≤ n
      → Made base malloc n
          (bit_or (value base a.digits) (value base b.digits))
          (unsigned_or malloc a b)
  unfolding unsigned_or
  or-Made n a b ha hb fa fb = elim (Bool-cases (ltb (length a.digits) (length b.digits))) [
    | inl less ↦
        rw (less, or_comm (value base a.digits) (value base b.digits))
          (or_ordered-Made n b a hb ha (ground arith) fb)
    | inr more ↦ rw more (or_ordered-Made n a b ha hb (ground arith) fa)
  ]
