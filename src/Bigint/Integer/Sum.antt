-- ===== src/Bigint/Integer/Sum.antt =====
-- z_add, z_sub, z_add_1 and z_sub_1 as wholes: the normal form of the sum, or an error.
use crts.Prelude.{
  ℕ, ◌+◌, ◌≤◌, ◌<◌, max, ◌≡◌, inl, inr, refl, Bool, true, false, not, ◌||◌, List, [], ◌∷◌, arith,
  length, get_or, ◌==◌, ltb, if◌then◌else◌, Bool-cases,
}
use crts.Prelude.Int.{
  ℤ, pos, signed, ◌+ℤ◌, ◌-ℤ◌, +ℤ_comm, signed-not, signed_not_pos, signed_minus_zero,
}
use crts.Bigint.Digits.{value, IsDigits}
use crts.Bigint.Integer.{
  ZInt, z_err, IsNormal, IsTrimmed, to_ℤ, is_empty, z_addsub_1, z_add_1, z_sub_1, addsub_ordered,
  z_addsub, z_add, z_sub,
}
use crts.Bigint.Integer.Gives.{Gives, checked-Gives, checked-err, tidy}
use crts.Bigint.Integer.Add.{addsub_1-Stands, addsub-Stands}

module _ (base : ℕ) (malloc : ℕ → Bool) where
  single_digit :
      (d : List ℕ)
      → length d ≡ 1
      → IsDigits base d
      → IsTrimmed d
      → (0 < get_or d 0 0) × (get_or d 0 0 < base) × (value base d ≡ get_or d 0 0)
  single_digit [] n h t = absurd (omega arith)
  single_digit (x ∷ []) n h t = (t, h.0, omega arith)
  single_digit (x ∷ y ∷ d) n h t = absurd (omega arith)

  -- The sign with which `z_sub` adds.
  turned :
      (z : ℤ) (t : Bool) (d : List ℕ)
      → (z -ℤ signed t (value base d)
          ≡ z +ℤ signed (if is_empty d then false else not t) (value base d))
        × (d ≡ [] → (if is_empty d then false else not t) ≡ false)
  unfolding is_empty
  turned z t [] = (signed_minus_zero z t false, λ e. refl)
  turned z t (x ∷ d) = (signed-not z t _, λ e. cc)

  module _ (big : 1 < base) where
    addsub_1-Gives :
        (a : ZInt) (b : ℕ) (s t : Bool)
        → IsNormal base a
        → 0 < b
        → b < base
        → Gives base
            (malloc (length a.digits + 1))
            (signed s (value base a.digits) +ℤ signed t b)
            (z_addsub_1 base malloc a b s t)
    unfolding z_addsub_1
    addsub_1-Gives a b s t ha hb lt = rw ha.no_error (
        checked-Gives base malloc _ _ _ _ (omega arith) refl
          (addsub_1-Stands base big a.digits b s t (tidy base ha) hb lt))

    ordered-Gives :
        (a b : ZInt) (s t : Bool)
        → IsNormal base a
        → IsNormal base b
        → length b.digits ≤ length a.digits
        → (a.digits ≡ [] → s ≡ false)
        → Gives base
            (malloc (length a.digits + 1))
            (signed s (value base a.digits) +ℤ signed t (value base b.digits))
            (addsub_ordered base malloc a b s t)
    unfolding addsub_ordered
    ordered-Gives a b s t ha hb le sa = elim (Bool-cases (length b.digits == 1)) [
      | inl one ↦
          let (positive, lt, e) = single_digit b.digits (ground arith) hb.digits_fit hb.trimmed in
          rw (one, e) (addsub_1-Gives a (get_or b.digits 0 0) s t ha positive lt)
      | inr many ↦
          rw (many, ha.no_error, hb.no_error)
            (checked-Gives base malloc _ _ _ _ (omega arith) refl
              (addsub-Stands base big a.digits b.digits s t (tidy base ha) (tidy base hb) le sa))
    ]

    -- `_z_addsub` on integers in normal form, with the signs that the caller gives.
    addsub-Gives :
        (a b : ZInt) (s t : Bool)
        → IsNormal base a
        → IsNormal base b
        → (a.digits ≡ [] → s ≡ false)
        → (b.digits ≡ [] → t ≡ false)
        → Gives base
            (malloc (max (length a.digits) (length b.digits) + 1))
            (signed s (value base a.digits) +ℤ signed t (value base b.digits))
            (z_addsub base malloc a b s t)
    unfolding z_addsub
    addsub-Gives a b s t ha hb sa sb = elim (Bool-cases (ltb (length a.digits) (length b.digits))) [
      | inl less ↦
          let n : max (length a.digits) (length b.digits) ≡ length b.digits = ground arith in
          rw (less, n, +ℤ_comm (signed s (value base a.digits)) (signed t (value base b.digits)))
            (ordered-Gives b a t s hb ha (ground arith) sb)
      | inr more ↦
          let n : max (length a.digits) (length b.digits) ≡ length a.digits = ground arith in
          rw (more, n) (ordered-Gives a b s t ha hb (ground arith) sa)
    ]

    -- For operands in normal form, z_add returns the normal form of their sum, in the max + 1
    -- digits it allocates, if that one allocation succeeds; else it returns the error value.
    pub z_add-Gives :
        (a b : ZInt)
        → IsNormal base a
        → IsNormal base b
        → Gives base
            (malloc (max (length a.digits) (length b.digits) + 1))
            (to_ℤ base a +ℤ to_ℤ base b)
            (z_add base malloc a b)
    unfolding z_add to_ℤ
    z_add-Gives a b ha hb = addsub-Gives a b a.neg b.neg ha hb ha.zero_sign hb.zero_sign

    -- For operands in normal form, z_sub returns the normal form of their difference, in the max +
    -- 1 digits it allocates, if that one allocation succeeds; else it returns the error value.
    pub z_sub-Gives :
        (a b : ZInt)
        → IsNormal base a
        → IsNormal base b
        → Gives base
            (malloc (max (length a.digits) (length b.digits) + 1))
            (to_ℤ base a -ℤ to_ℤ base b)
            (z_sub base malloc a b)
    unfolding z_sub to_ℤ
    z_sub-Gives a b ha hb =
        let (e, sign) = turned (to_ℤ base a) b.neg b.digits in
        rw e (addsub-Gives a b a.neg _ ha hb ha.zero_sign sign)

    -- The one-digit variants, for a digit that is not zero.
    pub z_add_1-Gives :
        (a : ZInt) (b : ℕ)
        → IsNormal base a
        → 0 < b
        → b < base
        → Gives base (malloc (length a.digits + 1)) (to_ℤ base a +ℤ pos b) (z_add_1 base malloc a b)
    unfolding z_add_1 to_ℤ signed
    z_add_1-Gives a b ha hb lt = addsub_1-Gives a b a.neg false ha hb lt

    pub z_sub_1-Gives :
        (a : ZInt) (b : ℕ)
        → IsNormal base a
        → 0 < b
        → b < base
        → Gives base (malloc (length a.digits + 1)) (to_ℤ base a -ℤ pos b) (z_sub_1 base malloc a b)
    unfolding z_sub_1 to_ℤ
    z_sub_1-Gives a b ha hb lt =
        rw (signed_not_pos (signed a.neg (value base a.digits)) b)
          (addsub_1-Gives a b a.neg true ha hb lt)

  ordered-err :
      (a b : ZInt) (s t : Bool)
      → length b.digits ≤ length a.digits
      → (a.err || b.err) ≡ true
      → (a.err ≡ true → length a.digits ≡ 0)
      → (b.err ≡ true → length b.digits ≡ 0)
      → addsub_ordered base malloc a b s t ≡ z_err
  unfolding addsub_ordered
  ordered-err a b s t le e ha hb = elim (Bool-cases (length b.digits == 1)) [
    | inl one ↦ absurd (ground arith)
    | inr many ↦ rw (many, e) (checked-err malloc _ _)
  ]

  -- If an operand carries an error, and those that do have no digits, z_add returns the error
  -- value.
  pub z_add-err :
      (a b : ZInt)
      → (a.err || b.err) ≡ true
      → (a.err ≡ true → length a.digits ≡ 0)
      → (b.err ≡ true → length b.digits ≡ 0)
      → z_add base malloc a b ≡ z_err
  unfolding z_add z_addsub
  z_add-err a b e ha hb = elim (Bool-cases (ltb (length a.digits) (length b.digits))) [
    | inl less ↦ rw less (ordered-err b a b.neg a.neg (ground arith) (ground arith) hb ha)
    | inr more ↦ rw more (ordered-err a b a.neg b.neg (ground arith) e ha hb)
  ]
