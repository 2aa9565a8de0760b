-- ===== src/Bigint/Integer/Times.antt =====
-- z_mul, z_neg, z_abs and z_not as wholes.
use native.Mathlib.Nat.{add_comm, mul-pos}
use crts.Prelude.{
  ℕ, ◌+◌, ◌*◌, ◌≤◌, ◌<◌, ◌≡◌, refl, sym, ap, subst, ◌∙◌, Bool, true, false, not, ◌&&◌, ◌||◌, List,
  [], ◌∷◌, arith, length, ltb, differs, Bool-cases, inl, inr,
}
use crts.Prelude.Int.{
  pos, signed, signed_mul, signed_negate, signed_zero_negate, *ℤ_comm, ◌*ℤ◌, ◌-ℤ◌,
}
use crts.Bigint.Digits.{value}
use crts.Bigint.Integer.{
  ZInt, IsNormal, to_ℤ, is_empty, mul_digits, mul_ordered, z_new_checked, z_mul, z_neg, z_not,
  z_sub_1,
}
use crts.Bigint.Integer.Normal.{IsTidy, Stands, value-pos, not_empty, empty-value}
use crts.Bigint.Integer.Gives.{Gives, checked-Gives, zero-Gives, tidy}
use crts.Bigint.Integer.Product.{mul_digits-IsProduct}
use crts.Bigint.Integer.Sum.{z_sub_1-Gives}

-- Whether `z_mul` gets its memory; a product by zero needs none.
abbrev pub product_ok : (ℕ → Bool) → List ℕ → List ℕ → Bool
product_ok malloc [] b = true
product_ok malloc (x ∷ a) [] = true
product_ok malloc (x ∷ a) (y ∷ b) = malloc (length (x ∷ a) + length (y ∷ b))

product_ok_comm : (malloc : ℕ → Bool) (a b : List ℕ) → product_ok malloc a b ≡ product_ok malloc b a
product_ok_comm malloc [] [] = refl
product_ok_comm malloc [] (y ∷ b) = refl
product_ok_comm malloc (x ∷ a) [] = refl
product_ok_comm malloc (x ∷ a) (y ∷ b) = ap malloc (add_comm (length (x ∷ a)) (length (y ∷ b)))

product_ok-zero :
    (malloc : ℕ → Bool) (a b : List ℕ) → is_empty b ≡ true → product_ok malloc a b ≡ true
unfolding is_empty
product_ok-zero malloc [] b e = refl
product_ok-zero malloc (x ∷ a) [] e = refl
product_ok-zero malloc (x ∷ a) (y ∷ b) e = cc

product_ok-pos :
    (malloc : ℕ → Bool) (a b : List ℕ)
    → is_empty b ≡ false
    → length b ≤ length a
    → (0 < length a) × (0 < length b) × (product_ok malloc a b ≡ malloc (length a + length b))
unfolding is_empty
product_ok-pos malloc a [] e le = cc
product_ok-pos malloc [] (y ∷ b) e le = absurd (omega arith)
product_ok-pos malloc (x ∷ a) (y ∷ b) e le = (omega arith, omega arith, refl)

module _ (base : ℕ) (malloc : ℕ → Bool) (big : 1 < base) where
  mul_digits-Stands :
      (s t identical : Bool) (a b : List ℕ)
      → IsTidy base a
      → IsTidy base b
      → 0 < length a
      → 0 < length b
      → (identical ≡ true → a ≡ b)
      → Stands base
          (signed s (value base a) *ℤ signed t (value base b))
          (length a + length b)
          (differs s t, mul_digits base identical a b)
  mul_digits-Stands s t identical [] b ha hb pa pb same_digits = absurd (omega arith)
  mul_digits-Stands s t identical (x ∷ a) [] ha hb pa pb same_digits = absurd (omega arith)
  mul_digits-Stands s t identical (x ∷ a) (y ∷ b) ha hb pa pb same_digits =
      let (td, v, le) = mul_digits-IsProduct base big identical x y a b ha hb same_digits in
      (
        td,
        not_empty base _ (
            rw v (
              mul-pos (value-pos base x a (omega arith) ha.1)
                (value-pos base y b (omega arith) hb.1))),
        ap (signed (differs s t)) v ∙ signed_mul s t (value base (x ∷ a)) (value base (y ∷ b)),
        le,
      )

  ordered-Gives :
      (shared : Bool) (a b : ZInt)
      → IsNormal base a
      → IsNormal base b
      → length b.digits ≤ length a.digits
      → (shared ≡ true → length a.digits ≡ length b.digits → a.digits ≡ b.digits)
      → Gives base
          (product_ok malloc a.digits b.digits)
          (to_ℤ base a *ℤ to_ℤ base b)
          (mul_ordered base malloc shared a b)
  unfolding mul_ordered to_ℤ
  ordered-Gives shared a b ha hb le alias = elim (Bool-cases (is_empty b.digits)) [
    | inl zero_b ↦
        let s = differs a.neg b.neg in
        let no_product : 0 ≡ value base a.digits * value base b.digits =
          omega (arith, ap (◌*◌ (value base a.digits)) (empty-value base b.digits zero_b)) in
        rw (zero_b, product_ok-zero malloc a.digits b.digits zero_b)
          (subst (λ v. Gives base true v (z_new_checked malloc (a.err || b.err) 0 (false, [])))
            (ap (signed s) no_product
              ∙ signed_mul a.neg b.neg (value base a.digits) (value base b.digits))
            (zero-Gives base malloc s (a.err || b.err) (rw (ha.no_error, hb.no_error))))
    | inr more ↦
        let (pa, pb, e) = product_ok-pos malloc a.digits b.digits more le in
        rw (more, e, ha.no_error, hb.no_error)
          (checked-Gives base malloc _ _ _ _ (omega arith) refl (
            mul_digits-Stands a.neg b.neg _ a.digits b.digits (tidy base ha) (tidy base hb) pa pb
              (λ i. alias (ground arith) (ground arith))))
  ]

  -- For operands in normal form, which may be one integer or share their digits, z_mul returns the
  -- normal form of their product if its allocation succeeds (none is needed when an operand is
  -- zero); else it returns the error value.
  pub z_mul-Gives :
      (shared : Bool) (a b : ZInt)
      → IsNormal base a
      → IsNormal base b
      → (shared ≡ true → length a.digits ≡ length b.digits → a.digits ≡ b.digits)
      → Gives base
          (product_ok malloc a.digits b.digits)
          (to_ℤ base a *ℤ to_ℤ base b)
          (z_mul base malloc shared a b)
  unfolding z_mul
  z_mul-Gives shared a b ha hb alias = elim (Bool-cases (ltb (length a.digits) (length b.digits))) [
    | inl less ↦
        rw (less, product_ok_comm malloc a.digits b.digits, *ℤ_comm (to_ℤ base a) (to_ℤ base b))
          (ordered-Gives shared b a hb ha (ground arith) (λ s n. sym (alias s (sym n))))
    | inr more ↦ rw more (ordered-Gives shared a b ha hb (ground arith) alias)
  ]

  neg_sign :
      (s : Bool) (d : List ℕ)
      → (d ≡ [] → (not s && not (is_empty d)) ≡ false)
        × (signed (not s && not (is_empty d)) (value base d) ≡ pos 0 -ℤ signed s (value base d))
  unfolding is_empty
  neg_sign true [] = (λ e. refl, signed_zero_negate false true)
  neg_sign false [] = (λ e. refl, signed_zero_negate false false)
  neg_sign true (x ∷ d) = (λ e. refl, signed_negate true (value base (x ∷ d)))
  neg_sign false (x ∷ d) = (λ e. cc, signed_negate false (value base (x ∷ d)))

  -- Negation, in the digits of the operand.
  pub z_neg-value :
      (a : ZInt)
      → IsNormal base a
      → IsNormal base (z_neg a) × (to_ℤ base (z_neg a) ≡ pos 0 -ℤ to_ℤ base a)
  unfolding z_neg to_ℤ
  z_neg-value a h =
      let (sign, v) = neg_sign a.neg a.digits in
      (
        record {
          digits_fit = h.digits_fit;
          trimmed = h.trimmed;
          zero_sign = sign;
          no_error = h.no_error;
        },
        v,
      )

  -- For an operand a in normal form, z_not returns the normal form of -a - 1 if its one allocation
  -- succeeds; else it returns the error value.
  pub z_not-Gives :
      (a : ZInt)
      → IsNormal base a
      → Gives base
          (malloc (length a.digits + 1))
          (pos 0 -ℤ to_ℤ base a -ℤ pos 1)
          (z_not base malloc a)
  unfolding z_not
  z_not-Gives a h =
      let (normal, v) = z_neg-value a h in
      let kept : (z_neg a).digits ≡ a.digits = unfold z_neg in refl in
      let r = z_sub_1 base malloc (z_neg a) 1 in
      subst (λ w. Gives base (malloc (length a.digits + 1)) (w -ℤ pos 1) r) v
        (subst (λ d. Gives base (malloc (length d + 1)) (to_ℤ base (z_neg a) -ℤ pos 1) r) kept
          (z_sub_1-Gives base malloc big (z_neg a) 1 normal (omega arith) big))
