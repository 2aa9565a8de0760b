-- ===== src/Bigint/Integer/Product.antt =====
-- z_mul computes the product.
use native.Mathlib.Nat.{mul-le-mul}
use crts.Prelude.{
  ℕ, suc, ◌+◌, ◌-◌, ◌*◌, ◌^◌, ◌≤◌, ◌<◌, ◌≡◌, refl, ap, subst, ◌∙◌, Bool, true, false, List, [], ◌∷◌,
  ◌++◌, arith, length, take, ◌==◌, if◌then◌else◌, length-append,
}
use crts.Bigint.Digits.{value, IsDigits, zd_mul_1, zd_mul, zd_sqr}
use crts.Bigint.Digits.Mul.{zd_mul_1_lem, zd_mul_lem}
use crts.Bigint.Digits.Value.{pow-add, value-snoc, IsDigits-append, IsDigits-left}
use crts.Bigint.Integer.{IsTrimmed, z_trim_1, mul_digits}
use crts.Bigint.Integer.Normal.{IsTidy, z_trim_1_lem, le-value, IsTrimmed-of_le}

z_trim_1-snoc : (f : List ℕ) (t : ℕ) → z_trim_1 (f ++ t ∷ []) ≡ (if t == 0 then f else f ++ t ∷ [])
unfolding z_trim_1
z_trim_1-snoc [] t = refl
z_trim_1-snoc (x ∷ []) t = ground arith
z_trim_1-snoc (x ∷ y ∷ f) t = ground (arith, z_trim_1-snoc (y ∷ f) t)

take-snoc : (f : List ℕ) (t : ℕ) → take (length f) (f ++ t ∷ []) ≡ f
take-snoc [] t = refl
take-snoc (x ∷ f) t = ap (◌∷◌ x) (take-snoc f t)

cut_top :
    (r f : List ℕ) (t k : ℕ)
    → r ≡ f ++ t ∷ []
    → k ≡ length f
    → (if t == 0 then take k r else r) ≡ z_trim_1 r
cut_top r f t k split n = rw (split, n, take-snoc f t, z_trim_1-snoc f t)

not_one : (n : ℕ) → (suc (suc n) == 1) ≡ false
not_one n = ground arith

module _ (base : ℕ) (big : 1 < base) where
  -- The product needs all digits but the top one.
  product-top :
      (x y : ℕ) (a b f : List ℕ) (t : ℕ)
      → IsTrimmed (x ∷ a)
      → IsTrimmed (y ∷ b)
      → IsDigits base (f ++ t ∷ [])
      → length (f ++ t ∷ []) ≡ length (x ∷ a) + length (y ∷ b)
      → value base (f ++ t ∷ []) ≡ value base (x ∷ a) * value base (y ∷ b)
      → t ≡ 0
      → IsTrimmed f
  product-top x y a b [] t ta tb d n e zero_t = absurd (omega arith)
  product-top x y a b (z ∷ f) t ta tb d n e zero_t =
      IsTrimmed-of_le base z f (IsDigits-left base (z ∷ f) (t ∷ []) d) (
        omega (
          arith,
          low,
          e,
          value-snoc base (z ∷ f) t,
          ap (λ (k : ℕ). base ^ length (z ∷ f) * k) zero_t,
        ))
    where
      m : length f ≡ length a + length b
      m = omega (arith, n, length-append (z ∷ f) (t ∷ []))

      low : base ^ length f ≤ value base (x ∷ a) * value base (y ∷ b)
      low =
          rw (m, pow-add base (length a) (length b))
            (mul-le-mul (le-value base x a (omega arith) ta) (le-value base y b (omega arith) tb))

  -- Digits of the product, the top one cut off if it is zero.
  abbrev pub IsProduct : List ℕ → List ℕ → List ℕ → Type 0
  IsProduct a b r =
      IsTidy base r
      × (value base r ≡ value base a * value base b)
      × (length r ≤ length a + length b)

  IsProduct-trim :
      (x y : ℕ) (a b r f : List ℕ) (t : ℕ)
      → IsTrimmed (x ∷ a)
      → IsTrimmed (y ∷ b)
      → r ≡ f ++ t ∷ []
      → IsDigits base r
      → length r ≡ length (x ∷ a) + length (y ∷ b)
      → value base r ≡ value base (x ∷ a) * value base (y ∷ b)
      → IsProduct (x ∷ a) (y ∷ b) (z_trim_1 r)
  IsProduct-trim x y a b r f t ta tb split d n e =
      let d' : IsDigits base (f ++ t ∷ []) = rw split at d in
      let n' : length (f ++ t ∷ []) ≡ length (x ∷ a) + length (y ∷ b) = rw split at n in
      let e' : value base (f ++ t ∷ []) ≡ value base (x ∷ a) * value base (y ∷ b) = rw split at e in
      let (tidy, v, le) = z_trim_1_lem base f t d' (product-top x y a b f t ta tb d' n' e') in
      rw split (tidy, v ∙ e', omega (arith, n', length-append f (t ∷ [])))

  -- The schoolbook product, trimmed.
  IsProduct-zd_mul :
      (x y : ℕ) (a b : List ℕ)
      → IsTidy base (x ∷ a)
      → IsTidy base (y ∷ b)
      → IsProduct (x ∷ a) (y ∷ b) (z_trim_1 (zd_mul base (x ∷ a) (y ∷ b)).0)
  IsProduct-zd_mul x y a b (da, ta) (db, tb) =
      let (e, (d, n), (front, split)) = zd_mul_lem base big (x ∷ a) (y ∷ b) da db (omega arith) in
      IsProduct-trim x y a b _ front _ ta tb split d n e

  -- The last branch of `z_mul` drops the digit that `zd_mul` returns as zero.
  zd_mul-cut :
      (a b : List ℕ)
      → IsDigits base a
      → IsDigits base b
      → 0 < length b
      → (if (zd_mul base a b).1 == 0
          then take (length a + length b - 1) (zd_mul base a b).0
          else (zd_mul base a b).0)
        ≡ z_trim_1 (zd_mul base a b).0
  zd_mul-cut a b ha hb pos =
      let (e, (d, n), (front, split)) = zd_mul_lem base big a b ha hb pos in
      cut_top _ front _ _ split
        (omega (arith, ap length split, length-append front ((zd_mul base a b).1 ∷ [])))

  pub mul_digits-IsProduct :
      (identical : Bool) (x y : ℕ) (a b : List ℕ)
      → IsTidy base (x ∷ a)
      → IsTidy base (y ∷ b)
      → (identical ≡ true → x ∷ a ≡ y ∷ b)
      → IsProduct (x ∷ a) (y ∷ b) (mul_digits base identical (x ∷ a) (y ∷ b))
  unfolding mul_digits zd_sqr
  mul_digits-IsProduct true x y a b ha hb same_digits =
      subst (λ d. IsProduct (x ∷ a) d (z_trim_1 (zd_mul base (x ∷ a) (x ∷ a)).0)) (same_digits refl)
        (IsProduct-zd_mul x x a a ha ha)
  mul_digits-IsProduct false x y a [] (da, ta) (db, tb) same_digits =
      let (row, c) = zd_mul_1 base (x ∷ a) y 0 in
      let (e, (d, n), lt) = zd_mul_1_lem base big (x ∷ a) y 0 da db.0 (omega arith) in
      IsProduct-trim x y a [] (row ++ c ∷ []) row c ta tb refl
        (IsDigits-append base row (c ∷ []) d (lt, tt)) (omega (arith, length-append row (c ∷ [])))
        (omega (arith, value-snoc base row c, ap (λ (k : ℕ). base ^ k * c) n))
  mul_digits-IsProduct false x y a (z ∷ b) ha hb same_digits =
      rw (not_one (length b), zd_mul-cut (x ∷ a) (y ∷ z ∷ b) ha.0 hb.0 (omega arith))
        (IsProduct-zd_mul x y a (z ∷ b) ha hb)
