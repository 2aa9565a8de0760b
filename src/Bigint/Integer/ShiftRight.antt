-- ===== src/Bigint/Integer/ShiftRight.antt =====
-- z_shr divides the magnitude by 2 ^ b; the quotient is rounded towards zero.
use Prim.Native.Nat.pow
use native.Mathlib.Nat.{
  one-le-pow, div-div-eq-div-mul, mul-le-mul_right, mod-lt, add-mul-div_left, div-eq_of_lt,
  zero-add, pow-succ', lt_of_mul-lt-mul_left, le_trans, lt_of_lt_of_le,
}
use crts.Prelude.{
  ℕ, suc, zero, ◌+◌, ◌-◌, ◌*◌, ◌/◌, ◌%◌, ◌^◌, ◌≤◌, ◌<◌, ◌≡◌, refl, sym, ap, subst, ◌∙◌, Bool, true,
  false, ◌||◌, List, [], ◌∷◌, ◌++◌, arith, length, drop, ◌==◌, leb, if◌then◌else◌, Bool-cases, inl,
  inr, length-append, length-drop,
}
use crts.Prelude.Int.{signed}
use crts.Bigint.Digits.{value, IsDigits, zd_shr}
use crts.Bigint.Digits.Shift.{shr_lem}
use crts.Bigint.Digits.Value.{
  value-lt, value-snoc, IsDigits-drop, IsDigits-left, value-drop, pow_split, pow-le-pow,
}
use crts.Bigint.Integer.{
  ZInt, IsNormal, IsTrimmed, is_empty, z_new_checked, z_trim_1, shr_digits, z_shr,
}
use crts.Bigint.Integer.Normal.{IsTidy, le-value, value-pos, IsTrimmed-of_le, z_trim_1_lem}
use crts.Bigint.Integer.Gives.{Gives, new_ok-pos, checked-Gives, zero-Gives, tidy}

IsTrimmed-drop : (n : ℕ) (xs : List ℕ) → IsTrimmed xs → IsTrimmed (drop n xs)
IsTrimmed-drop zero xs h = h
IsTrimmed-drop (suc n) [] h = tt
IsTrimmed-drop (suc zero) (x ∷ []) h = tt
IsTrimmed-drop (suc (suc n)) (x ∷ []) h = tt
IsTrimmed-drop (suc n) (x ∷ y ∷ xs) h = IsTrimmed-drop n (y ∷ xs) h

-- A list with an element has a last one.
last_split : (x : ℕ) (xs : List ℕ) → (f : List ℕ) × (t : ℕ) × (x ∷ xs ≡ f ++ t ∷ [])
last_split x [] = ([], x, refl)
last_split x (y ∷ xs) = let (f, t, e) = last_split y xs in (x ∷ f, t, ap (◌∷◌ x) e)

or_true : (b : Bool) → (b || true) ≡ true
or_true true = refl
or_true false = refl

filled : (a : List ℕ) → 0 < length a → is_empty a ≡ false
unfolding is_empty
filled [] h = elim h [ ]
filled (x ∷ a) h = refl

zero-empty : (base : ℕ) (d : List ℕ) → 0 < base → IsTrimmed d → value base d ≡ 0 → d ≡ []
zero-empty base [] some t e = refl
zero-empty base (x ∷ d) some t e = absurd (omega (arith, e, value-pos base x d some t))

le-mul_one : (m k : ℕ) → 0 < k → m ≤ m * k
le-mul_one m k h = grind arith

module _ (bits : ℕ) (some_bits : 0 < bits) where
  -- After a shift by less than a digit at most the top digit is zero.
  shr_top :
      (x : ℕ) (a f : List ℕ) (t s : ℕ)
      → s < bits
      → IsTrimmed (x ∷ a)
      → IsDigits (2 ^ bits) (f ++ t ∷ [])
      → length (f ++ t ∷ []) ≡ length (x ∷ a)
      → (low : ℕ) → low < 2 ^ s
      → value (2 ^ bits) (x ∷ a) ≡ 2 ^ s * value (2 ^ bits) (f ++ t ∷ []) + low
      → t ≡ 0
      → IsTrimmed f
  shr_top x a [] t s lt ta d n low hl e zero_t = tt
  shr_top x a (z ∷ f) t s lt ta d n low hl e zero_t =
      let base = 2 ^ bits in
      let v = value base (z ∷ f) in
      let flat : value base (z ∷ f ++ t ∷ []) ≡ v =
        omega
          (arith, value-snoc base (z ∷ f) t, ap (λ (k : ℕ). base ^ length (z ∷ f) * k) zero_t) in
      let m : length a ≡ suc (length f) = omega (arith, n, length-append (z ∷ f) (t ∷ [])) in
      let need : base ^ length a ≤ 2 ^ s * v + low =
        omega
          (arith, le-value base x a (one-le-pow bits 2 (omega arith)) ta, ap (◌*◌ (2 ^ s)) flat) in
      let word : 2 ^ s * base ^ length f ≤ base * base ^ length f =
        mul-le-mul_right (base ^ length f) (pow-le-pow 2 s bits (omega arith) (omega arith)) in
      let room : 2 ^ s * base ^ length f < 2 ^ s * (v + 1) =
        omega (arith, pow-succ' base (length f), ap (λ (k : ℕ). base ^ k) m) in
      let lt' : base ^ length f < v + 1 = lt_of_mul-lt-mul_left (2 ^ s) room in
      IsTrimmed-of_le base z f (IsDigits-left base (z ∷ f) (t ∷ []) d) (omega arith)

  quotient : (p q v low : ℕ) → low < p → v ≡ p * q + low → q ≡ v / p
  quotient p q v low hl e = rw e (
      sym (
        ap (λ (k : ℕ). k / p) (omega arith)
        ∙ add-mul-div_left low q (omega arith)
        ∙ ap (λ (k : ℕ). k + q) (div-eq_of_lt hl)
        ∙ zero-add q))

  shr_cut :
      (x : ℕ) (a r : List ℕ) (s low : ℕ)
      → s < bits
      → IsTrimmed (x ∷ a)
      → IsDigits (2 ^ bits) r
      → length r ≡ length (x ∷ a)
      → low < 2 ^ s
      → value (2 ^ bits) (x ∷ a) ≡ 2 ^ s * value (2 ^ bits) r + low
      → IsTidy (2 ^ bits) (z_trim_1 r)
        × (value (2 ^ bits) (z_trim_1 r) ≡ value (2 ^ bits) (x ∷ a) / 2 ^ s)
        × (length (z_trim_1 r) ≤ length (x ∷ a))
  shr_cut x a [] s low lt t dr n hl e = absurd (omega arith)
  shr_cut x a (y ∷ r) s low lt t dr n hl e =
      let (f, z, split) = last_split y r in
      let d' : IsDigits (2 ^ bits) (f ++ z ∷ []) = subst (IsDigits (2 ^ bits)) split dr in
      let n' : length (f ++ z ∷ []) ≡ length (x ∷ a) = ap length (sym split) ∙ n in
      let e' : value (2 ^ bits) (x ∷ a) ≡ 2 ^ s * value (2 ^ bits) (f ++ z ∷ []) + low =
        e ∙ ap (λ d. 2 ^ s * value (2 ^ bits) d + low) split in
      let (td, v, le) = z_trim_1_lem (2 ^ bits) f z d' (shr_top x a f z s lt t d' n' low hl e') in
      subst
        (λ d.
          IsTidy (2 ^ bits) (z_trim_1 d)
          × (value (2 ^ bits) (z_trim_1 d) ≡ value (2 ^ bits) (x ∷ a) / 2 ^ s)
          × (length (z_trim_1 d) ≤ length (x ∷ a)))
        (sym split) (td, v ∙ quotient _ _ _ low hl e', omega (arith, n', length-append f (z ∷ [])))

  -- The bits within a digit.
  shr_within :
      (a : List ℕ) (s : ℕ)
      → s < bits
      → IsTidy (2 ^ bits) a
      → 0 < length a
      → let r = (if s == 0 then a else z_trim_1 (zd_shr bits a s).0) in
        IsTidy (2 ^ bits) r
        × (value (2 ^ bits) r ≡ value (2 ^ bits) a / 2 ^ s)
        × (length r ≤ length a)
  shr_within [] s lt h some = absurd (omega arith)
  shr_within (x ∷ a) s lt (d, t) some = elim (Bool-cases (s == 0)) [
    | inl e ↦
        let zero_s : s ≡ 0 = ground arith in
        rw (e, zero_s) ((d, t), omega (arith, pow.zero 2), omega arith)
    | inr ne ↦
        let (low, e, hl, c, (dr, n)) = shr_lem bits s (omega arith) (x ∷ a) d in
        rw ne (shr_cut x a (zd_shr bits (x ∷ a) s).0 s low lt t dr n hl e)
  ]

  -- Whole digits are cut off first. The magnitude is divided by 2 ^ b, for either sign.
  pub shr_digits_lem :
      (a : List ℕ) (b : ℕ)
      → IsTidy (2 ^ bits) a
      → b / bits < length a
      → IsTidy (2 ^ bits) (shr_digits bits a b)
        × (value (2 ^ bits) (shr_digits bits a b) ≡ value (2 ^ bits) a / 2 ^ b)
        × (length (shr_digits bits a b) ≤ length a - b / bits)
  unfolding shr_digits
  shr_digits_lem a b (d, t) lt =
      let n = b / bits in
      let (td, v, le) =
        shr_within (drop n a) (b % bits) (mod-lt b some_bits)
          (IsDigits-drop (2 ^ bits) n a d, IsTrimmed-drop n a t) (omega (arith, length-drop n a)) in
      (
        td,
        v
            ∙ ap (λ (k : ℕ). k / 2 ^ (b % bits))
                (value-drop (2 ^ bits) n a (one-le-pow bits 2 (omega arith)) d (omega arith))
            ∙ div-div-eq-div-mul (value (2 ^ bits) a) ((2 ^ bits) ^ n) (2 ^ (b % bits))
            ∙ ap (λ (k : ℕ). value (2 ^ bits) a / k) (pow_split bits b),
        omega (arith, length-drop n a),
      )

  nothing_left :
      (a : List ℕ) (b : ℕ)
      → IsDigits (2 ^ bits) a
      → length a ≤ b / bits
      → value (2 ^ bits) a / 2 ^ b ≡ 0
  nothing_left a b d le = div-eq_of_lt (
      lt_of_lt_of_le (value-lt (2 ^ bits) a d) (
        le_trans (pow-le-pow (2 ^ bits) (length a) (b / bits) (one-le-pow bits 2 (omega arith)) le)
          (rw (← pow_split bits b) (
            le-mul_one ((2 ^ bits) ^ (b / bits)) (2 ^ (b % bits))
              (one-le-pow (b % bits) 2 (omega arith))))))

  -- For an operand in normal form that is not negative, z_shr returns the normal form of its
  -- quotient by 2 ^ b, rounded down, if its one allocation succeeds (none is needed when no digit
  -- is left); else it returns the error value.
  pub z_shr-Gives :
      (malloc : ℕ → Bool) (a : ZInt) (b : ℕ)
      → IsNormal (2 ^ bits) a
      → a.neg ≡ false
      → Gives
          (2 ^ bits)
          (if leb (length a.digits) (b / bits) then true else malloc (length a.digits - b / bits))
          (signed false (value (2 ^ bits) a.digits / 2 ^ b))
          (z_shr bits malloc a b)
  unfolding z_shr
  z_shr-Gives malloc a b h nonneg = elim (Bool-cases (leb (length a.digits) (b / bits))) [
    | inl all ↦
        rw (all, nonneg, or_true (is_empty a.digits))
          (subst (λ v. Gives (2 ^ bits) true v (z_new_checked malloc a.err 0 (false, [])))
            (ap (signed false) (sym (nothing_left a.digits b h.digits_fit (ground arith))))
            (zero-Gives (2 ^ bits) malloc false a.err h.no_error))
    | inr some ↦
        let lt : b / bits < length a.digits = ground arith in
        let (td, v, le) = shr_digits_lem a.digits b (tidy (2 ^ bits) h) lt in
        rw (some, filled a.digits (omega arith), nonneg, h.no_error)
          (checked-Gives (2 ^ bits) malloc _ _ _ _ (omega arith) refl
            (td, (λ e. refl), ap (signed false) v, le))
  ]

  -- For an operand in normal form of which digits are left, and an allocation that succeeds, z_shr
  -- keeps the sign and divides the magnitude by 2 ^ b, rounding it down; the top digit is not
  -- zero. So a negative integer is rounded towards zero.
  pub z_shr-truncates :
      (malloc : ℕ → Bool) (a : ZInt) (b : ℕ)
      → IsNormal (2 ^ bits) a
      → b / bits < length a.digits
      → malloc (length a.digits - b / bits) ≡ true
      → (value (2 ^ bits) (z_shr bits malloc a b).digits ≡ value (2 ^ bits) a.digits / 2 ^ b)
        × ((z_shr bits malloc a b).neg ≡ a.neg)
        × IsTidy (2 ^ bits) (z_shr bits malloc a b).digits
  unfolding z_shr z_new_checked
  z_shr-truncates malloc a b h lt ok =
      let (td, v, le) = shr_digits_lem a.digits b (tidy (2 ^ bits) h) lt in
      let some : leb (length a.digits) (b / bits) ≡ false = ground arith in
      rw
        (
          some,
          filled a.digits (omega arith),
          h.no_error,
          new_ok-pos (2 ^ bits) malloc (length a.digits - b / bits) true (omega arith) ok,
        )
        (v, refl, td)

  -- For a negative operand in normal form whose magnitude is below 2 ^ b, but of which digits are
  -- left, and an allocation that succeeds, z_shr returns a zero with a minus sign, which is not in
  -- normal form.
  pub z_shr-negative_zero :
      (malloc : ℕ → Bool) (a : ZInt) (b : ℕ)
      → IsNormal (2 ^ bits) a
      → b / bits < length a.digits
      → malloc (length a.digits - b / bits) ≡ true
      → a.neg ≡ true
      → value (2 ^ bits) a.digits < 2 ^ b
      → ((z_shr bits malloc a b).digits ≡ []) × ¬ (IsNormal (2 ^ bits) (z_shr bits malloc a b))
  z_shr-negative_zero malloc a b h lt ok minus small =
      let (v, sign, td) = z_shr-truncates malloc a b h lt ok in
      let none : (z_shr bits malloc a b).digits ≡ [] =
        zero-empty (2 ^ bits) _ (one-le-pow bits 2 (omega arith)) td.1 (v ∙ div-eq_of_lt small) in
      (none, λ normal. cc (normal.zero_sign none, sign, minus))
