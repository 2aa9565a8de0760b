-- ===== src/Bigint/Integer/Normal.antt =====
-- Trimming and growing keep the number and reach the normal form.
use Prim.Native.Nat.pow
use native.Mathlib.Nat.{pow-succ', mul-le-mul_left, one-le-pow, le_trans, lt_of_mul-lt-mul_left}
use crts.Prelude.{
  ℕ, suc, ◌+◌, ◌-◌, ◌*◌, ◌^◌, ◌≤◌, ◌<◌, ◌≡◌, refl, sym, ap, ◌∙◌, Bool, true, false, List, [], ◌∷◌,
  ◌++◌, arith, length, ◌==◌, if◌then◌else◌, Bool-cases, inl, inr, length-append,
}
use crts.Prelude.Int.{ℤ, signed, signed_zero}
use crts.Bigint.Digits.{value, IsDigits}
use crts.Bigint.Digits.Value.{pow-add, value-lt, value-snoc, IsDigits-append}
use crts.Bigint.Integer.{IsTrimmed, trim, trim_onto, z_trim, z_trim_1, z_grow, is_empty}

-- Digits ready for a result: they fit, and there is no zero at the top.
abbrev pub IsTidy : ℕ → List ℕ → Type 0
IsTidy base xs = IsDigits base xs × IsTrimmed xs

-- `(neg, digits)` is the normal form of `v`, in no more than `n` digits.
abbrev pub Stands : ℕ → ℤ → ℕ → Bool × List ℕ → Type 0
Stands base v n r =
    IsTidy base r.1
    × (r.1 ≡ [] → r.0 ≡ false)
    × (signed r.0 (value base r.1) ≡ v)
    × (length r.1 ≤ n)

pub IsTrimmed-snoc : (xs : List ℕ) (c : ℕ) → 0 < c → IsTrimmed (xs ++ c ∷ [])
IsTrimmed-snoc [] c h = h
IsTrimmed-snoc (x ∷ []) c h = h
IsTrimmed-snoc (x ∷ y ∷ xs) c h = IsTrimmed-snoc (y ∷ xs) c h

pub empty-value : (base : ℕ) (b : List ℕ) → is_empty b ≡ true → value base b ≡ 0
unfolding is_empty
empty-value base [] e = refl
empty-value base (y ∷ b) e = cc

pub not_empty-length : (b : List ℕ) → is_empty b ≡ false → 0 < length b
unfolding is_empty
not_empty-length [] e = cc
not_empty-length (y ∷ b) e = omega arith

module _ (base : ℕ) where
  -- A trimmed number needs all of its digits.
  pub le-value :
      (x : ℕ) (xs : List ℕ) → 0 < base → IsTrimmed (x ∷ xs) → base ^ length xs ≤ value base (x ∷ xs)
  le-value x [] pos h = omega (arith, pow.zero base)
  le-value x (y ∷ xs) pos h =
      let le : base * base ^ length xs ≤ base * value base (y ∷ xs) =
        mul-le-mul_left base (le-value y xs pos h) in
      omega (arith, pow-succ' base (length xs))

  pub value-pos : (x : ℕ) (xs : List ℕ) → 0 < base → IsTrimmed (x ∷ xs) → 0 < value base (x ∷ xs)
  value-pos x xs pos h = le_trans (one-le-pow (length xs) base pos) (le-value x xs pos h)

  pub not_empty : (xs : List ℕ) {s : Bool} → 0 < value base xs → xs ≡ [] → s ≡ false
  not_empty xs pos e = absurd (omega (arith, ap (value base) e))

  trim_onto_lem :
      (x : ℕ) (xs : List ℕ)
      → x < base
      → IsTidy base xs
      → IsTidy base (trim_onto x xs)
        × (value base (trim_onto x xs) ≡ x + base * value base xs)
        × (length (trim_onto x xs) ≤ suc (length xs))
  trim_onto_lem x [] hx h = elim (Bool-cases (x == 0)) [
    | inl e ↦ rw e ((tt, tt), ground arith, omega arith)
    | inr ne ↦ rw ne (((hx, tt), ground arith), omega arith, omega arith)
  ]
  trim_onto_lem x (y ∷ xs) hx h = (((hx, h.0), h.1), refl, omega arith)

  pub trim_lem :
      (xs : List ℕ)
      → IsDigits base xs
      → IsTidy base (trim xs)
        × (value base (trim xs) ≡ value base xs)
        × (length (trim xs) ≤ length xs)
  unfolding trim
  trim_lem [] h = ((tt, tt), refl, omega arith)
  trim_lem (x ∷ xs) h =
      let (tidy, e, le) = trim_lem xs h.1 in
      let (tidy', e', le') = trim_onto_lem x (trim xs) h.0 tidy in
      (tidy', omega (arith, ap (λ (t : ℕ). base * t) e), omega arith)

  pub z_grow_lem :
      (xs : List ℕ) (c : ℕ)
      → IsDigits base xs
      → c < base
      → (c ≡ 0 → IsTrimmed xs)
      → IsTidy base (z_grow xs c)
        × (value base (z_grow xs c) ≡ value base xs + base ^ length xs * c)
        × (length (z_grow xs c) ≤ length xs + 1)
  unfolding z_grow
  z_grow_lem xs c h hc top = elim (Bool-cases (c == 0)) [
    | inl e ↦
        let z : c ≡ 0 = ground arith in
        rw e ((h, top z), omega (arith, ap (λ (t : ℕ). base ^ length xs * t) z), omega arith)
    | inr ne ↦
        let z : 0 < c = ground arith in
        rw ne (
          (IsDigits-append base xs (c ∷ []) h (hc, tt), IsTrimmed-snoc xs c z),
          value-snoc base xs c,
          omega (arith, length-append xs (c ∷ [])),
        )
  ]

  -- A number that needs its digits is trimmed.
  pub IsTrimmed-of_le :
      (x : ℕ) (xs : List ℕ)
      → IsDigits base (x ∷ xs)
      → base ^ length xs ≤ value base (x ∷ xs)
      → IsTrimmed (x ∷ xs)
  IsTrimmed-of_le x [] h le = omega (arith, pow.zero base)
  IsTrimmed-of_le x (y ∷ xs) h le =
      let lt : base * base ^ length xs < base * (value base (y ∷ xs) + 1) =
        omega (arith, pow-succ' base (length xs)) in
      let lt' : base ^ length xs < value base (y ∷ xs) + 1 = lt_of_mul-lt-mul_left base lt in
      IsTrimmed-of_le y xs h.1 (omega arith)

  -- If a zero at the top leaves a trimmed number, `z_trim_1` reaches it.
  pub z_trim_1_lem :
      (f : List ℕ) (t : ℕ)
      → IsDigits base (f ++ t ∷ [])
      → (t ≡ 0 → IsTrimmed f)
      → IsTidy base (z_trim_1 (f ++ t ∷ []))
        × (value base (z_trim_1 (f ++ t ∷ [])) ≡ value base (f ++ t ∷ []))
        × (length (z_trim_1 (f ++ t ∷ [])) ≤ length f + 1)
  unfolding z_trim_1
  z_trim_1_lem [] t h top = elim (Bool-cases (t == 0)) [
    | inl e ↦ rw e ((tt, tt), ground arith, omega arith)
    | inr ne ↦ rw ne ((h, ground arith), refl, omega arith)
  ]
  z_trim_1_lem (x ∷ []) t h top = elim (Bool-cases (t == 0)) [
    | inl e ↦ rw e (((h.0, tt), top (ground arith)), ground arith, omega arith)
    | inr ne ↦ rw ne ((h, ground arith), refl, omega arith)
  ]
  z_trim_1_lem (x ∷ y ∷ []) t h top =
      let ((d, tr), e, le) = z_trim_1_lem (y ∷ []) t h.1 top in
      (((h.0, d), tr), ap (λ (k : ℕ). x + base * k) e, omega arith)
  z_trim_1_lem (x ∷ y ∷ z ∷ f) t h top =
      let ((d, tr), e, le) = z_trim_1_lem (y ∷ z ∷ f) t h.1 top in
      (((h.0, d), tr), ap (λ (k : ℕ). x + base * k) e, omega arith)

  pub signed_if_empty :
      (neg : Bool) (xs : List ℕ)
      → (xs ≡ [] → (if is_empty xs then false else neg) ≡ false)
        × (signed (if is_empty xs then false else neg) (value base xs) ≡ signed neg (value base xs))
  unfolding is_empty
  signed_if_empty neg [] = (λ e. refl, signed_zero false ∙ sym (signed_zero neg))
  signed_if_empty neg (x ∷ xs) = (λ e. cc, refl)

  -- Trimming keeps the integer and leaves no negative zero.
  pub z_trim_lem :
      (neg : Bool) (xs : List ℕ)
      → IsDigits base xs
      → IsTidy base (z_trim neg xs).1
        × ((z_trim neg xs).1 ≡ [] → (z_trim neg xs).0 ≡ false)
        × (signed (z_trim neg xs).0 (value base (z_trim neg xs).1) ≡ signed neg (value base xs))
        × (length (z_trim neg xs).1 ≤ length xs)
  unfolding z_trim
  z_trim_lem neg xs h =
      let (tidy, e, le) = trim_lem xs h in
      let (sign, kept) = signed_if_empty neg (trim xs) in (tidy, sign, kept ∙ ap (signed neg) e, le)

  -- Of two trimmed numbers the one with more digits is the larger.
  pub shorter-lt :
      (a b : List ℕ)
      → 1 < base
      → IsTrimmed a
      → IsDigits base b
      → length b < length a
      → value base b < value base a
  shorter-lt [] b big tr hb h = elim h [ ]
  shorter-lt (x ∷ a) b big tr hb h =
      let n : length a ≡ length b + (length a - length b) = omega arith in
      let split : base ^ length a ≡ base ^ length b * base ^ (length a - length b) =
        ap (◌^◌ base) n ∙ pow-add base (length b) (length a - length b) in
      let one : base ^ length b * 1 ≤ base ^ length b * base ^ (length a - length b) =
        mul-le-mul_left (base ^ length b) (one-le-pow (length a - length b) base (omega arith)) in
      omega (arith, le-value x a (omega arith) tr, value-lt base b hb)
