-- ===== src/Bigint/Digits/Value.antt =====
-- The number that an array of digits stands for.
use Prim.Native.Nat.add
use Prim.Native.Nat.pow
use native.Mathlib.Nat.{
  zero-add, pow-succ', one-le-pow, mul-le-mul, mul-le-mul_left, lt_of_mul-lt-mul_left, div-add-mod,
  add-mul-div_left, div-eq_of_lt, min-eq_left,
}
use crts.Prelude.{
  ℕ, zero, suc, ◌+◌, ◌-◌, ◌*◌, ◌/◌, ◌%◌, ◌^◌, ◌≤◌, ◌<◌, ◌≡◌, refl, sym, ap, ◌∙◌, List, [], ◌∷◌,
  ◌++◌, arith, length, take, drop, length-take, replicate,
}
use crts.Bigint.Digits.{value, IsDigits}

module _ (base : ℕ) where
  pub pow-add : (n m : ℕ) → base ^ (n + m) ≡ base ^ n * base ^ m
  pow-add zero m = rw zero-add (grind (arith, pow.zero base))
  pow-add (suc n) m =
      rw (add.suc n m, pow-succ' base (n + m), pow-succ' base n)
        (omega (arith, ap (λ (t : ℕ). base * t) (pow-add n m)))

  pub value-append :
      (xs ys : List ℕ) → value base (xs ++ ys) ≡ value base xs + base ^ length xs * value base ys
  value-append [] ys = grind (arith, pow.zero base)
  value-append (x ∷ xs) ys = omega (
    arith,
    ap (λ (t : ℕ). base * t) (value-append xs ys),
    ap (λ (t : ℕ). t * value base ys) (pow-succ' base (length xs)),
  )

  pub value-snoc :
      (xs : List ℕ) (t : ℕ) → value base (xs ++ t ∷ []) ≡ value base xs + base ^ length xs * t
  value-snoc xs t = omega (arith, value-append xs (t ∷ []))

  -- A number of n digits is below base ^ n.
  pub value-lt : (xs : List ℕ) → IsDigits base xs → value base xs < base ^ length xs
  value-lt [] h = grind (arith, pow.zero base)
  value-lt (x ∷ xs) h =
      let le : base * (value base xs + 1) ≤ base * base ^ length xs =
        grind (arith, value-lt xs h.1) in
      omega (arith, pow-succ' base (length xs))

  pub IsDigits-append :
      (xs ys : List ℕ) → IsDigits base xs → IsDigits base ys → IsDigits base (xs ++ ys)
  IsDigits-append [] ys h k = k
  IsDigits-append (x ∷ xs) ys h k = (h.0, IsDigits-append xs ys h.1 k)

  pub IsDigits-left : (xs ys : List ℕ) → IsDigits base (xs ++ ys) → IsDigits base xs
  IsDigits-left [] ys h = tt
  IsDigits-left (x ∷ xs) ys h = (h.0, IsDigits-left xs ys h.1)

  pub IsDigits-take : (n : ℕ) (xs : List ℕ) → IsDigits base xs → IsDigits base (take n xs)
  IsDigits-take zero xs h = tt
  IsDigits-take (suc n) [] h = tt
  IsDigits-take (suc n) (x ∷ xs) h = (h.0, IsDigits-take n xs h.1)

  pub IsDigits-drop : (n : ℕ) (xs : List ℕ) → IsDigits base xs → IsDigits base (drop n xs)
  IsDigits-drop zero xs h = h
  IsDigits-drop (suc n) [] h = tt
  IsDigits-drop (suc n) (x ∷ xs) h = IsDigits-drop n xs h.1

  pub value-take-drop :
      (n : ℕ) (xs : List ℕ)
      → n ≤ length xs
      → value base xs ≡ value base (take n xs) + base ^ n * value base (drop n xs)
  value-take-drop zero xs h = grind (arith, pow.zero base)
  value-take-drop (suc n) [] h = absurd (omega arith)
  value-take-drop (suc n) (x ∷ xs) h = omega (
    arith,
    ap (λ (t : ℕ). base * t) (value-take-drop n xs (omega arith)),
    ap (λ (t : ℕ). t * value base (drop n xs)) (pow-succ' base n),
  )

  -- The carry of a product of digits with two digits added is a digit.
  pub product_le : (x b : ℕ) → x < base → b < base → x * b + (base + base) ≤ base * base + 1
  product_le x b hx hb =
      let le : x * b ≤ (base - 1) * (base - 1) = mul-le-mul (omega arith) (omega arith) in
      grind arith

  pub carry_lt :
      (x b y c s k : ℕ)
      → x < base
      → b < base
      → y < base
      → c < base
      → s + base * k ≡ x * b + y + c
      → k < base
  carry_lt x b y c s k hx hb hy hc e =
      lt_of_mul-lt-mul_left base (omega (arith, product_le x b hx hb))

  pub borrow_lt :
      (x b y c s k : ℕ)
      → x < base
      → b < base
      → s < base
      → c < base
      → s + x * b + c ≡ y + base * k
      → k < base
  borrow_lt x b y c s k hx hb hs hc e =
      lt_of_mul-lt-mul_left base (omega (arith, product_le x b hx hb))

  pub value-zeros :
      (n : ℕ) (xs : List ℕ) → value base (replicate n 0 ++ xs) ≡ base ^ n * value base xs
  value-zeros zero xs = grind (arith, pow.zero base)
  value-zeros (suc n) xs = omega (
    arith,
    ap (λ (t : ℕ). base * t) (value-zeros n xs),
    ap (λ (t : ℕ). t * value base xs) (pow-succ' base n),
  )

  pub IsDigits-zeros :
      (n : ℕ) (xs : List ℕ) → 0 < base → IsDigits base xs → IsDigits base (replicate n 0 ++ xs)
  IsDigits-zeros zero xs pos h = h
  IsDigits-zeros (suc n) xs pos h = (pos, IsDigits-zeros n xs pos h)

pub pow-mul : (b m n : ℕ) → b ^ (m * n) ≡ (b ^ m) ^ n
pow-mul b m zero = let none : m * 0 ≡ 0 = omega arith in rw (none, pow.zero b, pow.zero (b ^ m))
pow-mul b m (suc n) =
    let step : m * suc n ≡ m + m * n = omega arith in
    rw (step, pow-add b m (m * n), pow-succ' (b ^ m) n) (ap (λ (t : ℕ). b ^ m * t) (pow-mul b m n))

pub pow-le-pow : (b m n : ℕ) → 0 < b → m ≤ n → b ^ m ≤ b ^ n
pow-le-pow b m n pos h =
    let e : b ^ n ≡ b ^ m * b ^ (n - m) = ap (◌^◌ b) (omega arith) ∙ pow-add b m (n - m) in
    let le : b ^ m * 1 ≤ b ^ m * b ^ (n - m) = mul-le-mul_left (b ^ m) (one-le-pow (n - m) b pos) in
    omega arith

-- What stands above a place that is not reached is zero.
pub zero_of_lt : (p t : ℕ) → p * t < p → t ≡ 0
zero_of_lt p zero h = refl
zero_of_lt p (suc t) h = absurd (omega arith)

-- Cutting off low digits divides.
pub value-drop :
    (base n : ℕ) (xs : List ℕ)
    → 0 < base
    → IsDigits base xs
    → n ≤ length xs
    → value base (drop n xs) ≡ value base xs / base ^ n
value-drop base n xs pos h le =
    let same_n : length (take n xs) ≡ n = length-take n xs ∙ min-eq_left le in
    let below : value base (take n xs) < base ^ n = omega (
      arith,
      value-lt base (take n xs) (IsDigits-take base n xs h),
      ap (λ (k : ℕ). base ^ k) same_n,
    ) in
    sym (
      ap (λ (v : ℕ). v / base ^ n) (value-take-drop base n xs le)
      ∙ add-mul-div_left (value base (take n xs)) (value base (drop n xs)) (one-le-pow n base pos)
      ∙ ap (λ (v : ℕ). v + value base (drop n xs)) (div-eq_of_lt below)
      ∙ zero-add _)

-- A shift by whole digits and by bits within a digit.
pub pow_split : (bits b : ℕ) → (2 ^ bits) ^ (b / bits) * 2 ^ (b % bits) ≡ 2 ^ b
pow_split bits b =
    rw (← pow-mul 2 bits (b / bits), ← pow-add 2 (bits * (b / bits)) (b % bits), div-add-mod b bits)
