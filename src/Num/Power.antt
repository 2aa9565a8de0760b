-- ===== src/Num/Power.antt =====
-- chiPow is the power, reduced to 64 bits.
use Prim.Native.Nat.pow
use native.Mathlib.Nat.{pow-succ', mod-eq_of_lt, mul-add-mod_self_left, div-add-mod}
use crts.Prelude.{
  ℕ, zero, suc, ◌+◌, ◌*◌, ◌/◌, ◌%◌, ◌^◌, ◌<◌, ◌≡◌, refl, sym, ap, ◌∙◌, false, some, arith, ◌==◌,
  Bool-cases, inl, inr, if◌then◌else◌,
}
use crts.Bigint.Digits.Value.{pow-mul}
use crts.Num.{pow_loop, pow_64}

-- A factor may be reduced first.
mod-factor : (m a b : ℕ) → a % m * b % m ≡ a * b % m
mod-factor m a b =
    let whole : a * b ≡ m * (a / m * b) + a % m * b =
      ap (λ t. t * b) (sym (div-add-mod a m)) ∙ distribute m (a / m) (a % m) b in
    sym (ap (λ t. t % m) whole ∙ mul-add-mod_self_left m (a / m * b) (a % m * b))
  where
    distribute : (m q r b : ℕ) → (m * q + r) * b ≡ m * (q * b) + r * b
    distribute m q r b = omega arith

mod-power : (m a k c : ℕ) → c * (a % m) ^ k % m ≡ c * a ^ k % m
mod-power m a zero c = ap (λ t. c * t % m) (pow.zero (a % m) ∙ sym (pow.zero a))
mod-power m a (suc k) c =
    let r = a % m in
    let one : c * r ^ suc k ≡ c * r * r ^ k =
      ap (λ t. c * t) (pow-succ' r k) ∙ regroup c r (r ^ k) in
    let two : c * r * a ^ k ≡ r * (c * a ^ k) = turn c r (a ^ k) in
    let three : a * (c * a ^ k) ≡ c * a ^ suc k =
      sym (turn c a (a ^ k)) ∙ sym (ap (λ t. c * t) (pow-succ' a k) ∙ regroup c a (a ^ k)) in
    ap (λ t. t % m) one
    ∙ mod-power m a k (c * r)
    ∙ ap (λ t. t % m) two
    ∙ mod-factor m a (c * a ^ k)
    ∙ ap (λ t. t % m) three
  where
    regroup : (c r t : ℕ) → c * (r * t) ≡ c * r * t
    regroup c r t = omega arith

    turn : (c r t : ℕ) → c * r * t ≡ r * (c * t)
    turn c r t = omega arith

square : (a k : ℕ) → (a * a) ^ k ≡ a ^ (2 * k)
square a k =
    let two : a * a ≡ a ^ 2 = omega (
      arith,
      pow-succ' a 1,
      ap (λ (t : ℕ). a * t) (pow-succ' a 0),
      ap (λ (t : ℕ). a * (a * t)) (pow.zero a),
    ) in
    ap (λ t. t ^ k) two ∙ sym (pow-mul a 2 k)

-- A round keeps the product of the result so far and the power that is left.
round :
    (m a b p : ℕ)
    → (if b % 2 == 1 then p * a % m else p) * (a * a % m) ^ (b / 2) % m ≡ p * a ^ b % m
round m a b p =
    let k = b / 2 in
    let p' = if b % 2 == 1 then p * a % m else p in
    let reduced : p' * (a * a % m) ^ k % m ≡ p' * a ^ (2 * k) % m =
      mod-power m (a * a) k p' ∙ ap (λ t. p' * t % m) (square a k) in
    reduced ∙ elim (Bool-cases (b % 2 == 1)) [
      | inl odd ↦
          let exponent : suc (2 * k) ≡ b = ground arith in
          let power : a * a ^ (2 * k) ≡ a ^ b = sym (pow-succ' a (2 * k)) ∙ ap (◌^◌ a) exponent in
          rw odd (
            mod-factor m (p * a) (a ^ (2 * k))
            ∙ ap (λ t. t % m) (regroup p a (a ^ (2 * k)) ∙ ap (λ t. p * t) power))
      | inr even ↦ let exponent : 2 * k ≡ b = ground arith in rw (even, exponent) refl
    ]
  where
    regroup : (p a t : ℕ) → p * a * t ≡ p * (a * t)
    regroup p a t = omega arith

pow_loop_lem :
    (rounds a b p : ℕ)
    → p < 2 ^ 64
    → b < 2 ^ rounds
    → pow_loop (suc rounds) a b p ≡ some (p * a ^ b % 2 ^ 64)
unfolding pow_loop
pow_loop_lem rounds a zero p hp hb = ap some (
    sym (
      ap (λ t. p * t % 2 ^ 64) (pow.zero a) ∙ ap (λ t. t % 2 ^ 64) (omega arith) ∙ mod-eq_of_lt hp))
pow_loop_lem zero a (suc b) p hp hb = absurd (omega (arith, pow.zero 2))
pow_loop_lem (suc rounds) a (suc b) p hp hb =
    let p' = if suc b % 2 == 1 then p * a % 2 ^ 64 else p in
    let fits : p' < 2 ^ 64 = ground arith in
    let test : (suc b == 0) ≡ false = ground arith in
    rw test (
      pow_loop_lem rounds (a * a % 2 ^ 64) (suc b / 2) p' fits (omega (arith, pow-succ' 2 rounds))
      ∙ ap some (round (2 ^ 64) a (suc b) p))

-- For an exponent of 32 bits, chiPow ends and returns the power, reduced to 64 bits.
pub pow_64_lem : (a b : ℕ) → b < 2 ^ 32 → pow_64 a b ≡ some (a ^ b % 2 ^ 64)
unfolding pow_64
pow_64_lem a b h = pow_loop_lem 32 a b 1 (omega arith) h ∙ ap (λ t. some (t % 2 ^ 64)) (omega arith)
