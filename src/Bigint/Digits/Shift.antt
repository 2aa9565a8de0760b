-- ===== src/Bigint/Digits/Shift.antt =====
-- zd_shl and zd_shr multiply and divide by 2 ^ s.
use Prim.Native.Nat.{bit_or}
use Prim.Native.Nat.pow
use native.Mathlib.Nat.{
  pow-succ', one-le-pow, mul-add-mod_self_left, mod-eq_of_lt, mul-lt-mul_of_pos_right, mod-lt,
  div-add-mod, div-lt_iff_lt-mul, mul_comm,
}
use crts.Prelude.{
  ℕ, suc, ◌+◌, ◌-◌, ◌*◌, ◌/◌, ◌%◌, ◌^◌, ◌≤◌, ◌<◌, ◌≡◌, refl, sym, ap, ◌∙◌, List, [], ◌∷◌, arith,
  length,
}
use crts.Prelude.Bits.{bit_or-field, bit_or-field_right}
use crts.Bigint.Digits.{value, IsDigits, zd_shl, zd_shr}
use crts.Bigint.Digits.Add.{Holds}
use crts.Bigint.Digits.Value.{pow-add}

-- A product's remainder by a multiple of one factor.
scaled_mod : (p q x : ℕ) → 0 < p → 0 < q → x * p % (q * p) ≡ x % q * p
scaled_mod p q x hp hq =
    let split : x * p ≡ q * p * (x / q) + x % q * p =
      omega (arith, ap (λ (t : ℕ). t * p) (div-add-mod x q)) in
    rw split (
      mul-add-mod_self_left (q * p) (x / q) (x % q * p)
      ∙ mod-eq_of_lt (mul-lt-mul_of_pos_right (mod-lt x hq) hp))

module _ (bits s : ℕ) (fits : s ≤ bits) where
  pub split_width : 2 ^ (bits - s) * 2 ^ s ≡ 2 ^ bits
  split_width = sym (pow-add 2 (bits - s) s) ∙ ap (◌^◌ 2) (omega arith)

  -- The digit that `zd_shl` writes and the bits that it carries up.
  shl_digit :
      (x c : ℕ)
      → x < 2 ^ bits
      → c < 2 ^ s
      → (bit_or (x * 2 ^ s % 2 ^ bits) c + 2 ^ bits * (x / 2 ^ (bits - s)) ≡ x * 2 ^ s + c)
        × (bit_or (x * 2 ^ s % 2 ^ bits) c < 2 ^ bits)
        × (x / 2 ^ (bits - s) < 2 ^ s)
  shl_digit x c hx hc =
      let p = 2 ^ s in
      let q = 2 ^ (bits - s) in
      let pos : 0 < q = one-le-pow (bits - s) 2 (omega arith) in
      let cut : x * p % 2 ^ bits ≡ x % q * p =
        rw (← split_width) (scaled_mod p q x (one-le-pow s 2 (omega arith)) pos) in
      let below : x % q + 1 ≤ q = omega (arith, mod-lt x pos) in
      let le : (x % q + 1) * p ≤ q * p = grind arith in
      rw (cut, bit_or-field s (x % q) c hc)
        (
          omega (
            arith,
            ap (λ (t : ℕ). t * p) (div-add-mod x q),
            ap (λ (t : ℕ). t * (x / q)) split_width,
          ),
          omega (arith, split_width),
          (div-lt_iff_lt-mul pos).1 (omega (arith, split_width)),
        )

  pub shl_lem :
      (a : List ℕ) (c : ℕ)
      → IsDigits (2 ^ bits) a
      → c < 2 ^ s
      → (value (2 ^ bits) (zd_shl bits a s c).0 + (2 ^ bits) ^ length a * (zd_shl bits a s c).1
          ≡ value (2 ^ bits) a * 2 ^ s + c)
        × Holds (2 ^ bits) (length a) (zd_shl bits a s c).0
        × ((zd_shl bits a s c).1 < 2 ^ s)
  unfolding zd_shl
  shl_lem [] c ha hc = (grind (arith, pow.zero (2 ^ bits)), (tt, refl), hc)
  shl_lem (x ∷ a) c ha hc =
      let base = 2 ^ bits in
      let (r, out) = zd_shl bits a s (x / 2 ^ (bits - s)) in
      let (e, l, u) = shl_digit x c ha.0 hc in
      let (ih, (dr, len), lt) = shl_lem a (x / 2 ^ (bits - s)) ha.1 u in
      (
        omega (
          arith,
          ap (λ (t : ℕ). base * t) ih,
          ap (λ (t : ℕ). t * out) (pow-succ' base (length a)),
        ),
        ((l, dr), ap suc len),
        lt,
      )

  -- `zd_shr` writes the quotient. What it returns are the bits below, at the top of a digit.
  pub shr_lem :
      (a : List ℕ)
      → IsDigits (2 ^ bits) a
      → (low : ℕ) × (value (2 ^ bits) a ≡ 2 ^ s * value (2 ^ bits) (zd_shr bits a s).0 + low)
        × (low < 2 ^ s)
        × ((zd_shr bits a s).1 ≡ low * 2 ^ (bits - s))
        × Holds (2 ^ bits) (length a) (zd_shr bits a s).0
  unfolding zd_shr
  shr_lem [] ha = (0, omega arith, one-le-pow s 2 (omega arith), omega arith, (tt, refl))
  shr_lem (x ∷ a) ha =
      let base = 2 ^ bits in
      let p = 2 ^ s in
      let q = 2 ^ (bits - s) in
      let (low, e, lt, c, (dr, len)) = shr_lem a ha.1 in
      let ppos : 0 < p = one-le-pow s 2 (omega arith) in
      let high : x / p < q = (div-lt_iff_lt-mul ppos).1 (omega (arith, split_width)) in
      let le : (low + 1) * q ≤ p * q = grind arith in
      let cut : x * q % base ≡ x % p * q =
        rw (← split_width, mul_comm q p)
          (scaled_mod q p x (one-le-pow (bits - s) 2 (omega arith)) ppos) in
      rw (c, bit_or-field_right (bits - s) low (x / p) high)
        (
          x % p,
          omega (
            arith,
            ap (λ (t : ℕ). base * t) e,
            div-add-mod x p,
            ap (λ (t : ℕ). t * low) split_width,
          ),
          mod-lt x ppos,
          cut,
          ((omega (arith, split_width), dr), ap suc len),
        )
