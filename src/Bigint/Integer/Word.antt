-- ===== src/Bigint/Integer/Word.antt =====
-- From a machine word of 64 bits.
use Prim.Native.Nat.pow
use native.Mathlib.Nat.{pow-succ', div-add-mod, mod-lt, div-lt_iff_lt-mul, one-le-pow, le_trans}
use crts.Prelude.{
  ℕ, zero, suc, ◌+◌, ◌-◌, ◌*◌, ◌/◌, ◌%◌, ◌^◌, ◌≤◌, ◌<◌, ◌≡◌, sym, refl, ap, ◌∙◌, Bool, false, List,
  [], ◌∷◌, arith, length, Bool-cases, inl, inr, ◌==◌,
}
use crts.Prelude.Int.{signed}
use crts.Bigint.Digits.{value}
use crts.Bigint.Digits.Value.{pow-mul, pow-le-pow}
use crts.Bigint.Integer.{IsTrimmed, u64_digits, digits_of_64, z_from_u64}
use crts.Bigint.Integer.Normal.{IsTidy}
use crts.Bigint.Integer.Gives.{Gives, checked-Gives}

IsTrimmed-cons : (x : ℕ) (xs : List ℕ) → (xs ≡ [] → 0 < x) → IsTrimmed xs → IsTrimmed (x ∷ xs)
IsTrimmed-cons x [] h t = h refl
IsTrimmed-cons x (y ∷ xs) h t = t

some_digits : (d r bits : ℕ) → bits * d + r ≡ 64 + bits - 1 → r < bits → 0 < d
some_digits zero r bits e lt = absurd (omega arith)
some_digits (suc d) r bits e lt = omega arith

module _ (bits : ℕ) (some_bits : 0 < bits) where
  u64_digits_lem :
      (n b : ℕ)
      → b < (2 ^ bits) ^ n
      → IsTidy (2 ^ bits) (u64_digits bits n b)
        × (value (2 ^ bits) (u64_digits bits n b) ≡ b)
        × (length (u64_digits bits n b) ≤ n)
  unfolding u64_digits
  u64_digits_lem zero b h = ((tt, tt), omega (arith, pow.zero (2 ^ bits)), omega arith)
  u64_digits_lem (suc n) b h =
      let base = 2 ^ bits in
      let pos : 0 < base = one-le-pow bits 2 (omega arith) in
      let rest = u64_digits bits n (b / base) in
      let below : b / base < base ^ n =
        (div-lt_iff_lt-mul pos).1 (omega (arith, pow-succ' base n)) in
      let ((d, t), v, len) = u64_digits_lem n (b / base) below in
      let split = div-add-mod b base in
      elim (Bool-cases (b == 0)) [
        | inl e ↦ rw e ((tt, tt), ground arith, omega arith)
        | inr e ↦
            let low : b % base < base = mod-lt b pos in
            let top : rest ≡ [] → 0 < b % base = λ none.
              let z : 0 ≡ b / base = sym (ap (value base) none) ∙ v in
              ground (arith, split, ap (λ (k : ℕ). base * k) z) in
            rw e (
              ((low, d), IsTrimmed-cons (b % base) rest top t),
              omega (arith, split, ap (λ (k : ℕ). base * k) v),
              omega arith,
            )
      ]

  -- The digits that are allocated hold 64 bits.
  enough : 2 ^ 64 ≤ (2 ^ bits) ^ digits_of_64 bits
  enough =
      let split = div-add-mod (64 + bits - 1) bits in
      let low : (64 + bits - 1) % bits < bits = mod-lt (64 + bits - 1) some_bits in
      rw (← pow-mul 2 bits (digits_of_64 bits))
        (pow-le-pow 2 64 (bits * digits_of_64 bits) (omega arith) (omega arith))

  -- For a word of 64 bits and digits of one bit or more, z_from_u64 returns the normal form of the
  -- word if its one allocation succeeds; else it returns the error value.
  pub z_from_u64-Gives :
      (malloc : ℕ → Bool) (b : ℕ)
      → b < 2 ^ 64
      → Gives (2 ^ bits) (malloc (digits_of_64 bits)) (signed false b) (z_from_u64 bits malloc b)
  unfolding z_from_u64
  z_from_u64-Gives malloc b h =
      let (td, v, len) = u64_digits_lem (digits_of_64 bits) b (le_trans h enough) in
      let split = div-add-mod (64 + bits - 1) bits in
      let low : (64 + bits - 1) % bits < bits = mod-lt (64 + bits - 1) some_bits in
      checked-Gives (2 ^ bits) malloc (digits_of_64 bits) (signed false b)
        (false, u64_digits bits (digits_of_64 bits) b) (malloc (digits_of_64 bits))
        (some_digits (digits_of_64 bits) ((64 + bits - 1) % bits) bits split low) refl
        (td, (λ e. refl), ap (signed false) v, len)
