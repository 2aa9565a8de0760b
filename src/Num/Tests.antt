-- ===== src/Num/Tests.antt =====
-- Runs of the conversions and instances of their theorems.
use Prim.Native.Nat.pow
use crts.Prelude.{
  Bool-cases, inl, inr, subst, ℕ, ◌≡◌, ◌-◌, ◌<◌, ◌^◌, ◌≤◌, ◌++◌, zero, suc, refl, some, List, [],
  ◌∷◌, arith, length, if◌then◌else◌, ltb,
}
use crts.Num.Hex.{show_hex_uint, show_by_256}
use crts.Num.{
  pow_64, pow_loop, put_pair, show_by_10000, show_by_100, show_uint, count_digits_10, got, refused,
  read_uint,
}
use crts.Num.Value.{number}
use crts.Num.Show.{IsDecimal}
use crts.Num.Size.{IsClz, show_uint-IsDecimal}
use crts.Num.Parse.{read_uint-number, read_uint-show_uint}

show_907123 : show_uint 907123 ≡ some (57 ∷ 48 ∷ 55 ∷ 49 ∷ 50 ∷ 51 ∷ [])
unfolding show_uint show_by_10000 show_by_100 put_pair
show_907123 = refl

abbrev digits_300 : List ℕ
digits_300 = 51 ∷ 48 ∷ 48 ∷ []

read_uint-number_example :
    read_uint 32 (digits_300 ++ 32 ∷ [])
    ≡ (if ltb (number digits_300) (2 ^ 32) then got (number digits_300) (32 ∷ []) else refused)
read_uint-number_example = read_uint-number 32 digits_300 32 [] refl (omega arith) refl

read_uint-show_uint_example :
    (text : List ℕ) × (show_uint 907123 ≡ some text)
    × (read_uint 64 (text ++ 0 ∷ []) ≡ got 907123 (0 ∷ []))
read_uint-show_uint_example = read_uint-show_uint 907123 0 [] (omega arith) refl

-- A count of the bits of a number, and from it one of its leading zeros.
abbrev pub bits_in : ℕ → ℕ → ℕ
bits_in zero n = 0
bits_in (suc k) n = if ltb n (2 ^ k) then bits_in k n else suc k

bits_in-bounds :
    (k n : ℕ)
    → 0 < n
    → n < 2 ^ k
    → (bits_in k n ≤ k) × (0 < bits_in k n) × (2 ^ (bits_in k n - 1) ≤ n) × (n < 2 ^ bits_in k n)
unfolding bits_in
bits_in-bounds zero n some_n h = absurd (omega (arith, pow.zero 2))
bits_in-bounds (suc k) n some_n h = elim (Bool-cases (ltb n (2 ^ k))) [
  | inl e ↦
      let (le, more, low, high) = bits_in-bounds k n some_n (ground arith) in
      rw e (omega arith, more, low, high)
  | inr e ↦
      let less : 2 ^ (suc k - 1) ≤ n = ground arith in rw e (omega arith, omega arith, less, h)
]

abbrev pub leading_zeros : ℕ → ℕ
leading_zeros n = 64 - bits_in 64 n

pub leading_zeros-IsClz : IsClz leading_zeros
leading_zeros-IsClz = record {
  below = λ n p h. (let (le, more, _, _) = bits_in-bounds 64 n p h in omega arith);
  low = λ n p h.
      (let (le, more, low, _) = bits_in-bounds 64 n p h in
        let e : bits_in 64 n - 1 ≡ 63 - (64 - bits_in 64 n) = omega arith in
        subst (λ k. 2 ^ k ≤ n) e low);
  high = λ n p h.
      (let (le, more, _, high) = bits_in-bounds 64 n p h in
        let e : bits_in 64 n ≡ 64 - (64 - bits_in 64 n) = omega arith in
        subst (λ k. n < 2 ^ k) e high);
}

show_uint-IsDecimal_example :
    (text : List ℕ) × (show_uint 907123 ≡ some text)
    × IsDecimal 907123 text
    × (length text ≡ count_digits_10 leading_zeros 907123)
show_uint-IsDecimal_example =
    show_uint-IsDecimal leading_zeros leading_zeros-IsClz 907123 (omega arith)

pow_wraps : pow_64 2 64 ≡ some 0
unfolding pow_64 pow_loop
pow_wraps = refl

-- "cafe"
hex_shown : show_hex_uint 51966 ≡ some (99 ∷ 97 ∷ 102 ∷ 101 ∷ [])
unfolding show_hex_uint show_by_256
hex_shown = refl
