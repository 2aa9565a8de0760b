-- ===== src/Num/Hex.antt =====
-- native/num.c, numbers in hexadecimal.
use native.Mathlib.Nat.{pow-succ'}
use crts.Prelude.{
  ℕ, zero, suc, ◌+◌, ◌-◌, ◌*◌, ◌/◌, ◌%◌, ◌^◌, ◌<◌, ◌≡◌, refl, ap, ◌∙◌, Bool, true, false, Option,
  none, some, List, [], ◌∷◌, arith, leb, ◌==◌, ==_iff, every_below, every_below_at, get_or,
  Bool-cases, inl, inr, if◌then◌else◌, ◌>>=◌, pick_true, pick_false,
}

abbrev hex_digits : List ℕ
hex_digits = 48 ∷ 49 ∷ 50 ∷ 51 ∷ 52 ∷ 53 ∷ 54 ∷ 55 ∷ 56 ∷ 57 ∷ 97 ∷ 98 ∷ 99 ∷ 100 ∷ 101 ∷ 102 ∷ []

-- `chiHexDigits[n & 15]`
abbrev hex_digit : ℕ → ℕ
hex_digit n = get_or hex_digits (n % 16) 0

-- The loop, on fuel: what is left of the number, and the text so far.
unfoldable pub show_by_256 : ℕ → ℕ → List ℕ → Option (ℕ × List ℕ)
show_by_256 zero n text = none
show_by_256 (suc fuel) n text =
    let again = show_by_256 fuel in
    if leb 256 n then again (n / 256) (hex_digit (n / 16) ∷ hex_digit n ∷ text) else some (n, text)

-- The text that ends at the returned pointer. The fuel is for 64 bits.
unfoldable pub show_hex_uint : ℕ → Option (List ℕ)
show_hex_uint n = show_by_256 9 n [] >>= λ r.
    some (if leb 16 r.0 then hex_digit (r.0 / 16) ∷ hex_digit r.0 ∷ r.1 else hex_digit r.0 ∷ r.1)

-- What a digit and a text of digits stand for.
abbrev hex_value : ℕ → ℕ
hex_value c = if leb c 57 then c - 48 else c - 87

abbrev hex_from : ℕ → List ℕ → ℕ
hex_from acc [] = acc
hex_from acc (c ∷ text) = hex_from (acc * 16 + hex_value c) text

value_test : ℕ → Bool
value_test d = hex_value (get_or hex_digits d 0) == d

values : every_below 16 value_test ≡ true
unfolding value_test
values = refl

hex_value-hex_digit : (n : ℕ) → hex_value (hex_digit n) ≡ n % 16
unfolding value_test
hex_value-hex_digit n = (==_iff _ _).0 (every_below_at 16 value_test values (n % 16) (omega arith))

hex_from-pair :
    (acc n : ℕ) (text : List ℕ)
    → acc * 256 + n % 256 ≡ n
    → hex_from acc (hex_digit (n / 16) ∷ hex_digit n ∷ text) ≡ hex_from n text
hex_from-pair acc n text e =
    let high = hex_value-hex_digit (n / 16) in
    let low = hex_value-hex_digit n in
    let whole : (acc * 16 + hex_value (hex_digit (n / 16))) * 16 + hex_value (hex_digit n) ≡ n =
      omega arith in
    ap (λ k. hex_from k text) whole

show_by_256_lem :
    (fuel n : ℕ) (text : List ℕ)
    → n < 256 ^ fuel
    → (m : ℕ) × (t : List ℕ) × (show_by_256 (suc fuel) n text ≡ some (m, t))
      × (m < 256)
      × (hex_from m t ≡ hex_from n text)
unfolding show_by_256
show_by_256_lem zero n text lt =
    let less : n < 256 = omega arith in
    let done : leb 256 n ≡ false = ground arith in (n, text, pick_false _ _ done, less, refl)
show_by_256_lem (suc fuel) n text lt = elim (Bool-cases (leb 256 n)) [
  | inl e ↦
      let (m, t, shown, small, same) =
        show_by_256_lem fuel (n / 256) (hex_digit (n / 16) ∷ hex_digit n ∷ text)
          (omega (arith, pow-succ' 256 fuel)) in
      (m, t, pick_true _ _ e ∙ shown, small, same ∙ hex_from-pair (n / 256) n text (omega arith))
  | inr e ↦ (n, text, pick_false _ _ e, ground arith, refl)
]

-- chiShowHexUInt writes hexadecimal digits that stand for the number.
show_hex_uint_lem :
    (n : ℕ) → n < 2 ^ 64 → (text : List ℕ) × (show_hex_uint n ≡ some text) × (hex_from 0 text ≡ n)
unfolding show_hex_uint
show_hex_uint_lem n lt =
    let (m, t, shown, small, same) = show_by_256_lem 8 n [] (omega arith) in
    elim (Bool-cases (leb 16 m)) [
      | inl e ↦ (
        hex_digit (m / 16) ∷ hex_digit m ∷ t,
        rw (shown, e) refl,
        hex_from-pair 0 m t (omega arith) ∙ same,
      )
      | inr e ↦
          let one : 0 * 16 + hex_value (hex_digit m) ≡ m = ground (arith, hex_value-hex_digit m) in
          (hex_digit m ∷ t, rw (shown, e) refl, ap (λ k. hex_from k t) one ∙ same)
    ]
