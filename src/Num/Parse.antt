-- ===== src/Num/Parse.antt =====
-- chiReadUInt32 and chiReadUInt64 read back what chiShowUInt writes.
use Prim.Native.Nat.pow
use native.Mathlib.Nat.{pow-succ', one-le-pow, mul-le-mul_left}
use crts.Prelude.{
  ℕ, suc, ◌+◌, ◌-◌, ◌*◌, ◌^◌, ◌≤◌, ◌<◌, ◌≡◌, refl, ap, ◌∙◌, true, false, some, List, [], ◌∷◌, ◌++◌,
  length, length-append, arith, leb, ltb, lt→ltb, ◌==◌, Bool-cases, inl, inr, if◌then◌else◌,
}
use crts.Num.{is_digit, refused, got, read_from, finish, read_uint, show_uint}
use crts.Num.Value.{AllDigits, number}
use crts.Num.Show.{show_uint-text}

-- The step of the reader, and of the value.
horner_step : (r d p rest : ℕ) → (r * 10 + d) * p + rest ≡ r * (10 * p) + (d * p + rest)
horner_step r d p rest = omega arith

read_digits :
    (bits r : ℕ) (text s : List ℕ)
    → AllDigits text
    → r * 10 ^ length text + number text < 2 ^ bits
    → read_from bits (text ++ s) r ≡ read_from bits s (r * 10 ^ length text + number text)
unfolding read_from
read_digits bits r [] s h lt = ap (read_from bits s) (omega (arith, pow.zero 10))
read_digits bits r (c ∷ text) s h lt =
    let d = c - 48 in
    let p = 10 ^ length text in
    let step : (r * 10 + d) * p + number text ≡ r * 10 ^ suc (length text) + (d * p + number text) =
      rw (pow-succ' 10 (length text)) (horner_step r d p (number text)) in
    let grows : (r * 10 + d) * 1 ≤ (r * 10 + d) * p =
      mul-le-mul_left (r * 10 + d) (one-le-pow (length text) 10 (omega arith)) in
    let first : is_digit c ≡ true = grind arith in
    let fits1 : leb (2 ^ bits) (r * 10) ≡ false = ground arith in
    let fits2 : leb (2 ^ bits) (r * 10 + d) ≡ false = ground arith in
    rw (first, fits1, fits2)
      (read_digits bits (r * 10 + d) text s (grind arith) (omega arith)
        ∙ ap (read_from bits s) step)

-- Digits that stand for more than fits make the reader refuse.
read_overflow :
    (bits r : ℕ) (text s : List ℕ)
    → AllDigits text
    → r < 2 ^ bits
    → 2 ^ bits ≤ r * 10 ^ length text + number text
    → read_from bits (text ++ s) r ≡ refused
unfolding read_from
read_overflow bits r [] s h lt over = absurd (omega (arith, ap (λ (t : ℕ). r * t) (pow.zero 10)))
read_overflow bits r (c ∷ text) s h lt over =
    let d = c - 48 in
    let p = 10 ^ length text in
    let step : (r * 10 + d) * p + number text ≡ r * 10 ^ suc (length text) + (d * p + number text) =
      rw (pow-succ' 10 (length text)) (horner_step r d p (number text)) in
    let first : is_digit c ≡ true = grind arith in
    elim (Bool-cases (leb (2 ^ bits) (r * 10))) [
      | inl e1 ↦ rw (first, e1) refl
      | inr e1 ↦ elim (Bool-cases (leb (2 ^ bits) (r * 10 + d))) [
        | inl e2 ↦ rw (first, e1, e2) refl
        | inr e2 ↦
            rw (first, e1, e2)
              (read_overflow bits (r * 10 + d) text s (grind arith) (ground arith) (omega arith))
      ]
    ]

-- A text of digits, one or more, before something else is read as its number if that is below
-- 2 ^ bits, and refused otherwise.
pub read_uint-number :
    (bits : ℕ) (text : List ℕ) (stop : ℕ) (rest : List ℕ)
    → AllDigits text
    → 0 < length text
    → is_digit stop ≡ false
    → read_uint bits (text ++ stop ∷ rest)
      ≡ (if ltb (number text) (2 ^ bits) then got (number text) (stop ∷ rest) else refused)
unfolding read_uint finish read_from
read_uint-number bits text stop rest h some_digit stops =
    elim (Bool-cases (ltb (number text) (2 ^ bits))) [
      | inl e ↦
          let longer : (suc (length rest) == length (text ++ stop ∷ rest)) ≡ false =
            ground (arith, length-append text (stop ∷ rest)) in
          rw (e, read_digits bits 0 text (stop ∷ rest) h (ground arith), stops, longer)
            (ap (λ v. got v (stop ∷ rest)) (omega arith))
      | inr e ↦
          rw
            (
              e,
              read_overflow bits 0 text (stop ∷ rest) h (one-le-pow bits 2 (omega arith))
                  (ground arith),
            )
            refl
    ]

-- A number of 64 bits that chiShowUInt writes is read back by chiReadUInt64 before anything that
-- is not a digit.
pub read_uint-show_uint :
    (n stop : ℕ) (rest : List ℕ)
    → n < 2 ^ 64
    → is_digit stop ≡ false
    → (text : List ℕ) × (show_uint n ≡ some text)
      × (read_uint 64 (text ++ stop ∷ rest) ≡ got n (stop ∷ rest))
read_uint-show_uint n stop rest h stops =
    let (text, shown, dec) = show_uint-text n h in
    let l = dec.length_rest in
    let below : ltb (number text) (2 ^ 64) ≡ true = rw (dec.value) (lt→ltb n (2 ^ 64) h) in
    (
      text,
      shown,
      read_uint-number 64 text stop rest (dec.digits) (omega arith) stops
          ∙ rw (below, dec.value) refl,
    )
