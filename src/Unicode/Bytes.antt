-- ===== src/Unicode/Bytes.antt =====
-- A character in UTF-8: what is encoded is decoded.
use Prim.Native.Nat.{bit_and, bit_or}
use native.Mathlib.Nat.{mod-eq_of_lt, mul-add-mod_self_left}
use crts.Prelude.{
  ℕ, zero, suc, ◌+◌, ◌-◌, ◌*◌, ◌/◌, ◌%◌, ◌^◌, ◌≤◌, ◌<◌, ◌≡◌, refl, sym, ap, ◌∙◌, Bool, true, false,
  some, List, [], ◌∷◌, ◌++◌, length, arith, leb, ◌==◌, Bool-cases, inl, inr, every_below_at, ==_iff,
  le→leb, all, not, if◌then◌else◌,
}
use crts.Prelude.Bits.{bit_or-field, bit_and-mask}
use crts.Unicode.{
  utf8_decode_size, utf8_decode, decode_2, decode_3, decode_4, utf8_encode_size, utf8_encode,
}

abbrev entry : ℕ → ℕ
entry k = bit_and (4837428950035665169 / 2 ^ (k * 2 ^ 2)) 7

-- A leading byte tells the size.
size_of :
    (a n k m : ℕ)
    → a / 16 ≡ k + m
    → m < n
    → (j : ℕ) → crts.Prelude.every_below n (λ m. entry (k + m) == j) ≡ true
    → utf8_decode_size a ≡ j
unfolding utf8_decode_size
size_of a n k m e lt j all =
    ap entry e ∙ (==_iff (entry (k + m)) j).0 (every_below_at n (λ m. entry (k + m) == j) all m lt)

size_1 : (a : ℕ) → a < 128 → utf8_decode_size a ≡ 1
size_1 a h = size_of a 8 0 (a / 16) (omega arith) (omega arith) 1 refl

size_2 : (a : ℕ) → a < 32 → utf8_decode_size (6 * 2 ^ 5 + a) ≡ 2
size_2 a h = size_of (6 * 2 ^ 5 + a) 2 12 (a / 16) (omega arith) (omega arith) 2 refl

size_3 : (a : ℕ) → a < 16 → utf8_decode_size (14 * 2 ^ 4 + a) ≡ 3
size_3 a h = size_of (14 * 2 ^ 4 + a) 1 14 0 (omega arith) (omega arith) 3 refl

size_4 : (a : ℕ) → a < 8 → utf8_decode_size (30 * 2 ^ 3 + a) ≡ 4
size_4 a h = size_of (30 * 2 ^ 3 + a) 1 15 0 (omega arith) (omega arith) 4 refl

-- A continuation byte, and what is read of it.
abbrev pub low_6 : ℕ → ℕ
low_6 c = bit_or 128 (bit_and c 63) % 2 ^ 8

pub low_6-value : (c : ℕ) → low_6 c ≡ 128 + c % 64
low_6-value c =
    let mask : bit_and c 63 ≡ c % 64 = bit_and-mask 6 c in
    let field : bit_or 128 (c % 64) ≡ 128 + c % 64 = bit_or-field 6 2 (c % 64) (omega arith) in
    rw (mask, field) (omega arith)

low_6-read : (c : ℕ) → bit_and (low_6 c) 63 ≡ c % 64
low_6-read c =
    let mask : bit_and c 63 ≡ c % 64 = bit_and-mask 6 c in
    let field : bit_or 128 (c % 64) ≡ 128 + c % 64 = bit_or-field 6 2 (c % 64) (omega arith) in
    rw (mask, field, bit_and-mask 6 ((128 + c % 64) % 2 ^ 8)) (omega arith)

-- A leading byte, of which `k` bits are the character's.
pub lead :
    (mark k a : ℕ)
    → mark * 2 ^ k + 2 ^ k ≤ 2 ^ 8
    → a < 2 ^ k
    → bit_or (mark * 2 ^ k) a % 2 ^ 8 ≡ mark * 2 ^ k + a
lead mark k a le lt = rw (bit_or-field k mark a lt) (mod-eq_of_lt (omega arith))

mod-field : (mark k a : ℕ) → a < 2 ^ k → (mark * 2 ^ k + a) % 2 ^ k ≡ a
mod-field mark k a lt =
    let turned : mark * 2 ^ k ≡ 2 ^ k * mark = omega arith in
    ap (λ t. (t + a) % 2 ^ k) turned ∙ mul-add-mod_self_left (2 ^ k) mark a ∙ mod-eq_of_lt lt

-- The bits of a leading byte.
lead-read : (mark k a : ℕ) → a < 2 ^ k → bit_and (mark * 2 ^ k + a) (2 ^ k - 1) ≡ a
lead-read mark k a lt = rw (bit_and-mask k (mark * 2 ^ k + a)) (mod-field mark k a lt)

decoded_2 :
    (c : ℕ) (s : List ℕ) → c < 2 ^ 11 → decode_2 (6 * 2 ^ 5 + c / 2 ^ 6) (low_6 c ∷ s) ≡ some (c, s)
unfolding decode_2
decoded_2 c s h =
    rw
      (
        lead-read 6 5 (c / 2 ^ 6) (omega arith),
        low_6-read c,
        bit_or-field 6 (c / 2 ^ 6) (c % 64) (omega arith),
      )
      (ap (λ c. some (c, s)) (omega arith))

decoded_3 :
    (c : ℕ) (s : List ℕ)
    → c < 2 ^ 16
    → decode_3 (14 * 2 ^ 4 + c / 2 ^ 12) (low_6 (c / 2 ^ 6) ∷ low_6 c ∷ s) ≡ some (c, s)
unfolding decode_3
decoded_3 c s h =
    let high : c / 2 ^ 12 * 2 ^ 12 + c / 2 ^ 6 % 64 * 2 ^ 6 ≡ c / 2 ^ 6 * 2 ^ 6 = omega arith in
    rw
      (
        lead-read 14 4 (c / 2 ^ 12) (omega arith),
        low_6-read (c / 2 ^ 6),
        low_6-read c,
        bit_or-field 12 (c / 2 ^ 12) (c / 2 ^ 6 % 64 * 2 ^ 6) (omega arith),
        high,
        bit_or-field 6 (c / 2 ^ 6) (c % 64) (omega arith),
      )
      (ap (λ c. some (c, s)) (omega arith))

decoded_4 :
    (c : ℕ) (s : List ℕ)
    → c < 2 ^ 21
    → decode_4 (30 * 2 ^ 3 + c / 2 ^ 18) (low_6 (c / 2 ^ 12) ∷ low_6 (c / 2 ^ 6) ∷ low_6 c ∷ s)
      ≡ some (c, s)
unfolding decode_4
decoded_4 c s h =
    let high : c / 2 ^ 18 * 2 ^ 18 + c / 2 ^ 12 % 64 * 2 ^ 12 ≡ c / 2 ^ 12 * 2 ^ 12 = omega arith in
    let middle : c / 2 ^ 12 * 2 ^ 12 + c / 2 ^ 6 % 64 * 2 ^ 6 ≡ c / 2 ^ 6 * 2 ^ 6 = omega arith in
    rw
      (
        lead-read 30 3 (c / 2 ^ 18) (omega arith),
        low_6-read (c / 2 ^ 12),
        low_6-read (c / 2 ^ 6),
        low_6-read c,
        bit_or-field 18 (c / 2 ^ 18) (c / 2 ^ 12 % 64 * 2 ^ 12) (omega arith),
        high,
        bit_or-field 12 (c / 2 ^ 12) (c / 2 ^ 6 % 64 * 2 ^ 6) (omega arith),
        middle,
        bit_or-field 6 (c / 2 ^ 6) (c % 64) (omega arith),
      )
      (ap (λ c. some (c, s)) (omega arith))

-- The decoder reads back each character below 2 ^ 21 that the encoder wrote, and what follows it
-- is left.
pub utf8_decode-encode :
    (c : ℕ) (rest : List ℕ) → c < 2 ^ 21 → utf8_decode (utf8_encode c ++ rest) ≡ some (c, rest)
unfolding utf8_encode utf8_decode
utf8_decode-encode c rest h = elim (Bool-cases (leb c 127)) [
  | inl e1 ↦ let same : c % 2 ^ 8 ≡ c = ground arith in rw (e1, same, size_1 c (ground arith)) refl
  | inr e1 ↦ elim (Bool-cases (leb c 2047)) [
    | inl e2 ↦
        rw
          (
            e1,
            e2,
            lead 6 5 (c / 2 ^ 6) (omega arith) (ground arith),
            size_2 (c / 2 ^ 6) (ground arith),
          )
          (decoded_2 c rest (ground arith))
    | inr e2 ↦ elim (Bool-cases (leb c 65535)) [
      | inl e3 ↦
          rw
            (
              e1,
              e2,
              e3,
              lead 14 4 (c / 2 ^ 12) (omega arith) (ground arith),
              size_3 (c / 2 ^ 12) (ground arith),
            )
            (decoded_3 c rest (ground arith))
      | inr e3 ↦
          rw
            (
              e1,
              e2,
              e3,
              le→leb c 2097151 (omega arith),
              lead 30 3 (c / 2 ^ 18) (omega arith) (omega arith),
              size_4 (c / 2 ^ 18) (omega arith),
            )
            (decoded_4 c rest h)
    ]
  ]
]

pub length-utf8_encode : (c : ℕ) → length (utf8_encode c) ≡ utf8_encode_size c
unfolding utf8_encode utf8_encode_size
length-utf8_encode c = elim (Bool-cases (leb c 127)) [
  | inl e1 ↦ rw e1 refl
  | inr e1 ↦ elim (Bool-cases (leb c 2047)) [
    | inl e2 ↦ rw (e1, e2) refl
    | inr e2 ↦ elim (Bool-cases (leb c 65535)) [
      | inl e3 ↦ rw (e1, e2, e3) refl
      | inr e3 ↦ elim (Bool-cases (leb c 2097151)) [
        | inl e4 ↦ rw (e1, e2, e3, e4) refl
        | inr e4 ↦ rw (e1, e2, e3, e4) refl
      ]
    ]
  ]
]

low_6-nonzero : (c : ℕ) → (low_6 c == 0) ≡ false
low_6-nonzero c =
    let mask : bit_and c 63 ≡ c % 64 = bit_and-mask 6 c in
    let field : bit_or 128 (c % 64) ≡ 128 + c % 64 = bit_or-field 6 2 (c % 64) (omega arith) in
    rw (mask, field) (ground arith)

lead-nonzero :
    (mark k a : ℕ)
    → mark * 2 ^ k + 2 ^ k ≤ 2 ^ 8
    → a < 2 ^ k
    → 0 < mark * 2 ^ k
    → (bit_or (mark * 2 ^ k) a % 2 ^ 8 == 0) ≡ false
lead-nonzero mark k a le lt some_mark = rw (lead mark k a le lt) (ground arith)

-- A character that is not zero has no zero byte.
pub utf8_encode-nonzero :
    (c : ℕ) → 0 < c → c < 2 ^ 21 → all (λ a. not (a == 0)) (utf8_encode c) ≡ true
unfolding utf8_encode
utf8_encode-nonzero c lo hi = elim (Bool-cases (leb c 127)) [
  | inl e1 ↦ let same : (c % 2 ^ 8 == 0) ≡ false = ground arith in rw (e1, same) refl
  | inr e1 ↦ elim (Bool-cases (leb c 2047)) [
    | inl e2 ↦
        let first = lead-nonzero 6 5 (c / 2 ^ 6) (omega arith) (ground arith) (omega arith) in
        rw (e1, e2, first, low_6-nonzero c) refl
    | inr e2 ↦ elim (Bool-cases (leb c 65535)) [
      | inl e3 ↦
          let first = lead-nonzero 14 4 (c / 2 ^ 12) (omega arith) (ground arith) (omega arith) in
          rw (e1, e2, e3, first, low_6-nonzero (c / 2 ^ 6), low_6-nonzero c) refl
      | inr e3 ↦
          let first = lead-nonzero 30 3 (c / 2 ^ 18) (omega arith) (omega arith) (omega arith) in
          rw
            (
              e1,
              e2,
              e3,
              le→leb c 2097151 (omega arith),
              first,
              low_6-nonzero (c / 2 ^ 12),
              low_6-nonzero (c / 2 ^ 6),
              low_6-nonzero c,
            )
            refl
    ]
  ]
]
