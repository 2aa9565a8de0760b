-- ===== src/Unicode/Convert.antt =====
-- From UTF-8 to UTF-16.
use Prim.Native.Nat.{bit_and}
use crts.Prelude.{
  ℕ, zero, suc, ◌+◌, ◌-◌, ◌/◌, ◌%◌, ◌^◌, ◌≤◌, ◌<◌, ◌≡◌, inl, inr, refl, ap, ◌∙◌, true, false, not,
  all, subst, Option, some, List, [], ◌∷◌, ◌++◌, length, length-append, arith, leb, ltb, ◌==◌,
  Bool-cases,
}
use crts.Prelude.Bits.{bit_and-mask}
use crts.Unicode.{
  utf8_decode, before_zero, size_16_from, utf16_size, put_16, to_16_from, utf8_to_16,
  alloc_utf8_to_16, utf8_encode_size, utf8_encode,
}
use crts.Unicode.Bytes.{length-utf8_encode, utf8_decode-encode, utf8_encode-nonzero}
use crts.Unicode.Text.{
  IsScalar, IsText, units, units_count, bytes_8, text_8, text_16, cut, cut_16_all, length-cut_16,
  length-units,
}

-- No byte of a character is zero, so the zero at the end is the first.
before-nonzero :
    (xs s t : List ℕ)
    → all (λ a. not (a == 0)) xs ≡ true
    → before_zero s ≡ some t
    → before_zero (xs ++ s) ≡ some (xs ++ t)
unfolding before_zero
before-nonzero [] s t h k = k
before-nonzero (x ∷ xs) s t h k =
    let first : (x == 0) ≡ false = grind arith in
    rw (first, before-nonzero xs s t (grind arith) k) refl

before_zero-text : (cs : List ℕ) → IsText cs → before_zero (text_8 cs) ≡ some (bytes_8 cs)
unfolding before_zero
before_zero-text [] h = refl
before_zero-text (c ∷ cs) h =
    before-nonzero (utf8_encode c) (text_8 cs) (bytes_8 cs)
      (utf8_encode-nonzero c h.0.0 (omega arith)) (before_zero-text cs h.1)

encode_cons : (c : ℕ) → c < 2 ^ 21 → (a : ℕ) × (s : List ℕ) × (utf8_encode c ≡ a ∷ s)
encode_cons c h = first (utf8_encode c) (length-utf8_encode c)
  where
    first : (xs : List ℕ) → length xs ≡ utf8_encode_size c → (a : ℕ) × (s : List ℕ) × (xs ≡ a ∷ s)
    first [] e = absurd (unfold utf8_encode_size in ground arith)
    first (a ∷ s) e = (a, s, refl)

below : (c : ℕ) → IsScalar c → c < 2 ^ 21
below c h = omega arith

-- One round of the loops reads one character.
size-round :
    (c fuel len : ℕ) (rest : List ℕ)
    → c < 2 ^ 21
    → size_16_from (suc fuel) (utf8_encode c ++ rest) len
      ≡ size_16_from fuel rest (len + units_count c)
unfolding size_16_from units_count
size-round c fuel len rest h =
    let (a, s, e) = encode_cons c h in
    let read : utf8_decode (a ∷ s ++ rest) ≡ some (c, rest) =
      subst (λ x. utf8_decode (x ++ rest) ≡ some (c, rest)) e (utf8_decode-encode c rest h) in
    rw (e, read) (ap (λ n. size_16_from fuel rest (len + n)) (ground arith))

put-round :
    (c fuel room : ℕ) (rest : List ℕ)
    → c < 2 ^ 21
    → to_16_from (suc fuel) (utf8_encode c ++ rest) room ≡ put_16 c room (to_16_from fuel rest)
unfolding to_16_from
put-round c fuel room rest h =
    let (a, s, e) = encode_cons c h in
    let read : utf8_decode (a ∷ s ++ rest) ≡ some (c, rest) =
      subst (λ x. utf8_decode (x ++ rest) ≡ some (c, rest)) e (utf8_decode-encode c rest h) in
    rw (e, read) refl

put_16-cut :
    (c : ℕ) (cs : List ℕ) (room : ℕ) (next : ℕ → Option (List ℕ))
    → IsScalar c
    → ((r : ℕ) → next r ≡ some (text_16 (cut units_count r cs)))
    → put_16 c room next ≡ some (text_16 (cut units_count room (c ∷ cs)))
unfolding put_16 units_count units
put_16-cut c cs room next h k = elim (Bool-cases (ltb c 65536)) [
  | inl small ↦ elim (Bool-cases (leb room 1)) [
    | inl e ↦ rw (small, e) refl
    | inr e ↦
        let same : c % 2 ^ 16 ≡ c = ground arith in
        let whole : units c ≡ c ∷ [] = rw small refl in
        rw (small, e, k (room - 1), same, whole) refl
  ]
  | inr large ↦ elim (Bool-cases (leb room 2)) [
    | inl e ↦ rw (large, e) refl
    | inr e ↦
        let d = c - 65536 in
        let high : (55296 + d / 2 ^ 10) % 2 ^ 16 ≡ 55296 + d / 1024 = omega arith in
        let mask : bit_and d 1023 ≡ d % 1024 = bit_and-mask 10 d in
        let low : (56320 + d % 1024) % 2 ^ 16 ≡ 56320 + d % 1024 = omega arith in
        let whole : units c ≡ (55296 + d / 1024) ∷ (56320 + d % 1024) ∷ [] = rw large refl in
        rw (large, e, k (room - 2), high, mask, low, whole) refl
  ]
]

-- The rounds are at most as many as the bytes.
encode_longer :
    (c fuel : ℕ) (rest : List ℕ)
    → c < 2 ^ 21
    → length (utf8_encode c ++ rest) < suc fuel
    → length rest < fuel
encode_longer c fuel rest h lt =
    let (a, s, e) = encode_cons c h in
    let size : length (utf8_encode c) ≡ suc (length s) = ap length e in
    omega (arith, length-append (utf8_encode c) rest)

size-text :
    (cs : List ℕ) (fuel len : ℕ)
    → IsText cs
    → length (bytes_8 cs) < fuel
    → size_16_from fuel (bytes_8 cs) len ≡ some (len + length (text_16 cs))
unfolding size_16_from
size-text cs zero len h lt = absurd (omega arith)
size-text [] (suc fuel) len h lt = refl
size-text (c ∷ cs) (suc fuel) len h lt =
    size-round c fuel len (bytes_8 cs) (below c h.0)
    ∙ size-text cs fuel (len + units_count c) h.1
        (encode_longer c fuel (bytes_8 cs) (below c h.0) lt)
    ∙ ap some (omega (arith, length-append (units c) (text_16 cs), length-units c))

to_16-text :
    (cs : List ℕ) (fuel room : ℕ)
    → IsText cs
    → length (bytes_8 cs) < fuel
    → to_16_from fuel (bytes_8 cs) room ≡ some (text_16 (cut units_count room cs))
unfolding to_16_from
to_16-text cs zero room h lt = absurd (omega arith)
to_16-text [] (suc fuel) room h lt = refl
to_16-text (c ∷ cs) (suc fuel) room h lt =
    put-round c fuel room (bytes_8 cs) (below c h.0)
    ∙ put_16-cut c cs room (to_16_from fuel (bytes_8 cs)) h.0
        (λ r. to_16-text cs fuel r h.1 (encode_longer c fuel (bytes_8 cs) (below c h.0) lt))

-- For a text of Unicode characters in UTF-8, of which none is zero, and room for a unit or more,
-- chiUtf8To16 ends, and writes the UTF-16 of its first characters, as many as fit whole before the
-- zero, and the zero; no more units than there is room for.
pub utf8_to_16-IsCut :
    (cs : List ℕ) (room : ℕ)
    → IsText cs
    → 0 < room
    → (utf8_to_16 (text_8 cs) room ≡ some (text_16 (cut units_count room cs)))
      × (length (text_16 (cut units_count room cs)) ≤ room)
unfolding utf8_to_16
utf8_to_16-IsCut cs room h some_room = (
  rw (before_zero-text cs h) (to_16-text cs (suc (length (bytes_8 cs))) room h (omega arith)),
  length-cut_16 room cs some_room,
)

utf16_size-text : (cs : List ℕ) → IsText cs → utf16_size (text_8 cs) ≡ some (length (text_16 cs))
unfolding utf16_size
utf16_size-text cs h =
    rw (before_zero-text cs h, size-text cs (suc (length (bytes_8 cs))) 0 h (omega arith))
      (ap some (omega arith))

-- For a text of Unicode characters in UTF-8, of which none is zero, chiAllocUtf8To16 ends and is
-- the same text in UTF-16, complete.
pub alloc_utf8_to_16_lem :
    (cs : List ℕ) → IsText cs → alloc_utf8_to_16 (text_8 cs) ≡ some (text_16 cs)
unfolding alloc_utf8_to_16 utf8_to_16
alloc_utf8_to_16_lem cs h =
    rw
      (
        utf16_size-text cs h,
        before_zero-text cs h,
        to_16-text cs (suc (length (bytes_8 cs))) (length (text_16 cs)) h (omega arith),
      )
      (ap (λ t. some (text_16 t)) (cut_16_all (length (text_16 cs)) cs (omega arith)))
