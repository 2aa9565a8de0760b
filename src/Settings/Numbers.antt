-- ===== src/Settings/Numbers.antt =====
-- Numbers and sizes as values of options.
use crts.Prelude.{
  ℕ, ◌*◌, ◌^◌, ◌<◌, ◌≡◌, ◌⊎◌, refl, ◌∙◌, false, not, ◌||◌, List, [], ◌∷◌, ◌++◌, length, arith, leb,
  ltb, lt→ltb, Bool-cases, inl, inr, if◌then◌else◌,
}
use crts.Num.{read_uint, got, refused, is_digit}
use crts.Num.Value.{AllDigits, number}
use crts.Num.Parse.{read_uint-number}
use crts.Settings.{
  Parsed, parsed, fails, fault, invalid_argument, out_of_range, check, parse_int, parse_suffix,
  parse_size, ◌>>=◌,
}

-- A number that is to lie between two bounds.
abbrev pub in_range : ℕ → ℕ → ℕ → Parsed ℕ
in_range n least most = if not (ltb n least || ltb most n) then parsed n else fails out_of_range

check_range :
    (n least most : ℕ)
    → (check (not (ltb n least || ltb most n)) out_of_range >>= λ _. parsed n)
      ≡ in_range n least most
check_range n least most = elim (Bool-cases (not (ltb n least || ltb most n))) [
  | inl e ↦ rw e refl
  | inr e ↦ rw e refl
]

-- A text of digits that ends the string is read as its number: it is accepted if it has 64 bits
-- and lies between the bounds.
pub parse_int-number :
    (digits rest : List ℕ) (least most : ℕ)
    → AllDigits digits
    → 0 < length digits
    → parse_int (digits ++ 0 ∷ rest) least most ≡ (
        if ltb (number digits) (2 ^ 64)
        then in_range (number digits) least most
        else fails invalid_argument)
unfolding parse_int
parse_int-number digits rest least most h some_digit =
    elim (Bool-cases (ltb (number digits) (2 ^ 64))) [
      | inl e ↦
          let read : read_uint 64 (digits ++ 0 ∷ rest) ≡ got (number digits) (0 ∷ rest) =
            read_uint-number 64 digits 0 rest h some_digit refl ∙ rw e refl in
          rw (e, read) (check_range (number digits) least most)
      | inr e ↦
          let read : read_uint 64 (digits ++ 0 ∷ rest) ≡ refused =
            read_uint-number 64 digits 0 rest h some_digit refl ∙ rw e refl in
          rw (e, read) refl
    ]

-- A size without a suffix, of 64 bits, makes the parser read the cell after the string: where the
-- memory ends with the string, this is a fault.
pub parse_size-overread :
    (digits : List ℕ) (least most : ℕ)
    → AllDigits digits
    → 0 < length digits
    → number digits < 2 ^ 64
    → parse_size (digits ++ 0 ∷ []) least most ≡ fault
unfolding parse_size parse_suffix
parse_size-overread digits least most h some_digit lt =
    let e = lt→ltb (number digits) (2 ^ 64) lt in
    let read : read_uint 64 (digits ++ 0 ∷ []) ≡ got (number digits) (0 ∷ []) =
      read_uint-number 64 digits 0 [] h some_digit refl ∙ rw e refl in
    rw read refl

-- What a suffix multiplies by, in capital or small letters.
abbrev pub IsSuffix : ℕ → ℕ → Type 0
IsSuffix c factor =
    (((c ≡ 107) ⊎ (c ≡ 75)) × (factor ≡ 1024))
    ⊎ ((((c ≡ 109) ⊎ (c ≡ 77)) × (factor ≡ 1048576))
        ⊎ (((c ≡ 103) ⊎ (c ≡ 71)) × (factor ≡ 1073741824)))

suffix_lem :
    (c factor : ℕ) (rest : List ℕ) → IsSuffix c factor → parse_suffix (c ∷ 0 ∷ rest) ≡ parsed factor
unfolding parse_suffix
suffix_lem c factor rest h = ground arith

suffix_stops : (c factor : ℕ) → IsSuffix c factor → is_digit c ≡ false
suffix_stops c factor h = ground arith

-- A size with a suffix for kibi-, mebi- or gibibytes is accepted if the product has 64 bits and
-- lies between the bounds, and is out of range otherwise.
pub parse_size-suffix :
    (digits rest : List ℕ) (c factor least most : ℕ)
    → AllDigits digits
    → 0 < length digits
    → number digits < 2 ^ 64
    → IsSuffix c factor
    → parse_size (digits ++ c ∷ 0 ∷ rest) least most ≡ (
        if leb (2 ^ 64) (number digits * factor)
        then fails out_of_range
        else in_range (number digits * factor) least most)
unfolding parse_size
parse_size-suffix digits rest c factor least most h some_digit lt suffix =
    let e = lt→ltb (number digits) (2 ^ 64) lt in
    let read : read_uint 64 (digits ++ c ∷ 0 ∷ rest) ≡ got (number digits) (c ∷ 0 ∷ rest) =
      read_uint-number 64 digits c (0 ∷ rest) h some_digit (suffix_stops c factor suffix)
      ∙ rw e refl in
    let total = number digits * factor in
    elim (Bool-cases (leb (2 ^ 64) total)) [
      | inl big ↦ rw (read, suffix_lem c factor rest suffix, big) refl
      | inr small ↦ rw (read, suffix_lem c factor rest suffix, small) (check_range total least most)
    ]
