-- ===== src/Unicode/Text.antt =====
-- Texts of characters, and what they are in the two encodings.
use crts.Prelude.{
  ℕ, ◌+◌, ◌-◌, ◌/◌, ◌%◌, ◌≤◌, ◌<◌, ◌≡◌, ◌⊎◌, inl, inr, refl, false, List, [], ◌∷◌, ◌++◌, length,
  length-append, arith, leb, ltb, Bool-cases, if◌then◌else◌,
}
use crts.Unicode.{utf8_encode_size, utf8_encode}
use crts.Unicode.Bytes.{length-utf8_encode}

-- A Unicode character that is not the zero, which ends a string.
abbrev pub IsScalar : ℕ → Type 0
IsScalar c = (0 < c) × (c < 1114112) × ((c < 55296) ⊎ (57344 ≤ c))

abbrev pub IsText : List ℕ → Type 0
IsText [] = Unit
IsText (c ∷ cs) = IsScalar c × IsText cs

-- A character above 65535 is a pair, of its high and its low ten bits.
unfoldable pub units : ℕ → List ℕ
units c =
    if ltb c 65536 then c ∷ [] else (55296 + (c - 65536) / 1024) ∷ (56320 + (c - 65536) % 1024) ∷ []

unfoldable pub units_count : ℕ → ℕ
units_count c = if ltb c 65536 then 1 else 2

abbrev pub bytes_8 : List ℕ → List ℕ
bytes_8 [] = []
bytes_8 (c ∷ cs) = utf8_encode c ++ bytes_8 cs

-- What the encoder writes for a text, with the zero at the end.
abbrev pub text_8 : List ℕ → List ℕ
text_8 [] = 0 ∷ []
text_8 (c ∷ cs) = utf8_encode c ++ text_8 cs

abbrev pub text_16 : List ℕ → List ℕ
text_16 [] = 0 ∷ []
text_16 (c ∷ cs) = units c ++ text_16 cs

-- As many characters from the start as leave a place for the zero.
abbrev pub cut : (ℕ → ℕ) → ℕ → List ℕ → List ℕ
cut size room [] = []
cut size room (c ∷ cs) = if leb room (size c) then [] else c ∷ cut size (room - size c) cs

pub length-units : (c : ℕ) → length (units c) ≡ units_count c
unfolding units units_count
length-units c = elim (Bool-cases (ltb c 65536)) [ inl e ↦ rw e refl | inr e ↦ rw e refl ]

pub length-cut_8 :
    (room : ℕ) (cs : List ℕ) → 0 < room → length (text_8 (cut utf8_encode_size room cs)) ≤ room
length-cut_8 room [] h = h
length-cut_8 room (c ∷ cs) h = elim (Bool-cases (leb room (utf8_encode_size c))) [
  | inl e ↦ rw e h
  | inr e ↦
      let rest = cut utf8_encode_size (room - utf8_encode_size c) cs in
      let ih : length (text_8 rest) ≤ room - utf8_encode_size c =
        length-cut_8 (room - utf8_encode_size c) cs (ground arith) in
      let fits : length (text_8 (c ∷ rest)) ≤ room =
        ground (arith, ih, length-append (utf8_encode c) (text_8 rest), length-utf8_encode c) in
      rw e fits
]

pub length-cut_16 :
    (room : ℕ) (cs : List ℕ) → 0 < room → length (text_16 (cut units_count room cs)) ≤ room
length-cut_16 room [] h = h
length-cut_16 room (c ∷ cs) h = elim (Bool-cases (leb room (units_count c))) [
  | inl e ↦ rw e h
  | inr e ↦
      let rest = cut units_count (room - units_count c) cs in
      let ih : length (text_16 rest) ≤ room - units_count c =
        length-cut_16 (room - units_count c) cs (ground arith) in
      let fits : length (text_16 (c ∷ rest)) ≤ room =
        ground (arith, ih, length-append (units c) (text_16 rest), length-units c) in
      rw e fits
]

-- Nothing is cut where the room is enough.
pub cut_8_all :
    (room : ℕ) (cs : List ℕ) → length (text_8 cs) ≤ room → cut utf8_encode_size room cs ≡ cs
cut_8_all room [] h = refl
cut_8_all room (c ∷ cs) h =
    let size = length-append (utf8_encode c) (text_8 cs) in
    let bytes = length-utf8_encode c in
    let more : 0 < length (text_8 cs) = text_8-length cs in
    let test : leb room (utf8_encode_size c) ≡ false = ground arith in
    rw (test, cut_8_all (room - utf8_encode_size c) cs (omega arith)) refl
  where
    text_8-length : (cs : List ℕ) → 0 < length (text_8 cs)
    text_8-length [] = omega arith
    text_8-length (c ∷ cs) =
        omega (arith, length-append (utf8_encode c) (text_8 cs), text_8-length cs)

pub cut_16_all :
    (room : ℕ) (cs : List ℕ) → length (text_16 cs) ≤ room → cut units_count room cs ≡ cs
cut_16_all room [] h = refl
cut_16_all room (c ∷ cs) h =
    let size = length-append (units c) (text_16 cs) in
    let cells = length-units c in
    let more : 0 < length (text_16 cs) = text_16-length cs in
    let test : leb room (units_count c) ≡ false = ground arith in
    rw (test, cut_16_all (room - units_count c) cs (omega arith)) refl
  where
    text_16-length : (cs : List ℕ) → 0 < length (text_16 cs)
    text_16-length [] = omega arith
    text_16-length (c ∷ cs) = omega (arith, length-append (units c) (text_16 cs), text_16-length cs)
