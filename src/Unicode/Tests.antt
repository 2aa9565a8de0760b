-- ===== src/Unicode/Tests.antt =====
-- Runs of the conversions and instances of their theorems.
use crts.Prelude.{false, ℕ, ◌≡◌, inl, inr, refl, some, none, List, [], ◌∷◌, arith}
use crts.Unicode.{
  utf8_valid, utf8_run, utf8_step, utf8_decode, utf8_decode_size, utf8_encode, utf8_size,
  alloc_utf16_to_8, alloc_utf8_to_16, size_16_from,
}
use crts.Unicode.Text.{IsText, text_8, text_16}
use crts.Unicode.Standard.{text_octets}
use crts.Unicode.Units.{alloc_utf16_to_8_lem, unpaired, utf8_size-unpaired}
use crts.Unicode.Convert.{alloc_utf8_to_16_lem}

-- A letter, the euro sign and a character above 65535.
abbrev phrase : List ℕ
phrase = 97 ∷ 8364 ∷ 128512 ∷ []

phrase-IsText : IsText phrase
phrase-IsText = (
  (omega arith, omega arith, inl (omega arith)),
  (
    (omega arith, omega arith, inl (omega arith)),
    ((omega arith, omega arith, inr (omega arith)), tt),
  ),
)

euro : utf8_encode 8364 ≡ 226 ∷ 130 ∷ 172 ∷ []
unfolding utf8_encode
euro = refl

-- A byte that starts no character is not skipped, so the loops would not end on it.
decode_stray : utf8_decode (128 ∷ 97 ∷ []) ≡ some (0, 128 ∷ 97 ∷ [])
unfolding utf8_decode utf8_decode_size
decode_stray = refl

size_16_stray : size_16_from 9 (128 ∷ 97 ∷ []) 0 ≡ none
unfolding size_16_from utf8_decode utf8_decode_size
size_16_stray = refl

alloc_utf16_to_8_lem_example : alloc_utf16_to_8 (text_16 phrase) ≡ some (text_octets phrase)
alloc_utf16_to_8_lem_example = alloc_utf16_to_8_lem phrase phrase-IsText

utf8_size-unpaired_example : utf8_size (unpaired phrase 55357) ≡ none
utf8_size-unpaired_example = utf8_size-unpaired phrase 55357 phrase-IsText refl

alloc_utf8_to_16_lem_example : alloc_utf8_to_16 (text_8 phrase) ≡ some (text_16 phrase)
alloc_utf8_to_16_lem_example = alloc_utf8_to_16_lem phrase phrase-IsText

-- A surrogate, and a character whose second byte is missing.
valid_stray : utf8_valid (237 ∷ 160 ∷ 128 ∷ []) ≡ false
unfolding utf8_valid utf8_run utf8_step
valid_stray = refl

valid_cut : utf8_valid (97 ∷ 195 ∷ []) ≡ false
unfolding utf8_valid utf8_run utf8_step
valid_cut = refl
