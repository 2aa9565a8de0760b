-- ===== src/Unicode/Standard.antt =====
-- Texts in UTF-8 as the standard has them: the bits of a character in one to four bytes.
use crts.Prelude.{
  ℕ, ◌+◌, ◌/◌, ◌%◌, ◌^◌, ◌<◌, ◌≡◌, refl, ap, ◌∙◌, true, false, List, [], ◌∷◌, ◌++◌, arith, leb, ltb,
  le→leb, Bool-cases, inl, inr, if◌then◌else◌,
}
use crts.Unicode.{utf8_encode}
use crts.Unicode.Bytes.{low_6-value, lead}
use crts.Unicode.Text.{IsText, text_8}

-- The leading byte says how many bytes there are; each that follows has six bits.
unfoldable pub octets : ℕ → List ℕ
octets c =
    if ltb c 128
    then c ∷ []
    else if ltb c 2048
    then (192 + c / 64) ∷ (128 + c % 64) ∷ []
    else if ltb c 65536
    then (224 + c / 4096) ∷ (128 + c / 64 % 64) ∷ (128 + c % 64) ∷ []
    else (240 + c / 262144) ∷ (128 + c / 4096 % 64) ∷ (128 + c / 64 % 64) ∷ (128 + c % 64) ∷ []

-- With the zero at the end.
abbrev pub text_octets : List ℕ → List ℕ
text_octets [] = 0 ∷ []
text_octets (c ∷ cs) = octets c ++ text_octets cs

pub utf8_encode-octets : (c : ℕ) → c < 1114112 → utf8_encode c ≡ octets c
unfolding utf8_encode octets
utf8_encode-octets c h = elim (Bool-cases (leb c 127)) [
  | inl e1 ↦
      let same : c % 2 ^ 8 ≡ c = ground arith in
      let t1 : ltb c 128 ≡ true = ground arith in rw (e1, t1, same) refl
  | inr e1 ↦
      let t1 : ltb c 128 ≡ false = ground arith in
      elim (Bool-cases (leb c 2047)) [
        | inl e2 ↦
            let t2 : ltb c 2048 ≡ true = ground arith in
            rw (e1, e2, t1, t2, lead 6 5 (c / 2 ^ 6) (omega arith) (ground arith), low_6-value c)
              refl
        | inr e2 ↦
            let t2 : ltb c 2048 ≡ false = ground arith in
            elim (Bool-cases (leb c 65535)) [
              | inl e3 ↦
                  let t3 : ltb c 65536 ≡ true = ground arith in
                  rw
                    (
                      e1,
                      e2,
                      e3,
                      t1,
                      t2,
                      t3,
                      lead 14 4 (c / 2 ^ 12) (omega arith) (ground arith),
                      low_6-value (c / 2 ^ 6),
                      low_6-value c,
                    )
                    refl
              | inr e3 ↦
                  let t3 : ltb c 65536 ≡ false = ground arith in
                  rw
                    (
                      e1,
                      e2,
                      e3,
                      t1,
                      t2,
                      t3,
                      le→leb c 2097151 (omega arith),
                      lead 30 3 (c / 2 ^ 18) (omega arith) (omega arith),
                      low_6-value (c / 2 ^ 12),
                      low_6-value (c / 2 ^ 6),
                      low_6-value c,
                    )
                    refl
            ]
      ]
]

-- The bytes that the encoder writes for a text are those of the standard.
pub text_8-octets : (cs : List ℕ) → IsText cs → text_8 cs ≡ text_octets cs
text_8-octets [] h = refl
text_8-octets (c ∷ cs) h =
    ap (λ s. s ++ text_8 cs) (utf8_encode-octets c h.0.1)
    ∙ ap (◌++◌ (octets c)) (text_8-octets cs h.1)
