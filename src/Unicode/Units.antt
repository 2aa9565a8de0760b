-- ===== src/Unicode/Units.antt =====
-- From UTF-16 to UTF-8.
use crts.Prelude.{
  ℕ, ◌+◌, ◌-◌, ◌/◌, ◌%◌, ◌≤◌, ◌<◌, ◌≡◌, inl, inr, refl, ap, ◌∙◌, true, false, Option, none, some,
  List, [], ◌∷◌, ◌++◌, length, length-append, arith, leb, ltb, ◌==◌, Bool-cases,
}
use crts.Unicode.{
  is_high, join_units, size_8_from, utf8_size, put_8, utf16_to_8, alloc_utf16_to_8,
  utf8_encode_size, utf8_encode,
}
use crts.Unicode.Bytes.{length-utf8_encode}
use crts.Unicode.Standard.{text_octets, text_8-octets}
use crts.Unicode.Text.{IsScalar, IsText, units, text_8, text_16, cut, cut_8_all, length-cut_8}

size-single :
    (u : ℕ) (t : List ℕ) (len : ℕ)
    → (u == 0) ≡ false
    → is_high u ≡ false
    → size_8_from (u ∷ t) len ≡ size_8_from t (len + utf8_encode_size u)
unfolding size_8_from
size-single u [] len e k = rw e refl
size-single u (v ∷ w) len e k = rw (e, k) refl

size-pair :
    (u v : ℕ) (t : List ℕ) (len : ℕ)
    → (u == 0) ≡ false
    → is_high u ≡ true
    → size_8_from (u ∷ v ∷ t) len ≡ size_8_from t (len + utf8_encode_size (join_units u v))
unfolding size_8_from
size-pair u v t len e k = rw (e, k) refl

to_8-single :
    (u : ℕ) (t : List ℕ) (room : ℕ)
    → (u == 0) ≡ false
    → is_high u ≡ false
    → utf16_to_8 (u ∷ t) room ≡ put_8 u room (utf16_to_8 t)
unfolding utf16_to_8
to_8-single u [] room e k = rw (e, k) refl
to_8-single u (v ∷ w) room e k = rw (e, k) refl

to_8-pair :
    (u v : ℕ) (t : List ℕ) (room : ℕ)
    → (u == 0) ≡ false
    → is_high u ≡ true
    → utf16_to_8 (u ∷ v ∷ t) room ≡ put_8 (join_units u v) room (utf16_to_8 t)
unfolding utf16_to_8
to_8-pair u v t room e k = rw (e, k) refl

joined :
    (c : ℕ)
    → 65536 ≤ c
    → c < 1114112
    → join_units (55296 + (c - 65536) / 1024) (56320 + (c - 65536) % 1024) ≡ c
unfolding join_units
joined c lo hi = omega arith

-- A character is read as a whole, be it a unit or a pair.
size-units :
    (c : ℕ) (t : List ℕ) (len : ℕ)
    → IsScalar c
    → size_8_from (units c ++ t) len ≡ size_8_from t (len + utf8_encode_size c)
unfolding units
size-units c t len h = elim (Bool-cases (ltb c 65536)) [
  | inl e ↦ rw e (size-single c t len (ground arith) (ground arith))
  | inr e ↦ rw e (
      size-pair _ _ t len (ground arith) (ground arith)
      ∙ ap (λ c. size_8_from t (len + utf8_encode_size c)) (joined c (ground arith) h.1))
]

to_8-units :
    (c : ℕ) (t : List ℕ) (room : ℕ)
    → IsScalar c
    → utf16_to_8 (units c ++ t) room ≡ put_8 c room (utf16_to_8 t)
unfolding units
to_8-units c t room h = elim (Bool-cases (ltb c 65536)) [
  | inl e ↦ rw e (to_8-single c t room (ground arith) (ground arith))
  | inr e ↦ rw e (
      to_8-pair _ _ t room (ground arith) (ground arith)
      ∙ ap (λ c. put_8 c room (utf16_to_8 t)) (joined c (ground arith) h.1))
]

size-text :
    (cs : List ℕ) (len : ℕ)
    → IsText cs
    → size_8_from (text_16 cs) len ≡ some (len + length (text_8 cs))
unfolding size_8_from
size-text [] len h = refl
size-text (c ∷ cs) len h =
    size-units c (text_16 cs) len h.0
    ∙ size-text cs (len + utf8_encode_size c) h.1
    ∙ ap some (omega (arith, length-append (utf8_encode c) (text_8 cs), length-utf8_encode c))

-- chiUtf8Size of a text in UTF-16 is its size in UTF-8, with the zero.
pub utf8_size-text : (cs : List ℕ) → IsText cs → utf8_size (text_16 cs) ≡ some (length (text_8 cs))
unfolding utf8_size
utf8_size-text cs h = size-text cs 0 h ∙ ap some (omega arith)

put_8-cut :
    (c : ℕ) (cs : List ℕ) (room : ℕ) (next : ℕ → Option (List ℕ))
    → ((r : ℕ) → next r ≡ some (text_8 (cut utf8_encode_size r cs)))
    → put_8 c room next ≡ some (text_8 (cut utf8_encode_size room (c ∷ cs)))
unfolding put_8
put_8-cut c cs room next h = elim (Bool-cases (leb room (utf8_encode_size c))) [
  | inl e ↦ rw e refl
  | inr e ↦ rw (e, h (room - utf8_encode_size c)) refl
]

-- chiUtf16To8 of a text writes the whole characters that leave room for the zero, and the zero.
pub to_8-text :
    (cs : List ℕ) (room : ℕ)
    → IsText cs
    → utf16_to_8 (text_16 cs) room ≡ some (text_8 (cut utf8_encode_size room cs))
unfolding utf16_to_8
to_8-text [] room h = refl
to_8-text (c ∷ cs) room h =
    to_8-units c (text_16 cs) room h.0
    ∙ put_8-cut c cs room (utf16_to_8 (text_16 cs)) (λ r. to_8-text cs r h.1)

-- For a text of Unicode characters in UTF-16, of which none is zero, and room for a cell or more,
-- chiUtf16To8 writes the UTF-8 of its first characters, as many as fit whole before the zero, and
-- the zero; no more cells than there is room for.
pub utf16_to_8-IsCut :
    (cs : List ℕ) (room : ℕ)
    → IsText cs
    → 0 < room
    → (utf16_to_8 (text_16 cs) room ≡ some (text_8 (cut utf8_encode_size room cs)))
      × (length (text_8 (cut utf8_encode_size room cs)) ≤ room)
utf16_to_8-IsCut cs room h some_room = (to_8-text cs room h, length-cut_8 room cs some_room)

-- For a text of Unicode characters in UTF-16, of which none is zero, chiAllocUtf16To8 is the same
-- text in the UTF-8 of the standard, complete and with the zero.
pub alloc_utf16_to_8_lem :
    (cs : List ℕ) → IsText cs → alloc_utf16_to_8 (text_16 cs) ≡ some (text_octets cs)
unfolding alloc_utf16_to_8
alloc_utf16_to_8_lem cs h =
    rw (utf8_size-text cs h, to_8-text cs (length (text_8 cs)) h)
      (ap (λ t. some (text_8 t)) (cut_8_all (length (text_8 cs)) cs (omega arith))
        ∙ ap some (text_8-octets cs h))

-- A text whose last unit is the first of a pair.
abbrev pub unpaired : List ℕ → ℕ → List ℕ
unpaired [] u = u ∷ 0 ∷ []
unpaired (c ∷ cs) u = units c ++ unpaired cs u

size-unpaired :
    (cs : List ℕ) (u len : ℕ)
    → IsText cs
    → is_high u ≡ true
    → size_8_from (unpaired cs u) len ≡ none
unfolding size_8_from
size-unpaired [] u len h k = size-pair u 0 [] len (ground arith) k
size-unpaired (c ∷ cs) u len h k =
    size-units c (unpaired cs u) len h.0 ∙ size-unpaired cs u (len + utf8_encode_size c) h.1 k

-- For a text of Unicode characters in UTF-16, of which none is zero, followed by the first unit of
-- a pair and the zero, chiUtf8Size takes the zero for the second unit and reads on after the end of
-- the memory.
pub utf8_size-unpaired :
    (cs : List ℕ) (u : ℕ) → IsText cs → is_high u ≡ true → utf8_size (unpaired cs u) ≡ none
unfolding utf8_size
utf8_size-unpaired cs u h k = size-unpaired cs u 0 h k
