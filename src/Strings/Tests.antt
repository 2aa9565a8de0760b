-- ===== src/Strings/Tests.antt =====
-- Runs of the string functions, and instances of the theorems about strings.
use crts.Prelude.{
  ℕ, ◌*◌, ◌≡◌, ◌^◌, ◌-◌, refl, ap, sym, ◌∙◌, Bool, Option, some, List, [], ◌∷◌, ◌++◌, arith, length,
  length-replicate, replicate,
}
use crts.Strings.{
  Str, object, small, StringBuilder, word_size, string_from_bytes, new_string_from_bytes,
  new_string_uninitialized, set_trail_size, clear_pad, string_ref, from_small_string, small_loop,
  fits_small_string, builder_try_new, builder_ensure, builder_append, builder_build,
}
use crts.Strings.Trail.{string_ref-string_from_bytes}
use crts.Strings.Build.{Holds, Ensured, builder_ensure-Ensured, builder_build-append}

-- Fresh memory has any content.
abbrev new : ℕ → Option (List ℕ)
new w = some (replicate (word_size * w) 170)

new-length : (w : ℕ) (b : List ℕ) → new w ≡ some b → length b ≡ word_size * w
new-length w b e =
    let same : replicate (word_size * w) 170 ≡ b = cc in
    ap length (sym same) ∙ length-replicate (word_size * w) 170

abbrev nine : List ℕ
nine = 1 ∷ 2 ∷ 3 ∷ 4 ∷ 5 ∷ 6 ∷ 7 ∷ 8 ∷ 9 ∷ []

-- The last byte of the two words is the number of zeros before it.
string_of_nine : string_from_bytes new nine ≡ some (object (nine ++ 0 ∷ 0 ∷ 0 ∷ 0 ∷ 0 ∷ 0 ∷ 6 ∷ []))
unfolding string_from_bytes fits_small_string new_string_from_bytes new_string_uninitialized
    set_trail_size clear_pad
string_of_nine = refl

small_round : string_ref (small (from_small_string (1 ∷ 0 ∷ 255 ∷ []) 3)) ≡ 1 ∷ 0 ∷ 255 ∷ []
unfolding string_ref from_small_string small_loop
small_round = refl

string_ref-string_from_bytes_example :
    (s : Str) × (string_from_bytes new nine ≡ some s) × (string_ref s ≡ nine)
string_ref-string_from_bytes_example =
    string_ref-string_from_bytes new new-length nine (replicate 16 170) (omega arith) refl refl

abbrev filled : StringBuilder
filled = record { buf = nine ++ replicate 31 170; size = 9; cap = 32 }

filled-Holds : Holds filled nine
filled-Holds = record {
  sized = refl;
  wide = omega arith;
  narrow = omega arith;
  fits = omega arith;
  counted = refl;
  text = refl;
}

-- Nine bytes and thirty more are more than 32.
builder_ensure-Ensured_example :
    (r : StringBuilder × Bool) × (builder_ensure new filled 30 ≡ some r) × Ensured filled nine 30 r
builder_ensure-Ensured_example =
    builder_ensure-Ensured new new-length filled nine 30 filled-Holds (omega arith)

builder_build-append_example :
    string_ref (builder_build (builder_append filled (10 ∷ 11 ∷ []))) ≡ nine ++ 10 ∷ 11 ∷ []
builder_build-append_example =
    builder_build-append filled nine (10 ∷ 11 ∷ []) filled-Holds (omega arith) refl

-- A builder of 2 ^ 32 - 1 bytes has no word: the sum with the trailing byte wraps.
no_words : builder_try_new new (2 ^ 32 - 1) ≡ some (record { buf = []; size = 0; cap = 2 ^ 32 - 1 })
unfolding builder_try_new
no_words = refl
