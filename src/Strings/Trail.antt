-- ===== src/Strings/Trail.antt =====
-- The last byte of an object tells the size of the string.
use Prim.Native.Nat.{bit_and}
use crts.Prelude.{
  ℕ, zero, suc, ◌+◌, ◌-◌, ◌*◌, ◌/◌, ◌%◌, ◌^◌, ◌≤◌, ◌<◌, ◌≡◌, refl, sym, ap, ◌∙◌, true, Option, some,
  List, [], ◌∷◌, ◌++◌, length, length-set, get_or, set, take, take_all, arith, leb, ◌==◌,
  Bool-cases, inl, inr, all, ltb,
}
use mathlib.Core.List.{append_assoc, append-nil}
use crts.Prelude.Bits.{bit_and-mask}
use crts.Strings.{
  Str, object, word_size, words_of, clear_pad, set_trail_size, string_trail_size, string_ref, small,
  from_small_string, copy_to, new_string_uninitialized, new_string_from_bytes, string_from_bytes,
  fits_small_string,
}
use crts.Strings.Small.{Bytes, string_ref-small}

module _ {A : Type 0} where
  pub take-set_after : (xs : List A) (n i : ℕ) (v : A) → n ≤ i → take n (set xs i v) ≡ take n xs
  take-set_after [] n i v h = refl
  take-set_after (x ∷ xs) zero i v h = refl
  take-set_after (x ∷ xs) (suc n) zero v h = absurd (omega arith)
  take-set_after (x ∷ xs) (suc n) (suc i) v h = ap (◌∷◌ x) (take-set_after xs n i v (omega arith))

  take-set_last :
      (xs : List A) (i : ℕ) (v : A)
      → i < length xs
      → take (suc i) (set xs i v) ≡ take i xs ++ v ∷ []
  take-set_last [] i v h = absurd (omega arith)
  take-set_last (x ∷ xs) zero v h = refl
  take-set_last (x ∷ xs) (suc i) v h = ap (◌∷◌ x) (take-set_last xs i v (omega arith))

pub get_set_self : (xs : List ℕ) (i v : ℕ) → i < length xs → get_or (set xs i v) i 0 ≡ v
get_set_self [] i v h = absurd (omega arith)
get_set_self (x ∷ xs) zero v h = refl
get_set_self (x ∷ xs) (suc i) v h = get_set_self xs i v (omega arith)

pub get_set_before : (xs : List ℕ) (i j v : ℕ) → i < j → get_or (set xs i v) j 0 ≡ get_or xs j 0
get_set_before [] i j v h = refl
get_set_before (x ∷ xs) zero zero v h = absurd (omega arith)
get_set_before (x ∷ xs) zero (suc j) v h = refl
get_set_before (x ∷ xs) (suc i) zero v h = absurd (omega arith)
get_set_before (x ∷ xs) (suc i) (suc j) v h = get_set_before xs i j v (omega arith)

pub length-copy_to :
    (bytes : List ℕ) (at : ℕ) (xs : List ℕ) → length (copy_to bytes at xs) ≡ length bytes
length-copy_to bytes at [] = refl
length-copy_to bytes at (x ∷ xs) =
    length-copy_to (set bytes at x) (at + 1) xs ∙ length-set bytes at x

-- What is copied stands behind what was there before it.
pub take-copy_to :
    (bytes : List ℕ) (at : ℕ) (xs : List ℕ)
    → at + length xs ≤ length bytes
    → take (at + length xs) (copy_to bytes at xs) ≡ take at bytes ++ xs
take-copy_to bytes at [] h =
    let none_more : at + 0 ≡ at = omega arith in
    ap (λ k. take k bytes) none_more ∙ sym (append-nil (take at bytes))
take-copy_to bytes at (x ∷ xs) h =
    let all : at + suc (length xs) ≡ at + 1 + length xs = omega arith in
    let one : at + 1 ≡ suc at = omega arith in
    rw all (
      take-copy_to (set bytes at x) (at + 1) xs (omega (arith, length-set bytes at x))
      ∙ ap (λ k. take k (set bytes at x) ++ xs) one
      ∙ ap (λ k. k ++ xs) (take-set_last bytes at x (omega arith))
      ∙ append_assoc (take at bytes) (x ∷ []) xs)

pub get_copy_after :
    (bytes : List ℕ) (at : ℕ) (xs : List ℕ) (j : ℕ)
    → at + length xs ≤ j
    → get_or (copy_to bytes at xs) j 0 ≡ get_or bytes j 0
get_copy_after bytes at [] j h = refl
get_copy_after bytes at (x ∷ xs) j h =
    get_copy_after (set bytes at x) (at + 1) xs j (omega arith)
    ∙ get_set_before bytes at j x (omega arith)

module _ (size : ℕ) where
  length-clear_pad :
      (left i pad : ℕ) (bytes : List ℕ) → length (clear_pad left i size pad bytes) ≡ length bytes
  unfolding clear_pad
  length-clear_pad zero i pad bytes = refl
  length-clear_pad (suc left) i pad bytes = elim (Bool-cases (pad == 0)) [
    | inl none_left ↦ rw none_left (length-clear_pad left (i + 1) pad bytes)
    | inr more ↦ rw more (
        length-clear_pad left (i + 1) (pad - 1) (set bytes (size + i) 0)
        ∙ length-set bytes (size + i) 0)
  ]

  take-clear_pad :
      (left i pad : ℕ) (bytes : List ℕ)
      → take size (clear_pad left i size pad bytes) ≡ take size bytes
  unfolding clear_pad
  take-clear_pad zero i pad bytes = refl
  take-clear_pad (suc left) i pad bytes = elim (Bool-cases (pad == 0)) [
    | inl none_left ↦ rw none_left (take-clear_pad left (i + 1) pad bytes)
    | inr more ↦ rw more (
        take-clear_pad left (i + 1) (pad - 1) (set bytes (size + i) 0)
        ∙ take-set_after bytes size (size + i) 0 (omega arith))
  ]

  clear_none :
      (left i pad : ℕ) (bytes : List ℕ)
      → (pad == 0) ≡ true
      → clear_pad left i size pad bytes ≡ bytes
  unfolding clear_pad
  clear_none zero i pad bytes h = refl
  clear_none (suc left) i pad bytes h = rw h (clear_none left (i + 1) pad bytes h)

  -- The last byte is not cleared.
  get_clear_pad :
      (left i pad j : ℕ) (bytes : List ℕ)
      → size + (i + pad) ≤ j
      → get_or (clear_pad left i size pad bytes) j 0 ≡ get_or bytes j 0
  unfolding clear_pad
  get_clear_pad zero i pad j bytes h = refl
  get_clear_pad (suc left) i pad j bytes h = elim (Bool-cases (pad == 0)) [
    | inl none_left ↦
        rw none_left (ap (λ b. get_or b j 0) (clear_none left (i + 1) pad bytes none_left))
    | inr more ↦
        let some_left : 0 < pad = ground arith in
        rw more (
          get_clear_pad left (i + 1) (pad - 1) j (set bytes (size + i) 0) (omega arith)
          ∙ get_set_before bytes (size + i) j 0 (omega arith))
  ]

mask_7 : (n : ℕ) → bit_and n 7 ≡ n % 8
mask_7 n = bit_and-mask 3 n

-- The index of the last byte.
pub last_index :
    (size : ℕ) → size + 1 < 2 ^ 32 → word_size * words_of size ≡ size + (7 - size % 8) + 1
last_index size h = omega arith

-- An object whose last byte is right stands for the bytes before.
pub string_ref-Trailed :
    (bytes : List ℕ) (size : ℕ)
    → size + 1 < 2 ^ 32
    → length bytes ≡ word_size * words_of size
    → get_or bytes (size + (7 - size % 8)) 0 ≡ 7 - size % 8
    → string_ref (object bytes) ≡ take size bytes
unfolding string_ref string_trail_size
string_ref-Trailed bytes size low sized trail =
    let w = words_of size in
    let words : length bytes / 8 ≡ w = omega arith in
    let last : w * 8 - 1 ≡ size + (7 - size % 8) = omega (arith, last_index size low) in
    let found : 8 * w - 1 - get_or bytes (w * 8 - 1) 0 ≡ size =
      omega (arith, ap (λ k. get_or bytes k 0) last, last_index size low) in
    ap (λ k. take (8 * k - 1 - get_or bytes (k * 8 - 1) 0) bytes) words
    ∙ ap (λ k. take k bytes) found

module _ (bytes : List ℕ) (size : ℕ) (low : size + 1 < 2 ^ 32)
    (sized : word_size * words_of size ≤ length bytes) where
  pub length-set_trail : length (set_trail_size bytes size) ≡ length bytes
  unfolding set_trail_size
  length-set_trail =
      length-clear_pad size 7 0 _ _
      ∙ length-set bytes (size + (7 - bit_and size 7)) (7 - bit_and size 7)

  pub take-set_trail : take size (set_trail_size bytes size) ≡ take size bytes
  unfolding set_trail_size
  take-set_trail =
      take-clear_pad size 7 0 _ _
      ∙ take-set_after bytes size (size + (7 - bit_and size 7)) (7 - bit_and size 7) (omega arith)

  pub get_set_trail : get_or (set_trail_size bytes size) (size + (7 - size % 8)) 0 ≡ 7 - size % 8
  unfolding set_trail_size
  get_set_trail = rw (mask_7 size) (
      get_clear_pad size 7 0 (7 - size % 8) (size + (7 - size % 8))
        (set bytes (size + (7 - size % 8)) (7 - size % 8)) (omega arith)
      ∙ get_set_self bytes (size + (7 - size % 8)) (7 - size % 8)
          (omega (arith, last_index size low)))

-- What chiNewInl returns has the words that are asked for.
module _ (new : ℕ → Option (List ℕ))
    (new_length : (w : ℕ) (b : List ℕ) → new w ≡ some b → length b ≡ word_size * w) where
  -- If there is memory for it, the string that is made from fewer than 2 ^ 32 - 1 bytes, each below
  -- 256, stands for them.
  pub string_ref-string_from_bytes :
      (xs : List ℕ) (b : List ℕ)
      → length xs + 1 < 2 ^ 32
      → Bytes xs
      → new (words_of (length xs)) ≡ some b
      → (s : Str) × (string_from_bytes new xs ≡ some s) × (string_ref s ≡ xs)
  unfolding string_from_bytes new_string_from_bytes new_string_uninitialized fits_small_string
  string_ref-string_from_bytes xs b low bytes ends = elim (Bool-cases (leb (length xs) 7)) [
    | inl little ↦
        let whole : take (length xs) xs ≡ xs = take_all (length xs) xs (omega arith) in
        (
          small (from_small_string xs (length xs)),
          rw little refl,
          string_ref-small xs (length xs) (ground arith) (omega arith)
                (ap (λ k. all (λ x. ltb x 256) k) whole ∙ bytes)
              ∙ whole,
        )
    | inr big ↦
        let n = length xs in
        let sized : length b ≡ word_size * words_of n = new_length (words_of n) b ends in
        let c = set_trail_size b n in
        let fits : word_size * words_of n ≤ length b = omega arith in
        let same : length c ≡ length b = length-set_trail b n low fits in
        let start : 0 + n ≡ n = omega arith in
        let copied : take n (copy_to c 0 xs) ≡ xs =
          ap (λ k. take k (copy_to c 0 xs)) (sym start)
          ∙ take-copy_to c 0 xs (omega (arith, last_index n low)) in
        (
          object (copy_to c 0 xs),
          rw (big, ends) refl,
          string_ref-Trailed (copy_to c 0 xs) n low (length-copy_to c 0 xs ∙ same ∙ sized)
                (get_copy_after c 0 xs (n + (7 - n % 8)) (omega arith) ∙ get_set_trail b n low fits)
              ∙ copied,
        )
  ]
