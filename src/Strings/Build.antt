-- ===== src/Strings/Build.antt =====
-- The builder of strings is an append-only list of bytes.
use Prim.Native.Nat.pow
use native.Mathlib.Nat.{pow-succ', mod-eq_of_lt, mul_left_comm, mul_assoc}
use crts.Prelude.{
  ℕ, zero, suc, ◌+◌, ◌-◌, ◌*◌, ◌/◌, ◌%◌, ◌^◌, ◌≤◌, ◌<◌, ◌≡◌, refl, sym, ap, ◌∙◌, Bool, true, false,
  Option, none, some, List, [], ◌∷◌, ◌++◌, length, length-take, length-append, take, arith, leb,
  ltb, Bool-cases, inl, inr, max, all,
}
use crts.Strings.{
  StringBuilder, word_size, words_of, set_trail_size, string_ref, copy_to, grow_cap, regrown,
  try_grow, builder_ensure, builder_append, builder_build, builder_try_new, fits_small_string,
}
use crts.Strings.Small.{Bytes, string_ref-small, get_or-take}
use crts.Strings.Trail.{
  length-copy_to, take-copy_to, string_ref-Trailed, length-set_trail, take-set_trail, get_set_trail,
  last_index,
}

-- The builder has these bytes.
pub record Holds (sb : StringBuilder) (xs : List ℕ) : Type 0 where
  pub sized : length sb.buf ≡ word_size * words_of sb.cap
  pub wide : 32 ≤ sb.cap
  pub narrow : sb.cap + 1 < 2 ^ 32
  pub fits : sb.size ≤ sb.cap
  pub counted : sb.size ≡ length xs
  pub text : take sb.size sb.buf ≡ xs

-- What chiStringBuilderEnsure returns: a builder with the same bytes and room for more, or the old
-- one where the capacity would be too large or the heap is exhausted.
pub data Ensured (sb : StringBuilder) (xs : List ℕ) (n : ℕ) : StringBuilder × Bool → Type 0 where
  room : (g : StringBuilder) → Holds g xs → sb.size + n ≤ g.cap → Ensured sb xs n (g, true)
  refused : Ensured sb xs n (sb, false)

-- The loop ends at a capacity that is large enough.
grow_cap-ends :
    (fuel need cap : ℕ)
    → need ≤ cap * 2 ^ fuel
    → 0 < cap
    → (c : ℕ) × (grow_cap (suc fuel) need cap ≡ some c) × (need ≤ c) × (cap ≤ c)
unfolding grow_cap
grow_cap-ends zero need cap enough pos =
    let large : ltb cap need ≡ false = ground (arith, pow.zero 2) in
    (cap, rw large refl, ground arith, omega arith)
grow_cap-ends (suc fuel) need cap enough pos = elim (Bool-cases (ltb cap need)) [
  | inr large ↦ (cap, rw large refl, ground arith, omega arith)
  | inl little ↦
      let twice : cap * 200 / 100 ≡ 2 * cap = omega arith in
      let (c, ends, le, more) =
        grow_cap-ends fuel need (2 * cap)
          (omega (
            arith,
            ap (λ (k : ℕ). cap * k) (pow-succ' 2 fuel),
            mul_left_comm cap 2 (2 ^ fuel),
            mul_assoc 2 cap (2 ^ fuel),
          ))
          (omega arith) in
      rw (little, twice) (c, ends, le, omega arith)
]

words_mono : (a b : ℕ) → a ≤ b → b + 1 < 2 ^ 32 → words_of a ≤ words_of b
words_mono a b h low = omega arith

-- The words of a capacity hold its bytes.
words_hold : (a : ℕ) → a + 1 < 2 ^ 32 → a + 1 ≤ word_size * words_of a
words_hold a low = omega arith

module _ (new : ℕ → Option (List ℕ))
    (new_length : (w : ℕ) (b : List ℕ) → new w ≡ some b → length b ≡ word_size * w) where
  regrown-Ensured :
      (sb : StringBuilder) (xs : List ℕ) (n cap : ℕ) (o : Option (List ℕ))
      → Holds sb xs
      → new (words_of cap) ≡ o
      → sb.size + n ≤ cap
      → sb.cap ≤ cap
      → cap + 1 < 2 ^ 32
      → Ensured sb xs n (regrown sb cap o)
  unfolding regrown
  regrown-Ensured sb xs n cap none h e enough more low = refused
  regrown-Ensured sb xs n cap (some b) h e enough more low =
      let sized = new_length (words_of cap) b e in
      let kept = take sb.size sb.buf in
      let as_long : length kept ≡ sb.size = ap length h.text ∙ sym h.counted in
      let bound = words_hold cap low in
      let start : 0 + length kept ≡ sb.size = omega (arith, as_long) in
      room _
        (record {
          sized = length-copy_to b 0 kept ∙ sized;
          wide = omega (arith, h.wide);
          narrow = low;
          fits = omega arith;
          counted = h.counted;
          text =
              ap (λ k. take k (copy_to b 0 kept)) (sym start)
              ∙ take-copy_to b 0 kept (omega (arith, as_long))
              ∙ h.text;
        })
        enough

  -- chiStringBuilderEnsure for less than 2 ^ 32 bytes ends. Where it answers yes there is room for
  -- them, and the bytes of the builder are the same in any case.
  pub builder_ensure-Ensured :
      (sb : StringBuilder) (xs : List ℕ) (n : ℕ)
      → Holds sb xs
      → n < 2 ^ 32
      → (r : StringBuilder × Bool) × (builder_ensure new sb n ≡ some r) × Ensured sb xs n r
  unfolding builder_ensure try_grow
  builder_ensure-Ensured sb xs n h low = elim (Bool-cases (leb (sb.size + n) sb.cap)) [
    | inl enough ↦ ((sb, true), rw enough refl, room sb h (ground arith))
    | inr little ↦
        let wide = h.wide in
        let (c, ends, le, more) =
          grow_cap-ends 33 (sb.size + n) sb.cap (omega (arith, h.fits, h.narrow)) (omega arith) in
        elim (Bool-cases (leb (2 ^ 32 - 1) c)) [
          | inl large ↦ ((sb, false), rw (little, ends, large) refl, refused)
          | inr fits ↦ (
            regrown sb c (new (words_of c)),
            rw (little, ends, fits) refl,
            regrown-Ensured sb xs n c _ h refl le more (ground arith),
          )
        ]
  ]

  pub builder_try_new-Holds :
      (cap : ℕ) (b : List ℕ)
      → cap + 1 < 2 ^ 32
      → new (words_of (max cap 32)) ≡ some b
      → (sb : StringBuilder) × (builder_try_new new cap ≡ some sb) × Holds sb []
  unfolding builder_try_new
  builder_try_new-Holds cap b low e = (
    record { buf = b; size = 0; cap = max cap 32 },
    rw e refl,
    record {
      sized = new_length (words_of (max cap 32)) b e;
      wide = omega arith;
      narrow = omega arith;
      fits = omega arith;
      counted = refl;
      text = refl;
    },
  )

append-Holds :
    (sb : StringBuilder) (xs ys : List ℕ)
    → Holds sb xs
    → sb.size + length ys ≤ sb.cap
    → Holds (builder_append sb ys) (xs ++ ys)
unfolding builder_append
append-Holds sb xs ys h enough =
    let low = h.narrow in
    let whole : (sb.size + length ys) % 2 ^ 32 ≡ sb.size + length ys = mod-eq_of_lt (omega arith) in
    let bound = words_hold sb.cap low in
    record {
      sized = length-copy_to sb.buf sb.size ys ∙ h.sized;
      wide = h.wide;
      narrow = low;
      fits = omega arith;
      counted = omega (arith, h.counted, length-append xs ys);
      text =
          ap (λ k. take k (copy_to sb.buf sb.size ys)) whole
          ∙ take-copy_to sb.buf sb.size ys (omega (arith, h.sized))
          ∙ ap (λ k. k ++ ys) h.text;
    }

take-take : {A : Type 0} (n m : ℕ) (xs : List A) → n ≤ m → take n (take m xs) ≡ take n xs
take-take zero m xs h = refl
take-take (suc n) zero xs h = absurd (omega arith)
take-take (suc n) (suc m) [] h = refl
take-take (suc n) (suc m) (x ∷ xs) h = ap (◌∷◌ x) (take-take n m xs (omega arith))

build-text :
    (sb : StringBuilder) (xs : List ℕ) → Holds sb xs → Bytes xs → string_ref (builder_build sb) ≡ xs
unfolding builder_build fits_small_string
build-text sb xs h bytes = elim (Bool-cases (leb sb.size 7)) [
  | inl little ↦
      let bound = words_hold sb.cap h.narrow in
      rw little (
        string_ref-small sb.buf sb.size (ground arith) (omega (arith, h.sized, h.fits))
          (ap (λ k. all (λ x. ltb x 256) k) h.text ∙ bytes)
        ∙ h.text)
  | inr big ↦
      let low = h.narrow in
      let size = sb.size in
      let w = word_size * words_of size in
      let within : w ≤ length sb.buf = omega (arith, h.sized, words_mono size sb.cap h.fits low) in
      let c = set_trail_size sb.buf size in
      let bound = words_hold size (omega (arith, h.fits)) in
      let less : size + 1 < 2 ^ 32 = omega (arith, h.fits) in
      let same : length c ≡ length sb.buf = length-set_trail sb.buf size less within in
      rw big (
        string_ref-Trailed (take w c) size less (omega (arith, length-take w c)) (
          get_or-take w c (size + (7 - size % 8)) (omega (arith, last_index size less))
          ∙ get_set_trail sb.buf size less within)
        ∙ take-take size w c (omega arith)
        ∙ take-set_trail sb.buf size less within
        ∙ h.text)
]

-- Appending to a builder with room and building the string gives the bytes of the builder and then
-- the new ones, where each of them is below 256.
pub builder_build-append :
    (sb : StringBuilder) (xs ys : List ℕ)
    → Holds sb xs
    → sb.size + length ys ≤ sb.cap
    → Bytes (xs ++ ys)
    → string_ref (builder_build (builder_append sb ys)) ≡ xs ++ ys
builder_build-append sb xs ys h enough bytes =
    build-text (builder_append sb ys) (xs ++ ys) (append-Holds sb xs ys h enough) bytes
