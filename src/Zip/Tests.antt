-- ===== src/Zip/Tests.antt =====
-- A small archive, and instances of the theorems about archives.
use crts.Prelude.{
  ℕ, zero, suc, ◌+◌, ◌%◌, ◌^◌, ◌<◌, ◌≡◌, ◌↔◌, refl, subst, true, Option, none, some, List, [], ◌∷◌,
  arith, ltb, length, take, drop, get_or, all, Bool-cases, inl, inr,
}
use crts.Hashes.Valid.{Has}
use crts.Hashes.Find.{Search}
use crts.Zip.{Zip, ZipFile, done, files, zip_open, zip_find}
use crts.Zip.Open.{Opened, zip_open-Opened, get_or-drop}
use crts.Zip.Format.{Item, IsItem, archive, Among, Distinct, listing}
use crts.Zip.Whole.{file_of, zip_open-Lists}

abbrev by_length : List ℕ → ℕ
by_length k = length k % 2 ^ 64

by_length-lt : (k : List ℕ) → by_length k < 2 ^ 64
by_length-lt k = omega arith

abbrev item_of : List ℕ → ℕ → ℕ → ℕ → Item
item_of name size attrs offset = record {
  versions = 20;
  flags = 0;
  method = 0;
  time = 0;
  date = 0;
  crc = 0;
  compressed_size = size;
  uncompressed_size = size;
  disk = 0;
  internal_attrs = 0;
  external_attrs = attrs;
  offset = offset;
  name = name;
  extra = [];
  comment = [];
}

abbrev a_file : Item
a_file = item_of (b'a' ∷ []) 5 0 0

abbrev a_dir : Item
a_dir = item_of (b'd' ∷ b'/' ∷ []) 0 0x10 3

abbrev two : List Item
two = a_file ∷ a_dir ∷ []

abbrev front : List ℕ
front = 1 ∷ 2 ∷ 3 ∷ []

a_file-IsItem : IsItem a_file
a_file-IsItem = record {
  word = omega arith;
  plain = refl;
  not_empty = omega arith;
  short = omega arith;
  extra_size = omega arith;
  comment_size = omega arith;
  small = omega arith;
  compressed = omega arith;
  attrs = omega arith;
  inside = omega arith;
}

a_dir-IsItem : IsItem a_dir
a_dir-IsItem = record {
  word = omega arith;
  plain = refl;
  not_empty = omega arith;
  short = omega arith;
  extra_size = omega arith;
  comment_size = omega arith;
  small = omega arith;
  compressed = omega arith;
  attrs = omega arith;
  inside = omega arith;
}

two-Distinct : Distinct (listing two)
two-Distinct = (λ k. k.1, tt)

zip_open-Lists_example :
    (z : Zip by_length by_length-lt) × (zip_open by_length by_length-lt
        (some (file_of (archive 0 front two)))
      ≡ done z)
    × ((name : List ℕ)
        → (r : Option ℕ) × (zip_find by_length by_length-lt z name ≡ some r)
          × Search (files by_length by_length-lt) z.hash name r)
    × ((f : ZipFile) → Has (files by_length by_length-lt) z.hash f ↔ Among f (listing two))
zip_open-Lists_example =
    zip_open-Lists 0 front two (omega arith) (omega arith) by_length by_length-lt
      (a_file-IsItem, (a_dir-IsItem, tt)) two-Distinct

-- The bytes of a list are bytes.
small : (xs : List ℕ) → all (λ b. ltb b 256) xs ≡ true → (i : ℕ) → get_or xs i 0 < 256
small [] h i = omega arith
small (x ∷ xs) h zero = ground arith
small (x ∷ xs) h (suc i) = small xs (ground arith) i

take_small :
    (n : ℕ) (xs : List ℕ) → ((i : ℕ) → get_or xs i 0 < 256) → (i : ℕ) → get_or (take n xs) i 0 < 256
take_small zero xs h i = omega arith
take_small (suc n) [] h i = omega arith
take_small (suc n) (x ∷ xs) h zero = h 0
take_small (suc n) (x ∷ xs) h (suc i) = take_small n xs (λ k. h (suc k)) i

file_of-bytes :
    (xs : List ℕ)
    → ((i : ℕ) → get_or xs i 0 < 256)
    → (n o : ℕ) (b : List ℕ) (i : ℕ) → (file_of xs).read_off n o ≡ some b
    → get_or b i 0 < 256
file_of-bytes xs h n o b i e = elim (Bool-cases (ltb (length xs) (o + n))) [
  | inl out ↦ (let wrong : none ≡ some b = rw out at e in cc)
  | inr inside ↦
      let found : some (take n (drop o xs)) ≡ some b = rw inside at e in
      let same : take n (drop o xs) ≡ b = cc in
      subst (λ (c : List ℕ). get_or c i 0 < 256) same
        (take_small n (drop o xs)
          (λ k. (let there = get_or-drop o xs k 0 in let low = h (o + k) in omega arith)) i)
]

zip_open-Opened_example :
    Opened by_length by_length-lt
      (some (file_of (archive 0 front two)))
      (zip_open by_length by_length-lt (some (file_of (archive 0 front two))))
zip_open-Opened_example =
    zip_open-Opened by_length by_length-lt (file_of (archive 0 front two))
      (file_of-bytes (archive 0 front two) (small (archive 0 front two) refl))
