-- ===== src/Zip/Whole.antt =====
-- zipOpen and zipFind of an archive that is written as it should be.
use crts.Prelude.{
  ℕ, zero, suc, ◌+◌, ◌-◌, ◌*◌, ◌^◌, ◌≤◌, ◌<◌, ◌≡◌, ◌↔◌, refl, sym, ap, ◌∙◌, ◌⊎◌, inl, inr, false,
  ◌||◌, Option, none, some, List, [], ◌∷◌, ◌++◌, length, take, drop, ltb, if◌then◌else◌, arith,
  get_or, length-append, length-drop, take_all, min,
}
use crts.Hashes.{empty}
use crts.Hashes.Valid.{Has}
use crts.Hashes.Find.{Search}
use crts.Hashes.Create.{find-Ready}
use crts.Zip.{
  File, Zip, ZipFile, done, files, le_32, end_record_sig, end_record_size, end_record, end_from,
  find_end_record, zip_open, zip_find,
}
use crts.Zip.Open.{get_or-drop, empty-IsArchive}
use crts.Zip.Format.{Item, AllItems, directory, end_bytes, archive, Among, Distinct, listing}
use crts.Zip.Written.{drop-past, take_front, read_16, read_32}
use crts.Zip.Lists.{parse_records-Lists}

-- A file with these bytes.
abbrev pub file_of : List ℕ → File
file_of bytes = record {
  file_size = length bytes;
  read_off = λ n o. if ltb (length bytes) (o + n) then none else some (take n (drop o bytes));
}

drop-drop : (n m : ℕ) (xs : List ℕ) → drop n (drop m xs) ≡ drop (m + n) xs
drop-drop n zero xs = (let e : 0 + n ≡ n = omega arith in rw e refl)
drop-drop zero (suc m) [] =
    (let e : suc m + 0 ≡ suc m = omega arith in sym (ap (λ i. drop {A = ℕ} i []) e))
drop-drop (suc n) (suc m) [] = (let e : suc m + suc n ≡ suc (m + suc n) = omega arith in rw e refl)
drop-drop n (suc m) (x ∷ xs) =
    (let e : suc m + n ≡ suc (m + n) = omega arith in rw e (drop-drop n m xs))

end_from-hit :
    (block : List ℕ) (pos : ℕ) → le_32 block pos ≡ end_record_sig → end_from block pos ≡ done pos
unfolding end_from
end_from-hit block zero h = ground (arith, h)
end_from-hit block (suc pos) h = ground (arith, h)

le_32-drop : (n : ℕ) (xs : List ℕ) → le_32 (drop n xs) 0 ≡ le_32 xs n
le_32-drop n xs =
    let zero_more : n + 0 ≡ n = omega arith in
    let three : n + 2 + 1 ≡ n + 3 = omega arith in
    omega (
      arith,
      get_or-drop n xs 0 0,
      get_or-drop n xs 1 0,
      get_or-drop n xs 2 0,
      get_or-drop n xs 3 0,
      ap (λ i. get_or xs i 0) zero_more,
      ap (λ i. get_or xs i 0) three,
    )

items-le : (items : List Item) → length items ≤ length (directory items)
items-le [] = omega arith
items-le (it ∷ its) = omega (
  arith,
  items-le its,
  length-append it.name (it.extra ++ (it.comment ++ directory its)),
  length-append it.extra (it.comment ++ directory its),
  length-append it.comment (directory its),
)

module _ (disks : ℕ) (front : List ℕ) (items : List Item) (few : length items < 2 ^ 16)
    (fits : length (archive disks front items) < 2 ^ 32) where
  abbrev tail : List ℕ
  tail = end_bytes disks front items

  sizes : length (archive disks front items) ≡ length front + length (directory items) + 22
  sizes =
      omega
        (arith, length-append front (directory items ++ tail), length-append (directory items) tail)

  num_records-read : (end_record tail).num_records ≡ length items
  unfolding end_record
  num_records-read = read_16 (length items) few

  dir_size-read : (end_record tail).dir_size ≡ length (directory items)
  unfolding end_record
  dir_size-read = read_32 (length (directory items)) (omega (arith, sizes))

  dir_start-read : (end_record tail).dir_start ≡ length front
  unfolding end_record
  dir_start-read = read_32 (length front) (omega (arith, sizes))

  find_end_record-whole :
      find_end_record (file_of (archive disks front items)) ≡ done (end_record tail)
  unfolding find_end_record
  find_end_record-whole =
      let size = length (archive disks front items) in
      let n = min size (2 * end_record_size) in
      let large : 22 ≤ size = omega (arith, sizes) in
      let start : (ltb size end_record_size || ltb (2 ^ 32 - 1) size) ≡ false = ground arith in
      let inside : ltb size (size - n + n) ≡ false = ground arith in
      let block : take n (drop (size - n) (archive disks front items))
          ≡ drop (size - n) (archive disks front items) =
        take_all n (drop (size - n) (archive disks front items))
          (omega (arith, length-drop (size - n) (archive disks front items))) in
      let last : drop (n - end_record_size) (drop (size - n) (archive disks front items)) ≡ tail =
        drop-drop (n - end_record_size) (size - n) (archive disks front items)
        ∙ drop-past front (directory items ++ tail) _ (length (directory items))
            (omega (arith, sizes))
        ∙ drop-past (directory items) tail _ 0 (omega arith) in
      let here : le_32 (drop (size - n) (archive disks front items)) (n - end_record_size)
          ≡ end_record_sig =
        sym (le_32-drop (n - end_record_size) (drop (size - n) (archive disks front items)))
        ∙ ap (λ b. le_32 b 0) last in
      rw
        (
          start,
          inside,
          block,
          end_from-hit (drop (size - n) (archive disks front items)) (n - end_record_size) here,
          last,
        )
        refl

  directory-whole :
      (file_of (archive disks front items)).read_off
        (end_record tail).dir_size
        (end_record tail).dir_start
      ≡ some (directory items)
  directory-whole =
      let inside : ltb (length (archive disks front items))
            (length front + length (directory items))
          ≡ false =
        ground (arith, sizes) in
      let start : drop (length front) (archive disks front items) ≡ directory items ++ tail =
        drop-past front (directory items ++ tail) _ 0 (omega arith) in
      let size = dir_size-read in
      let from = dir_start-read in
      rw (size, from, inside, start)
        (ap some (take_front (directory items) tail (length (directory items)) refl))

  module _ (hash_c_string : List ℕ → ℕ) (word : (k : List ℕ) → hash_c_string k < 2 ^ 64)
      (all : AllItems items) (distinct : Distinct (listing items)) where
    start_few : (empty (files hash_c_string word)).used + length items < 2 ^ 32
    unfolding empty
    start_few = omega (arith, items-le items, sizes)

    start-Has :
        (y : ZipFile) → ¬ Has (files hash_c_string word) (empty (files hash_c_string word)) y
    unfolding empty
    start-Has y hy = (let full = hy.1 in cc)

    only_new :
        (f : ZipFile)
        → Has (files hash_c_string word) (empty (files hash_c_string word)) f
          ⊎ Among f (listing items)
        → Among f (listing items)
    only_new f (inl old) = absurd (start-Has f old)
    only_new f (inr new) = new

    -- For an archive of less than 4 GiB that is written in the format, of fewer than 65536 records
    -- that the code supports, with different names, and an end record without a comment: zipOpen
    -- opens it, zipFind ends for every name with the file of that name or none, and the files are
    -- those of the records that are no directories, with their names, sizes, and starts.
    pub zip_open-Lists :
        (z : Zip hash_c_string word) × (zip_open hash_c_string word
            (some (file_of (archive disks front items)))
          ≡ done z)
        × ((name : List ℕ)
            → (r : Option ℕ) × (zip_find hash_c_string word z name ≡ some r)
              × Search (files hash_c_string word) z.hash name r)
        × ((f : ZipFile) → Has (files hash_c_string word) z.hash f ↔ Among f (listing items))
    unfolding zip_open zip_find
    zip_open-Lists =
        let start = empty-IsArchive hash_c_string word in
        let (g, read, lists) =
          parse_records-Lists hash_c_string word items (empty (files hash_c_string word)) all
            start.tidy start_few distinct (λ k. start-Has k.0 k.2) in
        let count = num_records-read in
        let z : Zip hash_c_string word = record {
          hash = g;
          handle = file_of (archive disks front items);
        } in
        (
          z,
          rw (find_end_record-whole, directory-whole, count, read) refl,
          λ name. find-Ready (files hash_c_string word) g name lists.tidy.ready,
          λ f. (λ h. only_new f ((lists.held f).0 h), λ h. (lists.held f).1 (inr h)),
        )
