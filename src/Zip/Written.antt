-- ===== src/Zip/Written.antt =====
-- Reading the directory of an archive gives the files that are written there.
use Prim.Native.Nat.{bit_and}
use crts.Prelude.{
  ℕ, zero, suc, ◌+◌, ◌^◌, ◌<◌, ◌≡◌, refl, ap, ◌∙◌, true, false, ◌||◌, List, [], ◌∷◌, ◌++◌, length,
  take, drop, ltb, ◌==◌, if◌then◌else◌, arith, get_or, length-append,
}
use crts.Hashes.{create}
use crts.Zip.{
  done, files, add_file, parse_file_record, file_record, le_16, le_32, file_record_size,
  file_record_sig, gp_unsupported, name_limit, size_limit, zip_file, FileRecord, c_string,
}
use crts.Zip.Table.{Table}
use crts.Zip.Format.{Item, IsItem, head, is_dir, stored, bytes_16, bytes_32}
use native.Mathlib.Nat.{mod-eq_of_lt}
use crts.Prelude.{some}

pub drop-past :
    {A : Type 0} (xs ys : List A) (n k : ℕ) → n ≡ length xs + k → drop n (xs ++ ys) ≡ drop k ys
drop-past [] ys n k e = (let same : n ≡ k = omega arith in ap (λ i. drop i ys) same)
drop-past (x ∷ xs) ys zero k e = absurd (omega arith)
drop-past (x ∷ xs) ys (suc n) k e = drop-past xs ys n k (omega arith)

pub take_front : {A : Type 0} (xs ys : List A) (n : ℕ) → n ≡ length xs → take n (xs ++ ys) ≡ xs
take_front [] ys zero e = refl
take_front [] ys (suc n) e = absurd (omega arith)
take_front (x ∷ xs) ys zero e = absurd (omega arith)
take_front (x ∷ xs) ys (suc n) e = ap (◌∷◌ x) (take_front xs ys n (omega arith))

get_or-append : (xs ys : List ℕ) (i d : ℕ) → i < length xs → get_or (xs ++ ys) i d ≡ get_or xs i d
get_or-append [] ys i d h = absurd (omega arith)
get_or-append (x ∷ xs) ys zero d h = refl
get_or-append (x ∷ xs) ys (suc i) d h = get_or-append xs ys i d (omega arith)

le_16-append : (xs ys : List ℕ) (i : ℕ) → i + 1 < length xs → le_16 (xs ++ ys) i ≡ le_16 xs i
le_16-append xs ys i h =
    rw (get_or-append xs ys i 0 (omega arith), get_or-append xs ys (i + 1) 0 h) refl

le_32-append : (xs ys : List ℕ) (i : ℕ) → i + 3 < length xs → le_32 (xs ++ ys) i ≡ le_32 xs i
le_32-append xs ys i h =
    omega (arith, le_16-append xs ys i (omega arith), le_16-append xs ys (i + 2) (omega arith))

file_record-append :
    (xs ys : List ℕ) → length xs ≡ file_record_size → file_record (xs ++ ys) ≡ file_record xs
unfolding file_record
file_record-append xs ys h = λ j. record {
  sig = le_32-append xs ys 0 (omega (arith, h)) j;
  general_purpose = le_16-append xs ys 8 (omega (arith, h)) j;
  compressed_size = le_32-append xs ys 20 (omega (arith, h)) j;
  uncompressed_size = le_32-append xs ys 24 (omega (arith, h)) j;
  name_size = le_16-append xs ys 28 (omega (arith, h)) j;
  extra_size = le_16-append xs ys 30 (omega (arith, h)) j;
  comment_size = le_16-append xs ys 32 (omega (arith, h)) j;
  external_attrs = le_32-append xs ys 38 (omega (arith, h)) j;
  start = le_32-append xs ys 42 (omega (arith, h)) j;
}

-- The fields of a record as they were written.
abbrev pub fields : Item → FileRecord
fields it = record {
  sig = file_record_sig;
  general_purpose = it.flags;
  compressed_size = it.compressed_size;
  uncompressed_size = it.uncompressed_size;
  name_size = length it.name;
  extra_size = length it.extra;
  comment_size = length it.comment;
  external_attrs = it.external_attrs;
  start = it.offset;
}

pub read_16 : (n : ℕ) → n < 2 ^ 16 → le_16 (bytes_16 n) 0 ≡ n
read_16 n h = omega arith

pub read_32 : (n : ℕ) → n < 2 ^ 32 → le_32 (bytes_32 n) 0 ≡ n
read_32 n h = omega arith

file_record-head : (it : Item) → IsItem it → file_record (head it) ≡ fields it
unfolding file_record
file_record-head it i =
    let inside = i.inside in
    let short = i.short in
    let small = i.small in
    λ j. record {
      sig = file_record_sig;
      general_purpose = read_16 it.flags i.word j;
      compressed_size = read_32 it.compressed_size i.compressed j;
      uncompressed_size = read_32 it.uncompressed_size (omega arith) j;
      name_size = read_16 (length it.name) (omega arith) j;
      extra_size = read_16 (length it.extra) i.extra_size j;
      comment_size = read_16 (length it.comment) i.comment_size j;
      external_attrs = read_32 it.external_attrs i.attrs j;
      start = read_32 it.offset (omega arith) j;
    }

module _ (hash_c_string : List ℕ → ℕ) (word : (k : List ℕ) → hash_c_string k < 2 ^ 64) where
  zip_file-stored :
      (it : Item) → IsItem it → zip_file hash_c_string word (fields it) it.name ≡ stored it
  unfolding zip_file
  zip_file-stored it i = λ j. record {
    name = some it.name;
    compressed_size = it.compressed_size;
    uncompressed_size = it.uncompressed_size;
    start = mod-eq_of_lt i.inside j;
  }

  pub parse_file_record-item :
      (z : Table hash_c_string word) (it : Item) (rest : List ℕ)
      → IsItem it
      → parse_file_record hash_c_string word z
          (head it ++ (it.name ++ (it.extra ++ (it.comment ++ rest))))
        ≡ (if is_dir it
            then done (z, rest)
            else add_file hash_c_string word
                (stored it)
                rest
                (create (files hash_c_string word) z (c_string it.name)))
  unfolding parse_file_record
  parse_file_record-item z it rest i =
      let body = it.name ++ (it.extra ++ (it.comment ++ rest)) in
      let read : file_record (head it ++ body) ≡ fields it =
        file_record-append (head it) body refl ∙ file_record-head it i in
      let past : drop file_record_size (head it ++ body) ≡ body =
        drop-past (head it) body file_record_size 0 refl in
      let t1 : ltb (length (head it ++ body)) file_record_size ≡ false =
        ground (arith, length-append (head it) body) in
      let t3 : (bit_and it.flags gp_unsupported == 0) ≡ true = ground (arith, i.plain) in
      let t4 : (length it.name == 0 || ltb name_limit (length it.name)) ≡ false =
        ground (arith, i.not_empty, i.short) in
      let t5 : ltb size_limit it.uncompressed_size ≡ false = ground (arith, i.small) in
      let tail = length it.name + length it.extra + length it.comment in
      let t6 : ltb (length body) tail ≡ false = ground (
        arith,
        length-append it.name (it.extra ++ (it.comment ++ rest)),
        length-append it.extra (it.comment ++ rest),
        length-append it.comment rest,
      ) in
      let name : take (length it.name) body ≡ it.name = take_front it.name _ _ refl in
      let after : drop tail body ≡ rest =
        drop-past it.name (it.extra ++ (it.comment ++ rest)) tail
          (length it.extra + length it.comment) (omega arith)
        ∙ drop-past it.extra (it.comment ++ rest) _ (length it.comment) refl
        ∙ drop-past it.comment rest _ 0 (omega arith) in
      rw (read, past, t1, t3, t4, t5, t6, name, after, zip_file-stored it i) refl
