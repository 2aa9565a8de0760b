-- ===== src/Zip/Records.antt =====
-- Reading any directory: limits are kept, and every loop ends.
use Prim.Native.Nat.{bit_and}
use crts.Prelude.{
  ℕ, zero, suc, ◌+◌, ◌^◌, ◌≤◌, ◌<◌, ◌≡◌, refl, ◌⊎◌, inl, inr, false, not, ◌||◌, some, List, length,
  take, drop, ltb, ◌==◌, arith, length-take, Bool-cases, subst, ltb,
}
use native.Mathlib.Nat.{mod-lt}
use crts.Hashes.Valid.{Has}
use crts.Zip.{
  ZipResult, ZipFile, Outcome, fails, done, ◌>>=◌, files, parse_file_record, parse_records,
  file_record, file_record_size, file_record_sig, gp_unsupported, name_limit, size_limit, attr_dir,
  zip_file, FileRecord, error_offset, error_signature, error_flags, error_name, error_size,
  error_duplicate,
}
use crts.Zip.Table.{Table, IsTidy, Added, add_file-Added}

-- What zipOpen promises of a file that it lists.
pub record IsListed (f : ZipFile) : Type 0 where
  pub bytes : List ℕ
  pub named : f.name ≡ some bytes
  pub not_empty : 0 < length bytes
  pub short : length bytes ≤ name_limit
  pub small : f.uncompressed_size ≤ size_limit
  pub word : f.start < 2 ^ 32

module _ (hash_c_string : List ℕ → ℕ) (word : (k : List ℕ) → hash_c_string k < 2 ^ 64) where
  pub record IsArchive (z : Table hash_c_string word) : Type 0 where
    pub tidy : IsTidy hash_c_string word z
    pub listed : (f : ZipFile) → Has (files hash_c_string word) z f → IsListed f

  data Parsed (z : Table hash_c_string word)
      : Outcome (Table hash_c_string word × List ℕ) → Type 0 where
    refused : (r : ZipResult) → Parsed z (fails r)
    parsed :
        (g : Table hash_c_string word) (rest : List ℕ)
        → IsArchive g
        → g.used ≤ z.used + 1
        → Parsed z (done (g, rest))

  passed : (z : Table hash_c_string word) (rest : List ℕ) → IsArchive z → Parsed z (done (z, rest))
  passed z rest a = parsed z rest a (omega arith)

  zip_file-IsListed :
      (r : FileRecord) (p : List ℕ)
      → (r.name_size == 0 || ltb name_limit r.name_size) ≡ false
      → ltb size_limit r.uncompressed_size ≡ false
      → ltb (length p) (r.name_size + r.extra_size + r.comment_size) ≡ false
      → IsListed (zip_file hash_c_string word r (take r.name_size p))
  unfolding zip_file
  zip_file-IsListed r p name size fits =
      let long : r.name_size ≤ length p = ground arith in
      let sized : length (take r.name_size p) ≡ r.name_size =
        omega (arith, length-take r.name_size p) in
      record {
        bytes = take r.name_size p;
        named = refl;
        not_empty = (let some_name : 0 < r.name_size = ground arith in omega arith);
        short = (let limit : r.name_size ≤ name_limit = ground arith in omega arith);
        small = ground arith;
        word = mod-lt _ (omega arith);
      }

  Added-Parsed :
      (z : Table hash_c_string word) (f : ZipFile) (rest : List ℕ)
      (o : Outcome (Table hash_c_string word × List ℕ))
      → IsArchive z
      → IsListed f
      → Added hash_c_string word z f rest o
      → Parsed z o
  Added-Parsed z f rest _ a l (Added.duplicate y hy same) = refused error_duplicate
  Added-Parsed z f rest _ a l (Added.added g tidy more held) =
      parsed g rest (record { tidy = tidy; listed = λ y hy. one y ((held y).0 hy) }) (omega arith)
    where
      one : (y : ZipFile) → Has (files hash_c_string word) z y ⊎ (f ≡ y) → IsListed y
      one y (inl old) = a.listed y old
      one y (inr same) = subst IsListed same l

  parse_file_record-Parsed :
      (z : Table hash_c_string word) (bytes : List ℕ)
      → IsArchive z
      → z.used < 2 ^ 32
      → Parsed z (parse_file_record hash_c_string word z bytes)
  unfolding parse_file_record zip_file
  parse_file_record-Parsed z bytes a low =
      let r = file_record bytes in
      let p = drop file_record_size bytes in
      elim (Bool-cases (ltb (length bytes) file_record_size)) [
        | inl h1 ↦ rw h1 (refused error_offset)
        | inr h1 ↦ rw h1 (elim (Bool-cases (not (r.sig == file_record_sig))) [
          | inl h2 ↦ rw h2 (refused error_signature)
          | inr h2 ↦
              rw h2 (elim (Bool-cases (not (bit_and r.general_purpose gp_unsupported == 0))) [
                | inl h3 ↦ rw h3 (refused error_flags)
                | inr h3 ↦
                    rw h3 (elim (Bool-cases (r.name_size == 0 || ltb name_limit r.name_size)) [
                      | inl h4 ↦ rw h4 (refused error_name)
                      | inr h4 ↦ rw h4 (elim (Bool-cases (ltb size_limit r.uncompressed_size)) [
                        | inl h5 ↦ rw h5 (refused error_size)
                        | inr h5 ↦
                            rw h5
                              (elim (Bool-cases
                                (ltb (length p) (r.name_size + r.extra_size + r.comment_size))) [
                                  | inl h6 ↦ rw h6 (refused error_offset)
                                  | inr h6 ↦
                                      rw h6
                                        (elim (Bool-cases
                                          (not (bit_and r.external_attrs attr_dir == 0))) [
                                            | inl h7 ↦ rw h7 (passed z _ a)
                                            | inr h7 ↦ rw h7 (
                                                Added-Parsed z _ _ _ a
                                                  (zip_file-IsListed r p h4 h5 h6)
                                                  (add_file-Added hash_c_string word z
                                                    (zip_file hash_c_string word r
                                                      (take r.name_size p))
                                                    _ a.tidy low refl))
                                          ])
                                ])
                      ])
                    ])
              ])
        ])
      ]

  -- What reading a directory comes to: an error, or a table of files within the limits.
  pub data Directory : Outcome (Table hash_c_string word) → Type 0 where
    refused : (r : ZipResult) → Directory (fails r)
    read : (g : Table hash_c_string word) → IsArchive g → Directory (done g)

  pub parse_records-Directory :
      (n : ℕ) (z : Table hash_c_string word) (bytes : List ℕ)
      → IsArchive z
      → z.used + n < 2 ^ 32
      → Directory (parse_records hash_c_string word n z bytes)
  unfolding parse_records
  parse_records-Directory zero z bytes a low = read z a
  parse_records-Directory (suc n) z bytes a low =
      go _ (parse_file_record-Parsed z bytes a (omega arith)) (parse_records-Directory n)
    where
      go :
          (o : Outcome (Table hash_c_string word × List ℕ))
          → Parsed z o
          → ((g : Table hash_c_string word) (rest : List ℕ)
              → IsArchive g
              → g.used + n < 2 ^ 32
              → Directory (parse_records hash_c_string word n g rest))
          → Directory (o >>= λ s. parse_records hash_c_string word n s.0 s.1)
      go _ (Parsed.refused r) again = Directory.refused r
      go _ (Parsed.parsed g rest a' more) again = again g rest a' (omega arith)
