-- ===== src/Zip/Open.antt =====
-- zipOpen of any file.
use crts.Prelude.{
  ℕ, zero, suc, ◌+◌, ◌-◌, ◌*◌, ◌^◌, ◌<◌, ◌≡◌, refl, inl, inr, ◌||◌, Option, none, some, List, [],
  ◌∷◌, drop, ltb, ◌==◌, arith, min, Bool-cases, get_or, ltb,
}
use crts.Hashes.{empty}
use crts.Zip.{
  le_32, end_record_sig, File, Zip, ZipResult, Outcome, fails, done, ◌>>=◌, files, parse_records,
  zip_open, or_fail, find_end_record, end_from, end_record, end_record_size, EndRecord, error_read,
  error_signature, error_size,
}
use crts.Zip.Records.{IsArchive, Directory, parse_records-Directory}
use crts.Zip.Table.{Table}

pub get_or-drop : (n : ℕ) (xs : List ℕ) (i d : ℕ) → get_or (drop n xs) i d ≡ get_or xs (n + i) d
get_or-drop zero xs i d = (let e : 0 + i ≡ i = omega arith in rw e refl)
get_or-drop (suc n) [] i d = refl
get_or-drop (suc n) (x ∷ xs) i d =
    (let e : suc n + i ≡ suc (n + i) = omega arith in rw e (get_or-drop n xs i d))

-- The search of the end record fails or finds one.
data EndFound : Outcome ℕ → Type 0 where
  no_end : EndFound (fails error_signature)
  end_at : (pos : ℕ) → EndFound (done pos)

end_from-EndFound : (block : List ℕ) (pos : ℕ) → EndFound (end_from block pos)
unfolding end_from
end_from-EndFound block zero = elim (Bool-cases (le_32 block 0 == end_record_sig)) [
  | inl here ↦ rw here (end_at 0)
  | inr other ↦ rw other no_end
]
end_from-EndFound block (suc pos) = elim (Bool-cases (le_32 block (suc pos) == end_record_sig)) [
  | inl here ↦ rw here (end_at (suc pos))
  | inr other ↦ rw other (end_from-EndFound block pos)
]

data EndRead : Outcome EndRecord → Type 0 where
  no_record : (r : ZipResult) → EndRead (fails r)
  record_at : (e : EndRecord) → e.num_records < 2 ^ 16 → EndRead (done e)

-- The bytes of the file are bytes.
module _ (f : File)
    (bytes : (n o : ℕ) (b : List ℕ) (i : ℕ) → f.read_off n o ≡ some b → get_or b i 0 < 256) where
  find_end_record-EndRead : EndRead (find_end_record f)
  unfolding find_end_record end_record
  find_end_record-EndRead =
      elim (Bool-cases (ltb f.file_size end_record_size || ltb (2 ^ 32 - 1) f.file_size)) [
        | inl bad ↦ rw bad (no_record error_size)
        | inr fits ↦ rw fits (
            let size = min f.file_size (2 * end_record_size) in
            go size (f.file_size - size) (f.read_off size (f.file_size - size)) refl)
      ]
    where
      at :
          (block : List ℕ) (o : Outcome ℕ)
          → EndFound o
          → ((i : ℕ) → get_or block i 0 < 256)
          → EndRead (o >>= λ pos. done (end_record (drop pos block)))
      at block _ EndFound.no_end low = no_record error_signature
      at block _ (EndFound.end_at pos) low = record_at (end_record (drop pos block)) (
          omega (
            arith,
            get_or-drop pos block 10 0,
            get_or-drop pos block 11 0,
            low (pos + 10),
            low (pos + 11),
          ))

      go :
          (n o : ℕ) (r : Option (List ℕ))
          → f.read_off n o ≡ r
          → EndRead (
              or_fail r error_read >>= λ block.
              end_from block (n - end_record_size) >>= λ pos. done (end_record (drop pos block)))
      go n o none e = no_record error_read
      go n o (some block) e =
          at block _ (end_from-EndFound block (n - end_record_size)) (λ i. bytes n o block i e)

module _ (hash_c_string : List ℕ → ℕ) (word : (k : List ℕ) → hash_c_string k < 2 ^ 64) where
  -- What zipOpen comes to.
  pub data Opened (file : Option File) : Outcome (Zip hash_c_string word) → Type 0 where
    not_opened : (r : ZipResult) → Opened file (fails r)
    opened :
        (z : Zip hash_c_string word)
        → file ≡ some z.handle
        → IsArchive hash_c_string word z.hash
        → Opened file (done z)

  pub empty-IsArchive : IsArchive hash_c_string word (empty (files hash_c_string word))
  unfolding empty
  empty-IsArchive = record {
    tidy = record { ready = inl refl; filled = omega arith };
    listed = λ f hf. (let full = hf.1 in cc);
  }

  -- zipOpen of a file whose bytes are bytes ends, for any content: it fails, or the files that it
  -- lists have a name of up to 4096 bytes, up to 64 MiB, and a start below 2 ^ 32.
  pub zip_open-Opened :
      (f : File)
      (bytes : (n o : ℕ) (b : List ℕ) (i : ℕ) → f.read_off n o ≡ some b → get_or b i 0 < 256)
      → Opened (some f) (zip_open hash_c_string word (some f))
  unfolding zip_open empty
  zip_open-Opened f bytes = eocd _ (find_end_record-EndRead f bytes)
    where
      dir :
          (o : Outcome (Table hash_c_string word))
          → Directory hash_c_string word o
          → Opened (some f) (o >>= λ z. done (record { hash = z; handle = f }))
      dir _ (Directory.refused r) = not_opened r
      dir _ (Directory.read g a) = opened (record { hash = g; handle = f }) refl a

      body :
          (e : EndRecord)
          → e.num_records < 2 ^ 16
          → (r : Option (List ℕ))
          → Opened (some f) (
              or_fail r error_read >>= λ d.
              parse_records hash_c_string word e.num_records (empty (files hash_c_string word)) d
              >>= λ z. done (record { hash = z; handle = f }))
      body e low none = not_opened error_read
      body e low (some d) = dir _ (
          parse_records-Directory hash_c_string word e.num_records
            (empty (files hash_c_string word)) d empty-IsArchive (omega arith))

      eocd :
          (o : Outcome EndRecord)
          → EndRead o
          → Opened (some f) (
              o >>= λ e. or_fail (f.read_off e.dir_size e.dir_start) error_read >>= λ d.
              parse_records hash_c_string word e.num_records (empty (files hash_c_string word)) d
              >>= λ z. done (record { hash = z; handle = f }))
      eocd _ (EndRead.no_record r) = not_opened r
      eocd _ (EndRead.record_at e low) = body e low (f.read_off e.dir_size e.dir_start)
