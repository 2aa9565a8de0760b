-- ===== src/Zip/Format.antt =====
-- The archive format, from the side of a program that writes archives.
use Prim.Native.Nat.{bit_and}
use crts.Prelude.{
  ℕ, ◌+◌, ◌/◌, ◌%◌, ◌^◌, ◌≤◌, ◌<◌, ◌≡◌, ◌⊎◌, Bool, not, some, List, [], ◌∷◌, ◌++◌, length, ◌==◌,
  if◌then◌else◌,
}
use crts.Zip.{ZipFile, gp_unsupported, name_limit, size_limit, named}

-- A number in two and in four bytes, the least significant first.
abbrev pub bytes_16 : ℕ → List ℕ
bytes_16 n = n % 256 ∷ (n / 256 % 256 ∷ [])

abbrev pub bytes_32 : ℕ → List ℕ
bytes_32 n = bytes_16 (n % 65536) ++ bytes_16 (n / 65536)

-- What the directory says of a file: `offset` is the place of its local header, which is before
-- its data.
pub record Item : Type 0 where
  pub versions : ℕ
  pub flags : ℕ
  pub method : ℕ
  pub time : ℕ
  pub date : ℕ
  pub crc : ℕ
  pub compressed_size : ℕ
  pub uncompressed_size : ℕ
  pub disk : ℕ
  pub internal_attrs : ℕ
  pub external_attrs : ℕ
  pub offset : ℕ
  pub name : List ℕ
  pub extra : List ℕ
  pub comment : List ℕ

-- Its 46 bytes before the name, which begin with "PK".
abbrev pub head : Item → List ℕ
head it =
    80 ∷ (75 ∷ (1 ∷ (2 ∷ [])))
    ++ (bytes_32 it.versions
        ++ (bytes_16 it.flags
            ++ (bytes_16 it.method
                ++ (bytes_16 it.time
                    ++ (bytes_16 it.date
                        ++ (bytes_32 it.crc
                            ++ (bytes_32 it.compressed_size
                                ++ (bytes_32 it.uncompressed_size
                                    ++ (bytes_16 (length it.name)
                                        ++ (bytes_16 (length it.extra)
                                            ++ (bytes_16 (length it.comment)
                                                ++ (bytes_16 it.disk
                                                    ++ (bytes_16 it.internal_attrs
                                                        ++ (bytes_32 it.external_attrs
                                                            ++ bytes_32 it.offset))))))))))))))

abbrev pub directory : List Item → List ℕ
directory [] = []
directory (it ∷ its) = head it ++ (it.name ++ (it.extra ++ (it.comment ++ directory its)))

-- The end record, without a comment: the disks, the number of records, the place of the directory.
abbrev pub end_bytes : ℕ → List ℕ → List Item → List ℕ
end_bytes disks front items =
    80 ∷ (75 ∷ (5 ∷ (6 ∷ [])))
    ++ (bytes_32 disks
        ++ (bytes_16 (length items)
            ++ (bytes_16 (length items)
                ++ (bytes_32 (length (directory items))
                    ++ (bytes_32 (length front) ++ bytes_16 0)))))

-- What stands before the directory, the directory and the end record.
abbrev pub archive : ℕ → List ℕ → List Item → List ℕ
archive disks front items = front ++ (directory items ++ end_bytes disks front items)

-- A record that the code supports, of a file that lies in the first 4 GiB.
pub record IsItem (it : Item) : Type 0 where
  pub word : it.flags < 2 ^ 16
  pub plain : bit_and it.flags gp_unsupported ≡ 0
  pub not_empty : 0 < length it.name
  pub short : length it.name ≤ name_limit
  pub extra_size : length it.extra < 2 ^ 16
  pub comment_size : length it.comment < 2 ^ 16
  pub small : it.uncompressed_size ≤ size_limit
  pub compressed : it.compressed_size < 2 ^ 32
  pub attrs : it.external_attrs < 2 ^ 32
  pub inside : it.offset + 30 + length it.name + length it.extra < 2 ^ 32

abbrev pub AllItems : List Item → Type 0
AllItems [] = Unit
AllItems (it ∷ its) = IsItem it × AllItems its

-- The directory attribute of MS-DOS.
abbrev pub is_dir : Item → Bool
is_dir it = not (bit_and it.external_attrs 16 == 0)

-- The file of a record: its data are after the local header of 30 bytes, the name and the extra
-- field, which are there as they are in the directory.
abbrev pub stored : Item → ZipFile
stored it = record {
  name = some it.name;
  compressed_size = it.compressed_size;
  uncompressed_size = it.uncompressed_size;
  start = it.offset + 30 + length it.name + length it.extra;
}

abbrev pub listing : List Item → List ZipFile
listing [] = []
listing (it ∷ its) = if is_dir it then listing its else stored it ∷ listing its

abbrev pub Among : ZipFile → List ZipFile → Type 0
Among y [] = ⊥
Among y (f ∷ fs) = (f ≡ y) ⊎ Among y fs

-- No two files have the same name.
abbrev pub Distinct : List ZipFile → Type 0
Distinct [] = Unit
Distinct (f ∷ fs) = (¬ ((y : ZipFile) × Among y fs × (named y.name ≡ named f.name))) × Distinct fs
