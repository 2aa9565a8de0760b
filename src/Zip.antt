-- ===== src/Zip.antt =====
-- cby/zip.c reads archives. Files of the archive are kept in a hash table by their names.
mod Table
mod Records
mod Open
mod Format
mod Written
mod Lists
mod Whole
mod Tests
use Prim.Native.Nat.{bit_and}
use crts.Prelude.{
  ℕ, zero, suc, ◌+◌, ◌-◌, ◌*◌, ◌%◌, ◌^◌, ◌<◌, ◌≡◌, ◌↔◌, refl, ap, min, Bool, true, false, not, ◌||◌,
  ◌&&◌, Option, none, some, List, [], ◌∷◌, length, get_or, take, drop, ltb, ◌==◌, ==_iff,
  if◌then◌else◌, arith,
}
use crts.Hashes.{EntryType, HtHash, empty, create, find, store, cell}

pub data ZipResult : Type 0 where
  ok error_open error_read error_name error_size error_offset error_inflate : ZipResult
  error_compression error_signature error_duplicate error_flags : ZipResult

-- GP_UNSUPPORTED: the bits 0, 3, 5, 6 and 13.
abbrev pub gp_unsupported : ℕ
gp_unsupported = 1 + 2 ^ 6 + 2 ^ 13 + 2 ^ 3 + 2 ^ 5

abbrev pub end_record_sig : ℕ
end_record_sig = 0x06054b50

abbrev pub file_record_sig : ℕ
file_record_sig = 0x02014b50

abbrev pub file_header_size : ℕ
file_header_size = 30

abbrev pub attr_dir : ℕ
attr_dir = 0x10

abbrev pub size_limit : ℕ
size_limit = 64 * 2 ^ 20

abbrev pub name_limit : ℕ
name_limit = 4096

-- chiLE16 and chiLE32 of the bytes at an offset.
abbrev pub le_16 : List ℕ → ℕ → ℕ
le_16 bytes i = get_or bytes i 0 + 256 * get_or bytes (i + 1) 0

abbrev pub le_32 : List ℕ → ℕ → ℕ
le_32 bytes i = le_16 bytes i + 65536 * le_16 bytes (i + 2)

-- The fields of the packed structures that the code reads, at their offsets.
pub record EndRecord : Type 0 where
  pub sig : ℕ
  pub num_records : ℕ
  pub dir_size : ℕ
  pub dir_start : ℕ

abbrev pub end_record_size : ℕ
end_record_size = 22

unfoldable pub end_record : List ℕ → EndRecord
end_record b = record {
  sig = le_32 b 0;
  num_records = le_16 b 10;
  dir_size = le_32 b 12;
  dir_start = le_32 b 16;
}

pub record FileRecord : Type 0 where
  pub sig : ℕ
  pub general_purpose : ℕ
  pub compressed_size : ℕ
  pub uncompressed_size : ℕ
  pub name_size : ℕ
  pub extra_size : ℕ
  pub comment_size : ℕ
  pub external_attrs : ℕ
  pub start : ℕ

abbrev pub file_record_size : ℕ
file_record_size = 46

unfoldable pub file_record : List ℕ → FileRecord
file_record b = record {
  sig = le_32 b 0;
  general_purpose = le_16 b 8;
  compressed_size = le_32 b 20;
  uncompressed_size = le_32 b 24;
  name_size = le_16 b 28;
  extra_size = le_16 b 30;
  comment_size = le_16 b 32;
  external_attrs = le_32 b 38;
  start = le_32 b 42;
}

-- A string in memory ends at its first zero. `name` is none for the null pointer.
pub record ZipFile : Type 0 where
  pub name : Option (List ℕ)
  pub compressed_size : ℕ
  pub uncompressed_size : ℕ
  pub start : ℕ

abbrev pub c_string : List ℕ → List ℕ
c_string [] = []
c_string (c ∷ cs) = if c == 0 then [] else c ∷ c_string cs

abbrev pub named : Option (List ℕ) → List ℕ
named none = []
named (some bytes) = c_string bytes

abbrev pub is_named : Option (List ℕ) → Bool
is_named none = false
is_named (some bytes) = true

unfoldable pub streq : List ℕ → List ℕ → Bool
streq [] [] = true
streq [] (b ∷ bs) = false
streq (a ∷ as') [] = false
streq (a ∷ as') (b ∷ bs) = a == b && streq as' bs

pub streq_iff : (a b : List ℕ) → (streq a b ≡ true) ↔ (a ≡ b)
unfolding streq
streq_iff [] [] = (λ e. refl, λ e. refl)
streq_iff [] (b ∷ bs) = (λ e. cc, λ e. cc)
streq_iff (a ∷ as') [] = (λ e. cc, λ e. cc)
streq_iff (a ∷ as') (b ∷ bs) = ground (arith, streq_iff as' bs)

abbrev pub no_file : ZipFile
no_file = record { name = none; compressed_size = 0; uncompressed_size = 0; start = 0 }

-- chiFileSize and chiFileReadOff of an open file: so many bytes from an offset, or a failure.
pub record File : Type 0 where
  pub file_size : ℕ
  pub read_off : ℕ → ℕ → Option (List ℕ)

-- `stuck` is a loop of the hash table that has run out of its fuel.
pub data Outcome {ℓ} (A : Type ℓ) : Type ℓ where
  stuck : Outcome A
  fails : ZipResult → Outcome A
  done : A → Outcome A

infixl 5 ◌>>=◌
abbrev pub ◌>>=◌ {ℓ κ} : {A : Type ℓ} {B : Type κ} → Outcome A → (A → Outcome B) → Outcome B
stuck >>= f = stuck
fails r >>= f = fails r
done a >>= f = f a

abbrev pub or_fail {ℓ} : {A : Type ℓ} → Option A → ZipResult → Outcome A
or_fail none r = fails r
or_fail (some a) r = done a

-- The loop of findEndRecord from a position down.
unfoldable pub end_from : List ℕ → ℕ → Outcome ℕ
end_from block zero = if le_32 block 0 == end_record_sig then done 0 else fails error_signature
end_from block (suc pos) =
    let again = end_from block pos in
    if le_32 block (suc pos) == end_record_sig then done (suc pos) else again

unfoldable pub find_end_record : File → Outcome EndRecord
find_end_record f =
    let block_size = min f.file_size (2 * end_record_size) in
    if ltb f.file_size end_record_size || ltb (2 ^ 32 - 1) f.file_size
    then fails error_size
    else or_fail (f.read_off block_size (f.file_size - block_size)) error_read >>= λ block.
        end_from block (block_size - end_record_size) >>= λ pos. done (end_record (drop pos block))

-- chiHashCString is a parameter.
module _ (hash_c_string : List ℕ → ℕ) (word : (k : List ℕ) → hash_c_string k < 2 ^ 64) where
  abbrev pub files : EntryType
  files = record {
    Entry = ZipFile;
    Key = List ℕ;
    zeroed = no_file;
    exists = λ f. is_named f.name;
    key = λ f. named f.name;
    key_eq = streq;
    hash = hash_c_string;
    zeroed_lem = refl;
    key_eq_iff = streq_iff;
    hash_word = word;
  }

  pub record Zip : Type 0 where
    pub hash : HtHash files
    pub handle : File

  unfoldable pub zip_file : FileRecord → List ℕ → ZipFile
  zip_file r name = record {
    name = some name;
    compressed_size = r.compressed_size;
    uncompressed_size = r.uncompressed_size;
    start = (r.start + file_header_size + r.name_size + r.extra_size) % 2 ^ 32;
  }

  -- The call of fileHashCreate and what follows it.
  unfoldable pub add_file :
      ZipFile → List ℕ → Option (HtHash files × ℕ × Bool) → Outcome (HtHash files × List ℕ)
  add_file f rest none = stuck
  add_file f rest (some (z, e, false)) = fails error_duplicate
  add_file f rest (some (z, e, true)) = done (store files z e f, rest)

  -- The bytes are those from `*pp` to `end`.
  unfoldable pub parse_file_record : HtHash files → List ℕ → Outcome (HtHash files × List ℕ)
  parse_file_record z bytes =
      let r = file_record bytes in
      let p = drop file_record_size bytes in
      let tail = r.name_size + r.extra_size + r.comment_size in
      let name = take r.name_size p in
      if ltb (length bytes) file_record_size
      then fails error_offset
      else if not (r.sig == file_record_sig)
      then fails error_signature
      else if not (bit_and r.general_purpose gp_unsupported == 0)
      then fails error_flags
      else if r.name_size == 0 || ltb name_limit r.name_size
      then fails error_name
      else if ltb size_limit r.uncompressed_size
      then fails error_size
      else if ltb (length p) tail
      then fails error_offset
      else if not (bit_and r.external_attrs attr_dir == 0)
      then done (z, drop tail p)
      else add_file (zip_file r name) (drop tail p) (create files z (c_string name))

  -- The loop of zipOpen over the records of the directory.
  unfoldable pub parse_records : ℕ → HtHash files → List ℕ → Outcome (HtHash files)
  parse_records zero z bytes = done z
  parse_records (suc n) z bytes = parse_file_record z bytes >>= λ s. parse_records n s.0 s.1

  -- The file is none where chiFileOpenRead fails.
  unfoldable pub zip_open : Option File → Outcome Zip
  zip_open file = or_fail file error_open >>= λ handle. find_end_record handle >>= λ eocd.
      or_fail (handle.read_off eocd.dir_size eocd.dir_start) error_read >>= λ dir.
      parse_records eocd.num_records (empty files) dir >>= λ z.
      done (record { hash = z; handle = handle })

  unfoldable pub zip_find : Zip → List ℕ → Option (Option ℕ)
  zip_find z name = find files z.hash name

  -- inflateInit2 and inflate are a parameter: the output of so many bytes at most, and whether the
  -- end of the stream has been reached; none where the initialisation fails.
  module _ (inflate : List ℕ → ℕ → Option (List ℕ × Bool)) where
    abbrev stream_ended : Option (List ℕ × Bool) → Option (List ℕ)
    stream_ended none = none
    stream_ended (some (out, true)) = some out
    stream_ended (some (out, false)) = none

    unfoldable pub inflate_buffer : ℕ → List ℕ → Option (List ℕ)
    inflate_buffer size source = stream_ended (inflate source size)

    -- The bytes that are written to the buffer.
    unfoldable pub zip_read : Zip → ZipFile → Outcome (List ℕ)
    unfolding inflate_buffer
    zip_read z f =
        let stored = or_fail (z.handle.read_off f.uncompressed_size f.start) error_read in
        let deflated = or_fail (z.handle.read_off f.compressed_size f.start) error_read >>= λ tmp.
        or_fail (inflate_buffer f.uncompressed_size tmp) error_inflate in
        if f.compressed_size == f.uncompressed_size then stored else deflated
