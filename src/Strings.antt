-- ===== src/Strings.antt =====
-- native/string.c with native/include/chili/object/string.h: strings as objects of the heap, whose
-- last byte tells their size, and the builder of strings.
mod Small
mod Trail
mod Build
mod Tests
use Prim.Native.Nat.{bit_and, bit_or}
use crts.Prelude.{
  ℕ, zero, suc, ◌+◌, ◌-◌, ◌*◌, ◌/◌, ◌%◌, ◌^◌, Bool, true, false, not, Option, none, some, List, [],
  ◌∷◌, ◌++◌, length, get_or, set, take, drop, replicate, max, leb, ltb, ◌==◌, if◌then◌else◌, ◌>>=◌,
}

-- CHI_WORDSIZE
abbrev pub word_size : ℕ
word_size = 8

-- CHI_BYTES_TO_WORDS of the bytes and the trailing size byte, a sum in 32 bits.
abbrev pub words_of : ℕ → ℕ
words_of size = ((size + 1) % 2 ^ 32 + word_size - 1) / word_size

-- A string in a word, without the tag; or the bytes of an object, a multiple of eight of them.
pub data Str : Type 0 where
  small : ℕ → Str
  object : List ℕ → Str

-- The loop of setTrailSize that clears the bytes before the last.
unfoldable pub clear_pad : ℕ → ℕ → ℕ → ℕ → List ℕ → List ℕ
clear_pad zero i size pad bytes = bytes
clear_pad (suc left) i size pad bytes =
    let cleared = clear_pad left (i + 1) size (pad - 1) (set bytes (size + i) 0) in
    let kept = clear_pad left (i + 1) size pad bytes in if pad == 0 then kept else cleared

unfoldable pub set_trail_size : List ℕ → ℕ → List ℕ
set_trail_size bytes size =
    let pad = word_size - 1 - bit_and size (word_size - 1) in
    clear_pad (word_size - 1) 0 size pad (set bytes (size + pad) pad)

unfoldable pub string_trail_size : List ℕ → ℕ → ℕ
string_trail_size bytes size_w = word_size * size_w - 1 - get_or bytes (size_w * word_size - 1) 0

-- CHI_STRING_UNBOXING is on.
unfoldable pub fits_small_string : ℕ → Bool
fits_small_string size = leb size (word_size - 1)

unfoldable pub small_loop : ℕ → ℕ → ℕ → List ℕ → ℕ → ℕ
small_loop zero i size bytes w = w
small_loop (suc left) i size bytes w =
    let more =
      small_loop left (i + 1) (size - 1) bytes
        (bit_or w (get_or bytes i 0 * 2 ^ (8 * i) % 2 ^ 64)) in
    let same = small_loop left (i + 1) size bytes w in if size == 0 then same else more

unfoldable pub from_small_string : List ℕ → ℕ → ℕ
from_small_string bytes size = small_loop (word_size - 1) 0 size bytes (size * 2 ^ 56 % 2 ^ 64)

-- The bytes of a word in memory, which is little endian.
abbrev pub word_bytes : ℕ → ℕ → List ℕ
word_bytes zero w = []
word_bytes (suc n) w = w % 256 ∷ word_bytes n (w / 256)

-- chiStringRef: the bytes that a string stands for.
unfoldable pub string_ref : Str → List ℕ
string_ref (small w) = word_bytes (w / 2 ^ 56) w
string_ref (object bytes) = take (string_trail_size bytes (length bytes / word_size)) bytes

-- memcpy to an offset.
abbrev pub copy_to : List ℕ → ℕ → List ℕ → List ℕ
copy_to bytes at [] = bytes
copy_to bytes at (x ∷ xs) = copy_to (set bytes at x) (at + 1) xs

-- chiNewInl: the bytes of an object of so many words, or none where the heap is exhausted.
module _ (new : ℕ → Option (List ℕ)) where
  unfoldable pub new_string_uninitialized : ℕ → Option (List ℕ)
  new_string_uninitialized size = new (words_of size) >>= λ bytes. some (set_trail_size bytes size)

  unfoldable pub new_string_from_bytes : List ℕ → Option Str
  new_string_from_bytes bytes =
      new_string_uninitialized (length bytes) >>= λ c. some (object (copy_to c 0 bytes))

  -- chiStringFromBytesFlags
  unfoldable pub string_from_bytes : List ℕ → Option Str
  string_from_bytes bytes =
      if fits_small_string (length bytes)
      then some (small (from_small_string bytes (length bytes)))
      else new_string_from_bytes bytes

  -- chiStringTrySlice
  unfoldable pub string_try_slice : Str → ℕ → ℕ → Option Str
  string_try_slice a i j = string_from_bytes (take (j - i) (drop i (string_ref a)))

-- ChiStringBuilder
pub record StringBuilder : Type 0 where
  pub buf : List ℕ
  pub size : ℕ
  pub cap : ℕ

-- The loop of chiStringBuilderTryGrow; CHI_STRINGBUILDER_GROWTH is 200. The capacity stays below
-- 2 ^ 34, so nothing wraps in 64 bits.
unfoldable pub grow_cap : ℕ → ℕ → ℕ → Option ℕ
grow_cap zero need cap = none
grow_cap (suc fuel) need cap =
    let again = grow_cap fuel need (cap * 200 / 100) in if ltb cap need then again else some cap

-- Rounds that are enough to double a capacity up to 2 ^ 33.
abbrev pub grow_rounds : ℕ
grow_rounds = 34

unfoldable pub regrown : StringBuilder → ℕ → Option (List ℕ) → StringBuilder × Bool
regrown sb cap none = (sb, false)
regrown sb cap (some bytes) =
    (record sb { buf = copy_to bytes 0 (take sb.size sb.buf); cap = cap }, true)

-- _chiStringBuilderAppend
unfoldable pub builder_append : StringBuilder → List ℕ → StringBuilder
builder_append sb bytes = record sb {
  buf = copy_to sb.buf sb.size bytes;
  size = (sb.size + length bytes) % 2 ^ 32;
}

-- chiStringBuilderBuild: the object keeps the buffer, as far as the string needs it.
unfoldable pub builder_build : StringBuilder → Str
builder_build sb =
    if fits_small_string sb.size
    then small (from_small_string sb.buf sb.size)
    else object (take (word_size * words_of sb.size) (set_trail_size sb.buf sb.size))

module _ (new : ℕ → Option (List ℕ)) where
  unfoldable pub builder_try_new : ℕ → Option StringBuilder
  builder_try_new cap = new (words_of (max cap 32)) >>= λ bytes.
      some (record { buf = bytes; size = 0; cap = max cap 32 })

  -- The builder, and whether it has room now; none is a loop that has run out of its fuel.
  unfoldable pub try_grow : StringBuilder → ℕ → Option (StringBuilder × Bool)
  try_grow sb n = grow_cap grow_rounds (sb.size + n) sb.cap >>= λ cap.
      if leb (2 ^ 32 - 1) cap then some (sb, false) else some (regrown sb cap (new (words_of cap)))

  unfoldable pub builder_ensure : StringBuilder → ℕ → Option (StringBuilder × Bool)
  builder_ensure sb n = if leb (sb.size + n) sb.cap then some (sb, true) else try_grow sb n
