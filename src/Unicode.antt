-- ===== src/Unicode.antt =====
-- UTF-8 (native/include/chili/object/string.h) and UTF-16 (native/utf16.c).
mod Bytes
mod Standard
mod Units
mod Text
mod Convert
mod Valid
pub mod Tests
use Prim.Native.Nat.{bit_and, bit_or}
use crts.Prelude.{
  ℕ, zero, suc, ◌+◌, ◌-◌, ◌*◌, ◌/◌, ◌%◌, ◌^◌, Bool, true, false, ◌&&◌, Option, none, some, List, [],
  ◌∷◌, ◌++◌, length, get_or, leb, ltb, ◌==◌, if◌then◌else◌, ◌>>=◌,
}

-- Memory is a list of cells; a read past its end is `none`. For the decoder the list ends at `end`,
-- which the source asserts not to be passed.
unfoldable pub utf8_decode_size : ℕ → ℕ
utf8_decode_size c = bit_and (4837428950035665169 / 2 ^ (c / 2 ^ 4 * 2 ^ 2)) 7

unfoldable pub decode_2 : ℕ → List ℕ → Option (ℕ × List ℕ)
decode_2 a (b ∷ s) = some (bit_or (bit_and a 31 * 2 ^ 6) (bit_and b 63), s)
decode_2 a [] = none

unfoldable pub decode_3 : ℕ → List ℕ → Option (ℕ × List ℕ)
decode_3 a (b ∷ c ∷ s) =
    some (bit_or (bit_or (bit_and a 15 * 2 ^ 12) (bit_and b 63 * 2 ^ 6)) (bit_and c 63), s)
decode_3 a s = none

unfoldable pub decode_4 : ℕ → List ℕ → Option (ℕ × List ℕ)
decode_4 a (b ∷ c ∷ d ∷ s) = some (
  bit_or (bit_or (bit_or (bit_and a 7 * 2 ^ 18) (bit_and b 63 * 2 ^ 12)) (bit_and c 63 * 2 ^ 6))
      (bit_and d 63),
  s,
)
decode_4 a s = none

-- The character, and the bytes after it. A byte that starts no character is not skipped.
unfoldable pub utf8_decode : List ℕ → Option (ℕ × List ℕ)
utf8_decode [] = none
utf8_decode (a ∷ s) =
    let n = utf8_decode_size a in
    if n == 1
    then some (a, s)
    else if n == 2
    then decode_2 a s
    else if n == 3
    then decode_3 a s
    else if n == 4
    then decode_4 a s
    else some (0, a ∷ s)

unfoldable pub utf8_encode_size : ℕ → ℕ
utf8_encode_size c =
    if leb c 127
    then 1
    else if leb c 2047
    then 2
    else if leb c 65535
    then 3
    else if leb c 2097151
    then 4
    else 0

-- The bytes that are written; their number is returned.
unfoldable pub utf8_encode : ℕ → List ℕ
utf8_encode c =
    if leb c 127
    then c % 2 ^ 8 ∷ []
    else if leb c 2047
    then bit_or 192 (c / 2 ^ 6) % 2 ^ 8 ∷ bit_or 128 (bit_and c 63) % 2 ^ 8 ∷ []
    else if leb c 65535
    then bit_or 224 (c / 2 ^ 12) % 2 ^ 8
      ∷ bit_or 128 (bit_and (c / 2 ^ 6) 63) % 2 ^ 8
      ∷ bit_or 128 (bit_and c 63) % 2 ^ 8
      ∷ []
    else if leb c 2097151
    then bit_or 240 (c / 2 ^ 18) % 2 ^ 8
      ∷ bit_or 128 (bit_and (c / 2 ^ 12) 63) % 2 ^ 8
      ∷ bit_or 128 (bit_and (c / 2 ^ 6) 63) % 2 ^ 8
      ∷ bit_or 128 (bit_and c 63) % 2 ^ 8
      ∷ []
    else []

abbrev pub is_high : ℕ → Bool
is_high u = leb 55296 u && leb u 56319

-- In uint32_t.
unfoldable pub join_units : ℕ → ℕ → ℕ
join_units u v = (((u - 55296) * 2 ^ 10 + (v + 2 ^ 32 - 56320)) % 2 ^ 32 + 65536) % 2 ^ 32

-- chiUtf8Size, with the size so far. A unit that starts a pair takes the next cell with it, also
-- if that is the terminating zero.
unfoldable pub size_8_from : List ℕ → ℕ → Option ℕ
size_8_from [] len = none
size_8_from (u ∷ []) len = if u == 0 then some (len + 1) else none
size_8_from (u ∷ v ∷ w) len =
    let pair = size_8_from w in
    let single = size_8_from (v ∷ w) in
    if u == 0
    then some (len + 1)
    else if is_high u
    then pair (len + utf8_encode_size (join_units u v))
    else single (len + utf8_encode_size u)

unfoldable pub utf8_size : List ℕ → Option ℕ
utf8_size w = size_8_from w 0

-- The cells written from a place with room for `room` more; the last of them is the zero.
unfoldable pub put_8 : ℕ → ℕ → (ℕ → Option (List ℕ)) → Option (List ℕ)
put_8 c room next =
    if leb room (utf8_encode_size c)
    then some (0 ∷ [])
    else (next (room - utf8_encode_size c) >>= λ s. some (utf8_encode c ++ s))

unfoldable pub utf16_to_8 : List ℕ → ℕ → Option (List ℕ)
utf16_to_8 [] room = none
utf16_to_8 (u ∷ []) room =
    if u == 0 then some (0 ∷ []) else if is_high u then none else put_8 u room (λ r. none)
utf16_to_8 (u ∷ v ∷ w) room =
    let pair = utf16_to_8 w in
    let single = utf16_to_8 (v ∷ w) in
    if u == 0
    then some (0 ∷ [])
    else if is_high u
    then put_8 (join_units u v) room pair
    else put_8 u room single

-- strlen, as the bytes before the zero.
unfoldable pub before_zero : List ℕ → Option (List ℕ)
before_zero [] = none
before_zero (a ∷ s) =
    let rest = before_zero s in if a == 0 then some [] else (rest >>= λ s'. some (a ∷ s'))

-- The loops over UTF-8, on fuel: one round for each character, which has a byte or more.
unfoldable pub size_16_from : ℕ → List ℕ → ℕ → Option ℕ
size_16_from zero s len = none
size_16_from (suc fuel) [] len = some (len + 1)
size_16_from (suc fuel) (a ∷ s) len =
    utf8_decode (a ∷ s) >>= λ r. size_16_from fuel r.1 (len + (if leb 65536 r.0 then 2 else 1))

unfoldable pub utf16_size : List ℕ → Option ℕ
utf16_size s = before_zero s >>= λ bytes. size_16_from (suc (length bytes)) bytes 0

unfoldable pub put_16 : ℕ → ℕ → (ℕ → Option (List ℕ)) → Option (List ℕ)
put_16 c room next =
    if ltb c 65536
    then if leb room 1 then some (0 ∷ []) else (next (room - 1) >>= λ w. some (c % 2 ^ 16 ∷ w))
    else if leb room 2
    then some (0 ∷ [])
    else (next (room - 2) >>= λ w.
        let d = c - 65536 in
        some ((55296 + d / 2 ^ 10) % 2 ^ 16 ∷ (56320 + bit_and d 1023) % 2 ^ 16 ∷ w))

unfoldable pub to_16_from : ℕ → List ℕ → ℕ → Option (List ℕ)
to_16_from zero s room = none
to_16_from (suc fuel) [] room = some (0 ∷ [])
to_16_from (suc fuel) (a ∷ s) room =
    utf8_decode (a ∷ s) >>= λ r. put_16 r.0 room (to_16_from fuel r.1)

unfoldable pub utf8_to_16 : List ℕ → ℕ → Option (List ℕ)
utf8_to_16 s n = before_zero s >>= λ bytes. to_16_from (suc (length bytes)) bytes n

unfoldable pub alloc_utf16_to_8 : List ℕ → Option (List ℕ)
alloc_utf16_to_8 w = utf8_size w >>= λ n. utf16_to_8 w n

unfoldable pub alloc_utf8_to_16 : List ℕ → Option (List ℕ)
alloc_utf8_to_16 s = utf16_size s >>= λ n. utf8_to_16 s n

-- The automaton of chiUtf8Valid: the class of each byte, then the transitions.
abbrev pub utf8_table : List ℕ
utf8_table =
    0 ∷ 0 ∷ 0 ∷ 0 ∷ 0 ∷ 0 ∷ 0 ∷ 0 ∷ 0 ∷ 0 ∷ 0 ∷ 0 ∷ 0 ∷ 0 ∷ 0 ∷ 0 ∷ 0 ∷ 0 ∷ 0 ∷ 0 ∷ 0 ∷ 0 ∷ 0 ∷ 0
    ∷ 0 ∷ 0 ∷ 0 ∷ 0 ∷ 0 ∷ 0 ∷ 0 ∷ 0 ∷ 0 ∷ 0 ∷ 0 ∷ 0 ∷ 0 ∷ 0 ∷ 0 ∷ 0 ∷ 0 ∷ 0 ∷ 0 ∷ 0 ∷ 0 ∷ 0 ∷ 0 ∷ 0
    ∷ 0 ∷ 0 ∷ 0 ∷ 0 ∷ 0 ∷ 0 ∷ 0 ∷ 0 ∷ 0 ∷ 0 ∷ 0 ∷ 0 ∷ 0 ∷ 0 ∷ 0 ∷ 0 ∷ 0 ∷ 0 ∷ 0 ∷ 0 ∷ 0 ∷ 0 ∷ 0 ∷ 0
    ∷ 0 ∷ 0 ∷ 0 ∷ 0 ∷ 0 ∷ 0 ∷ 0 ∷ 0 ∷ 0 ∷ 0 ∷ 0 ∷ 0 ∷ 0 ∷ 0 ∷ 0 ∷ 0 ∷ 0 ∷ 0 ∷ 0 ∷ 0 ∷ 0 ∷ 0 ∷ 0 ∷ 0
    ∷ 0 ∷ 0 ∷ 0 ∷ 0 ∷ 0 ∷ 0 ∷ 0 ∷ 0 ∷ 0 ∷ 0 ∷ 0 ∷ 0 ∷ 0 ∷ 0 ∷ 0 ∷ 0 ∷ 0 ∷ 0 ∷ 0 ∷ 0 ∷ 0 ∷ 0 ∷ 0 ∷ 0
    ∷ 0 ∷ 0 ∷ 0 ∷ 0 ∷ 0 ∷ 0 ∷ 0 ∷ 0 ∷ 1 ∷ 1 ∷ 1 ∷ 1 ∷ 1 ∷ 1 ∷ 1 ∷ 1 ∷ 1 ∷ 1 ∷ 1 ∷ 1 ∷ 1 ∷ 1 ∷ 1 ∷ 1
    ∷ 9 ∷ 9 ∷ 9 ∷ 9 ∷ 9 ∷ 9 ∷ 9 ∷ 9 ∷ 9 ∷ 9 ∷ 9 ∷ 9 ∷ 9 ∷ 9 ∷ 9 ∷ 9 ∷ 7 ∷ 7 ∷ 7 ∷ 7 ∷ 7 ∷ 7 ∷ 7 ∷ 7
    ∷ 7 ∷ 7 ∷ 7 ∷ 7 ∷ 7 ∷ 7 ∷ 7 ∷ 7 ∷ 7 ∷ 7 ∷ 7 ∷ 7 ∷ 7 ∷ 7 ∷ 7 ∷ 7 ∷ 7 ∷ 7 ∷ 7 ∷ 7 ∷ 7 ∷ 7 ∷ 7 ∷ 7
    ∷ 8 ∷ 8 ∷ 2 ∷ 2 ∷ 2 ∷ 2 ∷ 2 ∷ 2 ∷ 2 ∷ 2 ∷ 2 ∷ 2 ∷ 2 ∷ 2 ∷ 2 ∷ 2 ∷ 2 ∷ 2 ∷ 2 ∷ 2 ∷ 2 ∷ 2 ∷ 2 ∷ 2
    ∷ 2 ∷ 2 ∷ 2 ∷ 2 ∷ 2 ∷ 2 ∷ 2 ∷ 2 ∷ 10 ∷ 3 ∷ 3 ∷ 3 ∷ 3 ∷ 3 ∷ 3 ∷ 3 ∷ 3 ∷ 3 ∷ 3 ∷ 3 ∷ 3 ∷ 4 ∷ 3 ∷ 3
    ∷ 11 ∷ 6 ∷ 6 ∷ 6 ∷ 5 ∷ 8 ∷ 8 ∷ 8 ∷ 8 ∷ 8 ∷ 8 ∷ 8 ∷ 8 ∷ 8 ∷ 8 ∷ 8 ∷ 0 ∷ 12 ∷ 24 ∷ 36 ∷ 60 ∷ 96
    ∷ 84 ∷ 12 ∷ 12 ∷ 12 ∷ 48 ∷ 72 ∷ 12 ∷ 12 ∷ 12 ∷ 12 ∷ 12 ∷ 12 ∷ 12 ∷ 12 ∷ 12 ∷ 12 ∷ 12 ∷ 12 ∷ 12
    ∷ 0 ∷ 12 ∷ 12 ∷ 12 ∷ 12 ∷ 12 ∷ 0 ∷ 12 ∷ 0 ∷ 12 ∷ 12 ∷ 12 ∷ 24 ∷ 12 ∷ 12 ∷ 12 ∷ 12 ∷ 12 ∷ 24 ∷ 12
    ∷ 24 ∷ 12 ∷ 12 ∷ 12 ∷ 12 ∷ 12 ∷ 12 ∷ 12 ∷ 12 ∷ 12 ∷ 24 ∷ 12 ∷ 12 ∷ 12 ∷ 12 ∷ 12 ∷ 24 ∷ 12 ∷ 12
    ∷ 12 ∷ 12 ∷ 12 ∷ 12 ∷ 12 ∷ 24 ∷ 12 ∷ 12 ∷ 12 ∷ 12 ∷ 12 ∷ 12 ∷ 12 ∷ 12 ∷ 12 ∷ 36 ∷ 12 ∷ 36 ∷ 12
    ∷ 12 ∷ 12 ∷ 36 ∷ 12 ∷ 12 ∷ 12 ∷ 12 ∷ 12 ∷ 36 ∷ 12 ∷ 36 ∷ 12 ∷ 12 ∷ 12 ∷ 36 ∷ 12 ∷ 12 ∷ 12 ∷ 12
    ∷ 12 ∷ 12 ∷ 12 ∷ 12 ∷ 12 ∷ 12 ∷ []

unfoldable pub utf8_step : ℕ → ℕ → ℕ
utf8_step state byte = get_or utf8_table (256 + state + get_or utf8_table byte 0) 0 % 2 ^ 8

unfoldable pub utf8_run : ℕ → List ℕ → ℕ
utf8_run state [] = state
utf8_run state (byte ∷ p) = utf8_run (utf8_step state byte) p

unfoldable pub utf8_valid : List ℕ → Bool
utf8_valid p = utf8_run 0 p == 0
