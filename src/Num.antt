-- ===== src/Num.antt =====
-- Numbers in decimal, native/num.c.
pub mod Size
mod Hex
pub mod Value
mod Show
pub mod Parse
mod Power
pub mod Tests
use crts.Prelude.{
  ℕ, zero, suc, ◌+◌, ◌-◌, ◌*◌, ◌/◌, ◌%◌, ◌^◌, Bool, true, false, ◌&&◌, Option, none, some, List, [],
  ◌∷◌, ◌++◌, length, take, drop, get_or, leb, ltb, ◌==◌, if◌then◌else◌, ◌>>=◌,
}

-- The two digits of each number below 100.
abbrev pub digits : List ℕ
digits =
    48 ∷ 48 ∷ 48 ∷ 49 ∷ 48 ∷ 50 ∷ 48 ∷ 51 ∷ 48 ∷ 52 ∷ 48 ∷ 53 ∷ 48 ∷ 54 ∷ 48 ∷ 55 ∷ 48 ∷ 56 ∷ 48
    ∷ 57 ∷ 49 ∷ 48 ∷ 49 ∷ 49 ∷ 49 ∷ 50 ∷ 49 ∷ 51 ∷ 49 ∷ 52 ∷ 49 ∷ 53 ∷ 49 ∷ 54 ∷ 49 ∷ 55 ∷ 49 ∷ 56
    ∷ 49 ∷ 57 ∷ 50 ∷ 48 ∷ 50 ∷ 49 ∷ 50 ∷ 50 ∷ 50 ∷ 51 ∷ 50 ∷ 52 ∷ 50 ∷ 53 ∷ 50 ∷ 54 ∷ 50 ∷ 55 ∷ 50
    ∷ 56 ∷ 50 ∷ 57 ∷ 51 ∷ 48 ∷ 51 ∷ 49 ∷ 51 ∷ 50 ∷ 51 ∷ 51 ∷ 51 ∷ 52 ∷ 51 ∷ 53 ∷ 51 ∷ 54 ∷ 51 ∷ 55
    ∷ 51 ∷ 56 ∷ 51 ∷ 57 ∷ 52 ∷ 48 ∷ 52 ∷ 49 ∷ 52 ∷ 50 ∷ 52 ∷ 51 ∷ 52 ∷ 52 ∷ 52 ∷ 53 ∷ 52 ∷ 54 ∷ 52
    ∷ 55 ∷ 52 ∷ 56 ∷ 52 ∷ 57 ∷ 53 ∷ 48 ∷ 53 ∷ 49 ∷ 53 ∷ 50 ∷ 53 ∷ 51 ∷ 53 ∷ 52 ∷ 53 ∷ 53 ∷ 53 ∷ 54
    ∷ 53 ∷ 55 ∷ 53 ∷ 56 ∷ 53 ∷ 57 ∷ 54 ∷ 48 ∷ 54 ∷ 49 ∷ 54 ∷ 50 ∷ 54 ∷ 51 ∷ 54 ∷ 52 ∷ 54 ∷ 53 ∷ 54
    ∷ 54 ∷ 54 ∷ 55 ∷ 54 ∷ 56 ∷ 54 ∷ 57 ∷ 55 ∷ 48 ∷ 55 ∷ 49 ∷ 55 ∷ 50 ∷ 55 ∷ 51 ∷ 55 ∷ 52 ∷ 55 ∷ 53
    ∷ 55 ∷ 54 ∷ 55 ∷ 55 ∷ 55 ∷ 56 ∷ 55 ∷ 57 ∷ 56 ∷ 48 ∷ 56 ∷ 49 ∷ 56 ∷ 50 ∷ 56 ∷ 51 ∷ 56 ∷ 52 ∷ 56
    ∷ 53 ∷ 56 ∷ 54 ∷ 56 ∷ 55 ∷ 56 ∷ 56 ∷ 56 ∷ 57 ∷ 57 ∷ 48 ∷ 57 ∷ 49 ∷ 57 ∷ 50 ∷ 57 ∷ 51 ∷ 57 ∷ 52
    ∷ 57 ∷ 53 ∷ 57 ∷ 54 ∷ 57 ∷ 55 ∷ 57 ∷ 56 ∷ 57 ∷ 57 ∷ []

abbrev pub pow_10 : List ℕ
pow_10 =
    1 ∷ 10 ∷ 100 ∷ 1000 ∷ 10000 ∷ 100000 ∷ 1000000 ∷ 10000000 ∷ 100000000 ∷ 1000000000 ∷ 10000000000
    ∷ 100000000000 ∷ 1000000000000 ∷ 10000000000000 ∷ 100000000000000 ∷ 1000000000000000
    ∷ 10000000000000000 ∷ 100000000000000000 ∷ 1000000000000000000 ∷ 10000000000000000000 ∷ []

-- `clz` is the compiler's __builtin_clzll.
unfoldable pub count_digits_10 : (ℕ → ℕ) → ℕ → ℕ
count_digits_10 clz n =
    let t = (64 - clz n) * 1233 / 2 ^ 12 in
    if n == 0 then 1 else t - (if ltb n (get_or pow_10 t 0) then 1 else 0) + 1

-- `memcpy(p -= 2, digits + b, 2)`, where `text` stands from `p` on.
unfoldable pub put_pair : ℕ → List ℕ → List ℕ
put_pair b text = take 2 (drop b digits) ++ text

-- The first loop, on fuel: what is left of the number, and the text so far.
unfoldable pub show_by_10000 : ℕ → ℕ → List ℕ → Option (ℕ × List ℕ)
show_by_10000 zero n text = none
show_by_10000 (suc fuel) n text =
    let again = show_by_10000 fuel in
    if leb 10000 n
    then again (n / 10000)
        (put_pair (2 * (n % 10000 / 100)) (put_pair (2 * (n % 10000 % 100)) text))
    else some (n, text)

unfoldable pub show_by_100 : ℕ → ℕ → List ℕ → Option (ℕ × List ℕ)
show_by_100 zero n text = none
show_by_100 (suc fuel) n text =
    let again = show_by_100 fuel in
    if leb 100 n then again (n / 100) (put_pair (2 * (n % 100)) text) else some (n, text)

-- The text that ends at the returned pointer; it is meant to start at the pointer passed in. The
-- fuel is for 64 bits.
unfoldable pub show_uint : ℕ → Option (List ℕ)
show_uint n = show_by_10000 6 n [] >>= λ (n, text). show_by_100 2 n text >>= λ (n, text).
    some (if ltb n 10 then (48 + n) ∷ text else put_pair (n * 2) text)

abbrev pub is_digit : ℕ → Bool
is_digit c = leb 48 c && leb c 57

-- A read past the end of the memory is a fault; otherwise the number and the rest, or a refusal.
pub data Read : Type 0 where
  fault refused : Read
  got : ℕ → List ℕ → Read

unfoldable pub read_from : ℕ → List ℕ → ℕ → Read
read_from bits [] r = fault
read_from bits (c ∷ s) r =
    let again = read_from bits s in
    if is_digit c
    then if leb (2 ^ bits) (r * 10)
      then refused
      else if leb (2 ^ bits) (r * 10 + (c - 48))
      then refused
      else again (r * 10 + (c - 48))
    else got r (c ∷ s)

-- A text without a digit at its start is refused.
unfoldable pub finish : List ℕ → Read → Read
finish s fault = fault
finish s refused = refused
finish s (got r rest) = if length rest == length s then refused else got r rest

unfoldable pub read_uint : ℕ → List ℕ → Read
read_uint bits s = finish s (read_from bits s 0)

-- The loop of chiPow in uint64_t, on fuel: the exponent has 32 bits, and one of them goes in each
-- round.
unfoldable pub pow_loop : ℕ → ℕ → ℕ → ℕ → Option ℕ
pow_loop zero a b p = none
pow_loop (suc fuel) a b p =
    let again = pow_loop fuel in
    if b == 0
    then some p
    else again (a * a % 2 ^ 64) (b / 2) (if b % 2 == 1 then p * a % 2 ^ 64 else p)

unfoldable pub pow_64 : ℕ → ℕ → Option ℕ
pow_64 a b = pow_loop 33 a b 1
