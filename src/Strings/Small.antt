-- ===== src/Strings/Small.antt =====
-- Strings of up to seven bytes in a word.
use Prim.Native.Nat.pow
use Prim.Native.Nat.{bit_or}
use native.Mathlib.Nat.{
  pow-succ', pow-le-pow_right, mul-le-mul_right, mul_left_comm, mul_assoc, mod-eq_of_lt, one-le-pow,
}
use crts.Prelude.{
  ℕ, zero, suc, ◌+◌, ◌-◌, ◌*◌, ◌/◌, ◌%◌, ◌^◌, ◌≤◌, ◌<◌, ◌≡◌, refl, ap, ◌∙◌, true, false, List, [],
  ◌∷◌, length, get_or, take, drop, length-take, arith, ◌==◌, all, ltb,
}
use crts.Prelude.Bits.{bit_or-halves, bit_or-field}
use crts.Strings.{small, small_loop, from_small_string, word_bytes, string_ref}

double : (q k : ℕ) → q * 2 ^ suc k ≡ 2 * (q * 2 ^ k)
double q k = omega (arith, ap (◌*◌ q) (pow-succ' 2 k), mul_left_comm q 2 (2 ^ k))

-- `|` above a number of low bits leaves these.
shifted_or :
    (k a b low : ℕ) → low < 2 ^ k → bit_or (a * 2 ^ k + low) (b * 2 ^ k) ≡ bit_or a b * 2 ^ k + low
shifted_or zero a b low h =
    let one = pow.zero 2 in
    let none_low : low ≡ 0 = omega arith in
    rw (one, none_low)
      (let p : a * 1 + 0 ≡ a = omega arith in
        let q : b * 1 ≡ b = omega arith in rw (p, q) (omega arith))
shifted_or (suc k) a b low h = ground (
  arith,
  pow-succ' 2 k,
  double a k,
  double b k,
  double (bit_or a b) k,
  bit_or-halves (a * 2 ^ suc k + low) (b * 2 ^ suc k),
  shifted_or k a b (low / 2) (omega (arith, pow-succ' 2 k)),
)

-- The first bytes of a number, the lowest first, stand for it.
abbrev pub le : List ℕ → ℕ
le [] = 0
le (x ∷ xs) = x + 256 * le xs

eight : (i : ℕ) → 2 ^ (8 * suc i) ≡ 256 * 2 ^ (8 * i)
eight i =
    let e : 8 * suc i ≡ suc (suc (suc (suc (suc (suc (suc (suc (8 * i)))))))) = omega arith in
    let k = 8 * i in
    ap (λ t. 2 ^ t) e
    ∙ omega (
      arith,
      pow-succ' 2 (suc (suc (suc (suc (suc (suc (suc k))))))),
      pow-succ' 2 (suc (suc (suc (suc (suc (suc k)))))),
      pow-succ' 2 (suc (suc (suc (suc (suc k))))),
      pow-succ' 2 (suc (suc (suc (suc k)))),
      pow-succ' 2 (suc (suc (suc k))),
      pow-succ' 2 (suc (suc k)),
      pow-succ' 2 (suc k),
      pow-succ' 2 k,
    )

abbrev pub Bytes : List ℕ → Type 0
Bytes xs = all (λ x. ltb x 256) xs ≡ true

le-lt : (xs : List ℕ) (k : ℕ) → length xs ≤ k → Bytes xs → le xs < 2 ^ (8 * k)
le-lt [] k h b = omega (arith, one-le-pow (8 * k) 2)
le-lt (x ∷ xs) zero h b = absurd (omega arith)
le-lt (x ∷ xs) (suc k) h b =
    let one : x < 256 = ground arith in
    omega (arith, le-lt xs k (omega arith) (ground arith), eight k)

word_bytes-le :
    (xs : List ℕ) (k h : ℕ)
    → length xs ≤ k
    → Bytes xs
    → word_bytes (length xs) (2 ^ (8 * k) * h + le xs) ≡ xs
word_bytes-le [] k h l b = refl
word_bytes-le (x ∷ xs) zero h l b = absurd (omega arith)
word_bytes-le (x ∷ xs) (suc k) h l b =
    let one : x < 256 = ground arith in
    let w = 2 ^ (8 * suc k) * h + (x + 256 * le xs) in
    let split : w ≡ x + 256 * (2 ^ (8 * k) * h + le xs) =
      omega (arith, ap (λ t. t * h) (eight k), mul_assoc 256 (2 ^ (8 * k)) h) in
    let first : w % 256 ≡ x = omega arith in
    let rest : w / 256 ≡ 2 ^ (8 * k) * h + le xs = omega arith in
    rw (first, rest) (ap (◌∷◌ x) (word_bytes-le xs k h (omega arith) (ground arith)))

idle : (left i : ℕ) (bytes : List ℕ) (w : ℕ) → small_loop left i 0 bytes w ≡ w
unfolding small_loop
idle zero i bytes w = refl
idle (suc left) i bytes w = idle left (i + 1) bytes w

byte_at :
    (bytes : List ℕ) (i : ℕ)
    → i < length bytes
    → drop i bytes ≡ get_or bytes i 0 ∷ drop (i + 1) bytes
byte_at [] i h = absurd (omega arith)
byte_at (x ∷ xs) zero h = refl
byte_at (x ∷ xs) (suc i) h =
    let e : suc i + 1 ≡ suc (i + 1) = omega arith in rw e (byte_at xs i (omega arith))

-- One byte is put below those of the size and above those before it.
put_byte :
    (t left i low b : ℕ)
    → suc left + i ≡ 7
    → low < 2 ^ (8 * i)
    → b < 256
    → bit_or (t * 2 ^ (8 * suc left) * 2 ^ (8 * i) + low) (b * 2 ^ (8 * i) % 2 ^ 64)
      ≡ t * 2 ^ (8 * left) * 2 ^ (8 * suc i) + (b * 2 ^ (8 * i) + low)
put_byte t left i low b seven h small_byte =
    let p = 2 ^ (8 * i) in
    let q = 2 ^ (8 * left) in
    let p_small : p ≤ 2 ^ 48 =
      pow-le-pow_right {n = 2} (omega arith) {i = 8 * i} {j = 48} (omega arith) in
    let product : b * p ≤ 255 * p = mul-le-mul_right p (omega arith) in
    let whole : b * p % 2 ^ 64 ≡ b * p = mod-eq_of_lt (omega arith) in
    let high : t * 2 ^ (8 * suc left) ≡ t * q * 2 ^ 8 =
      omega (arith, ap (◌*◌ t) (eight left), mul_left_comm t 256 q) in
    let beside : bit_or (t * 2 ^ (8 * suc left)) b ≡ t * q * 256 + b =
      ap (λ k. bit_or k b) high ∙ bit_or-field 8 (t * q) b (omega arith) in
    ap (bit_or (t * 2 ^ (8 * suc left) * p + low)) whole
    ∙ shifted_or (8 * i) (t * 2 ^ (8 * suc left)) b low h
    ∙ ap (λ k. k * p + low) beside
    ∙ regroup (t * q) p (2 ^ (8 * suc i)) b low (eight i)
  where
    regroup : (u p p' b low : ℕ) → p' ≡ 256 * p → (u * 256 + b) * p + low ≡ u * p' + (b * p + low)
    regroup u p p' b low e = omega (arith, ap (λ (k : ℕ). u * k) e)

after :
    (t q q' p p' b low l : ℕ)
    → q' ≡ 256 * q
    → p' ≡ 256 * p
    → t * q * p' + (b * p + low) + p' * l ≡ t * q' * p + low + p * (b + 256 * l)
after t q q' p p' b low l e f =
    omega (arith, ap (λ (k : ℕ). t * k * p) e, ap (λ (k : ℕ). t * q * k) f, ap (λ (k : ℕ). k * l) f)

small_loop-le :
    (left i size t low : ℕ) (bytes : List ℕ)
    → size ≤ left
    → left + i ≡ 7
    → i + size ≤ length bytes
    → ((j : ℕ) → j < i + size → get_or bytes j 0 < 256)
    → low < 2 ^ (8 * i)
    → small_loop left i size bytes (t * 2 ^ (8 * left) * 2 ^ (8 * i) + low)
      ≡ t * 2 ^ (8 * left) * 2 ^ (8 * i) + low + 2 ^ (8 * i) * le (take size (drop i bytes))
unfolding small_loop
small_loop-le left i zero t low bytes fits seven inside b h =
    idle left i bytes (t * 2 ^ (8 * left) * 2 ^ (8 * i) + low) ∙ omega arith
small_loop-le zero i (suc size) t low bytes fits seven inside b h = absurd (omega arith)
small_loop-le (suc left) i (suc size) t low bytes fits seven inside b h =
    let here = byte_at bytes i (omega arith) in
    let one = b i (omega arith) in
    let less : suc size - 1 ≡ size = omega arith in
    let next : i + 1 ≡ suc i = omega arith in
    let more : (suc size == 0) ≡ false = ground arith in
    let p = 2 ^ (8 * i) in
    let product : get_or bytes i 0 * p ≤ 255 * p = mul-le-mul_right p (omega arith) in
    let put = put_byte t left i low (get_or bytes i 0) seven h one in
    rw (more, less, put, here, next)
      (small_loop-le left (suc i) size t (get_or bytes i 0 * 2 ^ (8 * i) + low) bytes (omega arith)
          (omega arith) (omega arith) (λ j lt. b j (omega arith)) (omega (arith, eight i))
        ∙ after t (2 ^ (8 * left)) _ p _ (get_or bytes i 0) low
            (le (take size (drop (suc i) bytes))) (eight left) (eight i))

pub get_or-take : (m : ℕ) (xs : List ℕ) (j : ℕ) → j < m → get_or (take m xs) j 0 ≡ get_or xs j 0
get_or-take zero xs j h = absurd (omega arith)
get_or-take (suc m) [] j h = refl
get_or-take (suc m) (x ∷ xs) zero h = refl
get_or-take (suc m) (x ∷ xs) (suc j) h = get_or-take m xs j (omega arith)

Bytes-get : (xs : List ℕ) (j : ℕ) → Bytes xs → get_or xs j 0 < 256
Bytes-get [] j b = omega arith
Bytes-get (x ∷ xs) zero b = ground arith
Bytes-get (x ∷ xs) (suc j) b = Bytes-get xs j (ground arith)

from_small_string-le :
    (bytes : List ℕ) (n : ℕ)
    → n ≤ 7
    → n ≤ length bytes
    → Bytes (take n bytes)
    → from_small_string bytes n ≡ 2 ^ 56 * n + le (take n bytes)
unfolding from_small_string
from_small_string-le bytes n small_size inside b =
    let start : n * 2 ^ 56 % 2 ^ 64 ≡ n * 2 ^ (8 * 7) * 2 ^ (8 * 0) + 0 = omega arith in
    ap (small_loop 7 0 n bytes) start
    ∙ small_loop-le 7 0 n n 0 bytes small_size (omega arith) (omega arith)
        (λ j lt.
          let same = get_or-take n bytes j (omega arith) in
          let low = Bytes-get (take n bytes) j b in omega arith)
        (omega arith)
    ∙ omega arith

-- The first bytes, put in a word, can be read from it.
pub string_ref-small :
    (bytes : List ℕ) (n : ℕ)
    → n ≤ 7
    → n ≤ length bytes
    → Bytes (take n bytes)
    → string_ref (small (from_small_string bytes n)) ≡ take n bytes
unfolding string_ref
string_ref-small bytes n small_size inside b =
    let xs = take n bytes in
    let as_long : length xs ≡ n = omega (arith, length-take n bytes) in
    let w : from_small_string bytes n ≡ 2 ^ (8 * 7) * n + le xs =
      from_small_string-le bytes n small_size inside b in
    let below = le-lt xs 7 (omega arith) b in
    let size : (2 ^ 56 * n + le xs) / 2 ^ 56 ≡ length xs = omega (arith, as_long) in
    rw w (ap (λ k. word_bytes k (2 ^ 56 * n + le xs)) size ∙ word_bytes-le xs 7 n (omega arith) b)
