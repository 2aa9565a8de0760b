-- ===== src/Bigint/Digits.antt =====
-- native/bigint/znogmp.h: arithmetic on arrays of digits to the base 2 ^ bits.
-- An array of n digits is a list of length n, the least significant digit first. A function that
-- writes through `r` returns the digits that it writes, and the digit that it returns as `.1`.
-- A loop that runs down from the last digit is a recursion that makes its call first.
pub mod Value
pub mod Step
pub mod Add
pub mod Mul
pub mod Shift
pub mod Whole
pub mod Divide
pub mod Bitwise
use Prim.Native.Nat.{bit_and, bit_or, bit_xor}
use crts.Prelude.{
  ℕ, zero, suc, ◌+◌, ◌-◌, ◌*◌, ◌/◌, ◌%◌, ◌^◌, ◌≤◌, ◌<◌, Bool, true, false, List, [], ◌∷◌, ◌++◌, ltb,
  leb, ◌==◌, if◌then◌else◌, length, take, drop,
}

-- The digits `d[0..n)` as a number.
abbrev pub value : ℕ → List ℕ → ℕ
value base [] = 0
value base (x ∷ xs) = x + base * value base xs

-- Every digit fits `z_digit`.
abbrev pub IsDigits : ℕ → List ℕ → Type 0
IsDigits base [] = Unit {0}
IsDigits base (x ∷ xs) = (x < base) × IsDigits base xs

abbrev pub bit : Bool → ℕ
bit true = 1
bit false = 0

-- -1, 0 and 1 of the comparisons.
pub data Cmp : Type 0 where
  less equal greater : Cmp

module _ (base : ℕ) where
  -- `__builtin_add_overflow(x, y, &r)` on digits: the wrapped sum and the overflow.
  unfoldable pub add_overflow : ℕ → ℕ → ℕ × ℕ
  add_overflow x y = ((x + y) % base, bit (leb base (x + y)))

  unfoldable pub sub_overflow : ℕ → ℕ → ℕ × ℕ
  sub_overflow x y = ((x + base - y) % base, bit (ltb x y))

  -- High and low digit of the double-width product.
  unfoldable pub zd_dd_mul : ℕ → ℕ → ℕ × ℕ
  zd_dd_mul a b = (a * b / base % base, a * b % base)

  -- Quotient and remainder of the double digit `ah, al`; the quotient is cut to one digit.
  unfoldable pub zd_dd_div : ℕ → ℕ → ℕ → ℕ × ℕ
  zd_dd_div ah al b = ((ah * base + al) / b % base, (ah * base + al) % b % base)

  -- The loops of `zd_add_1` and `zd_sub_1`; `c` is the carry.
  unfoldable pub zd_add_1 : List ℕ → ℕ → List ℕ × ℕ
  zd_add_1 [] c = ([], c)
  zd_add_1 (x ∷ a) c =
      let (s, c') = add_overflow x c in let (r, out) = zd_add_1 a c' in (s ∷ r, out)

  unfoldable pub zd_sub_1 : List ℕ → ℕ → List ℕ × ℕ
  zd_sub_1 [] c = ([], c)
  zd_sub_1 (x ∷ a) c =
      let (s, c') = sub_overflow x c in let (r, out) = zd_sub_1 a c' in (s ∷ r, out)

  -- Two overflow tests for a sum of two digits and a carry; the carry is their sum.
  unfoldable pub add_carry : ℕ → ℕ → ℕ → ℕ × ℕ
  add_carry x y c =
      let (s, c1) = add_overflow x y in let (s', c2) = add_overflow s c in (s', (c1 + c2) % base)

  unfoldable pub sub_borrow : ℕ → ℕ → ℕ → ℕ × ℕ
  sub_borrow x y c =
      let (s, c1) = sub_overflow x y in let (s', c2) = sub_overflow s c in (s', (c1 + c2) % base)

  -- `zd_add_n` from carry `c` (0 at first); the arrays have one length.
  unfoldable pub zd_add_n : List ℕ → List ℕ → ℕ → List ℕ × ℕ
  zd_add_n [] b c = ([], c)
  zd_add_n (x ∷ a) [] c = ([], c)
  zd_add_n (x ∷ a) (y ∷ b) c =
      let (s, c') = add_carry x y c in let (r, out) = zd_add_n a b c' in (s ∷ r, out)

  unfoldable pub zd_sub_n : List ℕ → List ℕ → ℕ → List ℕ × ℕ
  zd_sub_n [] b c = ([], c)
  zd_sub_n (x ∷ a) [] c = ([], c)
  zd_sub_n (x ∷ a) (y ∷ b) c =
      let (s, c') = sub_borrow x y c in let (r, out) = zd_sub_n a b c' in (s ∷ r, out)

  -- `zd_add`: the m low digits, then the carry through the n - m others.
  unfoldable pub zd_add : List ℕ → List ℕ → List ℕ × ℕ
  zd_add a b =
      let m = length b in
      let (low, c) = zd_add_n (take m a) b 0 in
      let (high, out) = zd_add_1 (drop m a) c in
      if length a == m then (low, c) else (low ++ high, out)

  unfoldable pub zd_sub : List ℕ → List ℕ → List ℕ × ℕ
  zd_sub a b =
      let m = length b in
      let (low, c) = zd_sub_n (take m a) b 0 in
      let (high, out) = zd_sub_1 (drop m a) c in
      if length a == m then (low, c) else (low ++ high, out)

  -- The three products by one digit, from carry `c` (0 at first).
  unfoldable pub zd_mul_1 : List ℕ → ℕ → ℕ → List ℕ × ℕ
  zd_mul_1 [] b c = ([], c)
  zd_mul_1 (x ∷ a) b c =
      let (h, l) = zd_dd_mul x b in
      let (s, o) = add_overflow c l in let (r, out) = zd_mul_1 a b ((h + o) % base) in (s ∷ r, out)

  unfoldable pub zd_addmul_1 : List ℕ → List ℕ → ℕ → ℕ → List ℕ × ℕ
  zd_addmul_1 r [] b c = ([], c)
  zd_addmul_1 [] (x ∷ a) b c = ([], c)
  zd_addmul_1 (y ∷ r) (x ∷ a) b c =
      let (h, l) = zd_dd_mul x b in
      let (t, c1) = add_overflow y l in
      let (s, c2) = add_overflow t c in
      let (r', out) = zd_addmul_1 r a b ((h + c1 + c2) % base) in (s ∷ r', out)

  unfoldable pub zd_submul_1 : List ℕ → List ℕ → ℕ → ℕ → List ℕ × ℕ
  zd_submul_1 r [] b c = ([], c)
  zd_submul_1 [] (x ∷ a) b c = ([], c)
  zd_submul_1 (y ∷ r) (x ∷ a) b c =
      let (h, l) = zd_dd_mul x b in
      let (t, c1) = sub_overflow y l in
      let (s, c2) = sub_overflow t c in
      let (r', out) = zd_submul_1 r a b ((h + c1 + c2) % base) in (s ∷ r', out)

  -- The rounds `while (m --> 1)` of `zd_mul`. `w` is `r[0..n]`; `++r` leaves its first digit.
  unfoldable pub zd_mul_rows : List ℕ → ℕ → List ℕ → List ℕ → List ℕ × ℕ
  zd_mul_rows w top a [] = (w, top)
  zd_mul_rows [] top a (y ∷ b) = ([], top)
  zd_mul_rows (d ∷ w) top a (y ∷ b) =
      let (w', top') = zd_addmul_1 w a y 0 in
      let (r, out) = zd_mul_rows (w' ++ top' ∷ []) top' a b in (d ∷ r, out)

  -- The digits `r[0..n+m)` and the last of them.
  unfoldable pub zd_mul : List ℕ → List ℕ → List ℕ × ℕ
  zd_mul a [] = ([], 0)
  zd_mul a (y ∷ b) = let (w, top) = zd_mul_1 a y 0 in zd_mul_rows (w ++ top ∷ []) top a b

  unfoldable pub zd_sqr : List ℕ → List ℕ × ℕ
  zd_sqr a = zd_mul a a

  -- Quotient digits and remainder.
  unfoldable pub zd_div_1 : List ℕ → ℕ → List ℕ × ℕ
  zd_div_1 [] v = ([], 0)
  zd_div_1 (x ∷ u) v = let (q, c) = zd_div_1 u v in let (d, r) = zd_dd_div c x v in (d ∷ q, r)

-- The comparison of two digits, once they differ.
unfoldable pub cmp_digit : ℕ → ℕ → Cmp
cmp_digit x y = if x == y then equal else if ltb x y then less else greater

-- The first digit from the top that differs decides.
unfoldable pub zd_cmp : List ℕ → List ℕ → Cmp
zd_cmp [] b = equal
zd_cmp (x ∷ a) [] = equal
zd_cmp (x ∷ a) (y ∷ b) = elim (zd_cmp a b) [
  | less ↦ less
  | equal ↦ cmp_digit x y
  | greater ↦ greater
]

module _ (bits : ℕ) where
  -- `zd_shl` by 0 < s < bits, from the bits `c` shifted in (0 at first).
  unfoldable pub zd_shl : List ℕ → ℕ → ℕ → List ℕ × ℕ
  zd_shl [] s c = ([], c)
  zd_shl (x ∷ a) s c =
      let (r, out) = zd_shl a s (x / 2 ^ (bits - s)) in (bit_or (x * 2 ^ s % 2 ^ bits) c ∷ r, out)

  -- `zd_shr`: `.1` is what the digit below receives, and at the end what is shifted out.
  unfoldable pub zd_shr : List ℕ → ℕ → List ℕ × ℕ
  zd_shr [] s = ([], 0)
  zd_shr (x ∷ a) s =
      let (r, c) = zd_shr a s in (bit_or (x / 2 ^ s) c ∷ r, x * 2 ^ (bits - s) % 2 ^ bits)
