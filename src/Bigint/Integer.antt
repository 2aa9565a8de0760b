-- ===== src/Bigint/Integer.antt =====
-- native/bigint/z.h: integers with a sign and a magnitude, over the digits of `Digits`.
-- `digits` are the `size` digits in use. Z_ALLOC is the parameter `malloc`: whether an allocation
-- of so many digits succeeds.
pub mod Normal
pub mod Add
pub mod Gives
pub mod Sum
pub mod Product
pub mod Times
pub mod Word
pub mod Shift
pub mod ShiftRight
pub mod Compare
pub mod Divide
pub mod Bits
use crts.Prelude.{
  ℕ, zero, suc, ◌+◌, ◌-◌, ◌*◌, ◌/◌, ◌%◌, ◌^◌, ◌≤◌, ◌<◌, max, ◌≡◌, Bool, true, false, not, ◌&&◌,
  ◌||◌, List, [], ◌∷◌, ◌++◌, ltb, leb, ◌==◌, same, differs, if◌then◌else◌, length, take, drop,
  get_or, replicate,
}
use crts.Prelude.Int.{ℤ, signed}
use crts.Bigint.Digits.{
  value, IsDigits, Cmp, less, equal, greater, zd_add_1, zd_sub_1, zd_add, zd_sub, zd_sub_n,
  zd_mul_1, zd_mul, zd_sqr, zd_cmp, zd_shl, zd_shr,
}

pub record ZInt : Type 0 where
  pub digits : List ℕ
  pub alloc : ℕ
  pub neg : Bool
  pub err : Bool

abbrev pub z_err : ZInt
z_err = record { digits = []; alloc = 0; neg = false; err = true }

abbrev pub z_zero : ZInt
z_zero = record { digits = []; alloc = 0; neg = false; err = false }

-- The integer that is meant.
unfoldable pub to_ℤ : ℕ → ZInt → ℤ
to_ℤ base a = signed a.neg (value base a.digits)

-- The top digit is not zero.
abbrev pub IsTrimmed : List ℕ → Type 0
IsTrimmed [] = Unit {0}
IsTrimmed (x ∷ []) = 0 < x
IsTrimmed (x ∷ y ∷ xs) = IsTrimmed (y ∷ xs)

-- One representation for each integer; zero has no digit and no sign.
pub record IsNormal (base : ℕ) (a : ZInt) : Type 0 where
  pub digits_fit : IsDigits base a.digits
  pub trimmed : IsTrimmed a.digits
  pub zero_sign : a.digits ≡ [] → a.neg ≡ false
  pub no_error : a.err ≡ false

-- Does `_z_new` succeed?
unfoldable pub z_new_ok : (ℕ → Bool) → Bool → ℕ → Bool
z_new_ok malloc err alloc = if err then false else if alloc == 0 then true else malloc alloc

-- `_z_new_checked` returns early on failure; else the code fills in the digits and the sign.
unfoldable pub z_new_checked : (ℕ → Bool) → Bool → ℕ → Bool × List ℕ → ZInt
z_new_checked malloc err alloc (neg, digits) =
    if z_new_ok malloc err alloc
    then record { digits = digits; alloc = alloc; neg = neg; err = false }
    else z_err

unfoldable pub z_grow : List ℕ → ℕ → List ℕ
z_grow digits b = if b == 0 then digits else digits ++ b ∷ []

abbrev pub trim_onto : ℕ → List ℕ → List ℕ
trim_onto x [] = if x == 0 then [] else x ∷ []
trim_onto x (y ∷ ys) = x ∷ y ∷ ys

-- The loop of `_z_trim`, from the top.
unfoldable pub trim : List ℕ → List ℕ
trim [] = []
trim (x ∷ xs) = trim_onto x (trim xs)

unfoldable pub is_empty : List ℕ → Bool
is_empty [] = true
is_empty (x ∷ xs) = false

-- `_z_trim`: sign and digits.
unfoldable pub z_trim : Bool → List ℕ → Bool × List ℕ
z_trim neg digits = (if is_empty (trim digits) then false else neg, trim digits)

-- `_z_trim_1`: at most one zero digit at the top.
unfoldable pub z_trim_1 : List ℕ → List ℕ
z_trim_1 [] = []
z_trim_1 (x ∷ []) = if x == 0 then [] else x ∷ []
z_trim_1 (x ∷ y ∷ xs) = x ∷ z_trim_1 (y ∷ xs)

module _ (base : ℕ) where
  -- What `_z_addsub_1` writes: sign and digits.
  unfoldable pub addsub_1 : List ℕ → ℕ → Bool → Bool → Bool × List ℕ
  addsub_1 [] b aneg bneg = (bneg, b ∷ [])
  addsub_1 (x ∷ a) b aneg bneg =
      let (sum, c) = zd_add_1 base (x ∷ a) b in
      let (diff, _) = zd_sub_1 base (x ∷ a) b in
      if same aneg bneg
      then (aneg, z_grow sum c)
      else if is_empty a && ltb x b
      then (bneg, (b - x) ∷ [])
      else z_trim aneg diff

  unfoldable pub z_addsub_1 : (ℕ → Bool) → ZInt → ℕ → Bool → Bool → ZInt
  z_addsub_1 malloc a b aneg bneg =
      z_new_checked malloc a.err (length a.digits + 1) (addsub_1 a.digits b aneg bneg)

  unfoldable pub z_add_1 : (ℕ → Bool) → ZInt → ℕ → ZInt
  z_add_1 malloc a b = z_addsub_1 malloc a b a.neg false

  unfoldable pub z_sub_1 : (ℕ → Bool) → ZInt → ℕ → ZInt
  z_sub_1 malloc a b = z_addsub_1 malloc a b a.neg true

  -- What `_z_addsub` writes, for an `a` that is not shorter than `b`.
  unfoldable pub addsub : List ℕ → List ℕ → Bool → Bool → Bool × List ℕ
  addsub a b aneg bneg =
      let (sum, c) = zd_add base a b in
      if same aneg bneg
      then (aneg, z_grow sum c)
      else if length a == length b
      then elim (zd_cmp a b) [
        | less ↦ z_trim bneg (zd_sub_n base b a 0).0
        | equal ↦ z_trim aneg (zd_sub_n base a b 0).0
        | greater ↦ z_trim aneg (zd_sub_n base a b 0).0
      ]
      else z_trim aneg (zd_sub base a b).0

  unfoldable pub addsub_ordered : (ℕ → Bool) → ZInt → ZInt → Bool → Bool → ZInt
  addsub_ordered malloc a b aneg bneg =
      if length b.digits == 1
      then z_addsub_1 malloc a (get_or b.digits 0 0) aneg bneg
      else z_new_checked malloc (a.err || b.err) (length a.digits + 1)
          (addsub a.digits b.digits aneg bneg)

  -- The longer operand comes first.
  unfoldable pub z_addsub : (ℕ → Bool) → ZInt → ZInt → Bool → Bool → ZInt
  z_addsub malloc a b aneg bneg =
      if ltb (length a.digits) (length b.digits)
      then addsub_ordered malloc b a bneg aneg
      else addsub_ordered malloc a b aneg bneg

  unfoldable pub z_add : (ℕ → Bool) → ZInt → ZInt → ZInt
  z_add malloc a b = z_addsub malloc a b a.neg b.neg

  unfoldable pub z_sub : (ℕ → Bool) → ZInt → ZInt → ZInt
  z_sub malloc a b = z_addsub malloc a b a.neg (if is_empty b.digits then false else not b.neg)

  -- What `z_mul` writes for operands with digits, the longer one first; `identical` is the answer
  -- of `_z_identical`.
  unfoldable pub mul_digits : Bool → List ℕ → List ℕ → List ℕ
  mul_digits identical a b =
      let (square, _) = zd_sqr base a in
      let (row, c) = zd_mul_1 base a (get_or b 0 0) 0 in
      let (product, top) = zd_mul base a b in
      if identical
      then z_trim_1 square
      else if length b == 1
      then z_trim_1 (row ++ c ∷ [])
      else if top == 0
      then take (length a + length b - 1) product
      else product

  -- `shared`: do the operands have one array of digits?
  unfoldable pub mul_ordered : (ℕ → Bool) → Bool → ZInt → ZInt → ZInt
  mul_ordered malloc shared a b =
      let identical = shared && length a.digits == length b.digits && same a.neg b.neg in
      if is_empty b.digits
      then z_new_checked malloc (a.err || b.err) 0 (false, [])
      else z_new_checked malloc (a.err || b.err) (length a.digits + length b.digits)
          (differs a.neg b.neg, mul_digits identical a.digits b.digits)

  unfoldable pub z_mul : (ℕ → Bool) → Bool → ZInt → ZInt → ZInt
  z_mul malloc shared a b =
      if ltb (length a.digits) (length b.digits)
      then mul_ordered malloc shared b a
      else mul_ordered malloc shared a b

-- Signs first, then sizes, then digits; two negative operands change places.
unfoldable pub cmp_sizes : List ℕ → List ℕ → Cmp
cmp_sizes a b =
    if length a == length b then zd_cmp a b else if ltb (length a) (length b) then less else greater

unfoldable pub z_cmp : ZInt → ZInt → Cmp
z_cmp a b =
    if differs a.neg b.neg
    then if a.neg then less else greater
    else if a.neg
    then cmp_sizes b.digits a.digits
    else cmp_sizes a.digits b.digits

-- `z_abs` and `z_neg` share the digits, hence `alloc` is 0.
unfoldable pub z_abs : ZInt → ZInt
z_abs a = record a { neg = false; alloc = 0 }

unfoldable pub z_neg : ZInt → ZInt
z_neg a = record a { neg = not a.neg && not (is_empty a.digits); alloc = 0 }

unfoldable pub z_not : ℕ → (ℕ → Bool) → ZInt → ZInt
z_not base malloc a = z_sub_1 base malloc (z_neg a) 1

module _ (bits : ℕ) where
  -- `_z_clear` and the shifted digits above it.
  unfoldable pub shl_digits : List ℕ → ℕ → List ℕ
  shl_digits a b =
      let (r, c) = zd_shl bits a (b % bits) 0 in
      replicate (b / bits) 0 ++ (if b % bits == 0 then a else z_grow r c)

  unfoldable pub z_shl : (ℕ → Bool) → ZInt → ℕ → ZInt
  z_shl malloc a b =
      if is_empty a.digits
      then z_new_checked malloc a.err 0 (false, [])
      else z_new_checked malloc a.err (length a.digits + b / bits + 1)
          (a.neg, shl_digits a.digits b)

  unfoldable pub shr_digits : List ℕ → ℕ → List ℕ
  shr_digits a b =
      let high = drop (b / bits) a in
      if b % bits == 0 then high else z_trim_1 (zd_shr bits high (b % bits)).0

  -- The loop of `z_from_u64`; a 64-bit word has at most `n` digits.
  unfoldable pub u64_digits : ℕ → ℕ → List ℕ
  u64_digits zero b = []
  u64_digits (suc n) b =
      let rest = u64_digits n (b / 2 ^ bits) in if b == 0 then [] else b % 2 ^ bits ∷ rest

  abbrev pub digits_of_64 : ℕ
  digits_of_64 = (64 + bits - 1) / bits

  unfoldable pub z_from_u64 : (ℕ → Bool) → ℕ → ZInt
  z_from_u64 malloc b = z_new_checked malloc false digits_of_64 (false, u64_digits digits_of_64 b)

  -- `neg` and `b` are the sign and the magnitude of an `int64_t`.
  unfoldable pub z_from_i64 : (ℕ → Bool) → Bool → ℕ → ZInt
  z_from_i64 malloc neg b = record (z_from_u64 malloc b) { neg = neg }

  unfoldable pub z_shr : (ℕ → Bool) → ZInt → ℕ → ZInt
  z_shr malloc a b =
      if leb (length a.digits) (b / bits) && a.neg
      then z_from_i64 malloc true 1
      else if is_empty a.digits || leb (length a.digits) (b / bits)
      then z_new_checked malloc a.err 0 (false, [])
      else z_new_checked malloc a.err (length a.digits - b / bits) (a.neg, shr_digits a.digits b)
