-- ===== src/Bigint/Digits/Divide.antt =====
-- The division of native/bigint/znogmp.h by more than one digit: Knuth's algorithm D.
-- `u + j` is what is left of the array after j digits. Z_ALLOC, Z_SCRATCH and __builtin_clzll are
-- parameters. The fuel of the estimate is 2: the divisor's top digit is at least half the base, so
-- the second sum with the rest overflows.
mod Estimate
mod Leading
mod Step
mod Rows
mod Scale
pub mod Normal
pub mod Whole
use crts.Prelude.{
  ℕ, zero, suc, ◌+◌, ◌-◌, ◌*◌, ◌%◌, ◌^◌, Bool, not, ◌&&◌, ◌||◌, Option, none, some, ◌>>=◌, List, [],
  ◌∷◌, ◌++◌, ltb, leb, ◌==◌, if◌then◌else◌, length, take, drop, get_or,
}
use crts.Bigint.Digits.{
  add_overflow, sub_overflow, zd_dd_mul, zd_dd_div, zd_add_n, zd_submul_1, zd_div_1, zd_shl, zd_shr,
}

-- What is written, or that there was no memory for it.
pub data Division : Type 0 where
  failed : Division
  divided : List ℕ → List ℕ → Division

module _ (base : ℕ) where
  -- The loop that lowers Q, with R; `qh` is Qh. None is a loop that has run out of fuel.
  unfoldable pub calculate : ℕ → ℕ → ℕ → ℕ → Bool → ℕ → ℕ → Option ℕ
  calculate zero v1 v2 u2 qh q r = none
  calculate (suc fuel) v1 v2 u2 qh q r =
      let (h, l) = zd_dd_mul base q v2 in
      let (q', under) = sub_overflow base q 1 in
      let (r', over) = add_overflow base r v1 in
      let rest = calculate fuel v1 v2 u2 (under == 0 && qh) q' r' in
      if not qh && (ltb h r || (h == r && leb l u2))
      then some q
      else if over == 0
      then rest
      else some q'

  -- Subtracts Q * v from u + j, and adds v back if that was too much: the array and Q.
  unfoldable pub multiply_subtract : List ℕ → List ℕ → ℕ → List ℕ × ℕ
  multiply_subtract u v q =
      let n = length v in
      let (low, c) = zd_submul_1 base (take n u) v q 0 in
      let (top, borrow) = sub_overflow base (get_or u n 0) c in
      let (back, carry) = zd_add_n base low v 0 in
      if borrow == 0
      then (low ++ top ∷ drop (n + 1) u, q)
      else (back ++ ((top + carry) % base) ∷ drop (n + 1) u, (q + base - 1) % base)

  -- `_zd_div_knuth_step` on u + j.
  unfoldable pub zd_div_knuth_step : List ℕ → List ℕ → Option (List ℕ × ℕ)
  zd_div_knuth_step u v =
      let n = length v in
      let v1 = get_or v (n - 1) 0 in
      let top = get_or u n 0 in
      let (q, r) = zd_dd_div base top (get_or u (n - 1) 0) v1 in
      calculate 2 v1 (get_or v (n - 2) 0) (get_or u (n - 2) 0) (top == v1) q r >>= λ q'.
      some (multiply_subtract u v q')

  -- The loop over j, from the top down: the digits q and what the array has then.
  unfoldable pub knuth_rows : ℕ → List ℕ → List ℕ → Option (List ℕ × List ℕ)
  knuth_rows zero u v = some ([], u)
  knuth_rows (suc k) [] v = none
  knuth_rows (suc k) (x ∷ u) v = knuth_rows k u v >>= λ above.
      zd_div_knuth_step (x ∷ above.1) v >>= λ row. some (row.1 ∷ above.0, row.0)

module _ (bits : ℕ) where
  -- The digits shifted up, and what comes out at the top.
  unfoldable pub normalized : List ℕ → ℕ → List ℕ × ℕ
  normalized a s = if s == 0 then (a, 0) else zd_shl bits a s 0

  unfoldable pub denormalized : List ℕ → ℕ → List ℕ
  denormalized a s = if s == 0 then a else (zd_shr bits a s).0

module _ (bits : ℕ) (clz : ℕ → ℕ) (malloc : ℕ → Bool) (scratch : ℕ) where
  unfoldable pub zd_div_knuth : List ℕ → List ℕ → Option Division
  zd_div_knuth u v =
      let m = length u in
      let n = length v in
      let s = clz (get_or v (n - 1) 0) + bits - 64 in
      let needed = n + m + 1 in
      let (vn, _) = normalized bits v s in
      let (un, top) = normalized bits u s in
      let rows = knuth_rows (2 ^ bits) (m - n + 1) (un ++ top ∷ []) vn in
      if ltb scratch needed && not (malloc needed)
      then some failed
      else rows >>= λ row. some (divided row.0 (denormalized bits (take n row.1) s))

  unfoldable pub zd_divmod : List ℕ → List ℕ → Option Division
  zd_divmod u v =
      let (q, r) = zd_div_1 (2 ^ bits) u (get_or v 0 0) in
      if length v == 1 then some (divided q (r ∷ [])) else zd_div_knuth u v
