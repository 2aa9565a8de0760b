-- ===== src/Bigint/Digits/Step.antt =====
-- One digit of each loop: what the written digit and the carry stand for.
use crts.Prelude.{ℕ, zero, suc, ◌+◌, ◌-◌, ◌*◌, ◌/◌, ◌%◌, ◌≤◌, ◌<◌, ◌≡◌, arith}
use Prim.Native.Nat.{suc-le-suc}
use native.Mathlib.Nat.{
  mul-le-mul, le_trans, lt_trans, mod-eq_of_lt, mod-lt, div-add-mod, div-add-mod',
  div-lt_iff_lt-mul, mul_comm,
}
use crts.Bigint.Digits.{add_overflow, sub_overflow, zd_dd_mul, zd_dd_div, add_carry, sub_borrow}

module _ (base : ℕ) (big : 1 < base) where
  pub add_overflow_lem :
      (x y : ℕ)
      → x < base
      → y < base
      → ((add_overflow base x y).0 + base * (add_overflow base x y).1 ≡ x + y)
        × ((add_overflow base x y).0 < base)
        × ((add_overflow base x y).1 ≤ 1)
  unfolding add_overflow
  add_overflow_lem x y hx hy = grind arith

  pub sub_overflow_lem :
      (x y : ℕ)
      → x < base
      → y < base
      → ((sub_overflow base x y).0 + y ≡ x + base * (sub_overflow base x y).1)
        × ((sub_overflow base x y).0 < base)
        × ((sub_overflow base x y).1 ≤ 1)
  unfolding sub_overflow
  sub_overflow_lem x y hx hy = grind arith

  small_sum : (c d : ℕ) → base * c + base * d < base + base → c + d ≤ 1
  small_sum zero d h = grind arith
  small_sum (suc zero) d h = grind arith
  small_sum (suc (suc c)) d h = grind arith

  pub add_carry_lem :
      (x y c : ℕ)
      → x < base
      → y < base
      → c ≤ 1
      → ((add_carry base x y c).0 + base * (add_carry base x y c).1 ≡ x + y + c)
        × ((add_carry base x y c).0 < base)
        × ((add_carry base x y c).1 ≤ 1)
  unfolding add_carry
  add_carry_lem x y c hx hy hc =
      let (s, c1) = add_overflow base x y in
      let (s', c2) = add_overflow base s c in
      let (e1, l1, u1) = add_overflow_lem x y hx hy in
      let (e2, l2, u2) = add_overflow_lem s c l1 (omega arith) in
      let le : c1 + c2 ≤ 1 = small_sum c1 c2 (omega arith) in
      rw (mod-eq_of_lt (le_trans (suc-le-suc le) big)) (omega arith)

  pub sub_borrow_lem :
      (x y c : ℕ)
      → x < base
      → y < base
      → c ≤ 1
      → ((sub_borrow base x y c).0 + y + c ≡ x + base * (sub_borrow base x y c).1)
        × ((sub_borrow base x y c).0 < base)
        × ((sub_borrow base x y c).1 ≤ 1)
  unfolding sub_borrow
  sub_borrow_lem x y c hx hy hc =
      let (s, c1) = sub_overflow base x y in
      let (s', c2) = sub_overflow base s c in
      let (e1, l1, u1) = sub_overflow_lem x y hx hy in
      let (e2, l2, u2) = sub_overflow_lem s c l1 (omega arith) in
      let le : c1 + c2 ≤ 1 = small_sum c1 c2 (omega arith) in
      rw (mod-eq_of_lt (le_trans (suc-le-suc le) big)) (omega arith)

  pub zd_dd_mul_lem :
      (x y : ℕ)
      → x < base
      → y < base
      → ((zd_dd_mul base x y).1 + base * (zd_dd_mul base x y).0 ≡ x * y)
        × ((zd_dd_mul base x y).0 + 1 < base)
        × ((zd_dd_mul base x y).1 < base)
  unfolding zd_dd_mul
  zd_dd_mul_lem x y hx hy =
      let below : x * y < base * (base - 1) =
        let le : x * y ≤ (base - 1) * (base - 1) = mul-le-mul (omega arith) (omega arith) in
        grind arith in
      let high : x * y / base < base - 1 =
        (div-lt_iff_lt-mul (omega arith)).1 (rw (mul_comm (base - 1)) below) in
      rw (mod-eq_of_lt {m = base} (le_trans high (omega arith)))
        (omega (arith, div-add-mod (x * y) base), omega arith, mod-lt _ (omega arith))

  pub zd_dd_div_lem :
      (ah al b : ℕ)
      → ah < b
      → al < base
      → b < base
      → ((zd_dd_div base ah al b).0 * b + (zd_dd_div base ah al b).1 ≡ ah * base + al)
        × ((zd_dd_div base ah al b).0 < base)
        × ((zd_dd_div base ah al b).1 < b)
  unfolding zd_dd_div
  zd_dd_div_lem ah al b h hal hb =
      let w : ℕ = ah * base + al in
      let below : w < base * b = grind arith in
      let rest : w % b < b = mod-lt w (omega arith) in
      let quot : w / b < base = (div-lt_iff_lt-mul (omega arith)).1 below in
      rw (mod-eq_of_lt quot, mod-eq_of_lt (lt_trans rest hb)) (div-add-mod' w b, quot, rest)
