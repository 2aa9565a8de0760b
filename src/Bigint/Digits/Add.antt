-- ===== src/Bigint/Digits/Add.antt =====
-- zd_add_1, zd_sub_1, zd_add_n and zd_sub_n compute sum and difference, with carry and borrow.
use Prim.Native.Nat.pow
use native.Mathlib.Nat.{pow-succ'}
use crts.Prelude.{ℕ, suc, ◌+◌, ◌*◌, ◌^◌, ◌≤◌, ◌<◌, ◌≡◌, refl, ap, List, [], ◌∷◌, arith, length}
use crts.Bigint.Digits.{
  value, IsDigits, add_overflow, sub_overflow, add_carry, sub_borrow, zd_add_1, zd_sub_1, zd_add_n,
  zd_sub_n,
}
use crts.Bigint.Digits.Step.{add_overflow_lem, sub_overflow_lem, add_carry_lem, sub_borrow_lem}

-- `r` holds n digits.
abbrev pub Holds : ℕ → ℕ → List ℕ → Type 0
Holds base n r = IsDigits base r × (length r ≡ n)

module _ (base : ℕ) (big : 1 < base) where
  -- The sum of the digits and a digit, the carry out counted at its place.
  pub zd_add_1_lem :
      (a : List ℕ) (c : ℕ)
      → IsDigits base a
      → c < base
      → (value base (zd_add_1 base a c).0 + base ^ length a * (zd_add_1 base a c).1
          ≡ value base a + c)
        × Holds base (length a) (zd_add_1 base a c).0
        × ((zd_add_1 base a c).1 < base)
  unfolding zd_add_1
  zd_add_1_lem [] c ha hc = (grind (arith, pow.zero base), (tt, refl), hc)
  zd_add_1_lem (x ∷ a) c ha hc =
      let (s, c') = add_overflow base x c in
      let (r, out) = zd_add_1 base a c' in
      let (e, l, u) = add_overflow_lem base big x c ha.0 hc in
      let (ih, (dr, len), lt) = zd_add_1_lem a c' ha.1 (omega arith) in
      (
        omega (
          arith,
          ap (λ (t : ℕ). base * t) ih,
          ap (λ (t : ℕ). t * out) (pow-succ' base (length a)),
        ),
        ((l, dr), ap suc len),
        lt,
      )

  pub zd_sub_1_lem :
      (a : List ℕ) (c : ℕ)
      → IsDigits base a
      → c < base
      → (value base (zd_sub_1 base a c).0 + c
          ≡ value base a + base ^ length a * (zd_sub_1 base a c).1)
        × Holds base (length a) (zd_sub_1 base a c).0
        × ((zd_sub_1 base a c).1 < base)
  unfolding zd_sub_1
  zd_sub_1_lem [] c ha hc = (grind (arith, pow.zero base), (tt, refl), hc)
  zd_sub_1_lem (x ∷ a) c ha hc =
      let (s, c') = sub_overflow base x c in
      let (r, out) = zd_sub_1 base a c' in
      let (e, l, u) = sub_overflow_lem base big x c ha.0 hc in
      let (ih, (dr, len), lt) = zd_sub_1_lem a c' ha.1 (omega arith) in
      (
        omega (
          arith,
          ap (λ (t : ℕ). base * t) ih,
          ap (λ (t : ℕ). t * out) (pow-succ' base (length a)),
        ),
        ((l, dr), ap suc len),
        lt,
      )

  pub zd_add_n_lem :
      (a b : List ℕ) (c : ℕ)
      → IsDigits base a
      → IsDigits base b
      → length a ≡ length b
      → c ≤ 1
      → (value base (zd_add_n base a b c).0 + base ^ length b * (zd_add_n base a b c).1
          ≡ value base a + value base b + c)
        × Holds base (length b) (zd_add_n base a b c).0
        × ((zd_add_n base a b c).1 ≤ 1)
  unfolding zd_add_n
  zd_add_n_lem [] [] c ha hb n hc = (grind (arith, pow.zero base), (tt, refl), hc)
  zd_add_n_lem [] (y ∷ b) c ha hb n hc = absurd (omega arith)
  zd_add_n_lem (x ∷ a) [] c ha hb n hc = absurd (omega arith)
  zd_add_n_lem (x ∷ a) (y ∷ b) c ha hb n hc =
      let (s, c') = add_carry base x y c in
      let (r, out) = zd_add_n base a b c' in
      let (e, l, u) = add_carry_lem base big x y c ha.0 hb.0 hc in
      let (ih, (dr, len), lt) = zd_add_n_lem a b c' ha.1 hb.1 (omega arith) u in
      (
        omega (
          arith,
          ap (λ (t : ℕ). base * t) ih,
          ap (λ (t : ℕ). t * out) (pow-succ' base (length b)),
        ),
        ((l, dr), ap suc len),
        lt,
      )

  pub zd_sub_n_lem :
      (a b : List ℕ) (c : ℕ)
      → IsDigits base a
      → IsDigits base b
      → length a ≡ length b
      → c ≤ 1
      → (value base (zd_sub_n base a b c).0 + value base b + c
          ≡ value base a + base ^ length b * (zd_sub_n base a b c).1)
        × Holds base (length b) (zd_sub_n base a b c).0
        × ((zd_sub_n base a b c).1 ≤ 1)
  unfolding zd_sub_n
  zd_sub_n_lem [] [] c ha hb n hc = (grind (arith, pow.zero base), (tt, refl), hc)
  zd_sub_n_lem [] (y ∷ b) c ha hb n hc = absurd (omega arith)
  zd_sub_n_lem (x ∷ a) [] c ha hb n hc = absurd (omega arith)
  zd_sub_n_lem (x ∷ a) (y ∷ b) c ha hb n hc =
      let (s, c') = sub_borrow base x y c in
      let (r, out) = zd_sub_n base a b c' in
      let (e, l, u) = sub_borrow_lem base big x y c ha.0 hb.0 hc in
      let (ih, (dr, len), lt) = zd_sub_n_lem a b c' ha.1 hb.1 (omega arith) u in
      (
        omega (
          arith,
          ap (λ (t : ℕ). base * t) ih,
          ap (λ (t : ℕ). t * out) (pow-succ' base (length b)),
        ),
        ((l, dr), ap suc len),
        lt,
      )

  -- A carry of at most 1 stays one.
  pub zd_add_1-le-one : (a : List ℕ) (c : ℕ) → IsDigits base a → c ≤ 1 → (zd_add_1 base a c).1 ≤ 1
  unfolding zd_add_1
  zd_add_1-le-one [] c ha hc = hc
  zd_add_1-le-one (x ∷ a) c ha hc =
      zd_add_1-le-one a _ ha.1 (add_overflow_lem base big x c ha.0 (omega arith)).2

  pub zd_sub_1-le-one : (a : List ℕ) (c : ℕ) → IsDigits base a → c ≤ 1 → (zd_sub_1 base a c).1 ≤ 1
  unfolding zd_sub_1
  zd_sub_1-le-one [] c ha hc = hc
  zd_sub_1-le-one (x ∷ a) c ha hc =
      zd_sub_1-le-one a _ ha.1 (sub_overflow_lem base big x c ha.0 (omega arith)).2
