-- ===== src/Bigint/Digits/Mul.antt =====
-- zd_mul_1, zd_addmul_1, zd_submul_1 and the schoolbook product zd_mul.
use Prim.Native.Nat.pow
use native.Mathlib.Nat.{pow-succ', mod-eq_of_lt}
use crts.Prelude.{
  ℕ, suc, ◌+◌, ◌*◌, ◌%◌, ◌^◌, ◌<◌, ◌≡◌, refl, ap, List, [], ◌∷◌, ◌++◌, arith, length, length-append,
}
use crts.Bigint.Digits.{
  value, IsDigits, add_overflow, sub_overflow, zd_dd_mul, zd_mul_1, zd_addmul_1, zd_submul_1,
  zd_mul_rows, zd_mul,
}
use crts.Bigint.Digits.Add.{Holds}
use crts.Bigint.Digits.Step.{add_overflow_lem, sub_overflow_lem, zd_dd_mul_lem}
use crts.Bigint.Digits.Value.{value-snoc, IsDigits-append, carry_lt, borrow_lt}

module _ (base : ℕ) (big : 1 < base) where
  pub zd_mul_1_lem :
      (a : List ℕ) (b c : ℕ)
      → IsDigits base a
      → b < base
      → c < base
      → (value base (zd_mul_1 base a b c).0 + base ^ length a * (zd_mul_1 base a b c).1
          ≡ value base a * b + c)
        × Holds base (length a) (zd_mul_1 base a b c).0
        × ((zd_mul_1 base a b c).1 < base)
  unfolding zd_mul_1
  zd_mul_1_lem [] b c ha hb hc = (grind (arith, pow.zero base), (tt, refl), hc)
  zd_mul_1_lem (x ∷ a) b c ha hb hc =
      let (h, l) = zd_dd_mul base x b in
      let (s, o) = add_overflow base c l in
      let (r, out) = zd_mul_1 base a b ((h + o) % base) in
      let (e, lh, ll) = zd_dd_mul_lem base big x b ha.0 hb in
      let (e', ls, lo) = add_overflow_lem base big c l hc ll in
      let small : h + o < base = omega arith in
      let same : (h + o) % base ≡ h + o = mod-eq_of_lt small in
      let (ih, (dr, len), lt) = zd_mul_1_lem a b ((h + o) % base) ha.1 hb (rw same small) in
      (
        omega (
          arith,
          ap (λ (t : ℕ). base * t) ih,
          ap (λ (t : ℕ). base * t) same,
          ap (λ (t : ℕ). t * out) (pow-succ' base (length a)),
        ),
        ((ls, dr), ap suc len),
        lt,
      )

  pub zd_addmul_1_lem :
      (r a : List ℕ) (b c : ℕ)
      → IsDigits base r
      → IsDigits base a
      → length r ≡ length a
      → b < base
      → c < base
      → (value base (zd_addmul_1 base r a b c).0 + base ^ length a * (zd_addmul_1 base r a b c).1
          ≡ value base r + value base a * b + c)
        × Holds base (length a) (zd_addmul_1 base r a b c).0
        × ((zd_addmul_1 base r a b c).1 < base)
  unfolding zd_addmul_1
  zd_addmul_1_lem [] [] b c hr ha n hb hc = (grind (arith, pow.zero base), (tt, refl), hc)
  zd_addmul_1_lem (y ∷ r) [] b c hr ha n hb hc = absurd (omega arith)
  zd_addmul_1_lem [] (x ∷ a) b c hr ha n hb hc = absurd (omega arith)
  zd_addmul_1_lem (y ∷ r) (x ∷ a) b c hr ha n hb hc =
      let (h, l) = zd_dd_mul base x b in
      let (t, c1) = add_overflow base y l in
      let (s, c2) = add_overflow base t c in
      let k = (h + c1 + c2) % base in
      let (r', out) = zd_addmul_1 base r a b k in
      let (e, lh, ll) = zd_dd_mul_lem base big x b ha.0 hb in
      let (e1, lt1, _) = add_overflow_lem base big y l hr.0 ll in
      let (e2, ls, _) = add_overflow_lem base big t c lt1 hc in
      let small : h + c1 + c2 < base =
        carry_lt base x b y c s (h + c1 + c2) ha.0 hb hr.0 hc (omega arith) in
      let same : k ≡ h + c1 + c2 = mod-eq_of_lt small in
      let (ih, (dr, len), lt) =
        zd_addmul_1_lem r a b k hr.1 ha.1 (omega arith) hb (rw same small) in
      (
        omega (
          arith,
          ap (λ (t : ℕ). base * t) ih,
          ap (λ (t : ℕ). base * t) same,
          ap (λ (t : ℕ). t * out) (pow-succ' base (length a)),
        ),
        ((ls, dr), ap suc len),
        lt,
      )

  -- For digit arrays r and a of one length, a digit b and a digit c, zd_submul_1 writes the digits
  -- of r - a * b - c, as many as r has, and returns the borrow that this needs above them, a
  -- digit.
  pub zd_submul_1_lem :
      (r a : List ℕ) (b c : ℕ)
      → IsDigits base r
      → IsDigits base a
      → length r ≡ length a
      → b < base
      → c < base
      → (value base (zd_submul_1 base r a b c).0 + value base a * b + c
          ≡ value base r + base ^ length a * (zd_submul_1 base r a b c).1)
        × Holds base (length a) (zd_submul_1 base r a b c).0
        × ((zd_submul_1 base r a b c).1 < base)
  unfolding zd_submul_1
  zd_submul_1_lem [] [] b c hr ha n hb hc = (grind (arith, pow.zero base), (tt, refl), hc)
  zd_submul_1_lem (y ∷ r) [] b c hr ha n hb hc = absurd (omega arith)
  zd_submul_1_lem [] (x ∷ a) b c hr ha n hb hc = absurd (omega arith)
  zd_submul_1_lem (y ∷ r) (x ∷ a) b c hr ha n hb hc =
      let (h, l) = zd_dd_mul base x b in
      let (t, c1) = sub_overflow base y l in
      let (s, c2) = sub_overflow base t c in
      let k = (h + c1 + c2) % base in
      let (r', out) = zd_submul_1 base r a b k in
      let (e, lh, ll) = zd_dd_mul_lem base big x b ha.0 hb in
      let (e1, lt1, _) = sub_overflow_lem base big y l hr.0 ll in
      let (e2, ls, _) = sub_overflow_lem base big t c lt1 hc in
      let small : h + c1 + c2 < base =
        borrow_lt base x b y c s (h + c1 + c2) ha.0 hb ls hc (omega arith) in
      let same : k ≡ h + c1 + c2 = mod-eq_of_lt small in
      let (ih, (dr, len), lt) =
        zd_submul_1_lem r a b k hr.1 ha.1 (omega arith) hb (rw same small) in
      (
        omega (
          arith,
          ap (λ (t : ℕ). base * t) ih,
          ap (λ (t : ℕ). base * t) same,
          ap (λ (t : ℕ). t * out) (pow-succ' base (length a)),
        ),
        ((ls, dr), ap suc len),
        lt,
      )

  -- The rows add the product by the remaining digits, one digit further up.
  zd_mul_rows_lem :
      (w : List ℕ) (top : ℕ) (a b : List ℕ)
      → IsDigits base w
      → IsDigits base a
      → IsDigits base b
      → length w ≡ length a + 1
      → (value base (zd_mul_rows base w top a b).0
          ≡ value base w + base * (value base a * value base b))
        × Holds base (length w + length b) (zd_mul_rows base w top a b).0
  unfolding zd_mul_rows
  zd_mul_rows_lem w top a [] hw ha hb n = (omega arith, (hw, omega arith))
  zd_mul_rows_lem [] top a (y ∷ b) hw ha hb n = absurd (omega arith)
  zd_mul_rows_lem (d ∷ w) top a (y ∷ b) hw ha hb n =
      let (w', t) = zd_addmul_1 base w a y 0 in
      let (e, (dw, len), lt) = zd_addmul_1_lem w a y 0 hw.1 ha (omega arith) hb.0 (omega arith) in
      let w-len : length (w' ++ t ∷ []) ≡ length a + 1 = omega (arith, length-append w' (t ∷ [])) in
      let row : value base (w' ++ t ∷ []) ≡ value base w + value base a * y =
        omega (arith, value-snoc base w' t, ap (λ (k : ℕ). base ^ k * t) len) in
      let (ih, (dr, len')) =
        zd_mul_rows_lem (w' ++ t ∷ []) t a b (IsDigits-append base w' (t ∷ []) dw (lt, tt)) ha hb.1
          w-len in
      (
        omega (arith, ap (λ (k : ℕ). base * k) ih, ap (λ (k : ℕ). base * k) row),
        ((hw.0, dr), omega arith),
      )

  -- The last digit is the one that is returned.
  zd_mul_rows_top :
      (f : List ℕ) (top : ℕ) (a b : List ℕ)
      → (front : List ℕ) × ((zd_mul_rows base (f ++ top ∷ []) top a b).0
          ≡ front ++ (zd_mul_rows base (f ++ top ∷ []) top a b).1 ∷ [])
  unfolding zd_mul_rows
  zd_mul_rows_top f top a [] = (f, refl)
  zd_mul_rows_top [] top a (y ∷ b) =
      let (w, t) = zd_addmul_1 base [] a y 0 in
      let (front, e) = zd_mul_rows_top w t a b in (top ∷ front, ap (◌∷◌ top) e)
  zd_mul_rows_top (d ∷ f) top a (y ∷ b) =
      let (w, t) = zd_addmul_1 base (f ++ top ∷ []) a y 0 in
      let (front, e) = zd_mul_rows_top w t a b in (d ∷ front, ap (◌∷◌ d) e)

  -- For digit arrays of which the second is not empty, the digits that zd_mul writes are digits of
  -- the base, as many as both arrays have, and stand for the product; zd_mul returns the last of
  -- them.
  pub zd_mul_lem :
      (a b : List ℕ)
      → IsDigits base a
      → IsDigits base b
      → 0 < length b
      → (value base (zd_mul base a b).0 ≡ value base a * value base b)
        × Holds base (length a + length b) (zd_mul base a b).0
        × ((front : List ℕ) × ((zd_mul base a b).0 ≡ front ++ (zd_mul base a b).1 ∷ []))
  unfolding zd_mul
  zd_mul_lem a [] ha hb pos = absurd (omega arith)
  zd_mul_lem a (y ∷ b) ha hb pos =
      let (w, t) = zd_mul_1 base a y 0 in
      let (e, (dw, len), lt) = zd_mul_1_lem a y 0 ha hb.0 (omega arith) in
      let w-len : length (w ++ t ∷ []) ≡ length a + 1 = omega (arith, length-append w (t ∷ [])) in
      let (ih, (dr, len')) =
        zd_mul_rows_lem (w ++ t ∷ []) t a b (IsDigits-append base w (t ∷ []) dw (lt, tt)) ha hb.1
          w-len in
      (
        omega (arith, ih, value-snoc base w t, ap (λ (k : ℕ). base ^ k * t) len),
        (dr, omega arith),
        zd_mul_rows_top w t a b,
      )
