-- ===== src/Bigint/Digits/Whole.antt =====
-- zd_add and zd_sub on arrays of two lengths, and zd_cmp and zd_div_1.
use crts.Prelude.{
  ℕ, suc, ◌+◌, ◌*◌, ◌^◌, ◌≤◌, ◌<◌, ◌≡◌, refl, ap, List, [], ◌∷◌, arith, length, take, drop,
  length-append, length-take, length-drop, take_all, ltb, Bool-cases, inl, inr, ◌==◌,
}
use crts.Bigint.Digits.{
  value, IsDigits, zd_add_1, zd_sub_1, zd_add_n, zd_sub_n, zd_add, zd_sub, zd_cmp, cmp_digit, Cmp,
  less, equal, greater, zd_div_1, zd_dd_div,
}
use crts.Bigint.Digits.Add.{
  Holds, zd_add_1_lem, zd_sub_1_lem, zd_add_n_lem, zd_sub_n_lem, zd_add_1-le-one, zd_sub_1-le-one,
}
use crts.Bigint.Digits.Step.{zd_dd_div_lem}
use crts.Bigint.Digits.Value.{
  pow-add, value-append, value-take-drop, IsDigits-append, IsDigits-take, IsDigits-drop,
}

-- What a comparison says of two numbers.
abbrev pub Says : Cmp → ℕ → ℕ → Type 0
Says less a b = a < b
Says equal a b = a ≡ b
Says greater a b = b < a

cmp_digit-Says : (x y : ℕ) → Says (cmp_digit x y) x y
unfolding cmp_digit
cmp_digit-Says x y = elim (Bool-cases (x == y)) [
  | inl e ↦ rw e (ground arith)
  | inr ne ↦
      rw ne
        (elim (Bool-cases (ltb x y)) [ inl l ↦ rw l (ground arith) | inr g ↦ rw g (ground arith) ])
]

Says-add : (c : Cmp) (x y k l : ℕ) → Says c x y → k ≡ l → Says c (x + k) (y + l)
Says-add less x y k l h e = omega arith
Says-add equal x y k l h e = omega arith
Says-add greater x y k l h e = omega arith

module _ (base : ℕ) (big : 1 < base) where
  Says-high :
      (c : Cmp) (x y m n : ℕ)
      → x < base
      → y < base
      → Says c m n
      → Says
          (elim c [ less ↦ less | equal ↦ cmp_digit x y | greater ↦ greater ])
          (x + base * m)
          (y + base * n)
  Says-high less x y m n hx hy h = let le : base * (m + 1) ≤ base * n = grind arith in omega arith
  Says-high equal x y m n hx hy h =
      Says-add (cmp_digit x y) x y (base * m) (base * n) (cmp_digit-Says x y) (ap (◌*◌ base) h)
  Says-high greater x y m n hx hy h =
      let le : base * (n + 1) ≤ base * m = grind arith in omega arith

  -- Comparing the highest digits first compares the numbers.
  pub zd_cmp-Says :
      (a b : List ℕ)
      → IsDigits base a
      → IsDigits base b
      → length a ≡ length b
      → Says (zd_cmp a b) (value base a) (value base b)
  unfolding zd_cmp
  zd_cmp-Says [] [] ha hb n = refl
  zd_cmp-Says [] (y ∷ b) ha hb n = absurd (omega arith)
  zd_cmp-Says (x ∷ a) [] ha hb n = absurd (omega arith)
  zd_cmp-Says (x ∷ a) (y ∷ b) ha hb n =
      Says-high (zd_cmp a b) x y (value base a) (value base b) ha.0 hb.0
        (zd_cmp-Says a b ha.1 hb.1 (omega arith))

  -- For a digit array u and a digit v that is not zero, the digits zd_div_1 writes, as many as u
  -- has, times v, plus the remainder it returns, are u; the remainder is below v.
  pub zd_div_1_lem :
      (u : List ℕ) (v : ℕ)
      → IsDigits base u
      → v < base
      → 0 < v
      → (value base (zd_div_1 base u v).0 * v + (zd_div_1 base u v).1 ≡ value base u)
        × Holds base (length u) (zd_div_1 base u v).0
        × ((zd_div_1 base u v).1 < v)
  unfolding zd_div_1
  zd_div_1_lem [] v hu hv pos = (omega arith, (tt, refl), pos)
  zd_div_1_lem (x ∷ u) v hu hv pos =
      let (q, c) = zd_div_1 base u v in
      let (d, r) = zd_dd_div base c x v in
      let (ih, (dq, len), lt) = zd_div_1_lem u v hu.1 hv pos in
      let (e, ld, lr) = zd_dd_div_lem base big c x v lt hu.0 hv in
      (omega (arith, ap (λ (k : ℕ). base * k) ih), ((ld, dq), ap suc len), lr)

  -- The carry of `zd_add` stands at the place after the longer array.
  pub zd_add_lem :
      (a b : List ℕ)
      → IsDigits base a
      → IsDigits base b
      → length b ≤ length a
      → (value base (zd_add base a b).0 + base ^ length a * (zd_add base a b).1
          ≡ value base a + value base b)
        × Holds base (length a) (zd_add base a b).0
        × ((zd_add base a b).1 ≤ 1)
  unfolding zd_add
  zd_add_lem a b ha hb le =
      let m = length b in
      let (low, c) = zd_add_n base (take m a) b 0 in
      let (high, out) = zd_add_1 base (drop m a) c in
      let (e, (dl, nl), lc) =
        zd_add_n_lem base big (take m a) b 0 (IsDigits-take base m a ha) hb
          (omega (arith, length-take m a)) (omega arith) in
      elim (Bool-cases (length a == m)) [
        | inl same ↦
            let n : length a ≡ m = ground arith in
            rw same (
              omega (
                arith,
                ap (λ (k : ℕ). base ^ k * c) n,
                ap (value base) (take_all m a (omega arith)),
              ),
              (dl, omega arith),
              lc,
            )
        | inr longer ↦
            let (e', (dh, nh), lt) =
              zd_add_1_lem base big (drop m a) c (IsDigits-drop base m a ha) (omega arith) in
            let n : length a ≡ m + length (drop m a) = omega (arith, length-drop m a) in
            let top : base ^ length a ≡ base ^ m * base ^ length (drop m a) =
              rw n (pow-add base m (length (drop m a))) in
            rw longer (
              omega (
                arith,
                ap (λ (k : ℕ). base ^ m * k) e',
                ap (λ (k : ℕ). k * out) top,
                value-append base low high,
                ap (λ (k : ℕ). base ^ k * value base high) nl,
                value-take-drop base m a le,
              ),
              (IsDigits-append base low high dl dh, omega (arith, length-append low high)),
              zd_add_1-le-one base big (drop m a) c (IsDigits-drop base m a ha) lc,
            )
      ]

  -- The borrow of `zd_sub` likewise.
  pub zd_sub_lem :
      (a b : List ℕ)
      → IsDigits base a
      → IsDigits base b
      → length b ≤ length a
      → (value base (zd_sub base a b).0 + value base b
          ≡ value base a + base ^ length a * (zd_sub base a b).1)
        × Holds base (length a) (zd_sub base a b).0
        × ((zd_sub base a b).1 ≤ 1)
  unfolding zd_sub
  zd_sub_lem a b ha hb le =
      let m = length b in
      let (low, c) = zd_sub_n base (take m a) b 0 in
      let (high, out) = zd_sub_1 base (drop m a) c in
      let (e, (dl, nl), lc) =
        zd_sub_n_lem base big (take m a) b 0 (IsDigits-take base m a ha) hb
          (omega (arith, length-take m a)) (omega arith) in
      elim (Bool-cases (length a == m)) [
        | inl same ↦
            let n : length a ≡ m = ground arith in
            rw same (
              omega (
                arith,
                ap (λ (k : ℕ). base ^ k * c) n,
                ap (value base) (take_all m a (omega arith)),
              ),
              (dl, omega arith),
              lc,
            )
        | inr longer ↦
            let (e', (dh, nh), lt) =
              zd_sub_1_lem base big (drop m a) c (IsDigits-drop base m a ha) (omega arith) in
            let n : length a ≡ m + length (drop m a) = omega (arith, length-drop m a) in
            let top : base ^ length a ≡ base ^ m * base ^ length (drop m a) =
              rw n (pow-add base m (length (drop m a))) in
            rw longer (
              omega (
                arith,
                ap (λ (k : ℕ). base ^ m * k) e',
                ap (λ (k : ℕ). k * out) top,
                value-append base low high,
                ap (λ (k : ℕ). base ^ k * value base high) nl,
                value-take-drop base m a le,
              ),
              (IsDigits-append base low high dl dh, omega (arith, length-append low high)),
              zd_sub_1-le-one base big (drop m a) c (IsDigits-drop base m a ha) lc,
            )
      ]
