-- ===== src/Bigint/Integer/Add.antt =====
-- z_add, z_sub and their variants by one digit compute sum and difference.
use Prim.Native.Nat.{pred}
use native.Mathlib.Nat.{le_trans, one-le-pow, mul-le-mul_left}
use crts.Prelude.{
  ℕ, zero, suc, ◌&&◌, ◌+◌, ◌-◌, ◌*◌, ◌^◌, ◌≤◌, ◌<◌, ◌≡◌, ◌≢◌, refl, sym, ap, ◌∙◌, Bool, true, false,
  List, [], ◌∷◌, arith, length, ◌==◌, ltb, same, same_iff, not_same, Bool-cases, inl, inr,
}
use crts.Prelude.Int.{ℤ, signed, signed_add, signed_sub, signed_sub_left, signed_zero_add, ◌+ℤ◌}
use crts.Bigint.Digits.{
  value, IsDigits, zd_add_1, zd_sub_1, zd_add_n, zd_add, zd_sub, zd_sub_n, zd_cmp, Cmp, less, equal,
  greater,
}
use crts.Bigint.Digits.Add.{zd_add_1_lem, zd_sub_1_lem, zd_sub_n_lem}
use crts.Bigint.Digits.Whole.{zd_add_lem, zd_sub_lem, Says, zd_cmp-Says}
use crts.Bigint.Digits.Value.{value-lt}
use crts.Bigint.Integer.{IsTrimmed, z_grow, z_trim, addsub_1, addsub, is_empty}
use crts.Bigint.Integer.Normal.{
  IsTidy, Stands, not_empty, z_grow_lem, z_trim_lem, le-value, IsTrimmed-of_le, shorter-lt,
}

module _ (base : ℕ) (big : 1 < base) where
  -- The digits of a sum, in the normal form if the longer summand is.
  grown-Stands :
      (s : Bool) (x : ℕ) (a sum : List ℕ) (c v : ℕ)
      → IsTrimmed (x ∷ a)
      → IsDigits base sum
      → length sum ≡ length (x ∷ a)
      → c < base
      → value base sum + base ^ length (x ∷ a) * c ≡ v
      → value base (x ∷ a) ≤ v
      → Stands base (signed s v) (length (x ∷ a) + 1) (s, z_grow sum c)
  grown-Stands s x a [] c v tr dr n hc e le = absurd (omega arith)
  grown-Stands s x a (z ∷ sum) c v tr dr n hc e le =
      let low : base ^ length a ≤ v = le_trans (le-value base x a (omega arith) tr) le in
      let pos : 0 < base ^ length a = one-le-pow (length a) base (omega arith) in
      let zero_at : base ^ length (x ∷ a) * 0 ≡ 0 = omega arith in
      let top : c ≡ 0 → IsTrimmed (z ∷ sum) = λ zero_c. IsTrimmed-of_le base z sum dr (
        omega (
          arith,
          low,
          e,
          zero_at,
          ap (λ (t : ℕ). base ^ length (x ∷ a) * t) zero_c,
          ap (λ (t : ℕ). base ^ pred t) n,
        )) in
      let (tidy, e', le') = z_grow_lem base (z ∷ sum) c dr hc top in
      let same_v : value base (z_grow (z ∷ sum) c) ≡ v =
        e' ∙ omega (arith, e, ap (λ (t : ℕ). base ^ t * c) n) in
      (tidy, not_empty base (z_grow (z ∷ sum) c) (omega arith), ap (signed s) same_v, omega arith)

  trimmed-Stands :
      (s : Bool) (diff : List ℕ) (n : ℕ) (v : ℤ)
      → IsDigits base diff
      → length diff ≤ n
      → signed s (value base diff) ≡ v
      → Stands base v n (z_trim s diff)
  trimmed-Stands s diff n v h le e =
      let (tidy, sign, kept, le') = z_trim_lem base s diff h in (tidy, sign, kept ∙ e, omega arith)

  -- A smaller magnitude taken from a larger one leaves no borrow.
  no_borrow : (m r v w c : ℕ) → r < m → w ≤ v → r + w ≡ v + m * c → r + w ≡ v
  no_borrow m r v w zero hr le e = omega arith
  no_borrow m r v w (suc c) hr le e = absurd (grind arith)

  -- The tests of the third branch and of the last one.
  single :
      (x : ℕ) (a : List ℕ) (b : ℕ)
      → (is_empty a && ltb x b) ≡ true
      → (x < b) × (value base (x ∷ a) ≡ x)
  unfolding is_empty
  single x [] b h = (ground arith, omega arith)
  single x (y ∷ a) b h = cc

  covers :
      (x : ℕ) (a : List ℕ) (b : ℕ)
      → IsTrimmed (x ∷ a)
      → b < base
      → (is_empty a && ltb x b) ≡ false
      → b ≤ value base (x ∷ a)
  unfolding is_empty
  covers x [] b tr hb h = ground arith
  covers x (y ∷ a) b tr hb h =
      let pos : 0 < base ^ length a = one-le-pow (length a) base (omega arith) in
      let low : base ^ length a ≤ value base (y ∷ a) = le-value base y a (omega arith) tr in
      let one : base * 1 ≤ base * value base (y ∷ a) = mul-le-mul_left base (omega arith) in
      omega arith

  pub addsub_1-Stands :
      (a : List ℕ) (b : ℕ) (s t : Bool)
      → IsTidy base a
      → 0 < b
      → b < base
      → Stands base (signed s (value base a) +ℤ signed t b) (length a + 1) (addsub_1 base a b s t)
  unfolding addsub_1
  addsub_1-Stands [] b s t ha pos hb =
      (((hb, tt), pos), (λ e. cc), ap (signed t) (omega arith) ∙ signed_zero_add s t b, omega arith)
  addsub_1-Stands (x ∷ a) b s t (ha, tr) pos hb =
      let (sum, c) = zd_add_1 base (x ∷ a) b in
      let (diff, o) = zd_sub_1 base (x ∷ a) b in
      elim (Bool-cases (same s t)) [
        | inl e ↦
            let (v, (dr, n), lt) = zd_add_1_lem base big (x ∷ a) b ha hb in
            let sign : s ≡ t = (same_iff s t).0 e in
            let (tidy, sg, val, le) =
              grown-Stands s x a sum c (value base (x ∷ a) + b) tr dr n lt v (omega arith) in
            rw e (tidy, sg, val ∙ signed_add s t (value base (x ∷ a)) b sign, le)
        | inr ne ↦ rw ne (elim (Bool-cases (is_empty a && ltb x b)) [
          | inl small ↦
              let (lt, one) = single x a b small in
              rw small (
                ((omega arith, tt), omega arith),
                (λ e. cc),
                signed_sub_left s t (value base (x ∷ a)) b (b - x + base * 0) (not_same s t ne)
                    (omega (arith, one)),
                omega arith,
              )
          | inr large ↦
              let (v, (dr, n), lt) = zd_sub_1_lem base big (x ∷ a) b ha hb in
              let below : value base diff < base ^ length (x ∷ a) =
                omega (arith, value-lt base diff dr, ap (λ (k : ℕ). base ^ k) n) in
              let exact : value base diff + b ≡ value base (x ∷ a) =
                no_borrow _ _ _ b o below (covers x a b tr hb large) v in
              rw large (
                trimmed-Stands s diff _ _ dr (omega arith)
                  (signed_sub s t (value base (x ∷ a)) b (value base diff) (not_same s t ne) exact))
        ])
      ]

  -- A difference of two numbers of one length.
  sub_n-exact :
      (a b : List ℕ)
      → IsDigits base a
      → IsDigits base b
      → length a ≡ length b
      → value base b ≤ value base a
      → (value base (zd_sub_n base a b 0).0 + value base b ≡ value base a)
        × IsDigits base (zd_sub_n base a b 0).0
        × (length (zd_sub_n base a b 0).0 ≡ length b)
  sub_n-exact a b ha hb n le =
      let (v, (dr, len), lt) = zd_sub_n_lem base big a b 0 ha hb n (omega arith) in
      let diff = (zd_sub_n base a b 0).0 in
      let below : value base diff < base ^ length b =
        omega (arith, value-lt base diff dr, ap (λ (k : ℕ). base ^ k) len) in
      (
        no_borrow (base ^ length b) (value base diff) (value base a) (value base b)
            (zd_sub_n base a b 0).1 below le (omega (arith, v)),
        dr,
        len,
      )

  -- The branches of two magnitudes of one length.
  addsub_even :
      (c : Cmp) (a b : List ℕ) (s t : Bool)
      → Says c (value base a) (value base b)
      → s ≢ t
      → IsDigits base a
      → IsDigits base b
      → length a ≡ length b
      → Stands base (signed s (value base a) +ℤ signed t (value base b)) (length a + 1) (elim c [
        | less ↦ z_trim t (zd_sub_n base b a 0).0
        | equal ↦ z_trim s (zd_sub_n base a b 0).0
        | greater ↦ z_trim s (zd_sub_n base a b 0).0
      ])
  addsub_even less a b s t says ne ha hb n =
      let (e, dr, len) = sub_n-exact b a hb ha (sym n) (omega arith) in
      trimmed-Stands t _ _ _ dr (omega arith) (signed_sub_left s t _ _ _ ne e)
  addsub_even equal a b s t says ne ha hb n =
      let (e, dr, len) = sub_n-exact a b ha hb n (omega arith) in
      trimmed-Stands s _ _ _ dr (omega arith) (signed_sub s t _ _ _ ne e)
  addsub_even greater a b s t says ne ha hb n =
      let (e, dr, len) = sub_n-exact a b ha hb n (omega arith) in
      trimmed-Stands s _ _ _ dr (omega arith) (signed_sub s t _ _ _ ne e)

  addsub_same :
      (a b : List ℕ) (s t : Bool)
      → IsTidy base a
      → IsDigits base b
      → length b ≤ length a
      → (a ≡ [] → s ≡ false)
      → s ≡ t
      → Stands base
          (signed s (value base a) +ℤ signed t (value base b))
          (length a + 1)
          (s, z_grow (zd_add base a b).0 (zd_add base a b).1)
  addsub_same [] [] s t ha hb le sa e =
      unfold zd_add zd_add_n zd_add_1 z_grow in
      ((tt, tt), (λ _. sa refl), signed_add s t 0 0 e, omega arith)
  addsub_same [] (y ∷ b) s t ha hb le sa e = absurd (omega arith)
  addsub_same (x ∷ a) b s t (ha, tr) hb le sa e =
      let (v, (dr, n), lt) = zd_add_lem base big (x ∷ a) b ha hb le in
      let (tidy, sg, val, le') =
        grown-Stands s x a _ _ (value base (x ∷ a) + value base b) tr dr n (omega arith) v
          (omega arith) in
      (tidy, sg, val ∙ signed_add s t _ _ e, le')

  -- `_z_addsub` after the swap, on every branch.
  pub addsub-Stands :
      (a b : List ℕ) (s t : Bool)
      → IsTidy base a
      → IsTidy base b
      → length b ≤ length a
      → (a ≡ [] → s ≡ false)
      → Stands base
          (signed s (value base a) +ℤ signed t (value base b))
          (length a + 1)
          (addsub base a b s t)
  unfolding addsub
  addsub-Stands a b s t ha hb le sa = elim (Bool-cases (same s t)) [
    | inl e ↦ rw e (addsub_same a b s t ha hb.0 le sa ((same_iff s t).0 e))
    | inr ne ↦ rw ne (elim (Bool-cases (length a == length b)) [
      | inl even ↦
          let n : length a ≡ length b = ground arith in
          rw even (
            addsub_even (zd_cmp a b) a b s t (zd_cmp-Says base big a b ha.0 hb.0 n)
              (not_same s t ne) ha.0 hb.0 n)
      | inr odd ↦
          let (v, (dr, len), lt) = zd_sub_lem base big a b ha.0 hb.0 le in
          let diff = (zd_sub base a b).0 in
          let below : value base diff < base ^ length a =
            omega (arith, value-lt base diff dr, ap (λ (k : ℕ). base ^ k) len) in
          let larger : value base b < value base a =
            shorter-lt base a b big ha.1 hb.0 (ground arith) in
          let exact : value base diff + value base b ≡ value base a =
            no_borrow _ _ _ (value base b) (zd_sub base a b).1 below (omega arith) v in
          rw odd (
            trimmed-Stands s diff _ _ dr (omega arith)
              (signed_sub s t _ (value base b) _ (not_same s t ne) exact))
    ])
  ]
