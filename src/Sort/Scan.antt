-- ===== src/Sort/Scan.antt =====
-- The two scans of a partition, and the exchange of two elements.
use crts.Prelude.{
  ℕ, zero, suc, ◌+◌, ◌-◌, ◌≤◌, ◌<◌, ◌≡◌, ◌≢◌, ◌⊎◌, inl, inr, ◌∙◌, refl, sym, ap, Bool, true, false,
  some, List, [], ◌∷◌, arith, length, get_elem?, set, drop, Bool-cases, get_elem?-set_self,
  get_elem?-set_ne, length-set, ℕ_discrete,
}
use crts.Sort.{scan_up, scan_down, swap}
use crts.Prelude.Counts.{SameElements}
use crts.Sort.Order.{count-set}

module _ {ℓ} {A : Type ℓ} where
  pub get_elem?_in : (xs : List A) (i : ℕ) → i < length xs → (x : A) × (get_elem? xs i ≡ some x)
  get_elem?_in [] i h = absurd (omega arith)
  get_elem?_in (x ∷ xs) zero h = (x, refl)
  get_elem?_in (x ∷ xs) (suc i) h = get_elem?_in xs i (omega arith)

  pub get_elem?_lt : (xs : List A) (i : ℕ) {x : A} → get_elem? xs i ≡ some x → i < length xs
  get_elem?_lt [] i h = absurd (cc)
  get_elem?_lt (y ∷ xs) zero h = omega arith
  get_elem?_lt (y ∷ xs) (suc i) h = omega (arith, get_elem?_lt xs i h)

  pub get_elem?-drop :
      (n : ℕ) (xs : List A) (i : ℕ) → get_elem? (drop n xs) i ≡ get_elem? xs (n + i)
  get_elem?-drop zero xs i = ap (get_elem? xs) (omega arith)
  get_elem?-drop (suc n) [] i = refl
  get_elem?-drop (suc n) (x ∷ xs) i =
      let next : suc (n + i) ≡ suc n + i = omega arith in
      get_elem?-drop n xs i ∙ ap (get_elem? (x ∷ xs)) next

  pub exchange : List A → ℕ → ℕ → A → A → List A
  exchange xs p q x y = set (set xs p y) q x

module _ {ℓ} {A : Type ℓ} (xs : List A) (p q : ℕ) (x y : A) (at_p : get_elem? xs p ≡ some x)
    (at_q : get_elem? xs q ≡ some y) (apart : p < q) where
  still_q : get_elem? (set xs p y) q ≡ some y
  still_q = get_elem?-set_ne xs y (λ e. omega arith) ∙ at_q

  pub swap_exchanges : swap xs p q ≡ some (exchange xs p q x y)
  unfolding swap exchange
  swap_exchanges = rw (at_p, at_q) refl

  pub exchange-length : length (exchange xs p q x y) ≡ length xs
  unfolding exchange
  exchange-length = length-set (set xs p y) q x ∙ length-set xs p y

  pub exchange-SameElements : SameElements (exchange xs p q x y) xs
  unfolding exchange
  exchange-SameElements test =
      omega (arith, count-set test (set xs p y) q y x still_q, count-set test xs p x y at_p)

  pub exchange_low : get_elem? (exchange xs p q x y) p ≡ some y
  unfolding exchange
  exchange_low =
      get_elem?-set_ne (set xs p y) x (λ e. omega arith)
      ∙ get_elem?-set_self xs p y (get_elem?_lt xs p at_p)

  pub exchange_other : (i : ℕ) → i ≢ p → i ≢ q → get_elem? (exchange xs p q x y) i ≡ get_elem? xs i
  unfolding exchange
  exchange_other i np nq =
      get_elem?-set_ne (set xs p y) x (λ e. nq (sym e)) ∙ get_elem?-set_ne xs y (λ e. np (sym e))

  exchange_high : get_elem? (exchange xs p q x y) q ≡ some x
  unfolding exchange
  exchange_high = get_elem?-set_self (set xs p y) q x (get_elem?_lt (set xs p y) q still_q)

  -- What stands where after the exchange.
  pub exchange-cases :
      (i : ℕ) (z : A)
      → get_elem? (exchange xs p q x y) i ≡ some z
      → ((i ≡ p) × (z ≡ y))
        ⊎ (((i ≡ q) × (z ≡ x)) ⊎ ((i ≢ p) × (i ≢ q) × (get_elem? xs i ≡ some z)))
  exchange-cases i z h = elim (ℕ_discrete i p) [
    | yes e ↦ inl (e, (let k = exchange_low in cc))
    | no np ↦ elim (ℕ_discrete i q) [
      | yes e ↦ inr (inl (e, (let k = exchange_high in cc)))
      | no nq ↦ inr (inr (np, nq, sym (exchange_other i np nq) ∙ h))
    ]
  ]

module _ {ℓ} {A : Type ℓ} (less : A → A → Bool) (v : A) where
  skip :
      (y : A) (rest : List A) (j : ℕ)
      → less y v ≡ true
      → ((i : ℕ) (x : A) → i < j → get_elem? rest i ≡ some x → less x v ≡ true)
      → (i : ℕ) (x : A) → i < suc j
      → get_elem? (y ∷ rest) i ≡ some x
      → less x v ≡ true
  skip y rest j e skipped zero x lt g = cc
  skip y rest j e skipped (suc i) x lt g = skipped i x (omega arith) g

  -- The upward scan stops at the first element that is not less than the pivot, if there is one.
  scan_rest :
      (rest : List A) (p s : ℕ) (z : A)
      → get_elem? rest s ≡ some z
      → less z v ≡ false
      → (j : ℕ) × (scan_up less v rest p ≡ some (p + j))
        × (j ≤ s)
        × ((i : ℕ) (x : A) → i < j → get_elem? rest i ≡ some x → less x v ≡ true)
        × ((x : A) × (get_elem? rest j ≡ some x) × (less x v ≡ false))
  unfolding scan_up
  scan_rest [] p s z h k = absurd (cc)
  scan_rest (y ∷ rest) p zero z h k =
      let e : less y v ≡ false = cc in
      (
        0,
        rw e (ap some (omega arith)),
        omega arith,
        (λ i x lt g. absurd (omega arith)),
        (y, refl, e),
      )
  scan_rest (y ∷ rest) p (suc s) z h k = elim (Bool-cases (less y v)) [
    | inr e ↦ (
      0,
      rw e (ap some (omega arith)),
      omega arith,
      (λ i x lt g. absurd (omega arith)),
      (y, refl, e),
    )
    | inl e ↦
        let (j, found, le, skipped, stop) = scan_rest rest (suc p) s z h k in
        (suc j, rw e (found ∙ ap some (omega arith)), omega arith, skip y rest j e skipped, stop)
  ]

  pub scan_down_lem :
      (xs : List A) (q s : ℕ) (z : A)
      → q ≤ length xs
      → s < q
      → get_elem? xs s ≡ some z
      → less v z ≡ false
      → (q' : ℕ) × (scan_down less v xs q ≡ some q')
        × (s ≤ q')
        × (q' < q)
        × ((i : ℕ) (x : A) → q' < i → i < q → get_elem? xs i ≡ some x → less v x ≡ true)
        × ((x : A) × (get_elem? xs q' ≡ some x) × (less v x ≡ false))
  unfolding scan_down
  scan_down_lem xs zero s z n h g k = absurd (omega arith)
  scan_down_lem xs (suc q) s z n h g k =
      let (x, gx) = get_elem?_in xs q (omega arith) in
      elim (Bool-cases (less v x)) [
        | inr e ↦ (
          q,
          rw (gx, e) refl,
          omega arith,
          omega arith,
          (λ i y lo hi gy. absurd (omega arith)),
          (x, gx, e),
        )
        | inl e ↦
            let below : s < q = elim (ℕ_discrete s q) [
              | yes same ↦ absurd (let there = ap (get_elem? xs) same in cc)
              | no ne ↦ omega arith
            ] in
            let (q', found, lo, hi, skipped, stop) =
              scan_down_lem xs q s z (omega arith) below g k in
            (
              q',
              rw (gx, e) found,
              lo,
              omega arith,
              (λ i y after before gy. elim (ℕ_discrete i q) [
                | yes same ↦ let there = ap (get_elem? xs) same in cc
                | no ne ↦ skipped i y after (omega arith) gy
              ]),
              stop,
            )
      ]

  pub scan_up_lem :
      (xs : List A) (p s : ℕ) (z : A)
      → p ≤ s
      → get_elem? xs s ≡ some z
      → less z v ≡ false
      → (p' : ℕ) × (scan_up less v (drop p xs) p ≡ some p')
        × (p ≤ p')
        × (p' ≤ s)
        × ((i : ℕ) (x : A) → p ≤ i → i < p' → get_elem? xs i ≡ some x → less x v ≡ true)
        × ((x : A) × (get_elem? xs p' ≡ some x) × (less x v ≡ false))
  scan_up_lem xs p s z le g k =
      let at : (i : ℕ) → p ≤ i → get_elem? (drop p xs) (i - p) ≡ get_elem? xs i =
        λ i h. get_elem?-drop p xs (i - p) ∙ ap (get_elem? xs) (omega arith) in
      let (j, found, lj, skipped, (x, gx, kx)) =
        scan_rest (drop p xs) p (s - p) z (at s le ∙ g) k in
      (
        p + j,
        found,
        omega arith,
        omega arith,
        (λ i y lo hi gy. skipped (i - p) y (omega arith) (at i lo ∙ gy)),
        (x, sym (get_elem?-drop p xs j) ∙ gx, kx),
      )
