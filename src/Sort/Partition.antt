-- ===== src/Sort/Partition.antt =====
-- The partition of an array for the quicksort. The pivot is read through the pointer to the first
-- element at each step, and the first exchange may replace that element.
use crts.Prelude.{
  ℕ, zero, suc, ◌≤◌, ◌<◌, ◌≡◌, inl, inr, ◌∙◌, refl, ap, Bool, true, false, some, List, arith, leb,
  length, get_elem?, Bool-cases, ℕ_discrete,
}
use crts.Sort.{partition_loop, partition}
use crts.Prelude.Counts.{SameElements}
use crts.Sort.Order.{StrictOrder, irrefl}
use crts.Sort.Scan.{
  get_elem?_in, get_elem?_lt, exchange, swap_exchanges, exchange-length, exchange-SameElements,
  exchange_low, exchange_other, exchange-cases, scan_up_lem, scan_down_lem,
}

module _ {ℓ} {A : Type ℓ} (less : A → A → Bool) where
  -- The elements before an index are not greater than `v`, or those from it on not less.
  abbrev pub Below : List A → ℕ → A → Type ℓ
  Below xs k v = (i : ℕ) (x : A) → i < k → get_elem? xs i ≡ some x → less v x ≡ false

  abbrev pub Above : List A → ℕ → A → Type ℓ
  Above xs k v = (i : ℕ) (x : A) → k ≤ i → get_elem? xs i ≡ some x → less x v ≡ false

  -- The array is split after an index, with elements on both sides.
  pub record IsSplit (xs : List A) (k : ℕ) (ys : List A) : Type ℓ where
    pub pivot : A
    pub below : Below ys (suc k) pivot
    pub above : Above ys (suc k) pivot
    pub inside : suc k < length ys
    pub same : SameElements ys xs
    pub same_length : length ys ≡ length xs

  -- What holds when the loop starts again.
  record Invariant (xs : List A) (p q : ℕ) : Type ℓ where
    pivot : A
    first : get_elem? xs 0 ≡ some pivot
    moved : 0 < p
    ordered : p ≤ q
    bounded : q < length xs
    below : Below xs p pivot
    above : Above xs q pivot

module _ {ℓ} {A : Type ℓ} (less : A → A → Bool) (ord : StrictOrder less) where
  -- The invariant and the scan, together, for the elements before and after the stops.
  lower :
      (xs : List A) (p q p' : ℕ) (inv : Invariant less xs p q)
      → ((i : ℕ) (z : A) → p ≤ i → i < p' → get_elem? xs i ≡ some z → less z (inv.pivot) ≡ true)
      → Below less xs p' (inv.pivot)
  lower xs p q p' inv up i z lt g = elim (Bool-cases (leb p i)) [
    | inl e ↦ ord.asym z (inv.pivot) (up i z (ground arith) lt g)
    | inr e ↦ inv.below i z (ground arith) g
  ]

  upper :
      (xs : List A) (p q q' : ℕ) (inv : Invariant less xs p q)
      → ((i : ℕ) (z : A) → q' < i → i < q → get_elem? xs i ≡ some z → less (inv.pivot) z ≡ true)
      → Above less xs (suc q') (inv.pivot)
  upper xs p q q' inv down i z le g = elim (Bool-cases (leb q i)) [
    | inl e ↦ inv.above i z (ground arith) g
    | inr e ↦ ord.asym (inv.pivot) z (down i z (ground arith) (ground arith) g)
  ]

  -- After a step that goes on, with `p` and `q` where the scans stopped.
  exchange-Invariant :
      (xs : List A) (p q p' q' : ℕ) (x y : A) (inv : Invariant less xs p q)
      → get_elem? xs p' ≡ some x
      → get_elem? xs q' ≡ some y
      → p ≤ p'
      → p' < q'
      → q' < q
      → less x (inv.pivot) ≡ false
      → less (inv.pivot) y ≡ false
      → ((i : ℕ) (z : A) → p ≤ i → i < p' → get_elem? xs i ≡ some z → less z (inv.pivot) ≡ true)
      → ((i : ℕ) (z : A) → q' < i → i < q → get_elem? xs i ≡ some z → less (inv.pivot) z ≡ true)
      → Invariant less (exchange xs p' q' x y) (suc p') q'
  exchange-Invariant xs p q p' q' x y inv gx gy lp apart lq kx ky up down = record {
    pivot = inv.pivot;
    first =
        exchange_other xs p' q' x y gx gy apart 0 (λ e. (let m = inv.moved in absurd (omega arith)))
          (λ e. absurd (omega arith))
        ∙ inv.first;
    moved = omega arith;
    ordered = apart;
    bounded =
        (let m = inv.bounded in let n = exchange-length xs p' q' x y gx gy apart in omega arith);
    below = λ i z lt g. elim (exchange-cases xs p' q' x y gx gy apart i z g) [
      | inl (_, e) ↦ rw e ky
      | inr (inl (e, _)) ↦ absurd (omega arith)
      | inr (inr (np, nq, g')) ↦ lower xs p q p' inv up i z (omega arith) g'
    ];
    above = λ i z le g. elim (exchange-cases xs p' q' x y gx gy apart i z g) [
      | inl (e, _) ↦ absurd (omega arith)
      | inr (inl (_, e)) ↦ rw e kx
      | inr (inr (np, nq, g')) ↦ upper xs p q q' inv down i z (omega arith) g'
    ];
  }

  exchanged :
      (xs : List A) (p q : ℕ) (x y : A) (gx : get_elem? xs p ≡ some x)
      (gy : get_elem? xs q ≡ some y) (apart : p < q) (k : ℕ) (ys : List A)
      → IsSplit less (exchange xs p q x y) k ys
      → IsSplit less xs k ys
  exchanged xs p q x y gx gy apart k ys split = record {
    pivot = split.pivot;
    below = split.below;
    above = split.above;
    inside = split.inside;
    same = λ test. split.same test ∙ exchange-SameElements xs p q x y gx gy apart test;
    same_length = split.same_length ∙ exchange-length xs p q x y gx gy apart;
  }

  loop-IsSplit :
      (fuel : ℕ) (xs : List A) (p q : ℕ)
      → Invariant less xs p q
      → q < fuel
      → (k : ℕ) × (ys : List A) × (partition_loop less fuel xs p q ≡ some (k, ys))
        × IsSplit less xs k ys
  unfolding partition_loop
  loop-IsSplit zero xs p q inv h = absurd (omega arith)
  loop-IsSplit (suc fuel) xs zero q inv h = absurd (let m = inv.moved in omega arith)
  loop-IsSplit (suc fuel) xs (suc p) q inv h =
      let v = inv.pivot in
      let lo = inv.ordered in
      let hi = inv.bounded in
      let (zq, gq) = get_elem?_in xs q hi in
      let (zp, gp) = get_elem?_in xs p (omega arith) in
      let (p', found_p, lp, hp, up, (x, gx, kx)) =
        scan_up_lem less v xs (suc p) q zq lo gq (inv.above q zq (omega arith) gq) in
      let (q', found_q, lq, hq, down, (y, gy, ky)) =
        scan_down_lem less v xs q p zp (omega arith) lo gp (inv.below p zp (omega arith) gp) in
      elim (Bool-cases (leb q' p')) [
        | inl e ↦ (
          q',
          xs,
          rw (inv.first, found_p, found_q, e) refl,
          record {
            pivot = v;
            below = λ i z lt g. elim (ℕ_discrete i q') [
              | yes at ↦ (let there = ap (get_elem? xs) at in cc)
              | no ne ↦ lower xs (suc p) q p' inv up i z (ground arith) g
            ];
            above = upper xs (suc p) q q' inv down;
            inside = omega arith;
            same = λ test. refl;
            same_length = refl;
          },
        )
        | inr e ↦
            let apart : p' < q' = ground arith in
            let next =
              exchange-Invariant xs (suc p) q p' q' x y inv gx gy lp apart hq kx ky up down in
            let (k, ys, result, split) =
              loop-IsSplit fuel (exchange xs p' q' x y) (suc p') q' next (omega arith) in
            (
              k,
              ys,
              rw (inv.first, found_p, found_q, e, swap_exchanges xs p' q' x y gx gy apart) result,
              exchanged xs p' q' x y gx gy apart k ys split,
            )
      ]

  -- The first step scans from both ends; if it goes on, the exchange puts the pivot at its place.
  start-Invariant :
      (xs : List A) (q' : ℕ) (v y : A)
      → get_elem? xs 0 ≡ some v
      → get_elem? xs q' ≡ some y
      → 0 < q'
      → q' < length xs
      → less v y ≡ false
      → ((i : ℕ) (z : A) → q' < i → i < length xs → get_elem? xs i ≡ some z → less v z ≡ true)
      → Invariant less (exchange xs 0 q' v y) 1 q'
  start-Invariant xs q' v y gv gy apart hq ky down = record {
    pivot = y;
    first = exchange_low xs 0 q' v y gv gy apart;
    moved = omega arith;
    ordered = apart;
    bounded = (let n = exchange-length xs 0 q' v y gv gy apart in omega arith);
    below = λ i z lt g. elim (exchange-cases xs 0 q' v y gv gy apart i z g) [
      | inl (_, e) ↦ rw e (irrefl less ord y)
      | inr (inl (e, _)) ↦ absurd (omega arith)
      | inr (inr (np, _, _)) ↦ absurd (np (omega arith))
    ];
    above = λ i z le g. elim (exchange-cases xs 0 q' v y gv gy apart i z g) [
      | inl (e, _) ↦ absurd (omega arith)
      | inr (inl (_, e)) ↦ rw e ky
      | inr (inr (np, nq, g')) ↦
          ord.le_trans y v z ky (ord.asym v z (down i z (omega arith) (get_elem?_lt xs i g') g'))
    ];
  }

  -- If the order is a strict weak order and the array has two elements or more, the partition
  -- reads inside of the array only, ends, and returns an index after which there are elements; the
  -- array is rearranged so that no element after that index is less than one up to it.
  pub partition-IsSplit :
      (xs : List A)
      → 1 < length xs
      → (k : ℕ) × (ys : List A) × (partition less xs ≡ some (k, ys)) × IsSplit less xs k ys
  unfolding partition partition_loop
  partition-IsSplit xs h =
      let n = length xs in
      let (v, gv) = get_elem?_in xs 0 (omega arith) in
      let same_v = irrefl less ord v in
      let (p', found_p, lp, hp, _, _) = scan_up_lem less v xs 0 0 v (omega arith) gv same_v in
      let (q', found_q, lq, hq, down, (y, gy, ky)) =
        scan_down_lem less v xs n 0 v (omega arith) (omega arith) gv same_v in
      let at_first : p' ≡ 0 = omega arith in
      elim (Bool-cases (leb q' p')) [
        | inl e ↦ (
          q',
          xs,
          rw (gv, found_p, found_q, e) refl,
          record {
            pivot = v;
            below = λ i z lt g.
                (let start : i ≡ 0 = ground arith in let there = ap (get_elem? xs) start in cc);
            above = λ i z le g. ord.asym v z (down i z (omega arith) (get_elem?_lt xs i g) g);
            inside = ground arith;
            same = λ test. refl;
            same_length = refl;
          },
        )
        | inr e ↦
            let apart : 0 < q' = ground arith in
            let next = start-Invariant xs q' v y gv gy apart hq ky down in
            let (k, ys, result, split) = loop-IsSplit n (exchange xs 0 q' v y) 1 q' next hq in
            (
              k,
              ys,
              rw (gv, found_p, found_q, e, at_first, swap_exchanges xs 0 q' v y gv gy apart) result,
              exchanged xs 0 q' v y gv gy apart k ys split,
            )
      ]
