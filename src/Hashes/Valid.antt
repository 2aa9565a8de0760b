-- ===== src/Hashes/Valid.antt =====
-- The invariant of a table, and what it holds.
use crts.Prelude.{
  ℕ, zero, suc, ◌+◌, ◌%◌, ◌≤◌, ◌<◌, ◌≡◌, ◌≢◌, refl, ap, ◌∙◌, inl, inr, Bool, true, false, List, [],
  ◌∷◌, length, set, get_or, replicate, arith, Bool-cases, dec_lt,
}
use crts.Prelude.Counts.{bit, count}
use crts.Hashes.{EntryType, HtHash, cell, place}
use crts.Hashes.Cyclic.{IsSize, mask_lem}

module _ {ℓ} {A : Type ℓ} where
  pub get_or-set_self :
      (xs : List A) (i : ℕ) (v d : A) → i < length xs → get_or (set xs i v) i d ≡ v
  get_or-set_self [] i v d h = absurd (omega arith)
  get_or-set_self (x ∷ xs) zero v d h = refl
  get_or-set_self (x ∷ xs) (suc i) v d h = get_or-set_self xs i v d (omega arith)

  pub get_or-set_ne :
      (xs : List A) (i j : ℕ) (v d : A) → i ≢ j → get_or (set xs i v) j d ≡ get_or xs j d
  get_or-set_ne [] i j v d h = refl
  get_or-set_ne (x ∷ xs) zero zero v d h = absurd (h refl)
  get_or-set_ne (x ∷ xs) zero (suc j) v d h = refl
  get_or-set_ne (x ∷ xs) (suc i) zero v d h = refl
  get_or-set_ne (x ∷ xs) (suc i) (suc j) v d h = get_or-set_ne xs i j v d (λ e. h (ap suc e))

  pub get_or-replicate : (n i : ℕ) (d : A) → get_or (replicate n d) i d ≡ d
  get_or-replicate zero i d = refl
  get_or-replicate (suc n) zero d = refl
  get_or-replicate (suc n) (suc i) d = get_or-replicate n i d

  pub get_or_out : (xs : List A) (i : ℕ) (d : A) → length xs ≤ i → get_or xs i d ≡ d
  get_or_out [] i d h = refl
  get_or_out (x ∷ xs) zero d h = absurd (omega arith)
  get_or_out (x ∷ xs) (suc i) d h = get_or_out xs i d (omega arith)

  -- A write moves the count by what the two elements differ.
  pub count-set :
      (test : A → Bool) (xs : List A) (i : ℕ) (v d : A)
      → i < length xs
      → count test (set xs i v) + bit (test (get_or xs i d)) ≡ count test xs + bit (test v)
  count-set test [] i v d h = absurd (omega arith)
  count-set test (x ∷ xs) zero v d h = omega arith
  count-set test (x ∷ xs) (suc i) v d h = omega (arith, count-set test xs i v d (omega arith))

  pub count-replicate :
      (test : A → Bool) (n : ℕ) (d : A) → test d ≡ false → count test (replicate n d) ≡ 0
  count-replicate test zero d h = refl
  count-replicate test (suc n) d h = omega (arith, ap bit h, count-replicate test n d h)

  -- Where not all elements pass, there is one that does not.
  pub count_gap :
      (test : A → Bool) (xs : List A) (d : A)
      → count test xs < length xs
      → (i : ℕ) × (i < length xs) × (test (get_or xs i d) ≡ false)
  count_gap test [] d h = absurd (omega arith)
  count_gap test (x ∷ xs) d h = elim (Bool-cases (test x)) [
    | inl pass ↦
        let (i, low, gap) = count_gap test xs d (omega (arith, ap bit pass)) in
        (suc i, omega arith, gap)
    | inr fail ↦ (0, omega arith, fail)
  ]

module _ (t : EntryType) where
  open t use {Entry, Key, zeroed, exists, key, hash, zeroed_lem}

  abbrev pub occupied : HtHash t → ℕ → Bool
  occupied h s = exists (cell t h s)

  -- The entry at an index is found from its hash index, with no gap on the way.
  abbrev pub Near : HtHash t → ℕ → Type 0
  Near h s =
      (n : ℕ) × (n < h.capacity)
      × ((hash (key (cell t h s)) + n) % h.capacity ≡ s)
      × ((m : ℕ) → m < n → occupied h ((hash (key (cell t h s)) + m) % h.capacity) ≡ true)

  abbrev pub SameKey : HtHash t → ℕ → ℕ → Type 0
  SameKey h s u =
      (occupied h s ≡ true) × (occupied h u ≡ true) × (key (cell t h s) ≡ key (cell t h u))

  -- Entries are near their hash indices, and no two have one key.
  pub record Placed (h : HtHash t) : Type 0 where
    pub size : length h.entry ≡ h.capacity
    pub sized : IsSize h.capacity
    pub near : (s : ℕ) → occupied h s ≡ true → Near h s
    pub distinct : (s u : ℕ) → SameKey h s u → s ≡ u

  -- The field `used` counts the entries, and some entry is free.
  pub record IsValid (h : HtHash t) : Type 0 where
    pub placed : Placed h
    pub counted : h.used ≡ count exists h.entry
    pub room : h.used < h.capacity

  -- The table holds an entry with this value.
  abbrev pub Has : HtHash t → Entry → Type 0
  Has h x = (s : ℕ) × (occupied h s ≡ true) × (cell t h s ≡ x)

  -- No entry of the table has the key.
  abbrev pub Absent : HtHash t → Key → Type 0
  Absent h k = ¬ ((s : ℕ) × (occupied h s ≡ true) × (key (cell t h s) ≡ k))

  pub occupied-lt : (h : HtHash t) (s : ℕ) → Placed h → occupied h s ≡ true → s < h.capacity
  occupied-lt h s v e = elim (dec_lt s h.capacity) [
    | yes low ↦ low
    | no high ↦
        let out : length h.entry ≤ s = omega (arith, v.size) in
        let free : occupied h s ≡ false =
          ap exists (get_or_out h.entry s zeroed out) ∙ zeroed_lem in
        cc
  ]

  pub place_lem :
      (h : HtHash t) (i n : ℕ) → IsSize h.capacity → place t h i n ≡ (i + n) % h.capacity
  unfolding place
  place_lem h i n s = mask_lem h.capacity s (i + n)
