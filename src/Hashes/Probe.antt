-- ===== src/Hashes/Probe.antt =====
-- The two loops that probe from a hash index on.
use crts.Prelude.{
  ℕ, zero, suc, ◌+◌, ◌%◌, ◌≤◌, ◌<◌, ◌≡◌, ◌≢◌, refl, sym, ap, subst, ◌∙◌, inl, inr, Bool, true,
  false, some, arith, Bool-cases, length, ℕ_discrete,
}
use crts.Prelude.Counts.{count}
use crts.Hashes.{EntryType, HtHash, cell, insert_pos_from, insert_pos, find_pos_from, find_pos}
use crts.Hashes.Cyclic.{IsSize, reach}
use crts.Hashes.Valid.{occupied, place_lem, count_gap}

module _ (t : EntryType) where
  open t use {Entry, Key, zeroed, exists, key, key_eq, key_eq_iff}

  -- The first free entry from a hash index on.
  pub record Gap (h : HtHash t) (i e : ℕ) : Type 0 where
    pub steps : ℕ
    pub short : steps < h.capacity
    pub stands : (i + steps) % h.capacity ≡ e
    pub free : occupied t h e ≡ false
    pub before : (m : ℕ) → m < steps → occupied t h ((i + m) % h.capacity) ≡ true

  -- What HT_FINDPOS returns: an entry with the key, or the first free one if none before it has.
  pub data Found (h : HtHash t) (i : ℕ) (k : Key) : Bool × ℕ → Type 0 where
    hit : (e : ℕ) → occupied t h e ≡ true → key (cell t h e) ≡ k → Found h i k (true, e)
    miss :
        (e : ℕ) (g : Gap h i e)
        → ((m : ℕ) → m < g.steps → key (cell t h ((i + m) % h.capacity)) ≢ k)
        → Found h i k (false, e)

  -- Where the count of entries says so, there is a free one within a round.
  pub free_ahead :
      (h : HtHash t) (i : ℕ)
      → length h.entry ≡ h.capacity
      → count exists h.entry < h.capacity
      → (d : ℕ) × (d < h.capacity) × (occupied t h ((i + d) % h.capacity) ≡ false)
  free_ahead h i size room =
      let (s, low, gap) = count_gap exists h.entry zeroed (omega arith) in
      let (d, short, e) = reach h.capacity i s (omega arith) in
      (d, short, ap (occupied t h) e ∙ gap)

  -- One more probed entry is occupied.
  longer : (P : ℕ → Type 0) (n : ℕ) → ((m : ℕ) → m < n → P m) → P n → (m : ℕ) → m < n + 1 → P m
  longer P n all here m low = elim (ℕ_discrete m n) [
    | yes e ↦ subst P (sym e) here
    | no ne ↦ all m (omega arith)
  ]

  module _ (h : HtHash t) (i : ℕ) (s : IsSize h.capacity) where
    -- Going on from a full entry, the gap is one step nearer.
    nearer :
        (n d : ℕ)
        → occupied t h ((i + n) % h.capacity) ≡ true
        → occupied t h ((i + (n + d)) % h.capacity) ≡ false
        → (d' : ℕ) × (suc d' ≡ d) × (occupied t h ((i + (n + 1 + d')) % h.capacity) ≡ false)
    nearer n zero full gap =
        let same : n + 0 ≡ n = omega arith in
        let free : occupied t h ((i + n) % h.capacity) ≡ false =
          subst (λ k. occupied t h ((i + k) % h.capacity) ≡ false) same gap in
        cc
    nearer n (suc d) full gap =
        let same : n + suc d ≡ n + 1 + d = omega arith in
        (d, refl, subst (λ k. occupied t h ((i + k) % h.capacity) ≡ false) same gap)

    abbrev FullTo : ℕ → Type 0
    FullTo n = (m : ℕ) → m < n → occupied t h ((i + m) % h.capacity) ≡ true

    insert_pos_from_lem :
        (fuel n : ℕ)
        → n + fuel ≤ h.capacity
        → (d : ℕ) → d < fuel
        → occupied t h ((i + (n + d)) % h.capacity) ≡ false
        → FullTo n
        → (e : ℕ) × (insert_pos_from t fuel h i n ≡ some e) × Gap h i e
    unfolding insert_pos_from
    insert_pos_from_lem zero n fits d low gap all = absurd (omega arith)
    insert_pos_from_lem (suc fuel) n fits d low gap all =
        let here = place_lem t h i n s in
        elim (Bool-cases (occupied t h ((i + n) % h.capacity))) [
          | inr free ↦ (
            (i + n) % h.capacity,
            rw (here, free) refl,
            record { steps = n; short = omega arith; stands = refl; free = free; before = all },
          )
          | inl full ↦
              let (d', one, gap') = nearer n d full gap in
              rw (here, full)
                (insert_pos_from_lem fuel (n + 1) (omega arith) d' (omega arith) gap'
                  (longer (λ m. occupied t h ((i + m) % h.capacity) ≡ true) n all full))
        ]

    -- Where an entry is free, one is found, and it is the first.
    pub insert_pos_lem :
        length h.entry ≡ h.capacity
        → count exists h.entry < h.capacity
        → (e : ℕ) × (insert_pos t h i ≡ some e) × Gap h i e
    unfolding insert_pos
    insert_pos_lem size room =
        let (d, short, gap) = free_ahead h i size room in
        let ahead : d ≡ 0 + d = omega arith in
        insert_pos_from_lem h.capacity 0 (omega arith) d short
          (subst (λ k. occupied t h ((i + k) % h.capacity) ≡ false) ahead gap)
          (λ m low. absurd (omega arith))

    find_pos_from_lem :
        (k : Key) (fuel n : ℕ)
        → n + fuel ≤ h.capacity
        → (d : ℕ) → d < fuel
        → occupied t h ((i + (n + d)) % h.capacity) ≡ false
        → FullTo n
        → ((m : ℕ) → m < n → key (cell t h ((i + m) % h.capacity)) ≢ k)
        → (r : Bool × ℕ) × (find_pos_from t fuel h k i n ≡ some r) × Found h i k r
    unfolding find_pos_from
    find_pos_from_lem k zero n fits d low gap all none_yet = absurd (omega arith)
    find_pos_from_lem k (suc fuel) n fits d low gap all none_yet =
        let here = place_lem t h i n s in
        let at = (i + n) % h.capacity in
        elim (Bool-cases (occupied t h at)) [
          | inr free ↦
              let g : Gap h i at = record {
                steps = n;
                short = omega arith;
                stands = refl;
                free = free;
                before = all;
              } in
              ((false, at), rw (here, free) refl, miss at g none_yet)
          | inl full ↦ elim (Bool-cases (key_eq (key (cell t h at)) k)) [
            | inl same ↦
                ((true, at), rw (here, full, same) refl, hit at full ((key_eq_iff _ k).0 same))
            | inr other ↦
                let (d', one, gap') = nearer n d full gap in
                let differs : key (cell t h at) ≢ k =
                  λ same. (let equal = (key_eq_iff _ k).1 same in cc) in
                rw (here, full, other)
                  (find_pos_from_lem k fuel (n + 1) (omega arith) d' (omega arith) gap'
                    (longer (λ m. occupied t h ((i + m) % h.capacity) ≡ true) n all full)
                    (longer (λ m. key (cell t h ((i + m) % h.capacity)) ≢ k) n none_yet differs))
          ]
        ]

    pub find_pos_lem :
        (k : Key)
        → length h.entry ≡ h.capacity
        → count exists h.entry < h.capacity
        → (r : Bool × ℕ) × (find_pos t h k i ≡ some r) × Found h i k r
    unfolding find_pos
    find_pos_lem k size room =
        let (d, short, gap) = free_ahead h i size room in
        let ahead : d ≡ 0 + d = omega arith in
        find_pos_from_lem k h.capacity 0 (omega arith) d short
          (subst (λ k. occupied t h ((i + k) % h.capacity) ≡ false) ahead gap)
          (λ m low. absurd (omega arith)) (λ m low. absurd (omega arith))
