-- ===== src/Hashes/Grow.antt =====
-- HT_GROW moves every entry to a larger table.
use native.Mathlib.Nat.{pow-succ', pow-le-pow_right, mod-eq_of_lt}
use crts.Prelude.{
  ℕ, zero, suc, ◌+◌, ◌-◌, ◌*◌, ◌%◌, ◌^◌, ◌≤◌, ◌<◌, ◌≡◌, ◌≢◌, ◌↔◌, refl, sym, ap, ◌∙◌, ◌⊎◌, inl, inr,
  true, false, Option, none, some, arith, subst, length, ℕ_discrete, dec_lt, drop, get_or,
  length-replicate, replicate, ◌==◌, if◌then◌else◌, ◌>>=◌,
}
use crts.Prelude.Counts.{count}
use crts.Hashes.{
  EntryType, HtHash, cell, store, next, rehash, insert_pos, found, grow, fresh, size_mod, empty,
}
use crts.Hashes.Cyclic.{IsSize, power-IsSize}
use crts.Hashes.Valid.{occupied, SameKey, Placed, IsValid, Has, get_or-replicate, count-replicate}
use crts.Hashes.Probe.{Gap, insert_pos_lem}
use crts.Hashes.Next.{NextIs, next_from_lem, count-le}
use crts.Hashes.Insert.{store-Placed, store-count, store-Has}

module _ (t : EntryType) where
  open t use {Entry, Key, zeroed, exists, key, hash, zeroed_lem}

  -- The entries before an index have been moved.
  record Moving (h l : HtHash t) (from : ℕ) : Type 0 where
    below : from ≤ h.capacity
    larger : h.capacity < l.capacity
    roomy : h.used + 1 < l.capacity
    wide : l.capacity ≤ 2 * h.capacity + 256
    same : l.used ≡ h.used
    placed : Placed t l
    counted : count exists l.entry + count exists (drop from h.entry) ≡ count exists h.entry
    held :
        (y : Entry)
        → Has t l y ↔ ((s : ℕ) × (s < from) × (occupied t h s ≡ true) × (cell t h s ≡ y))

  -- A larger table with the same entries.
  pub record Grown (h g : HtHash t) : Type 0 where
    pub larger : h.capacity < g.capacity
    pub roomy : h.used + 1 < g.capacity
    pub wide : g.capacity ≤ 2 * h.capacity + 256
    pub same : g.used ≡ h.used
    pub placed : Placed t g
    pub counted : count exists g.entry ≡ count exists h.entry
    pub held : (y : Entry) → Has t g y ↔ Has t h y

  module _ (h : HtHash t) (size : length h.entry ≡ h.capacity)
      (distinct : (s u : ℕ) → SameKey t h s u → s ≡ u) where
    moved_held :
        (l : HtHash t) (from e r : ℕ) (y : Entry)
        → from ≤ e
        → e < h.capacity
        → occupied t h e ≡ true
        → ((s : ℕ) → from ≤ s → s < e → occupied t h s ≡ false)
        → Moving h l from
        → Has t (store t l r (cell t h e)) y ↔ (Has t l y ⊎ (cell t h e ≡ y))
        → Has t (store t l r (cell t h e)) y
          ↔ ((s : ℕ) × (s < e + 1) × (occupied t h s ≡ true) × (cell t h s ≡ y))
    moved_held l from e r y le lt full skipped m had = (λ hy. to (had.0 hy), back)
      where
        to :
            Has t l y ⊎ (cell t h e ≡ y)
            → (s : ℕ) × (s < e + 1) × (occupied t h s ≡ true) × (cell t h s ≡ y)
        to (inl old) = let (s, low, hs, v) = (m.held y).0 old in (s, omega arith, hs, v)
        to (inr same) = (e, omega arith, full, same)

        back :
            (s : ℕ) × (s < e + 1) × (occupied t h s ≡ true) × (cell t h s ≡ y)
            → Has t (store t l r (cell t h e)) y
        back (s, low, hs, v) = elim (dec_lt s from) [
          | yes before ↦ had.1 (inl ((m.held y).1 (s, before, hs, v)))
          | no after ↦ elim (ℕ_discrete s e) [
            | yes same ↦ had.1 (inr (ap (cell t h) (sym same) ∙ v))
            | no ne ↦ let free = skipped s (omega arith) (omega arith) in cc
          ]
        ]

    move_one :
        (l : HtHash t) (from e r : ℕ)
        → from ≤ e
        → e < h.capacity
        → occupied t h e ≡ true
        → ((s : ℕ) → from ≤ s → s < e → occupied t h s ≡ false)
        → count exists (drop from h.entry) ≡ 1 + count exists (drop (e + 1) h.entry)
        → Moving h l from
        → Gap t l (hash (key (cell t h e))) r
        → Moving h (store t l r (cell t h e)) (e + 1)
    move_one l from e r le lt full skipped n m g =
        let x = cell t h e in
        let absent : (s : ℕ) → occupied t l s ≡ true → key (cell t l s) ≢ key x = λ s hs k.
          let (u, low, hu, v) = (m.held (cell t l s)).0 (s, hs, refl) in
          let met : u ≡ e = distinct u e (hu, full, ap key v ∙ k) in absurd (omega arith) in
        record {
          below = omega arith;
          larger = m.larger;
          roomy = m.roomy;
          wide = m.wide;
          same = m.same;
          placed = store-Placed t l r x m.placed full g absent;
          counted = omega (arith, store-count t l r x m.placed full g absent, m.counted);
          held = λ y.
              moved_held l from e r y le lt full skipped m
                (store-Has t l r x m.placed full g absent y);
        }

    finished : (l : HtHash t) (from : ℕ) → NextIs t h from none → Moving h l from → Grown h l
    finished l from (NextIs.over free n) m = record {
      larger = m.larger;
      roomy = m.roomy;
      wide = m.wide;
      same = m.same;
      placed = m.placed;
      counted = omega (arith, m.counted);
      held = λ y. (
        λ hy. (let (s, low, hs, v) = (m.held y).0 hy in (s, hs, v)),
        λ hy. elim (dec_lt hy.0 from) [
          | yes low ↦ (m.held y).1 (hy.0, low, hy.1, hy.2)
          | no high ↦ let no_entry = free hy.0 (omega arith) in let full = hy.1 in cc
        ],
      );
    }

    -- One round, where the rounds after it are right.
    rehash_step :
        (fuel : ℕ) (l : HtHash t) (from : ℕ) (o : Option ℕ)
        → h.capacity < from + suc fuel
        → NextIs t h from o
        → Moving h l from
        → ((l' : HtHash t) (from' : ℕ)
            → h.capacity < from' + fuel
            → Moving h l' from'
            → (g : HtHash t) × (rehash t fuel h l' from' ≡ some g) × Grown h g)
        → (g : HtHash t) × (found o (some l) (λ e. insert_pos t l (hash (key (cell t h e))) >>= λ r.
              rehash t fuel h (store t l r (cell t h e)) (e + 1))
            ≡ some g)
          × Grown h g
    rehash_step fuel l from none enough n m go_on = (l, refl, finished l from n m)
    rehash_step fuel l from (some e) enough (NextIs.there _ le lt full skipped n) m go_on =
        let placed = m.placed in
        let room : count exists l.entry < l.capacity =
          omega (arith, m.counted, m.larger, count-le exists zeroed h.entry) in
        let (r, ends, g) =
          insert_pos_lem t l (hash (key (cell t h e))) placed.sized placed.size room in
        rw ends (
          go_on (store t l r (cell t h e)) (e + 1) (omega arith)
            (move_one l from e r le lt full skipped n m g))

    rehash-Grown :
        (fuel : ℕ) (l : HtHash t) (from : ℕ)
        → h.capacity < from + fuel
        → Moving h l from
        → (g : HtHash t) × (rehash t fuel h l from ≡ some g) × Grown h g
    unfolding rehash next
    rehash-Grown zero l from enough m = absurd (omega (arith, m.below))
    rehash-Grown (suc fuel) l from enough m =
        rehash_step fuel l from (next t h from) enough
          (next_from_lem t (h.capacity - from) h from size (omega (arith, m.below))) m
          (rehash-Grown fuel)

  double-IsSize : (c : ℕ) → IsSize c → 2 * c < size_mod → IsSize (2 * c % size_mod)
  double-IsSize c s h =
      let power : 2 ^ suc s.shift ≡ 2 * c =
        pow-succ' 2 s.shift ∙ ap (λ (k : ℕ). 2 * k) (sym s.power) in
      let same : 2 ^ suc s.shift ≡ 2 * c % size_mod = power ∙ sym (mod-eq_of_lt h) in
      subst IsSize same (
        power-IsSize (suc s.shift) (elim (dec_lt s.shift 64) [
          | yes fits ↦ fits
          | no wide ↦
              let big =
                pow-le-pow_right {n = 2} (omega arith) {i = 64} {j = s.shift} (omega arith) in
              absurd (omega (arith, s.power))
        ]))

  -- Nothing is moved yet to a table of free entries.
  blank-Moving :
      (h : HtHash t) (n : ℕ)
      → IsSize n
      → h.capacity < n
      → h.used + 1 < n
      → n ≤ 2 * h.capacity + 256
      → Moving h (record { entry = replicate n zeroed; used = h.used; capacity = n }) 0
  blank-Moving h n sized larger roomy wide =
      let free : (s : ℕ) → exists (get_or (replicate n zeroed) s zeroed) ≡ false =
        λ s. ap exists (get_or-replicate n s zeroed) ∙ zeroed_lem in
      record {
        below = omega arith;
        larger = larger;
        roomy = roomy;
        wide = wide;
        same = refl;
        placed = record {
          size = length-replicate n zeroed;
          sized = sized;
          near = λ s full. (let none_there = free s in cc);
          distinct = λ s u k. (let none_there = free s in let full = k.0 in cc);
        };
        counted = omega (arith, count-replicate exists n zeroed zeroed_lem);
        held = λ y. (
          λ hy. (let none_there = free hy.0 in let full = hy.1 in cc),
          λ hy. absurd (omega (arith, hy.1)),
        );
      }

  grows :
      (h : HtHash t) (n : ℕ)
      → length h.entry ≡ h.capacity
      → ((s u : ℕ) → SameKey t h s u → s ≡ u)
      → (if h.capacity == 0 then 256 else 2 * h.capacity % size_mod) ≡ n
      → IsSize n
      → h.capacity < n
      → h.used + 1 < n
      → n ≤ 2 * h.capacity + 256
      → (g : HtHash t) × (grow t h ≡ some g) × Grown h g
  unfolding grow fresh
  grows h n size distinct same sized larger roomy wide =
      rehash-Grown h size distinct (h.capacity + 1) (fresh t h) 0 (omega arith) (
        subst (λ k. Moving h (record { entry = replicate k zeroed; used = h.used; capacity = k }) 0)
          (sym same) (blank-Moving h n sized larger roomy wide))

  -- A table that is valid grows to one with the same entries, if its new size fits in a size_t.
  pub grow-Grown :
      (h : HtHash t)
      → IsValid t h
      → 2 * h.capacity < size_mod
      → (g : HtHash t) × (grow t h ≡ some g) × Grown h g
  grow-Grown h v fits =
      let larger : h.capacity < 2 * h.capacity % size_mod =
        omega (arith, mod-eq_of_lt fits, v.room) in
      grows h (2 * h.capacity % size_mod) v.placed.size v.placed.distinct (ground (arith, v.room))
        (double-IsSize h.capacity v.placed.sized fits) larger (omega (arith, v.room))
        (omega (arith, mod-eq_of_lt fits))

  -- So does the empty one.
  pub grow-empty : (g : HtHash t) × (grow t (empty t) ≡ some g) × Grown (empty t) g
  unfolding empty
  grow-empty =
      grows (empty t) 256 refl (λ s u k. (let free = zeroed_lem in let full = k.0 in cc)) refl
        (power-IsSize 8 (omega arith)) (omega arith) (omega arith) (omega arith)
