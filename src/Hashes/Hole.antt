-- ===== src/Hashes/Hole.antt =====
-- The state of the loop of HT_DELETE: all but the entry that is to be overwritten are in order.
use native.Mathlib.Nat.{mod-lt, mod-eq_of_lt}
use crts.Prelude.{
  ℕ, suc, ◌+◌, ◌-◌, ◌%◌, ◌≤◌, ◌<◌, ◌≡◌, ◌≢◌, ◌↔◌, sym, ap, ◌∙◌, true, arith, subst, length,
  length-set, ℕ_discrete,
}
use crts.Prelude.Counts.{bit, count}
use crts.Hashes.{EntryType, HtHash, cell, store, size_mod}
use crts.Hashes.Cyclic.{IsSize, steps-injective, way_back, cancel_steps}
use crts.Hashes.Valid.{occupied, SameKey, Placed, Near, count-set}
use crts.Hashes.Insert.{cell-store, cell-store_ne, store-occupied, Written, written}

module _ (t : EntryType) where
  open t use {Entry, zeroed, exists, key, hash, hash_word}

  -- The table holds the entry at another place.
  abbrev pub Others : HtHash t → ℕ → Entry → Type 0
  Others h e y = (s : ℕ) × (s ≢ e) × (occupied t h s ≡ true) × (cell t h s ≡ y)

  -- The entry a few steps after the place has its hash index after the place, too.
  abbrev pub Stays : HtHash t → ℕ → ℕ → Type 0
  Stays h e d =
      let s = (e + d) % h.capacity in
      (occupied t h s ≡ true)
      × ((n : ℕ) × (n < d) × (n < h.capacity) × ((hash (key (cell t h s)) + n) % h.capacity ≡ s))

  pub record Hole (h : HtHash t) (e shift : ℕ) : Type 0 where
    pub size : length h.entry ≡ h.capacity
    pub sized : IsSize h.capacity
    pub within : e < h.capacity
    pub full : occupied t h e ≡ true
    pub near : (s : ℕ) → s ≢ e → occupied t h s ≡ true → Near t h s
    pub distinct : (s u : ℕ) → s ≢ e → u ≢ e → SameKey t h s u → s ≡ u
    pub stays : (d : ℕ) → 0 < d → d < shift → Stays h e d

  -- A deleted entry is a place to be overwritten.
  pub Placed-Hole :
      (h : HtHash t) (e : ℕ) → Placed t h → e < h.capacity → occupied t h e ≡ true → Hole h e 1
  Placed-Hole h e p low full = record {
    size = p.size;
    sized = p.sized;
    within = low;
    full = full;
    near = λ s ne hs. p.near s hs;
    distinct = λ s u ns nu k. p.distinct s u k;
    stays = λ d pos lt. absurd (omega arith);
  }

  module _ (h : HtHash t) (e shift : ℕ) (o : Hole h e shift) (pos : 0 < shift)
      (there : occupied t h ((e + shift) % h.capacity) ≡ true) where
    abbrev ahead : ℕ
    ahead = (e + shift) % h.capacity

    -- How far the entry ahead is behind its hash index.
    abbrev back : ℕ
    back = (ahead + size_mod - hash (key (cell t h ahead))) % h.capacity

    back_low : back < h.capacity
    back_low = let w = o.within in mod-lt _ (omega arith)

    back_lem : (hash (key (cell t h ahead)) + back) % h.capacity ≡ ahead
    back_lem =
        way_back h.capacity o.sized (hash (key (cell t h ahead))) ahead (hash_word _)
          (let w = o.within in mod-lt _ (omega arith))

    -- An entry whose hash index is after the place stays.
    pub kept-Hole : back < shift → Hole h e (suc shift)
    kept-Hole low = record {
      size = o.size;
      sized = o.sized;
      within = o.within;
      full = o.full;
      near = o.near;
      distinct = o.distinct;
      stays = λ d pos lt. elim (ℕ_discrete d shift) [
        | yes same ↦ subst (Stays h e) (sym same) (there, (back, low, back_low, back_lem))
        | no ne ↦ o.stays d pos (omega arith)
      ];
    }

    module _ (far : shift ≤ back) where
      apart : ahead ≢ e
      apart same =
          let zero_steps : e + 0 ≡ e = omega arith in
          let w = o.within in
          let low = back_low in
          let none_left : shift ≡ 0 =
            steps-injective h.capacity e shift 0 (omega arith) (omega arith)
              (same ∙ sym (ap (λ k. k % h.capacity) zero_steps ∙ mod-eq_of_lt o.within)) in
          absurd (omega arith)

      inside : e < length h.entry
      inside = omega (arith, o.size, o.within)

      abbrev moved : HtHash t
      moved = store t h e (cell t h ahead)

      still : (s : ℕ) → occupied t h s ≡ true → occupied t moved s ≡ true
      still = store-occupied t h e (cell t h ahead) inside there

      Near-moved : Near t h ahead → Near t moved e
      Near-moved (n, short, at, all) =
          let low = back_low in
          let same : n ≡ back =
            steps-injective h.capacity (hash (key (cell t h ahead))) n back short low
              (at ∙ sym back_lem) in
          let whole : hash (key (cell t h ahead)) + (n - shift) + shift
              ≡ hash (key (cell t h ahead)) + n =
            omega arith in
          let home : (hash (key (cell t h ahead)) + (n - shift)) % h.capacity ≡ e =
            cancel_steps h.capacity _ e shift (omega arith) (ap (λ k. k % h.capacity) whole ∙ at)
            ∙ mod-eq_of_lt o.within in
          rw (cell-store t h e (cell t h ahead) inside)
            (n - shift, omega arith, home, λ m lt. still _ (all m (omega arith)))

      -- The entry at an index after the move, other than the new place.
      Near-after :
          (s : ℕ)
          → s ≢ ahead
          → Written t h e (cell t h ahead) s
          → occupied t moved s ≡ true
          → Near t moved s
      Near-after s ne (Written.new same value) hs =
          subst (Near t moved) same (Near-moved (o.near ahead apart there))
      Near-after s ne (Written.old other value) hs =
          let (n, short, at, all) = o.near s (λ e. other (sym e)) (ap exists (sym value) ∙ hs) in
          rw value (n, short, at, λ m lt. still _ (all m lt))

      distinct_after :
          (s u : ℕ)
          → s ≢ ahead
          → u ≢ ahead
          → Written t h e (cell t h ahead) s
          → Written t h e (cell t h ahead) u
          → SameKey t moved s u
          → s ≡ u
      distinct_after s u ns nu (Written.new a b) (Written.new c d) k = sym a ∙ c
      distinct_after s u ns nu (Written.new a b) (Written.old c d) k = absurd (
          nu (
            sym (
              o.distinct ahead u apart (λ e. c (sym e))
                (there, ap exists (sym d) ∙ k.1, ap key (sym b) ∙ k.2 ∙ ap key d))))
      distinct_after s u ns nu (Written.old a b) (Written.new c d) k = absurd (
          ns (
            o.distinct s ahead (λ e. a (sym e)) apart
              (ap exists (sym b) ∙ k.0, there, ap key (sym b) ∙ k.2 ∙ ap key d)))
      distinct_after s u ns nu (Written.old a b) (Written.old c d) k =
          o.distinct s u (λ e. a (sym e)) (λ e. c (sym e))
            (ap exists (sym b) ∙ k.0, ap exists (sym d) ∙ k.1, ap key (sym b) ∙ k.2 ∙ ap key d)

      -- An entry whose hash index is not after the place moves there, and leaves its own.
      pub moved-Hole : Hole moved ahead 1
      moved-Hole = record {
        size = length-set h.entry e (cell t h ahead) ∙ o.size;
        sized = o.sized;
        within = (let w = o.within in mod-lt _ (omega arith));
        full = still ahead there;
        near = λ s ne hs. Near-after s ne (written t h e (cell t h ahead) inside s) hs;
        distinct = λ s u ns nu k.
            distinct_after s u ns nu (written t h e (cell t h ahead) inside s)
              (written t h e (cell t h ahead) inside u) k;
        stays = λ d pos lt. absurd (omega arith);
      }

      pub moved-count : count exists moved.entry ≡ count exists h.entry
      moved-count = omega (
        arith,
        count-set exists h.entry e (cell t h ahead) zeroed inside,
        ap bit there,
        ap bit o.full,
      )

      -- The other entries are the same.
      pub moved-Others : (y : Entry) → Others moved ahead y ↔ Others h e y
      moved-Others y = (
        λ f. to f.0 f.1 (written t h e (cell t h ahead) inside f.0) f.2 f.3,
        λ f. from f.0 f.1 f.2 f.3,
      )
        where
          to :
              (s : ℕ)
              → s ≢ ahead
              → Written t h e (cell t h ahead) s
              → occupied t moved s ≡ true
              → cell t moved s ≡ y
              → Others h e y
          to s ne (Written.new a b) hs v = (ahead, apart, there, sym b ∙ v)
          to s ne (Written.old a b) hs v = (s, λ e. a (sym e), ap exists (sym b) ∙ hs, sym b ∙ v)

          from : (s : ℕ) → s ≢ e → occupied t h s ≡ true → cell t h s ≡ y → Others moved ahead y
          from s ne hs v = elim (ℕ_discrete s ahead) [
            | yes same ↦
                let value = cell-store t h e (cell t h ahead) inside in
                (
                  e,
                  λ k. apart (sym k),
                  ap exists value ∙ there,
                  value ∙ ap (cell t h) (sym same) ∙ v,
                )
            | no other ↦
                let value = cell-store_ne t h e s (cell t h ahead) (λ k. ne (sym k)) in
                (s, other, ap exists value ∙ hs, value ∙ v)
          ]
