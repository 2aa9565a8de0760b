-- ===== src/Hashes/Close.antt =====
-- The end of HT_DELETE: the entry that the loop leaves is zeroed.
use native.Mathlib.Nat.{mod-add-mod}
use crts.Prelude.{
  ℕ, ◌+◌, ◌-◌, ◌%◌, ◌<◌, ◌≡◌, ◌≢◌, ◌↔◌, sym, ap, ◌∙◌, true, false, arith, subst, length, length-set,
  dec_lt,
}
use crts.Prelude.Counts.{bit, count}
use crts.Hashes.{EntryType, HtHash, cell, store}
use crts.Hashes.Cyclic.{steps-injective}
use crts.Hashes.Valid.{occupied, Placed, Has, count-set}
use crts.Hashes.Insert.{Written, written}
use crts.Hashes.Hole.{Others, Hole}

module _ (t : EntryType) where
  open t use {Entry, zeroed, exists, key, hash, zeroed_lem}

  module _ (h : HtHash t) (e shift : ℕ) (o : Hole t h e shift)
      (gap : occupied t h ((e + shift) % h.capacity) ≡ false) where
    inside : e < length h.entry
    inside = omega (arith, o.size, o.within)

    -- From the hash index of an entry that stays, the way does not lead over the place.
    clear_way :
        (s : ℕ)
        → s ≢ e
        → occupied t h s ≡ true
        → (n : ℕ) → n < h.capacity
        → (hash (key (cell t h s)) + n) % h.capacity ≡ s
        → ((m : ℕ) → m < n → occupied t h ((hash (key (cell t h s)) + m) % h.capacity) ≡ true)
        → (m : ℕ) → m < n
        → (hash (key (cell t h s)) + m) % h.capacity ≢ e
    clear_way s ne full n short at all m low over =
        let i = hash (key (cell t h s)) in
        let c = h.capacity in
        -- Any number of steps from the place, seen from the hash index.
        let from_place : (k : ℕ) → (e + k) % c ≡ (i + (m + k)) % c = λ k.
          let same : i + m + k ≡ i + (m + k) = omega arith in
          ap (λ j. (j + k) % c) (sym over) ∙ mod-add-mod (i + m) c k ∙ ap (λ j. j % c) same in
        let rest : m + (n - m) ≡ n = omega arith in
        let here : (e + (n - m)) % c ≡ s = from_place (n - m) ∙ ap (λ k. (i + k) % c) rest ∙ at in
        elim (dec_lt (n - m) shift) [
          | yes before ↦
              let (full', (n', lt, short', at')) = o.stays (n - m) (omega arith) before in
              let home : (i + n') % c ≡ s =
                subst (λ j. (hash (key (cell t h j)) + n') % c ≡ j) here at' in
              let equal : n ≡ n' = steps-injective c i n n' short short' (at ∙ sym home) in
              absurd (omega arith)
          | no after ↦ elim (dec_lt (m + shift) n) [
            | yes on_way ↦
                let wrong : occupied t h ((e + shift) % c) ≡ true =
                  ap (occupied t h) (from_place shift) ∙ all (m + shift) on_way in
                cc
            | no not_on ↦
                let last : n - m ≡ shift = omega arith in
                let wrong : occupied t h ((e + shift) % c) ≡ true =
                  ap (occupied t h) (ap (λ k. (e + k) % c) (sym last) ∙ here) ∙ full in
                cc
          ]
        ]

    abbrev closed : HtHash t
    closed = store t h e zeroed

    -- An entry of the closed table is one of the others.
    other :
        (s : ℕ)
        → Written t h e zeroed s
        → occupied t closed s ≡ true
        → (s ≢ e) × (occupied t h s ≡ true) × (cell t closed s ≡ cell t h s)
    other s (Written.new same value) hs =
        let free : occupied t closed s ≡ false = ap exists value ∙ zeroed_lem in cc
    other s (Written.old ne value) hs = (λ k. ne (sym k), ap exists (sym value) ∙ hs, value)

    kept :
        (s : ℕ)
        → s ≢ e
        → Written t h e zeroed s
        → occupied t h s ≡ true
        → occupied t closed s ≡ true
    kept s ne (Written.new same value) hs = absurd (ne (sym same))
    kept s ne (Written.old other value) hs = ap exists value ∙ hs

    pub closed-Placed : Placed t closed
    closed-Placed = record {
      size = length-set h.entry e zeroed ∙ o.size;
      sized = o.sized;
      near = λ s hs.
          let (ne, full, value) = other s (written t h e zeroed inside s) hs in
          let (n, short, at, all) = o.near s ne full in
          rw value (
            n,
            short,
            at,
            λ m low.
                kept _ (clear_way s ne full n short at all m low) (written t h e zeroed inside _)
                  (all m low),
          );
      distinct = λ s u k.
          let (ns, fs, vs) = other s (written t h e zeroed inside s) k.0 in
          let (nu, fu, vu) = other u (written t h e zeroed inside u) k.1 in
          o.distinct s u ns nu (fs, fu, ap key (sym vs) ∙ k.2 ∙ ap key vu);
    }

    pub closed-count : count exists closed.entry + 1 ≡ count exists h.entry
    closed-count =
        omega
          (arith, count-set exists h.entry e zeroed zeroed inside, ap bit zeroed_lem, ap bit o.full)

    pub closed-Has : (y : Entry) → Has t closed y ↔ Others t h e y
    closed-Has y = (
      λ hy.
          let (ne, full, value) = other hy.0 (written t h e zeroed inside hy.0) hy.1 in
          (hy.0, ne, full, sym value ∙ hy.2),
      λ f.
          let full = kept f.0 f.1 (written t h e zeroed inside f.0) f.2 in
          let (ne, old, value) = other f.0 (written t h e zeroed inside f.0) full in
          (f.0, full, value ∙ f.3),
    )
