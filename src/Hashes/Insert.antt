-- ===== src/Hashes/Insert.antt =====
-- A new entry in the first free place from its hash index on.
use crts.Prelude.{
  ℕ, ◌+◌, ◌<◌, ◌≡◌, ◌≢◌, ◌↔◌, sym, ap, ◌∙◌, ◌⊎◌, inl, inr, true, false, arith, subst, length,
  length-set, ℕ_discrete,
}
use native.Mathlib.Nat.{mod-lt}
use crts.Prelude.Counts.{bit, count}
use crts.Hashes.{EntryType, HtHash, cell, store}
use crts.Hashes.Valid.{occupied, Placed, Has, Near, get_or-set_self, get_or-set_ne, count-set}
use crts.Hashes.Probe.{Gap}

module _ (t : EntryType) where
  open t use {Entry, Key, zeroed, exists, key, hash}

  pub cell-store :
      (h : HtHash t) (e : ℕ) (x : Entry) → e < length h.entry → cell t (store t h e x) e ≡ x
  cell-store h e x low = get_or-set_self h.entry e x zeroed low

  pub cell-store_ne :
      (h : HtHash t) (e s : ℕ) (x : Entry) → e ≢ s → cell t (store t h e x) s ≡ cell t h s
  cell-store_ne h e s x ne = get_or-set_ne h.entry e s x zeroed ne

  -- Writing an entry that exists leaves no other place free.
  pub store-occupied :
      (h : HtHash t) (e : ℕ) (x : Entry)
      → e < length h.entry
      → exists x ≡ true
      → (s : ℕ) → occupied t h s ≡ true
      → occupied t (store t h e x) s ≡ true
  store-occupied h e x low full s old = elim (ℕ_discrete e s) [
    | yes same ↦
        subst (λ i. occupied t (store t h e x) i ≡ true) same
          (ap exists (cell-store h e x low) ∙ full)
    | no ne ↦ ap exists (cell-store_ne h e s x ne) ∙ old
  ]

  -- An entry of the table after a write is the new one, or an old one at another place.
  pub data Written (h : HtHash t) (e : ℕ) (x : Entry) (s : ℕ) : Type 0 where
    new : e ≡ s → cell t (store t h e x) s ≡ x → Written h e x s
    old : e ≢ s → cell t (store t h e x) s ≡ cell t h s → Written h e x s

  pub written : (h : HtHash t) (e : ℕ) (x : Entry) → e < length h.entry → (s : ℕ) → Written h e x s
  written h e x low s = elim (ℕ_discrete e s) [
    | yes same ↦ new same (subst (λ i. cell t (store t h e x) i ≡ x) same (cell-store h e x low))
    | no ne ↦ old ne (cell-store_ne h e s x ne)
  ]

  module _ (h : HtHash t) (e : ℕ) (x : Entry) (p : Placed t h) (full : exists x ≡ true)
      (g : Gap t h (hash (key x)) e)
      (absent : (s : ℕ) → occupied t h s ≡ true → key (cell t h s) ≢ key x) where
    pub within : e < length h.entry
    within =
        let pos : 0 < h.capacity = omega (arith, g.short) in
        let low = mod-lt (hash (key x) + g.steps) pos in
        let there = g.stands in omega (arith, p.size)

    Near-store :
        (s : ℕ) → occupied t (store t h e x) s ≡ true → Written h e x s → Near t (store t h e x) s
    Near-store s here (Written.new same value) = rw value (
      g.steps,
      g.short,
      g.stands ∙ same,
      λ m low. store-occupied h e x within full _ (g.before m low),
    )
    Near-store s here (Written.old ne value) =
        let (n, short, at, all) = p.near s (ap exists (sym value) ∙ here) in
        rw value (n, short, at, λ m low. store-occupied h e x within full _ (all m low))

    distinct-store :
        (s u : ℕ)
        → Written h e x s
        → Written h e x u
        → occupied t (store t h e x) s ≡ true
        → occupied t (store t h e x) u ≡ true
        → key (cell t (store t h e x) s) ≡ key (cell t (store t h e x) u)
        → s ≡ u
    distinct-store s u (Written.new a b) (Written.new c d) hs hu k = sym a ∙ c
    distinct-store s u (Written.new a b) (Written.old c d) hs hu k =
        absurd (absent u (ap exists (sym d) ∙ hu) (ap key (sym d) ∙ sym k ∙ ap key b))
    distinct-store s u (Written.old a b) (Written.new c d) hs hu k =
        absurd (absent s (ap exists (sym b) ∙ hs) (ap key (sym b) ∙ k ∙ ap key d))
    distinct-store s u (Written.old a b) (Written.old c d) hs hu k =
        p.distinct s u
          (ap exists (sym b) ∙ hs, ap exists (sym d) ∙ hu, ap key (sym b) ∙ k ∙ ap key d)

    pub store-Placed : Placed t (store t h e x)
    store-Placed = record {
      size = length-set h.entry e x ∙ p.size;
      sized = p.sized;
      near = λ s here. Near-store s here (written h e x within s);
      distinct =
          λ s u k. distinct-store s u (written h e x within s) (written h e x within u) k.0 k.1 k.2;
    }

    pub store-count : count exists (store t h e x).entry ≡ count exists h.entry + 1
    store-count =
        omega (arith, count-set exists h.entry e x zeroed within, ap bit full, ap bit g.free)

    -- The table holds what it held, and the new entry.
    pub store-Has : (y : Entry) → Has t (store t h e x) y ↔ (Has t h y ⊎ (x ≡ y))
    store-Has y = (to, back)
      where
        split :
            (s : ℕ)
            → Written h e x s
            → occupied t (store t h e x) s ≡ true
            → cell t (store t h e x) s ≡ y
            → Has t h y ⊎ (x ≡ y)
        split s (Written.new a b) hs v = inr (sym b ∙ v)
        split s (Written.old a b) hs v = inl (s, ap exists (sym b) ∙ hs, sym b ∙ v)

        to : Has t (store t h e x) y → Has t h y ⊎ (x ≡ y)
        to (s, hs, v) = split s (written h e x within s) hs v

        keep :
            (s : ℕ)
            → Written h e x s
            → occupied t h s ≡ true
            → cell t h s ≡ y
            → Has t (store t h e x) y
        keep s (Written.new a b) hs v =
            let wrong : occupied t h s ≡ false = subst (λ i. occupied t h i ≡ false) a g.free in cc
        keep s (Written.old a b) hs v = (s, ap exists b ∙ hs, b ∙ v)

        back : Has t h y ⊎ (x ≡ y) → Has t (store t h e x) y
        back (inl (s, hs, v)) = keep s (written h e x within s) hs v
        back (inr same) =
            (e, ap exists (cell-store h e x within) ∙ full, cell-store h e x within ∙ same)
