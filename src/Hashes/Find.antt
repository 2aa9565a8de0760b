-- ===== src/Hashes/Find.antt =====
-- HT_FIND is the lookup of a finite map.
use crts.Prelude.{
  ℕ, ◌+◌, ◌%◌, ◌<◌, ◌≡◌, ◌≢◌, refl, sym, ap, ◌∙◌, Bool, true, false, Option, none, some, List, [],
  ◌∷◌, arith, subst, length, if◌then◌else◌,
}
use native.Mathlib.Decide.{dec_lt}
use crts.Hashes.{EntryType, HtHash, cell, find, null}
use crts.Hashes.Valid.{occupied, Absent, IsValid, Placed, Near}
use crts.Hashes.Probe.{Gap, Found, find_pos_lem}

module _ (t : EntryType) where
  open t use {Entry, Key, exists, key, hash}

  -- An entry stands no later than the first free one from its hash index on.
  pub Near-before :
      (h : HtHash t) (s i e : ℕ)
      → hash (key (cell t h s)) ≡ i
      → occupied t h s ≡ true
      → Near t h s
      → (g : Gap t h i e) → (m : ℕ) × (m < g.steps) × ((i + m) % h.capacity ≡ s)
  Near-before h s i e home full (n, short, at, all) g =
      let at' : (i + n) % h.capacity ≡ s = subst (λ j. (j + n) % h.capacity ≡ s) home at in
      elim (dec_lt n g.steps) [
        | yes low ↦ (n, low, at')
        | no high ↦ elim (dec_lt g.steps n) [
          | yes more ↦
              let wrong : occupied t h e ≡ true =
                ap (occupied t h) (sym g.stands)
                ∙ subst (λ j. occupied t h ((j + g.steps) % h.capacity) ≡ true) home
                    (all g.steps more) in
              let free = g.free in cc
          | no same ↦
              let equal : n ≡ g.steps = omega arith in
              let here : s ≡ e = sym at' ∙ ap (λ k. (i + k) % h.capacity) equal ∙ g.stands in
              let wrong : occupied t h e ≡ true = ap (occupied t h) (sym here) ∙ full in
              let free = g.free in cc
        ]
      ]

  -- Where the search of a key ends at a free entry, no entry has the key.
  pub missing :
      (h : HtHash t) (k : Key) (e : ℕ) (g : Gap t h (hash k) e)
      → Placed t h
      → ((m : ℕ) → m < g.steps → key (cell t h ((hash k + m) % h.capacity)) ≢ k)
      → (s : ℕ) → occupied t h s ≡ true
      → key (cell t h s) ≢ k
  missing h k e g p none_yet s full same =
      let (m, low, at) = Near-before h s (hash k) e (ap hash same) full (p.near s full) g in
      none_yet m low (ap (λ i. key (cell t h i)) at ∙ same)

  -- What a search of a key comes to.
  pub data Search (h : HtHash t) (k : Key) : Option ℕ → Type 0 where
    at : (e : ℕ) → occupied t h e ≡ true → key (cell t h e) ≡ k → Search h k (some e)
    nowhere : Absent t h k → Search h k none

  pub not_null : (xs : List Entry) → 0 < length xs → null xs ≡ false
  not_null [] h = absurd (omega arith)
  not_null (x ∷ xs) h = refl

  finish :
      (h : HtHash t) (k : Key)
      → IsValid t h
      → (r : Bool × ℕ) → Found t h (hash k) k r
      → (o : Option ℕ) × ((if r.0 then some r.1 else none) ≡ o) × Search h k o
  finish h k v (true, e) (Found.hit _ full same) = (some e, refl, at e full same)
  finish h k v (false, e) (Found.miss _ g none_yet) =
      (none, refl, nowhere (λ f. missing h k e g v.placed none_yet f.0 f.1 f.2))

  -- HT_FIND ends. It returns an entry that has the key, and nothing only where no entry has it.
  pub find_lem :
      (h : HtHash t) (k : Key) → IsValid t h → (r : Option ℕ) × (find t h k ≡ some r) × Search h k r
  unfolding find
  find_lem h k v =
      let (r, ends, f) =
        find_pos_lem t h (hash k) v.placed.sized k v.placed.size
          (omega (arith, v.counted, v.room)) in
      let (o, same, s) = finish h k v r f in
      let some_entry : null h.entry ≡ false =
        not_null h.entry (omega (arith, v.placed.size, v.room)) in
      (o, rw (some_entry, ends, same) refl, s)
