-- ===== src/Hashes/Shift.antt =====
-- The loop of HT_DELETE, which moves entries back over the place of the deleted one.
use native.Mathlib.Nat.{mod-add-mod, mod-mod}
use crts.Prelude.{
  ℕ, zero, suc, ◌+◌, ◌-◌, ◌%◌, ◌≤◌, ◌<◌, ◌≡◌, ◌↔◌, refl, sym, ap, ◌∙◌, inl, inr, true, false, some,
  arith, Bool-cases, leb,
}
use crts.Prelude.Counts.{count}
use crts.Hashes.{EntryType, HtHash, cell, store, size_mod, shift_back, behind}
use crts.Hashes.Cyclic.{IsSize, mask_lem, step_after}
use crts.Hashes.Valid.{occupied}
use crts.Hashes.Insert.{cell-store_ne}
use crts.Hashes.Hole.{Others, Hole, kept-Hole, moved-Hole, moved-count, moved-Others}

module _ (t : EntryType) where
  open t use {Entry, Key, zeroed, exists, key, hash, zeroed_lem}

  -- What the loop of HT_DELETE comes to.
  pub record Shifted (h : HtHash t) (e : ℕ) (r : HtHash t × ℕ) : Type 0 where
    pub shift : ℕ
    pub hole : Hole t r.0 r.1 shift
    pub ends : occupied t r.0 ((r.1 + shift) % r.0.capacity) ≡ false
    pub used : r.0.used ≡ h.used
    pub capacity : r.0.capacity ≡ h.capacity
    pub counted : count exists r.0.entry ≡ count exists h.entry
    pub others : (y : Entry) → Others t r.0 r.1 y ↔ Others t h e y

  behind_eq :
      (h : HtHash t) (g i : ℕ)
      → IsSize h.capacity
      → behind t h g i ≡ (g + size_mod - i) % h.capacity
  unfolding behind
  behind_eq h g i s = mask_lem h.capacity s (g + size_mod - i)

  -- A free place ahead is nearer from the next entry, if that is not free.
  nearer :
      (h : HtHash t) (f g z : ℕ)
      → (f + 1) % h.capacity ≡ g
      → occupied t h g ≡ true
      → occupied t h ((f + suc z) % h.capacity) ≡ false
      → (z' : ℕ) × (suc z' ≡ z) × (occupied t h ((g + suc z') % h.capacity) ≡ false)
  nearer h f g zero at full gap =
      let same : f + 1 ≡ f + suc zero = omega arith in
      let free : occupied t h g ≡ false =
        ap (occupied t h) (sym at ∙ ap (λ k. k % h.capacity) same) ∙ gap in
      cc
  nearer h f g (suc z) at full gap =
      let same : f + 1 + suc z ≡ f + suc (suc z) = omega arith in
      (
        z,
        refl,
        ap (occupied t h) (
              ap (λ k. (k + suc z) % h.capacity) (sym at)
              ∙ mod-add-mod (f + 1) h.capacity (suc z)
              ∙ ap (λ k. k % h.capacity) same)
            ∙ gap,
      )

  -- A place that is free stays so when an entry is written over another.
  still_free :
      (h : HtHash t) (e p : ℕ) (x : Entry)
      → occupied t h e ≡ true
      → occupied t h p ≡ false
      → occupied t (store t h e x) p ≡ false
  still_free h e p x full free =
      ap exists (
        cell-store_ne t h e p x
          (λ same. (let wrong : occupied t h p ≡ true = ap (occupied t h) (sym same) ∙ full in cc)))
      ∙ free

  -- What a move and the rest of the loop come to.
  after_move :
      (h : HtHash t) (e d : ℕ) (r : HtHash t × ℕ) (o : Hole t h e (suc d))
      (there : occupied t h ((e + suc d) % h.capacity) ≡ true)
      → suc d
        ≤ ((e + suc d) % h.capacity + size_mod - hash (key (cell t h ((e + suc d) % h.capacity))))
          % h.capacity
      → Shifted (store t h e (cell t h ((e + suc d) % h.capacity))) ((e + suc d) % h.capacity) r
      → Shifted h e r
  after_move h e d r o there far s =
      let pos : 0 < suc d = omega arith in
      record {
        shift = s.shift;
        hole = s.hole;
        ends = s.ends;
        used = s.used;
        capacity = s.capacity;
        counted = s.counted ∙ moved-count t h e (suc d) o pos there far;
        others = λ y.
            let one = s.others y in
            let two = moved-Others t h e (suc d) o pos there far y in
            (λ f. two.0 (one.0 f), λ f. one.1 (two.1 f));
      }

  -- A place that is `z + 1` steps ahead of `f` and free ends the loop.
  pub shift_back-Shifted :
      (fuel : ℕ) (h : HtHash t) (e f d z : ℕ)
      → Hole t h e (suc d)
      → f ≡ (e + d) % h.capacity
      → z < fuel
      → occupied t h ((f + suc z) % h.capacity) ≡ false
      → (r : HtHash t × ℕ) × (shift_back t fuel h e f (suc d) ≡ some r) × Shifted h e r
  unfolding shift_back
  shift_back-Shifted zero h e f d z o at low gap = absurd (omega arith)
  shift_back-Shifted (suc fuel) h e f d z o at low gap =
      let next = mask_lem h.capacity o.sized (f + 1) ∙ step_after h.capacity e d f at in
      let ahead = (e + suc d) % h.capacity in
      elim (Bool-cases (occupied t h ahead)) [
        | inr free ↦ (
          (h, e),
          rw (next, free) refl,
          record {
            shift = suc d;
            hole = o;
            ends = free;
            used = refl;
            capacity = refl;
            counted = refl;
            others = λ y. (λ f. f, λ f. f);
          },
        )
        | inl there ↦
            let pos : 0 < suc d = omega arith in
            let how_far = behind_eq h ahead (hash (key (cell t h ahead))) o.sized in
            let back = (ahead + size_mod - hash (key (cell t h ahead))) % h.capacity in
            let (z', one, gap') = nearer h f ahead z (step_after h.capacity e d f at) there gap in
            elim (Bool-cases (leb (suc d) back)) [
              | inl far ↦
                  let far_le : suc d ≤ back = ground arith in
                  let self : ahead ≡ (ahead + 0) % h.capacity =
                    (let none_more : ahead + 0 ≡ ahead = omega arith in
                      sym (ap (λ k. k % h.capacity) none_more ∙ mod-mod (e + suc d) h.capacity)) in
                  let (r, ends, s) =
                    shift_back-Shifted fuel (store t h e (cell t h ahead)) ahead ahead 0 z'
                      (moved-Hole t h e (suc d) o pos there far_le) self (omega arith)
                      (still_free h e ((ahead + suc z') % h.capacity) (cell t h ahead) o.full
                        gap') in
                  rw (next, there, how_far, far) (r, ends, after_move h e d r o there far_le s)
              | inr near ↦
                  let near_lt : back < suc d = ground arith in
                  let more : suc d + 1 ≡ suc (suc d) = omega arith in
                  let (r, ends, s) =
                    shift_back-Shifted fuel h e ahead (suc d) z'
                      (kept-Hole t h e (suc d) o pos there near_lt) refl (omega arith) gap' in
                  rw (next, there, how_far, near, more) (r, ends, s)
            ]
      ]
