-- ===== src/Hashes/Delete.antt =====
-- HT_DELETE takes one entry out and keeps the others.
use native.Mathlib.Nat.{mod-eq_of_lt}
use crts.Prelude.{
  ℕ, zero, suc, ◌+◌, ◌-◌, ◌%◌, ◌<◌, ◌≡◌, ◌≢◌, ◌↔◌, refl, sym, ap, ◌∙◌, inl, inr, Bool, true, false,
  some, arith, subst,
}
use crts.Hashes.{
  EntryType, HtHash, cell, size_mod, shift_back, zero_entry, delete, delete_at, null, empty,
}
use crts.Hashes.Cyclic.{IsSize-le}
use crts.Hashes.Valid.{occupied, occupied-lt, IsValid, Has, Absent}
use crts.Hashes.Probe.{Found, find_pos_lem, free_ahead}
use crts.Hashes.Find.{missing, not_null}
use crts.Hashes.Close.{closed-Placed, closed-count, closed-Has}
use crts.Hashes.Shift.{Shifted, shift_back-Shifted}
use crts.Hashes.Create.{Ready}
use crts.Hashes.Hole.{Hole, Placed-Hole}

module _ (t : EntryType) where
  open t use {Entry, Key, zeroed, exists, key, hash, zeroed_lem}

  -- What HT_DELETE returns: whether the key was there; and if it was, a valid table with the
  -- entries that have other keys.
  pub data Deleted (h : HtHash t) (k : Key) : HtHash t × Bool → Type 0 where
    absent : Absent t h k → Deleted h k (h, false)
    removed :
        (g : HtHash t) (x : Entry)
        → Has t h x
        → key x ≡ k
        → IsValid t g
        → g.capacity ≡ h.capacity
        → ((y : Entry) → Has t g y ↔ (Has t h y × (key y ≢ k)))
        → Deleted h k (g, true)

  remove :
      (h : HtHash t) (e : ℕ)
      → IsValid t h
      → occupied t h e ≡ true
      → (r : HtHash t × ℕ) × (shift_back t h.capacity h e e 1 ≡ some r) × Shifted t h e r
  remove h e v full =
      let low = occupied-lt t h e v.placed full in
      let (z, short, gap) = free_ahead t h e v.placed.size (omega (arith, v.counted, v.room)) in
      let here : e ≡ (e + 0) % h.capacity =
        (let none_more : e + 0 ≡ e = omega arith in
          sym (ap (λ k. k % h.capacity) none_more ∙ mod-eq_of_lt low)) in
      go z short gap here (Placed-Hole t h e v.placed low full)
    where
      go :
          (z : ℕ)
          → z < h.capacity
          → occupied t h ((e + z) % h.capacity) ≡ false
          → e ≡ (e + 0) % h.capacity
          → Hole t h e 1
          → (r : HtHash t × ℕ) × (shift_back t h.capacity h e e 1 ≡ some r) × Shifted t h e r
      go zero short gap here o =
          let free : occupied t h e ≡ false = ap (occupied t h) here ∙ gap in cc
      go (suc z) short gap here o =
          shift_back-Shifted t h.capacity h e e 0 z o here (omega arith) gap

  closed-IsValid :
      (h : HtHash t) (e : ℕ) (r : HtHash t × ℕ)
      → IsValid t h
      → Shifted t h e r
      → IsValid t (zero_entry t r)
  unfolding zero_entry
  closed-IsValid h e (g, p) v s =
      let fewer = closed-count t g p s.shift s.hole s.ends in
      let size = IsSize-le h.capacity v.placed.sized in
      let placed = closed-Placed t g p s.shift s.hole s.ends in
      let one_less : (g.used + size_mod - 1) % size_mod ≡ h.used - 1 =
        omega (arith, fewer, s.counted, v.counted, s.used, v.room, size) in
      record {
        placed = record {
          size = placed.size;
          sized = placed.sized;
          near = placed.near;
          distinct = placed.distinct;
        };
        counted = omega (arith, one_less, fewer, s.counted, v.counted);
        room = omega (arith, one_less, s.capacity, v.room);
      }

  closed-entries :
      (h : HtHash t) (e : ℕ) (k : Key) (r : HtHash t × ℕ)
      → IsValid t h
      → occupied t h e ≡ true
      → key (cell t h e) ≡ k
      → Shifted t h e r
      → (y : Entry) → Has t (zero_entry t r) y ↔ (Has t h y × (key y ≢ k))
  unfolding zero_entry
  closed-entries h e k (g, p) v full own s y =
      let one = closed-Has t g p s.shift s.hole s.ends y in
      let two = s.others y in
      (
        λ hy.
            let (i, ne, hi, at) = two.0 (one.0 hy) in
            (
              (i, hi, at),
              λ same. ne (v.placed.distinct i e (hi, full, ap key at ∙ same ∙ sym own)),
            ),
        λ f.
            let (i, hi, at) = f.0 in
            one.1 (two.1 (i, λ same. f.1 (ap key (sym at ∙ ap (cell t h) same) ∙ own), hi, at)),
      )

  closed-capacity :
      (h : HtHash t) (e : ℕ) (r : HtHash t × ℕ)
      → Shifted t h e r
      → (zero_entry t r).capacity ≡ h.capacity
  unfolding zero_entry
  closed-capacity h e (g, p) s = s.capacity

  -- After the search.
  delete_at-Deleted :
      (h : HtHash t) (k : Key)
      → IsValid t h
      → (r : Bool × ℕ) → Found t h (hash k) k r
      → (o : HtHash t × Bool) × (delete_at t h r ≡ some o) × Deleted h k o
  unfolding delete_at
  delete_at-Deleted h k v (true, e) (Found.hit _ full same) =
      let (r, ends, s) = remove h e v full in
      (
        (zero_entry t r, true),
        rw ends refl,
        removed (zero_entry t r) (cell t h e) (e, full, refl) same (closed-IsValid h e r v s)
            (closed-capacity h e r s) (closed-entries h e k r v full same s),
      )
  delete_at-Deleted h k v (false, e) (Found.miss _ g none_yet) =
      ((h, false), refl, absent (λ f. missing t h k e g v.placed none_yet f.0 f.1 f.2))

  -- HT_DELETE ends. Where the key is in the table, its entry is gone afterwards and the others are
  -- still there, and the table is valid; where it is not, nothing changes.
  pub delete-Deleted :
      (h : HtHash t) (k : Key)
      → Ready t h
      → (o : HtHash t × Bool) × (delete t h k ≡ some o) × Deleted h k o
  unfolding delete empty
  delete-Deleted h k (inl e) =
      subst (λ g. (o : HtHash t × Bool) × (delete t g k ≡ some o) × Deleted g k o) (sym e)
        ((empty t, false), refl, absent (λ f. (let free = zeroed_lem in let here = f.1 in cc)))
  delete-Deleted h k (inr v) =
      let entries : null h.entry ≡ false =
        not_null t h.entry (omega (arith, v.placed.size, v.room)) in
      let (r, ends, f) =
        find_pos_lem t h (hash k) v.placed.sized k v.placed.size
          (omega (arith, v.counted, v.room)) in
      let (o, gone, d) = delete_at-Deleted h k v r f in (o, rw (entries, ends) gone, d)
