-- ===== src/Hashes/Create.antt =====
-- HT_INSERT and HT_CREATE, with the growth of the table.
use native.Mathlib.Nat.{mod-eq_of_lt, mod-le}
use crts.Prelude.{
  ℕ, ◌+◌, ◌*◌, ◌≤◌, ◌<◌, ◌≡◌, ◌≢◌, ◌↔◌, refl, sym, ap, ◌∙◌, ◌⊎◌, inl, inr, Bool, true, false,
  Option, none, some, arith, subst, Bool-cases, if◌then◌else◌,
}
use crts.Prelude.Counts.{count}
use crts.Hashes.{
  EntryType, HtHash, cell, store, insert, find_pos, find, create, grow, is_full, used_more,
  size_mod, empty, null,
}
use crts.Hashes.Cyclic.{IsSize-le}
use crts.Hashes.Valid.{occupied, Absent, Placed, IsValid, Has}
use crts.Hashes.Probe.{Gap, Found, insert_pos_lem, find_pos_lem}
use crts.Hashes.Insert.{store-Placed, store-count, store-Has}
use crts.Hashes.Find.{missing, not_null, Search, nowhere, find_lem}
use crts.Hashes.Grow.{Grown, grow-Grown, grow-empty}

module _ (t : EntryType) where
  open t use {Entry, Key, zeroed, exists, key, hash, zeroed_lem}

  -- A table as HT_INIT and the operations leave it.
  abbrev pub Ready : HtHash t → Type 0
  Ready h = (h ≡ empty t) ⊎ IsValid t h

  -- Only a full table grows, and not to more than twice its size, or a first one.
  abbrev pub Widens : HtHash t → HtHash t → Type 0
  Widens h g =
      (g.capacity ≡ h.capacity) ⊎ ((is_full t h ≡ true) × (g.capacity ≤ 2 * h.capacity + 256))

  -- A table with the entries of another, and room for two more.
  record Roomy (h l : HtHash t) : Type 0 where
    same : l.used ≡ h.used
    placed : Placed t l
    counted : count exists l.entry ≡ h.used
    roomy : h.used + 1 < l.capacity
    widens : Widens h l
    held : (y : Entry) → Has t l y ↔ Has t h y

  -- What HT_CREATE returns for the key of an entry: the entry of the table that has the key; or,
  -- where there is none, a place such that the table is valid once the caller has written the entry
  -- there, counts it, and holds its old entries and the new one.
  pub data Created (h : HtHash t) (x : Entry) : HtHash t × ℕ × Bool → Type 0 where
    present : (e : ℕ) → occupied t h e ≡ true → key (cell t h e) ≡ key x → Created h x (h, e, false)
    made :
        (g : HtHash t) (e : ℕ)
        → Absent t h (key x)
        → IsValid t (store t g e x)
        → g.used ≡ h.used + 1
        → Widens h g
        → ((y : Entry) → Has t (store t g e x) y ↔ (Has t h y ⊎ (x ≡ y)))
        → Created h x (g, e, true)

  more-Placed : (l : HtHash t) → Placed t l → Placed t (used_more t l)
  more-Placed l p = record { size = p.size; sized = p.sized; near = p.near; distinct = p.distinct }

  more-Gap : (l : HtHash t) (i e : ℕ) → Gap t l i e → Gap t (used_more t l) i e
  more-Gap l i e g = record {
    steps = g.steps;
    short = g.short;
    stands = g.stands;
    free = g.free;
    before = g.before;
  }

  -- A place of a table with room is right for an entry whose key the table does not have.
  made-Created :
      (h l : HtHash t) (x : Entry) (e : ℕ)
      → exists x ≡ true
      → Roomy h l
      → Absent t h (key x)
      → Gap t (used_more t l) (hash (key x)) e
      → Created h x (used_more t l, e, true)
  made-Created h l x e full r absent g =
      let p = more-Placed l r.placed in
      let new_key : (s : ℕ) → occupied t l s ≡ true → key (cell t l s) ≢ key x = λ s hs same.
        let (u, hu, v) = (r.held (cell t l s)).0 (s, hs, refl) in absent (u, hu, ap key v ∙ same) in
      let had = store-Has t (used_more t l) e x p full g new_key in
      let size = IsSize-le l.capacity r.placed.sized in
      let wrap = mod-eq_of_lt {n = l.used + 1} {m = size_mod} in
      made (used_more t l) e absent
        (record {
          placed = store-Placed t (used_more t l) e x p full g new_key;
          counted = omega (
            arith,
            store-count t (used_more t l) e x p full g new_key,
            r.counted,
            r.same,
            r.roomy,
            wrap,
          );
          room = omega (arith, r.roomy, r.same, wrap);
        })
        (omega (arith, r.roomy, r.same, wrap)) r.widens
        (λ y. (λ hy. left y ((had y).0 hy), λ hy. (had y).1 (right y hy)))
    where
      left : {X : Type 0} → (y : Entry) → Has t l y ⊎ X → Has t h y ⊎ X
      left y (inl old) = inl ((r.held y).0 old)
      left y (inr new) = inr new

      right : {X : Type 0} → (y : Entry) → Has t h y ⊎ X → Has t l y ⊎ X
      right y (inl old) = inl ((r.held y).1 old)
      right y (inr new) = inr new

  -- A table that grows keeps its entries and has room.
  Grown-Roomy :
      (h g : HtHash t)
      → is_full t h ≡ true
      → count exists h.entry ≡ h.used
      → Grown t h g
      → Roomy h g
  Grown-Roomy h g full n r = record {
    same = r.same;
    placed = r.placed;
    counted = r.counted ∙ n;
    roomy = r.roomy;
    widens = inr (full, r.wide);
    held = r.held;
  }

  -- HT_INSERT, where the table is large enough or has grown to be so.
  insert_into :
      (h g l : HtHash t) (i : ℕ)
      → (if is_full t h then grow t h else some h) ≡ some l
      → Roomy g l
      → (e : ℕ) × (insert t h i ≡ some (used_more t l, e)) × Gap t (used_more t l) i e
  unfolding insert
  insert_into h g l i chosen r =
      let (e, ends, gap) =
        insert_pos_lem t (used_more t l) i r.placed.sized r.placed.size
          (omega (arith, r.counted, r.roomy)) in
      (e, rw (chosen, ends) refl, gap)

  empty_full : is_full t (empty t) ≡ true
  unfolding is_full empty
  empty_full = refl

  -- A table that is not full has a place for the new entry and one that stays free.
  self-Roomy : (h : HtHash t) → IsValid t h → is_full t h ≡ false → Roomy h h
  unfolding is_full
  self-Roomy h v space = record {
    same = refl;
    placed = v.placed;
    counted = sym v.counted;
    widens = inl refl;
    roomy = ground (arith, mod-le (80 * h.capacity) size_mod, v.room);
    held = λ y. (λ hy. hy, λ hy. hy);
  }

  choose :
      (h : HtHash t)
      → IsValid t h
      → 2 * h.capacity < size_mod
      → (l : HtHash t) × ((if is_full t h then grow t h else some h) ≡ some l) × Roomy h l
  choose h v fits = elim (Bool-cases (is_full t h)) [
    | inl full ↦
        let (g, ends, r) = grow-Grown t h v fits in
        (g, rw (full, ends) refl, Grown-Roomy h g full (sym v.counted) r)
    | inr space ↦ (h, rw space refl, self-Roomy h v space)
  ]

  choose_empty :
      (l : HtHash t) × ((if is_full t (empty t) then grow t (empty t) else some (empty t)) ≡ some l)
      × Roomy (empty t) l
  unfolding empty
  choose_empty =
      let (g, ends, r) = grow-empty t in
      (g, rw (empty_full, ends) refl, Grown-Roomy (empty t) g empty_full refl r)

  -- HT_FIND of a table that may still be empty.
  pub find-Ready :
      (h : HtHash t) (k : Key) → Ready h → (r : Option ℕ) × (find t h k ≡ some r) × Search t h k r
  unfolding find empty
  find-Ready h k (inl e) =
      subst (λ g. (r : Option ℕ) × (find t g k ≡ some r) × Search t g k r) (sym e)
        (none, refl, nowhere (λ f. (let free = zeroed_lem in let full = f.1 in cc)))
  find-Ready h k (inr v) = find_lem t h k v

  -- After a search that has found no entry.
  create_at :
      (h : HtHash t) (x : Entry)
      → exists x ≡ true
      → IsValid t h
      → 2 * h.capacity < size_mod
      → (r : Bool × ℕ) → find_pos t h (key x) (hash (key x)) ≡ some r
      → Found t h (hash (key x)) (key x) r
      → (o : HtHash t × ℕ × Bool) × (create t h (key x) ≡ some o) × Created h x o
  unfolding create
  create_at h x full v fits (true, e) ends (Found.hit _ here same) =
      let entries : null h.entry ≡ false =
        not_null t h.entry (omega (arith, v.placed.size, v.room)) in
      ((h, e, false), rw (entries, ends) refl, present e here same)
  create_at h x full v fits (false, e) ends (Found.miss _ g none_yet) =
      let entries : null h.entry ≡ false =
        not_null t h.entry (omega (arith, v.placed.size, v.room)) in
      let absent : Absent t h (key x) =
        λ f. missing t h (key x) e g v.placed none_yet f.0 f.1 f.2 in
      elim (Bool-cases (is_full t h)) [
        | inr space ↦ (
          (used_more t h, e, true),
          rw (entries, ends, space) refl,
          made-Created h h x e full (self-Roomy h v space) absent (more-Gap h _ e g),
        )
        | inl crowded ↦
            let (l, chosen, r) = choose h v fits in
            let (e', inserted, gap) = insert_into h h l (hash (key x)) chosen r in
            (
              (used_more t l, e', true),
              rw (entries, ends, crowded, inserted) refl,
              made-Created h l x e' full r absent gap,
            )
      ]

  create-empty :
      (x : Entry)
      → exists x ≡ true
      → (o : HtHash t × ℕ × Bool) × (create t (empty t) (key x) ≡ some o) × Created (empty t) x o
  unfolding create empty
  create-empty x full =
      let (l, chosen, r) = choose_empty in
      let (e, inserted, gap) = insert_into (empty t) (empty t) l (hash (key x)) chosen r in
      (
        (used_more t l, e, true),
        rw inserted refl,
        made-Created (empty t) l x e full r (λ f. (let free = zeroed_lem in let here = f.1 in cc))
            gap,
      )

  -- If a doubled size fits in a size_t, then HT_CREATE ends for the key of an entry that exists: it
  -- returns the entry that has the key, or a place for the entry. Once the caller has written the
  -- entry there, the table is valid, counts the entry, and holds its old entries and the new one.
  pub create-Created :
      (h : HtHash t) (x : Entry)
      → exists x ≡ true
      → Ready h
      → 2 * h.capacity < size_mod
      → (o : HtHash t × ℕ × Bool) × (create t h (key x) ≡ some o) × Created h x o
  create-Created h x full (inl e) fits =
      subst (λ g. (o : HtHash t × ℕ × Bool) × (create t g (key x) ≡ some o) × Created g x o) (sym e)
        (create-empty x full)
  create-Created h x full (inr v) fits =
      let (r, ends, f) =
        find_pos_lem t h (hash (key x)) v.placed.sized (key x) v.placed.size
          (omega (arith, v.counted, v.room)) in
      create_at h x full v fits r ends f
