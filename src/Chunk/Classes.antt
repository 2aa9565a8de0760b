-- ===== src/Chunk/Classes.antt =====
-- Finding a free chunk by its size class.
use native.Mathlib.Nat.{mul-le-mul_left}
use crts.Prelude.{
  ℕ, zero, suc, ◌+◌, ◌-◌, ◌^◌, ◌≤◌, ◌<◌, ◌≡◌, ◌⊎◌, refl, sym, ap, subst, ◌∙◌, Bool, true, false,
  not, ◌&&◌, none, some, List, [], ◌∷◌, ◌++◌, arith, ◌==◌, ==_iff, Bool-cases, List-cases,
  Option-cases, inl, inr, pick_false,
}
use crts.Prelude.Counts.{bit, count, count-append}
use crts.Num.Size.{IsClz}
use crts.Chunk.{
  Config, page, Chunk, VirtAllocator, class_smaller, class_larger, modify, list_delete, use_as,
  first_class, first_in, take_out, find_size, unlink,
}
use crts.Chunk.Places.{holders, modify-at}
use crts.Chunk.Sizes.{IsSize, class_larger_lem}
use crts.Chunk.Valid.{
  Tiles, Apart, taken, free_in, IsArena, Tiles-split, Tiles-join, apart_split, apart_used,
  taken-append,
}
use crts.Chunk.Pages.{Tiles-bound}
use crts.Chunk.Listing.{itself, unlisted}
use crts.Chunk.Join.{alone-at}

-- A list of some class holds the handle that the loop finds.
first_class-listed :
    (rounds cls : ℕ) (sizes : ℕ → List ℕ) (h : ℕ)
    → first_class rounds cls sizes ≡ some h
    → (at : ℕ) × (cls ≤ at) × (1 ≤ count (λ k. k == h) (sizes at))
unfolding first_class
first_class-listed zero cls sizes h e = absurd cc
first_class-listed (suc rounds) cls sizes h e = elim (List-cases (sizes cls)) [
  | inl none_here ↦
      let (at, le, one) =
        first_class-listed rounds (suc cls) sizes h
          (sym (ap (λ l. first_in l (first_class rounds (suc cls) sizes)) none_here) ∙ e) in
      (at, omega arith, one)
  | inr (k, ks, here) ↦
      let same : some k ≡ some h =
        sym (ap (λ l. first_in l (first_class rounds (suc cls) sizes)) here) ∙ e in
      let held : (k == h) ≡ true = (==_iff k h).1 cc in
      (
        cls,
        omega arith,
        subst (λ l. 1 ≤ count (λ x. x == h) l) (sym here) (omega (arith, ap bit held)),
      )
]

-- A chunk that is counted has a place.
counted :
    (test : Chunk → Bool) (cs : List Chunk)
    → 1 ≤ count test cs
    → (xs : List Chunk) × (c : Chunk) × (ys : List Chunk) × (cs ≡ xs ++ c ∷ ys) × (test c ≡ true)
counted test [] one = absurd (omega arith)
counted test (c ∷ cs) one = elim (Bool-cases (test c)) [
  | inl e ↦ ([], c, cs, refl, e)
  | inr e ↦
      let (xs, d, ys, place, h) = counted test cs (omega (arith, ap bit e)) in
      (c ∷ xs, d, ys, ap (λ l. c ∷ l) place, h)
]

-- A test that holds of a free chunk says what it has.
free_in-holds :
    (cfg : Config) (cls h : ℕ) (c : Chunk)
    → free_in cfg cls h c ≡ true
    → (c.used ≡ false) × (c.handle ≡ h) × (class_smaller cfg c.size ≡ cls)
free_in-holds cfg cls h c e = both (c.used) (c.handle) h (class_smaller cfg c.size) cls e
  where
    both :
        (u : Bool) (a b x y : ℕ)
        → (not u && ((a == b) && (x == y))) ≡ true
        → (u ≡ false) × (a ≡ b) × (x ≡ y)
    both true a b x y e = absurd cc
    both false a b x y e = ground (arith, ==_iff a b, ==_iff x y)

-- A free chunk is taken into use.
use-IsArena :
    (cfg : Config) (lo hi : ℕ) (va : VirtAllocator) (objs : List ℕ) (live xs : List Chunk)
    (c : Chunk) (ys : List Chunk)
    → IsArena cfg lo hi va objs live
    → va.addr ≡ xs ++ c ∷ ys
    → c.used ≡ false
    → IsArena cfg lo hi
        (record va {
          addr = modify c.handle (use_as true) va.addr;
          sizes = list_delete c.handle va.sizes;
        })
        objs
        (taken xs ++ use_as true c ∷ taken ys)
use-IsArena cfg lo hi va objs live xs c ys arena place idle =
    let (absent, absent') = alone-at objs va.addr xs c ys (arena.own) place in
    let at =
      ap (modify c.handle (use_as true)) place
      ∙ modify-at (c.handle) (use_as true) c xs ys (itself c.handle) absent absent' in
    let (m, l, r) =
      Tiles-split (page cfg) lo hi xs (c ∷ ys)
        (subst (λ k. Tiles (page cfg) lo k hi) place (arena.tiles)) in
    let (before, after) = apart_split xs (c ∷ ys) (subst Apart place (arena.apart)) in
    let own : (h : ℕ) → count (λ k. k == h) objs + holders h (xs ++ c ∷ ys) ≤ 1 =
      λ h. subst (λ k. count (λ k. k == h) objs + holders h k ≤ 1) place (arena.own h) in
    let d = use_as true c in
    record {
      stores = arena.stores;
      own = λ h.
          subst (λ k. count (λ k. k == h) objs + holders h k ≤ 1) (sym at)
            (omega (
              arith,
              own h,
              count-append (λ (b : Chunk). b.handle == h) xs (c ∷ ys),
              count-append (λ (b : Chunk). b.handle == h) xs (d ∷ ys),
            ));
      tiles =
          subst (λ k. Tiles (page cfg) lo k hi) (sym at)
            (Tiles-join (page cfg) lo m hi xs (d ∷ ys) l r);
      apart = subst Apart (sym at) (apart_used xs d ys before refl after.1);
      kept = ap taken at ∙ taken-append xs (d ∷ ys);
      listed = λ cls h.
          subst
            (λ k.
              count (λ x. x == h) (unlink c.handle (va.sizes cls)) ≡ count (free_in cfg cls h) k)
            (sym at)
            (unlisted cfg cls h (va.sizes cls) xs c ys
                (omega (arith, own h, count-append (λ (b : Chunk). b.handle == h) xs (c ∷ ys)))
                (subst (λ k. count (λ x. x == h) (va.sizes cls) ≡ count (free_in cfg cls h) k) place
                    (arena.listed cls h)
                  ∙ count-append (free_in cfg cls h) xs (c ∷ ys)
                  ∙ omega arith)
              ∙ omega (arith, count-append (free_in cfg cls h) xs (d ∷ ys)));
    }

sized :
    (cfg : Config) (lo hi : ℕ) (xs : List Chunk) (c : Chunk) (ys : List Chunk)
    → Tiles (page cfg) lo (xs ++ c ∷ ys) hi
    → hi < 2 ^ 64
    → IsSize cfg c.size
sized cfg lo hi xs c ys t top =
    let (m, l, r) = Tiles-split (page cfg) lo hi xs (c ∷ ys) t in
    let bound = Tiles-bound (page cfg) (m + c.size) hi ys r.2 in
    let some_pages = mul-le-mul_left (page cfg) (one_at_least (r.1).0) in
    (omega (arith, (r.1).1), omega arith)
  where
    one_at_least : (k : ℕ) → 1 ≤ suc k
    one_at_least k = omega arith

-- A chunk that is found was free, is now in use, and is as large as asked for.
abbrev pub Found : Config → ℕ → ℕ → VirtAllocator → List ℕ → List Chunk → ℕ → Type 0
Found cfg lo hi va objs live s =
    (va' : VirtAllocator) × (c : Chunk) × (ls : List Chunk) × (rs : List Chunk) × (find_size cfg va
        s
      ≡ (va', some c.handle))
    × (live ≡ ls ++ rs)
    × IsArena cfg lo hi va' objs (ls ++ c ∷ rs)
    × (s ≤ c.size)

pub find_size-IsArena :
    (cfg : Config) (spec : IsClz (cfg.clz)) (lo hi : ℕ) (va : VirtAllocator) (objs : List ℕ)
    (live : List Chunk) (s : ℕ)
    → IsArena cfg lo hi va objs live
    → hi < 2 ^ 64
    → IsSize cfg s
    → (find_size cfg va s ≡ (va, none)) ⊎ Found cfg lo hi va objs live s
unfolding find_size
find_size-IsArena cfg spec lo hi va objs live s arena top is_size =
    let cls = class_larger cfg s in
    let rounds = suc cfg.max_class - cls in
    elim (Option-cases (first_class rounds cls va.sizes)) [
      | inl e ↦ inl (ap (take_out va) e)
      | inr (h, e) ↦
          let (at, le, one) = first_class-listed rounds cls va.sizes h e in
          let (xs, c, ys, place, holds) =
            counted (free_in cfg at h) va.addr (omega (arith, arena.listed at h)) in
          let (idle, same, class) = free_in-holds cfg at h c holds in
          let big =
            sized cfg lo hi xs c ys (subst (λ k. Tiles (page cfg) lo k hi) place (arena.tiles))
              top in
          inr (
            record va {
              addr = modify c.handle (use_as true) va.addr;
              sizes = list_delete c.handle va.sizes;
            },
            use_as true c,
            taken xs,
            taken ys,
            ap (take_out va) (e ∙ ap some (sym same)),
            sym (arena.kept)
                ∙ ap taken place
                ∙ taken-append xs (c ∷ ys)
                ∙ ap (λ l. taken xs ++ l) (pick_false _ _ idle),
            use-IsArena cfg lo hi va objs live xs c ys arena place idle,
            class_larger_lem cfg spec s c.size is_size big (omega (arith, class)),
          )
    ]
