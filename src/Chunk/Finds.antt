-- ===== src/Chunk/Finds.antt =====
-- Where a free chunk is large enough, one is found.
use crts.Prelude.{
  ℕ, zero, suc, ◌+◌, ◌-◌, ◌≤◌, ◌<◌, ◌≡◌, ◌≢◌, sym, ap, ◌∙◌, true, false, not, ◌&&◌, some, List, [],
  ◌∷◌, ◌++◌, arith, ◌==◌, List-cases, inl, inr,
}
use crts.Prelude.Counts.{bit, count, count-append}
use crts.Chunk.{
  Config, Chunk, VirtAllocator, class_smaller, class_larger, first_in, first_class, take_out,
  find_size,
}
use crts.Chunk.Valid.{free_in, IsArena}
use crts.Chunk.Listing.{itself}

first_class-finds :
    (rounds cls : ℕ) (sizes : ℕ → List ℕ) (at k : ℕ) (ks : List ℕ)
    → sizes at ≡ k ∷ ks
    → cls ≤ at
    → at < cls + rounds
    → (h : ℕ) × (first_class rounds cls sizes ≡ some h)
unfolding first_class
first_class-finds zero cls sizes at k ks e low high = absurd (omega arith)
first_class-finds (suc rounds) cls sizes at k ks e low high = elim (List-cases (sizes cls)) [
  | inr (h, hs, here) ↦ (h, ap (λ l. first_in l (first_class rounds (suc cls) sizes)) here)
  | inl empty ↦
      let other : cls ≢ at =
        λ same. (let wrong : [] ≡ k ∷ ks = sym empty ∙ ap sizes same ∙ e in cc) in
      let (h, found) =
        first_class-finds rounds (suc cls) sizes at k ks e (omega arith) (omega arith) in
      (h, ap (λ l. first_in l (first_class rounds (suc cls) sizes)) empty ∙ found)
]

free_in-itself :
    (cfg : Config) (c : Chunk)
    → c.used ≡ false
    → free_in cfg (class_smaller cfg c.size) c.handle c ≡ true
free_in-itself cfg c idle =
    let cls = class_smaller cfg c.size in
    ap (λ u. not u && ((c.handle == c.handle) && (cls == cls))) idle
    ∙ ap (λ b. b && (cls == cls)) (itself c.handle)
    ∙ itself cls

-- If a free chunk has a class from the one that a size asks for up to the last, vaFindSize finds
-- a chunk.
pub find_size-finds :
    (cfg : Config) (lo hi : ℕ) (va : VirtAllocator) (objs : List ℕ) (live : List Chunk) (size : ℕ)
    (xs : List Chunk) (c : Chunk) (ys : List Chunk)
    → IsArena cfg lo hi va objs live
    → va.addr ≡ xs ++ c ∷ ys
    → c.used ≡ false
    → class_larger cfg size ≤ class_smaller cfg c.size
    → class_smaller cfg c.size ≤ cfg.max_class
    → (va' : VirtAllocator) × (h : ℕ) × (find_size cfg va size ≡ (va', some h))
unfolding find_size
find_size-finds cfg lo hi va objs live size xs c ys arena place idle low high =
    let at = class_smaller cfg c.size in
    let one : 1 ≤ count (λ k. k == c.handle) (va.sizes at) = omega (
      arith,
      arena.listed at c.handle,
      ap (count (free_in cfg at c.handle)) place,
      count-append (free_in cfg at c.handle) xs (c ∷ ys),
      ap bit (free_in-itself cfg c idle),
    ) in
    elim (List-cases (va.sizes at)) [
      | inl empty ↦ absurd (omega (arith, ap (count (λ k. k == c.handle)) empty))
      | inr (k, ks, here) ↦
          let cls = class_larger cfg size in
          let (h, found) =
            first_class-finds (suc cfg.max_class - cls) cls va.sizes at k ks here low
              (omega arith) in
          let r = take_out va (some h) in (r.0, h, ap (take_out va) found)
    ]
