-- ===== src/Chunk/Steps.antt =====
-- The states that the allocator reaches.
use crts.Prelude.{
  ℕ, ◌+◌, ◌≤◌, ◌<◌, ◌≡◌, refl, sym, ap, subst, ◌∙◌, Bool, false, Option, some, List, [], ◌∷◌, ◌++◌,
  arith, inl, inr,
}
use crts.Pool.{pool_init}
use crts.Pool.Stores.{Stores}
use crts.Chunk.{Config, page, Chunk, VirtAllocator, new_chunk, free_chunk, setup_arena}
use crts.Chunk.Valid.{taken-split, IsPages, Tiles, taken, IsArena, Tiles-split}
use crts.Chunk.Pages.{Tiles-bound}
use crts.Chunk.Free.{insert_free-IsArena}
use crts.Chunk.Listing.{listed_with}
use crts.Chunk.Supply.{IsSupply}
use crts.Chunk.New.{IsRequest, new_chunk-IsArena}

-- At the start the arena is one free chunk.
pub setup_arena-IsArena :
    (cfg : Config) (object arena start size : ℕ) (small_pages : Bool)
    → 0 < object
    → IsPages (page cfg) size
    → IsArena cfg start (start + size) (setup_arena cfg object arena start size small_pages) [] []
unfolding setup_arena pool_init
setup_arena-IsArena cfg object arena start size small_pages pos pages = record {
  stores = record {
    fresh = 0;
    some_object = pos;
    room = omega arith;
    no_more = omega arith;
    objects = refl;
  };
  own = λ h. ground arith;
  tiles = (refl, pages, refl);
  apart = (inr tt, tt);
  kept = refl;
  listed = λ cls h.
      listed_with cfg cls h (record { handle = arena; start = start; size = size; used = false }) []
        refl
      ∙ omega arith;
}

-- A call: a new chunk, with what the system answers, or one in use is freed.
pub data Step (cfg : Config) (lo hi : ℕ) : VirtAllocator → VirtAllocator → Type 0 where
  allocate :
      (va va' : VirtAllocator) (mem : Option ℕ) (commit : ℕ → ℕ → Bool → Bool) (size align : ℕ)
      (chunk : Option ℕ)
      → IsRequest cfg lo hi size align
      → ((objs : List ℕ) → Stores va.handles objs → IsSupply cfg va objs mem)
      → new_chunk cfg mem commit va size align ≡ some (va', chunk)
      → Step cfg lo hi va va'
  free :
      (va va' : VirtAllocator) (ls : List Chunk) (c : Chunk) (rs : List Chunk)
      → taken va.addr ≡ ls ++ c ∷ rs
      → free_chunk cfg va c.handle ≡ some va'
      → Step cfg lo hi va va'

pub data Reaches (cfg : Config) (lo hi : ℕ) (first : VirtAllocator) : VirtAllocator → Type 0 where
  initial : Reaches cfg lo hi first first
  step :
      (va va' : VirtAllocator)
      → Reaches cfg lo hi first va
      → Step cfg lo hi va va'
      → Reaches cfg lo hi first va'

abbrev Valid : Config → ℕ → ℕ → VirtAllocator → Type 0
Valid cfg lo hi va = (objs : List ℕ) × (live : List Chunk) × IsArena cfg lo hi va objs live

result_of : {A : Type 0} {a b : A} {m : Option A} → m ≡ some a → m ≡ some b → a ≡ b
result_of e f = cc

Step-Valid :
    (cfg : Config) (lo hi : ℕ) (va va' : VirtAllocator)
    → Step cfg lo hi va va'
    → Valid cfg lo hi va
    → Valid cfg lo hi va'
Step-Valid cfg lo hi va va' (allocate _ _ mem commit size align chunk request supply e)
      (objs, live, arena) =
    elim (new_chunk-IsArena cfg lo hi va objs live mem commit size align request arena
      (supply objs (arena.stores))) [
        | inl (va1, objs1, e1, arena1) ↦ (
          objs1,
          live,
          subst (λ v. IsArena cfg lo hi v objs1 live)
              (ap (λ (r : VirtAllocator × Option ℕ). r.0) (result_of e1 e)) arena1,
        )
        | inr (va1, objs1, c, ls, rs, e1, split, arena1, exact, at) ↦ (
          objs1,
          ls ++ c ∷ rs,
          subst (λ v. IsArena cfg lo hi v objs1 (ls ++ c ∷ rs))
              (ap (λ (r : VirtAllocator × Option ℕ). r.0) (result_of e1 e)) arena1,
        )
      ]
Step-Valid cfg lo hi va va' (free _ _ ls c rs e freed) (objs, live, arena) =
    let (va1, objs1, e1, arena1) =
      insert_free-IsArena cfg lo hi va objs ls c rs
        (subst (λ l. IsArena cfg lo hi va objs l) (sym (arena.kept) ∙ e) arena) in
    (objs1, ls ++ rs, subst (λ v. IsArena cfg lo hi v objs1 (ls ++ rs)) (result_of e1 freed) arena1)

Reaches-Valid :
    (cfg : Config) (lo hi : ℕ) (first va : VirtAllocator)
    → Valid cfg lo hi first
    → Reaches cfg lo hi first va
    → Valid cfg lo hi va
Reaches-Valid cfg lo hi first _ valid initial = valid
Reaches-Valid cfg lo hi first va valid (step v _ r s) =
    Step-Valid cfg lo hi v va s (Reaches-Valid cfg lo hi first v valid r)

-- A chunk in use lies in the arena.
inside :
    (pg lo hi : ℕ) (cs ls : List Chunk) (c : Chunk) (rs : List Chunk)
    → Tiles pg lo cs hi
    → taken cs ≡ ls ++ c ∷ rs
    → (lo ≤ c.start) × (c.start + c.size ≤ hi)
inside pg lo hi cs ls c rs t e =
    let (xs, ys, place, left, right, used) = taken-split cs ls c rs e in
    let (m, l, r) = Tiles-split pg lo hi xs (c ∷ ys) (subst (λ k. Tiles pg lo k hi) place t) in
    (
      omega (arith, Tiles-bound pg lo m xs l, r.0),
      omega (arith, r.0, Tiles-bound pg (m + c.size) hi ys r.2),
    )

-- From an arena of whole pages, whatever calls are made and whatever the system answers to them:
-- of two chunks in use one ends before the other starts, and both lie in the arena.
pub in_use-disjoint :
    (cfg : Config) (object arena start size : ℕ) (small_pages : Bool) (va : VirtAllocator)
    (ls : List Chunk) (c : Chunk) (ms : List Chunk) (d : Chunk) (rs : List Chunk)
    → 0 < object
    → IsPages (page cfg) size
    → Reaches cfg start (start + size) (setup_arena cfg object arena start size small_pages) va
    → taken va.addr ≡ ls ++ c ∷ (ms ++ d ∷ rs)
    → (start ≤ c.start) × (c.start + c.size ≤ d.start) × (d.start + d.size ≤ start + size)
in_use-disjoint cfg object arena start size small_pages va ls c ms d rs pos pages reaches e =
    let first : Valid cfg start (start + size)
        (setup_arena cfg object arena start size small_pages) =
      ([], [], setup_arena-IsArena cfg object arena start size small_pages pos pages) in
    let (objs, live, valid) = Reaches-Valid cfg start (start + size) _ va first reaches in
    let (low, _) =
      inside (page cfg) start (start + size) va.addr ls c (ms ++ d ∷ rs) (valid.tiles) e in
    let (xs, ys, place, left, right, used) = taken-split va.addr ls c (ms ++ d ∷ rs) e in
    let (m, l, r) =
      Tiles-split (page cfg) start (start + size) xs (c ∷ ys)
        (subst (λ k. Tiles (page cfg) start k (start + size)) place (valid.tiles)) in
    let (after, high) = inside (page cfg) (m + c.size) (start + size) ys ms d rs r.2 right in
    (low, omega (arith, after, r.0), high)
