-- ===== src/Chunk/Unmap/Once.antt =====
-- uaNewChunk ends after one try, with a chunk that is reused, a new chunk, or none.
use mathlib.Core.List.{append_assoc}
use crts.Prelude.{
  ℕ, suc, ◌≡◌, ◌⊎◌, refl, sym, ap, subst, ◌∙◌, Bool, true, false, ◌&&◌, Option, none, some, List,
  [], ◌∷◌, ◌++◌, ◌==◌, ==_iff, Bool-cases, inl, inr, pick_true, pick_false,
}
use crts.Chunk.Valid.{IsArena}
use crts.Chunk.Supply.{IsSupply}
use crts.Chunk.New.{IsRequest, find_live, new_chunk-IsArena}
use crts.Chunk.{Config, Chunk, VirtAllocator, find, unlink, aligned}
use crts.Chunk.Unmap.{UnmapAllocator, first_fit, reuse, or_new, try_new_chunk, unmap_new_chunk}
use crts.Chunk.Unmap.Emergency.{Frees, free_emergency-IsArena, one_try}

-- The chunks are found by their handles.
abbrev Found : List Chunk → List Chunk → Type 0
Found addr [] = Unit
Found addr (c ∷ cs) = (find c.handle addr ≡ some c) × Found addr cs

by_handle :
    (cfg : Config) (lo hi : ℕ) (va : VirtAllocator) (objs : List ℕ) (ls rs : List Chunk)
    → IsArena cfg lo hi va objs (ls ++ rs)
    → Found va.addr rs
by_handle cfg lo hi va objs ls [] arena = tt
by_handle cfg lo hi va objs ls (c ∷ rs) arena = (
  find_live cfg lo hi va objs ls c rs arena,
  by_handle cfg lo hi va objs (ls ++ c ∷ []) rs
      (subst (λ l. IsArena cfg lo hi va objs l) (sym (append_assoc ls (c ∷ []) rs)) arena),
)

one_by_handle :
    (addr ls : List Chunk) (c : Chunk) (rs : List Chunk)
    → Found addr (ls ++ c ∷ rs)
    → (find c.handle addr ≡ some c) × Found addr (ls ++ rs)
one_by_handle addr [] c rs found = found
one_by_handle addr (l ∷ ls) c rs found =
    let (here, more) = one_by_handle addr ls c rs found.1 in (here, (found.0, more))

-- A chunk of the size and alignment.
abbrev fitting : ℕ → ℕ → Chunk → Bool
fitting size align c = (c.size == size) && aligned c.start align

-- A chunk of the list, which is then without it.
record Reused (addr : List Chunk) (list : List ℕ) (size align h : ℕ) : Type 0 where
  before : List ℕ
  beyond : List ℕ
  chunk : Chunk
  place : list ≡ before ++ h ∷ beyond
  removed : unlink h list ≡ before ++ beyond
  found : find h addr ≡ some chunk
  fits : fitting size align chunk ≡ true

first_fit-Reused :
    (addr : List Chunk) (size align : ℕ) (live left : List Chunk) (hs : List ℕ)
    → Found addr live
    → Frees live hs left
    → (first_fit hs addr size align ≡ some none)
      ⊎ ((h : ℕ) × (first_fit hs addr size align ≡ some (some h)) × Reused addr hs size align h)
unfolding first_fit unlink
first_fit-Reused addr size align live left [] found frees = inl refl
first_fit-Reused addr size align live left (k ∷ hs) found (ls, c, rs, split, same, frees) =
    let (here, rest) = one_by_handle addr ls c rs (subst (Found addr) split found) in
    let at : find k addr ≡ some c = ap (λ j. find j addr) (sym same) ∙ here in
    let itself : (k == k) ≡ true = (==_iff k k).1 refl in
    elim (Bool-cases (fitting size align c)) [
      | inl e ↦ inr (
        k,
        rw at (pick_true _ _ e),
        record {
          before = [];
          beyond = hs;
          chunk = c;
          place = refl;
          removed = pick_true _ _ itself;
          found = at;
          fits = e;
        },
      )
      | inr e ↦ elim (first_fit-Reused addr size align (ls ++ rs) left hs rest frees) [
        | inl misses ↦ inl (rw at (pick_false _ _ e ∙ misses))
        | inr (h, hit, r) ↦
            let other : (k == h) ≡ false = elim (Bool-cases (k == h)) [
              | inl eq ↦ absurd (
                  let hk : k ≡ h = (==_iff k h).0 eq in
                  let both : some c ≡ some r.chunk = sym at ∙ ap (λ j. find j addr) hk ∙ r.found in
                  let one : c ≡ r.chunk = cc in
                  let wrong : fitting size align c ≡ true = ap (fitting size align) one ∙ r.fits in
                  cc)
              | inr ne ↦ ne
            ] in
            inr (
              h,
              rw at (pick_false _ _ e ∙ hit),
              record {
                before = k ∷ r.before;
                beyond = r.beyond;
                chunk = r.chunk;
                place = ap (◌∷◌ k) r.place;
                removed = pick_false _ _ other ∙ ap (◌∷◌ k) r.removed;
                found = r.found;
                fits = r.fits;
              },
            )
      ]
    ]

-- How a request ends: a chunk that waits in the list is given and leaves it; or a new chunk is
-- given; or none, and the chunks of the list are free.
pub data Ends (cfg : Config) (lo hi : ℕ) (ua : UnmapAllocator) (live left : List Chunk)
    (size align : ℕ) : Option (UnmapAllocator × Option ℕ) → Type 0 where
  reused :
      (before : List ℕ) (h : ℕ) (beyond : List ℕ) (c : Chunk)
      → ua.list ≡ before ++ h ∷ beyond
      → find h ua.va.addr ≡ some c
      → fitting size align c ≡ true
      → Ends cfg lo hi ua live left size align
          (some (record ua { list = before ++ beyond }, some h))
  created :
      (va' : VirtAllocator) (objs' : List ℕ) (ls : List Chunk) (c : Chunk) (rs : List Chunk)
      → live ≡ ls ++ rs
      → IsArena cfg lo hi va' objs' (ls ++ c ∷ rs)
      → fitting size align c ≡ true
      → Ends cfg lo hi ua live left size align (some (record ua { va = va' }, some c.handle))
  emptied :
      (va' : VirtAllocator) (objs' : List ℕ)
      → IsArena cfg lo hi va' objs' left
      → Ends cfg lo hi ua live left size align (some (record ua { va = va'; list = [] }, none))

module _ (cfg : Config) (lo hi : ℕ) (commit : ℕ → ℕ → Bool → Bool) (ua : UnmapAllocator)
    (objs : List ℕ) (live left : List Chunk) (size align : ℕ)
    (request : IsRequest cfg lo hi size align) (arena : IsArena cfg lo hi ua.va objs live)
    (frees : Frees live ua.list left) where
  -- One try.
  abbrev Tried : Option (UnmapAllocator × Option ℕ × Bool) → Type 0
  Tried result =
      (t : UnmapAllocator × Option ℕ × Bool) × (result ≡ some t)
      × Ends cfg lo hi ua live left size align (some (t.0, t.1))

  or_new-Tried :
      (mem : Option ℕ)
      → IsSupply cfg ua.va objs mem
      → Tried (or_new cfg mem commit ua none size align)
  or_new-Tried mem supply =
      elim (new_chunk-IsArena cfg lo hi ua.va objs live mem commit size align request arena
        supply) [
          | inl (va1, objs1, failed, arena1) ↦
              let (va2, objs2, freed, arena2) =
                free_emergency-IsArena cfg lo hi (record ua { va = va1 }) objs1 live left arena1
                  frees in
              (
                (record ua { va = va2; list = [] }, none, false),
                rw (failed, freed) refl,
                emptied va2 objs2 arena2,
              )
          | inr (va1, objs1, c, ls, rs, given, split, arena1, exact, at) ↦
              let sized : (c.size == size) ≡ true = (==_iff c.size size).1 exact in
              (
                (record ua { va = va1 }, some c.handle, false),
                rw given refl,
                created va1 objs1 ls c rs split arena1 (rw (sized, at) refl),
              )
        ]

  try-Tried :
      (mem : Option ℕ)
      → IsSupply cfg ua.va objs mem
      → Tried (try_new_chunk cfg mem commit ua size align)
  unfolding try_new_chunk reuse
  try-Tried mem supply =
      let found = by_handle cfg lo hi ua.va objs [] live arena in
      elim (first_fit-Reused ua.va.addr size align live left ua.list found frees) [
        | inl misses ↦ rw misses (or_new-Tried mem supply)
        | inr (h, hit, r) ↦
            let removed = r.removed in
            (
              (record ua { list = r.before ++ r.beyond }, some h, false),
              rw (hit, removed) refl,
              reused r.before h r.beyond r.chunk r.place r.found r.fits,
            )
      ]

  -- For a request to a valid arena whose chunks in the list are in use, chiVirtCommit and new
  -- memory whatever they answer, uaNewChunk ends in its first round. Either it gives a chunk of
  -- the size and alignment, one of the list, which leaves it, or a new one in a valid arena; or it
  -- gives none, although it has freed all chunks of the list, in a valid arena.
  pub unmap_new_chunk-Ends :
      (fuel : ℕ) (mem : ℕ → Option ℕ)
      → IsSupply cfg ua.va objs (mem fuel)
      → Ends cfg lo hi ua live left size align
          (unmap_new_chunk (suc fuel) cfg mem commit ua size align)
  unmap_new_chunk-Ends fuel mem supply =
      let (t, tried, ends) = try-Tried (mem fuel) supply in
      subst (Ends cfg lo hi ua live left size align)
        (sym (one_try fuel cfg mem commit ua size align ∙ rw tried refl)) ends
