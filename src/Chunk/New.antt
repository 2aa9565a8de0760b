-- ===== src/Chunk/New.antt =====
-- A new chunk: vaFind and vaNewChunk.
use mathlib.Core.List.{append_assoc}
use native.Mathlib.Nat.{mul-le-mul_left, one-le-pow}
use crts.Prelude.{
  ℕ, suc, ◌+◌, ◌^◌, ◌≤◌, ◌<◌, ◌≡◌, ◌⊎◌, refl, sym, ap, subst, ◌∙◌, Bool, true, Option, none, some,
  List, [], ◌∷◌, ◌++◌, length, arith, Bool-cases, inl, inr, pick_true, pick_false,
}
use crts.Num.Size.{IsClz}
use crts.Chunk.{
  Config, page, Chunk, VirtAllocator, aligned, split_begin, split_end, give_back, carve, find_chunk,
  commit_chunk, new_chunk, find, alloc_huge,
}
use crts.Chunk.Places.{find-at}
use crts.Chunk.Listing.{itself}
use crts.Chunk.Join.{alone-at}
use crts.Chunk.Valid.{taken-split, IsPages, IsArena}
use crts.Chunk.Pages.{IsMultiple}
use crts.Chunk.Free.{insert_free-IsArena}
use crts.Chunk.Split.{parts, handle_of, split_end-IsArena}
use crts.Chunk.Begin.{split_begin-IsArena}
use crts.Chunk.Sizes.{IsSize}
use crts.Chunk.Classes.{find_size-IsArena}
use crts.Chunk.Supply.{IsSupply, need_handles-IsArena}

one_at_least : (k : ℕ) → 1 ≤ suc k
one_at_least k = omega arith

-- A chunk in use is found by its handle.
pub find_live :
    (cfg : Config) (lo hi : ℕ) (va : VirtAllocator) (objs : List ℕ) (ls : List Chunk) (c : Chunk)
    (rs : List Chunk)
    → IsArena cfg lo hi va objs (ls ++ c ∷ rs)
    → find c.handle va.addr ≡ some c
find_live cfg lo hi va objs ls c rs arena =
    let (xs, ys, place, left, right, used) = taken-split va.addr ls c rs (arena.kept) in
    let (absent, absent') = alone-at objs va.addr xs c ys (arena.own) place in
    ap (find c.handle) place ∙ find-at (c.handle) c xs ys (itself c.handle) absent

-- A part that was split off is freed.
give_back-IsArena :
    (cfg : Config) (lo hi : ℕ) (va : VirtAllocator) (objs : List ℕ) (ls : List Chunk)
    (part : Option Chunk) (rs : List Chunk)
    → IsArena cfg lo hi va objs (ls ++ (parts part ++ rs))
    → (va' : VirtAllocator) × (objs' : List ℕ) × (give_back cfg va (handle_of part) ≡ some va')
      × IsArena cfg lo hi va' objs' (ls ++ rs)
unfolding give_back
give_back-IsArena cfg lo hi va objs ls none rs arena = (va, objs, refl, arena)
give_back-IsArena cfg lo hi va objs ls (some c) rs arena =
    insert_free-IsArena cfg lo hi va objs ls c rs arena

-- What is asked of a chunk: a size in pages, an alignment that is zero or a multiple of the page,
-- and that a machine number holds them.
pub record IsRequest (cfg : Config) (lo hi size align : ℕ) : Type 0 where
  pub spec : IsClz (cfg.clz)
  pub base : IsMultiple (page cfg) lo
  pub top : hi < 2 ^ 64
  pub pages : IsPages (page cfg) size
  pub aligns : IsMultiple (page cfg) align
  pub small : size + align < 2 ^ 64

-- The new chunk is one more in use, has the size that was asked for and is aligned.
abbrev pub Gives : Config → ℕ → ℕ → List Chunk → ℕ → ℕ → Option (VirtAllocator × Option ℕ) → Type 0
Gives cfg lo hi live size align result =
    (va' : VirtAllocator) × (objs' : List ℕ) × (c : Chunk) × (ls : List Chunk) × (rs : List Chunk)
    × (result ≡ some (va', some c.handle))
    × (live ≡ ls ++ rs)
    × IsArena cfg lo hi va' objs' (ls ++ c ∷ rs)
    × (c.size ≡ size)
    × (aligned c.start align ≡ true)

-- There is no chunk, and those in use stay.
abbrev pub Fails : Config → ℕ → ℕ → List Chunk → Option (VirtAllocator × Option ℕ) → Type 0
Fails cfg lo hi live result =
    (va' : VirtAllocator) × (objs' : List ℕ) × (result ≡ some (va', none))
    × IsArena cfg lo hi va' objs' live

carve_runs :
    (cfg : Config) (va : VirtAllocator) (h size align : ℕ) (b a : VirtAllocator × Option ℕ)
    (v w : VirtAllocator)
    → split_begin va h align ≡ some b
    → split_end b.0 h size ≡ some a
    → give_back cfg a.0 b.1 ≡ some v
    → give_back cfg v a.1 ≡ some w
    → carve cfg va (some h) size align ≡ some (w, some h)
unfolding carve
carve_runs cfg va h size align b a v w e1 e2 e3 e4 = rw (e1, e2, e3, e4) refl

carve-Gives :
    (cfg : Config) (lo hi : ℕ) (va : VirtAllocator) (objs : List ℕ) (ls : List Chunk) (c : Chunk)
    (rs : List Chunk) (size align : ℕ)
    → IsRequest cfg lo hi size align
    → IsArena cfg lo hi va objs (ls ++ c ∷ rs)
    → 1 < length objs
    → size + align ≤ c.size
    → Gives cfg lo hi (ls ++ rs) size align (carve cfg va (some c.handle) size align)
carve-Gives cfg lo hi va objs ls c rs size align request arena more le =
    let pos : 0 < size = omega (
      arith,
      (request.pages).1,
      mul-le-mul_left (page cfg) (one_at_least (request.pages).0),
      one-le-pow cfg.min_shift 2 (omega arith),
    ) in
    let (va1, objs1, before, d, e1, arena1, one, same1, at1, fits) =
      split_begin-IsArena cfg lo hi va objs ls c rs size align arena more (request.base)
        (request.aligns) (omega (arith, request.top)) pos le in
    let (va2, objs2, d2, after, e2, arena2, same2, at2, exact) =
      split_end-IsArena cfg lo hi va1 objs1 (ls ++ parts before) d rs size
        (subst (λ l. IsArena cfg lo hi va1 objs1 l) (sym (append_assoc ls (parts before) (d ∷ rs)))
          arena1)
        one (request.pages) fits in
    let (va3, objs3, e3, arena3) =
      give_back-IsArena cfg lo hi va2 objs2 ls before (d2 ∷ (parts after ++ rs)) (
        subst (λ l. IsArena cfg lo hi va2 objs2 l)
          (append_assoc ls (parts before) (d2 ∷ (parts after ++ rs))) arena2) in
    let (va4, objs4, e4, arena4) = give_back-IsArena cfg lo hi va3 objs3 (ls ++ d2 ∷ []) after rs (
      subst (λ l. IsArena cfg lo hi va3 objs3 l)
        (sym (append_assoc ls (d2 ∷ []) (parts after ++ rs))) arena3) in
    let e2' : split_end va1 c.handle size ≡ some (va2, handle_of after) =
      ap (λ h. split_end va1 h size) (sym same1) ∙ e2 in
    (
      va4,
      objs4,
      d2,
      ls,
      rs,
      carve_runs cfg va c.handle size align (va1, handle_of before) (va2, handle_of after) va3 va4
            e1 e2' e3 e4
          ∙ ap (λ h. some (va4, some h)) (sym (same2 ∙ same1)),
      refl,
      subst (λ l. IsArena cfg lo hi va4 objs4 l) (append_assoc ls (d2 ∷ []) rs) arena4,
      exact,
      ap (λ x. aligned x align) at2 ∙ at1,
    )

-- vaFind: for a request, either no chunk is found, and those in use stay, or a new one is given.
pub find_chunk-IsArena :
    (cfg : Config) (lo hi : ℕ) (va : VirtAllocator) (objs : List ℕ) (live : List Chunk)
    (mem : Option ℕ) (size align : ℕ)
    → IsRequest cfg lo hi size align
    → IsArena cfg lo hi va objs live
    → IsSupply cfg va objs mem
    → Fails cfg lo hi live (find_chunk cfg mem va size align)
      ⊎ Gives cfg lo hi live size align (find_chunk cfg mem va size align)
unfolding find_chunk carve
find_chunk-IsArena cfg lo hi va objs live mem size align request arena supply =
    let (va1, objs1, b, e1, arena1, more) =
      need_handles-IsArena cfg lo hi va objs live mem arena supply in
    elim (Bool-cases b) [
      | inl e ↦
          let is_size : IsSize cfg (size + align) = (
            omega (
              arith,
              (request.pages).1,
              mul-le-mul_left (page cfg) (one_at_least (request.pages).0),
            ),
            request.small,
          ) in
          elim (find_size-IsArena cfg (request.spec) lo hi va1 objs1 live (size + align) arena1
            (request.top) is_size) [
              | inl none_found ↦ inl (va1, objs1, rw (e1, e, none_found) refl, arena1)
              | inr (va2, c, ls, rs, found, split, arena2, le) ↦
                  let (va3, objs3, d, ls', rs', carved, split', arena3, exact, at) =
                    carve-Gives cfg lo hi va2 objs1 ls c rs size align request arena2 (more e) le in
                  inr (
                    va3,
                    objs3,
                    d,
                    ls',
                    rs',
                    rw (e1, e, found) carved,
                    split ∙ split',
                    arena3,
                    exact,
                    at,
                  )
            ]
      | inr e ↦ inl (va1, objs1, rw (e1, e) refl, arena1)
    ]

commit-IsArena :
    (cfg : Config) (lo hi : ℕ) (commit : ℕ → ℕ → Bool → Bool) (va : VirtAllocator) (objs : List ℕ)
    (live ls : List Chunk) (c : Chunk) (rs : List Chunk) (size align : ℕ)
    → live ≡ ls ++ rs
    → IsArena cfg lo hi va objs (ls ++ c ∷ rs)
    → c.size ≡ size
    → aligned c.start align ≡ true
    → Fails cfg lo hi live (commit_chunk cfg commit va (some c.handle))
      ⊎ Gives cfg lo hi live size align (commit_chunk cfg commit va (some c.handle))
unfolding commit_chunk
commit-IsArena cfg lo hi commit va objs live ls c rs size align split arena exact at =
    let found = find_live cfg lo hi va objs ls c rs arena in
    elim (Bool-cases (commit c.start c.size (alloc_huge va c.size))) [
      | inl e ↦ inr (va, objs, c, ls, rs, rw found (pick_true _ _ e), split, arena, exact, at)
      | inr e ↦
          let (va', objs', freed, arena') = insert_free-IsArena cfg lo hi va objs ls c rs arena in
          inl (
            va',
            objs',
            rw found (pick_false _ _ e ∙ rw freed refl),
            subst (λ l. IsArena cfg lo hi va' objs' l) (sym split) arena',
          )
    ]

-- For a request, chiVirtCommit and new memory whatever they answer, vaNewChunk ends in a valid
-- arena: either it gives a chunk of the size and alignment, and the chunks in use are the old ones
-- and this one, or it gives none, and they are the old ones.
pub new_chunk-IsArena :
    (cfg : Config) (lo hi : ℕ) (va : VirtAllocator) (objs : List ℕ) (live : List Chunk)
    (mem : Option ℕ) (commit : ℕ → ℕ → Bool → Bool) (size align : ℕ)
    → IsRequest cfg lo hi size align
    → IsArena cfg lo hi va objs live
    → IsSupply cfg va objs mem
    → Fails cfg lo hi live (new_chunk cfg mem commit va size align)
      ⊎ Gives cfg lo hi live size align (new_chunk cfg mem commit va size align)
unfolding new_chunk commit_chunk
new_chunk-IsArena cfg lo hi va objs live mem commit size align request arena supply =
    elim (find_chunk-IsArena cfg lo hi va objs live mem size align request arena supply) [
      | inl (va', objs', e, arena') ↦ inl (va', objs', rw e refl, arena')
      | inr (va', objs', c, ls, rs, e, split, arena', exact, at) ↦
          rw e (
            commit-IsArena cfg lo hi commit va' objs' live ls c rs size align split arena' exact at)
    ]
