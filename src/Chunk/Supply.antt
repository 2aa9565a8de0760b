-- ===== src/Chunk/Supply.antt =====
-- Handles for the chunks that a split makes.
use native.Mathlib.Nat.{div-mul-le_self, le-div_iff_mul-le}
use crts.Prelude.{
  ℕ, zero, suc, ◌+◌, ◌*◌, ◌/◌, ◌≤◌, ◌<◌, ◌≡◌, refl, ap, ◌∙◌, Bool, true, false, Option, none, some,
  List, ◌++◌, length, length-append, arith, ◌==◌, ==_iff, Bool-cases, inl, inr, pick_true,
  pick_false, dec_lt,
}
use crts.Prelude.Counts.{bit, count, count-append}
use crts.Pool.{pool_avail}
use crts.Pool.Stores.{row, length-row, pool_avail-length}
use crts.Pool.Loops.{pool_grow-Stores}
use crts.Chunk.{Config, page, Chunk, VirtAllocator, reserve_handles, need_handles}
use crts.Chunk.Places.{holders}
use crts.Chunk.Valid.{IsArena}

row_below : (o s k h : ℕ) → h < s → count (λ x. x == h) (row o s k) ≡ 0
row_below o s zero h lt = refl
row_below o s (suc k) h lt =
    let no : (s == h) ≡ false = ground arith in
    omega (arith, ap bit no, row_below o (s + o) k h (omega arith))

row_above : (o s k h : ℕ) → s + k * o ≤ h → 0 < o → count (λ x. x == h) (row o s k) ≡ 0
row_above o s zero h le pos = refl
row_above o s (suc k) h le pos =
    let no : (s == h) ≡ false = ground arith in
    omega (arith, ap bit no, row_above o (s + o) k h (omega arith) pos)

row_once : (o s k h : ℕ) → 0 < o → count (λ x. x == h) (row o s k) ≤ 1
row_once o s zero h pos = omega arith
row_once o s (suc k) h pos = elim (Bool-cases (s == h)) [
  | inl e ↦ omega (arith, ap bit e, row_below o (s + o) k h (omega (arith, (==_iff s h).0 e)))
  | inr e ↦ omega (arith, ap bit e, row_once o (s + o) k h pos)
]

-- New memory for handles holds two of them, and none that there is.
abbrev pub IsSupply : Config → VirtAllocator → List ℕ → Option ℕ → Type 0
IsSupply cfg va objs none = Unit
IsSupply cfg va objs (some start) =
    (2 * va.handles.object ≤ page cfg)
    × ((h : ℕ)
        → start ≤ h
        → h < start + page cfg
        → count (λ k. k == h) objs + holders h va.addr ≡ 0)

grown-own :
    (o start pg n : ℕ) (kept objs : List ℕ) (cs : List Chunk) (h : ℕ)
    → 0 < o
    → n * o ≤ pg
    → ((h : ℕ) → start ≤ h → h < start + pg → count (λ k. k == h) objs + holders h cs ≡ 0)
    → count (λ k. k == h) kept ≡ count (λ k. k == h) objs
    → count (λ k. k == h) objs + holders h cs ≤ 1
    → count (λ k. k == h) (kept ++ row o start n) + holders h cs ≤ 1
grown-own o start pg n kept objs cs h pos fits fresh same own =
    let all = count-append (λ k. k == h) kept (row o start n) in
    elim (dec_lt h start) [
      | yes lt ↦ omega (arith, all, row_below o start n h lt)
      | no ge ↦ elim (dec_lt h (start + pg)) [
        | yes lt ↦ omega (arith, all, row_once o start n h pos, fresh h (omega arith) lt)
        | no beyond ↦ omega (arith, all, row_above o start n h (omega arith) pos)
      ]
    ]

grow-IsArena :
    (cfg : Config) (lo hi : ℕ) (va : VirtAllocator) (objs : List ℕ) (live : List Chunk) (start : ℕ)
    → IsArena cfg lo hi va objs live
    → IsSupply cfg va objs (some start)
    → (va' : VirtAllocator) × (objs' : List ℕ) × (reserve_handles cfg va (some start)
        ≡ some (va', true))
      × IsArena cfg lo hi va' objs' live
      × (1 < length objs')
unfolding reserve_handles
grow-IsArena cfg lo hi va objs live start arena (room, fresh) =
    let (p', kept, grown, same, stores) =
      pool_grow-Stores va.handles objs start (page cfg) (arena.stores) in
    let o = va.handles.object in
    let n = page cfg / o in
    let pos = (arena.stores).some_object in
    let two : 2 ≤ n = (le-div_iff_mul-le pos).1 room in
    (
      record va { handles = p' },
      kept ++ row o start n,
      rw grown refl,
      record {
        stores = stores;
        own = λ h.
            grown-own o start (page cfg) n kept objs va.addr h pos (div-mul-le_self (page cfg) o)
              fresh (same (λ k. k == h)) (arena.own h);
        tiles = arena.tiles;
        apart = arena.apart;
        kept = arena.kept;
        listed = arena.listed;
      },
      omega (arith, length-append kept (row o start n), length-row o start n),
    )

-- If the pool says that it has two handles or can be given memory for them, it has them.
pub need_handles-IsArena :
    (cfg : Config) (lo hi : ℕ) (va : VirtAllocator) (objs : List ℕ) (live : List Chunk)
    (mem : Option ℕ)
    → IsArena cfg lo hi va objs live
    → IsSupply cfg va objs mem
    → (va' : VirtAllocator) × (objs' : List ℕ) × (b : Bool) × (need_handles cfg va 2 mem
        ≡ some (va', b))
      × IsArena cfg lo hi va' objs' live
      × (b ≡ true → 1 < length objs')
unfolding need_handles reserve_handles
need_handles-IsArena cfg lo hi va objs live none arena supply =
    elim (Bool-cases (pool_avail va.handles 2)) [
      | inl e ↦ (
        va,
        objs,
        true,
        pick_true _ _ e,
        arena,
        λ _. pool_avail-length va.handles objs 2 (arena.stores) e,
      )
      | inr e ↦ (va, objs, false, pick_false _ _ e, arena, λ wrong. absurd cc)
    ]
need_handles-IsArena cfg lo hi va objs live (some start) arena supply =
    elim (Bool-cases (pool_avail va.handles 2)) [
      | inl e ↦ (
        va,
        objs,
        true,
        pick_true _ _ e,
        arena,
        λ _. pool_avail-length va.handles objs 2 (arena.stores) e,
      )
      | inr e ↦
          let (va', objs', reserved, arena', more) =
            grow-IsArena cfg lo hi va objs live start arena supply in
          (va', objs', true, pick_false _ _ e ∙ reserved, arena', λ _. more)
    ]
