-- ===== src/Chunk/Split.antt =====
-- Splitting a chunk in use: the parts are in use, and the arena stays valid.
use crts.Prelude.{
  ℕ, suc, ◌+◌, ◌-◌, ◌≤◌, ◌<◌, ◌≡◌, ◌≢◌, refl, sym, ap, subst, ◌∙◌, true, false, Option, none, some,
  List, [], ◌∷◌, ◌++◌, length, arith, ◌==◌, ==_iff, Bool-cases, inl, inr, pick_true, pick_false,
}
use crts.Prelude.Counts.{bit, count, count-append}
use crts.Pool.{Pool, pool_get}
use crts.Pool.Stores.{Stores, pool_try_get-Stores}
use crts.Chunk.{
  Config, page, Chunk, VirtAllocator, find, modify, insert_after, shrink_by, split_end,
}
use crts.Chunk.Places.{holders, find-at, modify-at, insert_after-at}
use crts.Chunk.Valid.{
  taken-split, IsPages, Tiles, Apart, taken, free_in, IsArena, Tiles-split, Tiles-join, apart_split,
  taken-append, free_in-used, apart_used,
}
use crts.Chunk.Listing.{itself}
use crts.Chunk.Join.{alone-at}
use crts.Chunk.Pages.{IsPages-sub}

-- A chunk in use is replaced by two in use that take its place and have the handles of it and of
-- the pool.
pub replace-IsArena :
    (cfg : Config) (lo hi : ℕ) (va : VirtAllocator) (objs objs' : List ℕ) (handles : Pool)
    (ls xs : List Chunk) (c d e : Chunk) (ys rs : List Chunk)
    → IsArena cfg lo hi va objs (ls ++ c ∷ rs)
    → va.addr ≡ xs ++ c ∷ ys
    → taken xs ≡ ls
    → taken ys ≡ rs
    → Stores handles objs'
    → ((h : ℕ)
        → count (λ k. k == h) objs' + holders h (d ∷ e ∷ [])
          ≡ count (λ k. k == h) objs + holders h (c ∷ []))
    → ((m : ℕ) → Tiles (page cfg) m (c ∷ ys) hi → Tiles (page cfg) m (d ∷ e ∷ ys) hi)
    → c.used ≡ true
    → d.used ≡ true
    → e.used ≡ true
    → IsArena cfg lo hi
        (record va { addr = xs ++ d ∷ e ∷ ys; handles = handles })
        objs'
        (ls ++ d ∷ e ∷ rs)
replace-IsArena cfg lo hi va objs objs' handles ls xs c d e ys rs arena place left right stores same
      tile uc ud ue =
    let (m, l, r) =
      Tiles-split (page cfg) lo hi xs (c ∷ ys)
        (subst (λ k. Tiles (page cfg) lo k hi) place (arena.tiles)) in
    let own : (h : ℕ) → count (λ k. k == h) objs + holders h (xs ++ c ∷ ys) ≤ 1 =
      λ h. subst (λ l. count (λ k. k == h) objs + holders h l ≤ 1) place (arena.own h) in
    let (before, after) = apart_split xs (c ∷ ys) (subst Apart place (arena.apart)) in
    record {
      stores = stores;
      own = λ h. omega (
        arith,
        own h,
        same h,
        count-append (λ (b : Chunk). b.handle == h) xs (c ∷ ys),
        count-append (λ (b : Chunk). b.handle == h) xs (d ∷ e ∷ ys),
      );
      tiles = Tiles-join (page cfg) lo m hi xs (d ∷ e ∷ ys) l (tile m r);
      apart = apart_used xs d (e ∷ ys) before ud (inl ue, after.1);
      kept =
          taken-append xs (d ∷ e ∷ ys)
          ∙ ap (λ l. l ++ taken (d ∷ e ∷ ys)) left
          ∙ ap (λ l. ls ++ l)
              (pick_true _ _ ud ∙ ap (λ l. d ∷ l) (pick_true _ _ ue ∙ ap (λ l. e ∷ l) right));
      listed = λ cls h. omega (
        arith,
        subst (λ l. count (λ k. k == h) (va.sizes cls) ≡ count (free_in cfg cls h) l) place
            (arena.listed cls h),
        ap bit (free_in-used cfg cls h c uc),
        ap bit (free_in-used cfg cls h d ud),
        ap bit (free_in-used cfg cls h e ue),
        count-append (free_in cfg cls h) xs (c ∷ ys),
        count-append (free_in cfg cls h) xs (d ∷ e ∷ ys),
      );
    }

-- A part that is split off, if any.
abbrev pub parts : Option Chunk → List Chunk
parts none = []
parts (some c) = c ∷ []

abbrev pub handle_of : Option Chunk → Option ℕ
handle_of none = none
handle_of (some c) = some c.handle

pub gets :
    (p : Pool) (objs : List ℕ)
    → Stores p objs
    → 0 < length objs
    → (obj : ℕ) × (rest : List ℕ) × (p' : Pool) × (objs ≡ obj ∷ rest)
      × (pool_get p ≡ (obj, p'))
      × Stores p' rest
gets p objs s more = elim (pool_try_get-Stores p objs s) [
  | inl spent ↦ absurd (omega (arith, ap length spent.0))
  | inr (obj, rest, p', e, _, got, s') ↦ (obj, rest, p', e, got, s')
]

end-Tiles :
    (pg m hi size : ℕ) (c e : Chunk) (ys : List Chunk)
    → IsPages pg size
    → size < c.size
    → e.start ≡ c.start + size
    → e.size ≡ c.size - size
    → Tiles pg m (c ∷ ys) hi
    → Tiles pg m (shrink_by (c.size - size) c ∷ e ∷ ys) hi
end-Tiles pg m hi size c e ys (k, pages) lt at left (start, (l, whole), rest) =
    let own : c.size - (c.size - size) ≡ size = omega arith in
    let total : m + c.size ≡ m + (c.size - (c.size - size)) + e.size = omega arith in
    (
      start,
      (k, own ∙ pages),
      (
        omega arith,
        subst (IsPages pg) (sym left) (IsPages-sub pg c.size size (suc l, whole) (suc k, pages) lt),
        subst (λ x. Tiles pg x ys hi) total rest,
      ),
    )

differ : (a b : ℕ) → (a == b) ≡ false → a ≢ b
differ a b e = ground arith

-- The end of a chunk in use is split off if the chunk is too large.
pub split_end-IsArena :
    (cfg : Config) (lo hi : ℕ) (va : VirtAllocator) (objs : List ℕ) (ls : List Chunk) (c : Chunk)
    (rs : List Chunk) (size : ℕ)
    → IsArena cfg lo hi va objs (ls ++ c ∷ rs)
    → 0 < length objs
    → IsPages (page cfg) size
    → size ≤ c.size
    → (va' : VirtAllocator) × (objs' : List ℕ) × (d : Chunk) × (after : Option Chunk) × (split_end
          va c.handle size
        ≡ some (va', handle_of after))
      × IsArena cfg lo hi va' objs' (ls ++ d ∷ (parts after ++ rs))
      × (d.handle ≡ c.handle)
      × (d.start ≡ c.start)
      × (d.size ≡ size)
unfolding split_end
split_end-IsArena cfg lo hi va objs ls c rs size arena more pages le =
    let (xs, ys, place, left, right, used) = taken-split va.addr ls c rs (arena.kept) in
    let (absent, absent') = alone-at objs va.addr xs c ys (arena.own) place in
    let found : find c.handle va.addr ≡ some c =
      ap (find c.handle) place ∙ find-at (c.handle) c xs ys (itself c.handle) absent in
    elim (Bool-cases (c.size == size)) [
      | inl e ↦ (
        va,
        objs,
        c,
        none,
        rw found (ap some (pick_true _ _ e)),
        arena,
        refl,
        refl,
        (==_iff _ _).0 e,
      )
      | inr e ↦
          let (obj, rest, p', objects, got, stores) = gets va.handles objs (arena.stores) more in
          let left_over = c.size - size in
          let after : ℕ → Chunk =
            λ h. record { handle = h; start = c.start + size; size = left_over; used = true } in
          let d = shrink_by left_over c in
          let split : ℕ × Pool → VirtAllocator = λ q. record va {
            addr =
                insert_after c.handle (after q.0) (modify c.handle (shrink_by left_over) va.addr);
            handles = q.1;
          } in
          let at : insert_after c.handle (after obj) (modify c.handle (shrink_by left_over) va.addr)
              ≡ xs ++ d ∷ after obj ∷ ys =
            ap (λ l. insert_after c.handle (after obj) (modify c.handle (shrink_by left_over) l))
              place
            ∙ ap (insert_after c.handle (after obj)) (
                modify-at (c.handle) (shrink_by left_over) c xs ys (itself c.handle) absent absent')
            ∙ insert_after-at (c.handle) (after obj) d xs ys (itself c.handle) absent in
          (
            record va { addr = xs ++ d ∷ after obj ∷ ys; handles = p' },
            rest,
            d,
            some (after obj),
            rw found (
                ap some (
                  pick_false _ _ e
                  ∙ ap (λ (q : ℕ × Pool). (split q, some q.0)) got
                  ∙ ap (λ l. (record va { addr = l; handles = p' }, some obj)) at)),
            replace-IsArena cfg lo hi va objs rest p' ls xs c d (after obj) ys rs arena place left
                right stores (λ h. omega (arith, ap (count (λ k. k == h)) objects))
                (λ m t.
                  end-Tiles (page cfg) m hi size c (after obj) ys pages
                    (omega (arith, differ _ _ e)) refl refl t)
                used used refl,
            refl,
            refl,
            omega arith,
          )
    ]
