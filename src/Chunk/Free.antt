-- ===== src/Chunk/Free.antt =====
-- Freeing a chunk: vaInsertFree keeps the arena valid.
use mathlib.Core.List.{append_assoc, append-nil}
use crts.Prelude.{
  ℕ, ◌+◌, ◌≤◌, ◌≡◌, refl, sym, ap, subst, ◌∙◌, true, false, none, some, List, [], ◌∷◌, ◌++◌, arith,
  ◌==◌, Bool-cases, inl, inr, if◌then◌else◌, pick_true, pick_false,
}
use crts.Prelude.Counts.{bit, count, count-append}
use crts.Chunk.{
  Config, page, Chunk, VirtAllocator, class_smaller, find, modify, prev, next, list_append, use_as,
  grow_by, join_before, join_after, insert_free,
}
use crts.Chunk.Places.{holders, find-at, modify-at, prev-first, prev-at, next-at}
use crts.Chunk.Valid.{
  taken-split, Tiles, HeadUsed, EndsUsed, Apart, taken, free_in, IsArena, Tiles-split, Tiles-join,
  apart_split, apart_last, EndsUsed-last, taken-append, last_cases, free_in-used,
}
use crts.Chunk.Listing.{itself}
use crts.Chunk.Join.{Pending, alone, coalesce-Pending, unlist_before, unlist_after, list-Pending}

-- The chunk before is joined if it is free.
join_before-Pending :
    (cfg : Config) (lo hi : ℕ) (va : VirtAllocator) (objs : List ℕ) (xs : List Chunk) (c : Chunk)
    (ys : List Chunk)
    → Pending cfg lo hi va objs xs (c ∷ []) ys
    → c.used ≡ false
    → (va' : VirtAllocator) × (objs' : List ℕ) × (ws : List Chunk) × (d : Chunk) × (join_before va
          c.handle
          (prev c.handle va.addr)
        ≡ some (va', d.handle))
      × Pending cfg lo hi va' objs' ws (d ∷ []) ys
      × (d.used ≡ false)
      × EndsUsed ws
      × (taken ws ≡ taken xs)
unfolding join_before
join_before-Pending cfg lo hi va objs xs c ys p free = elim (last_cases xs) [
  | inl e ↦
      let q : Pending cfg lo hi va objs [] (c ∷ []) ys =
        subst (λ l. Pending cfg lo hi va objs l (c ∷ []) ys) e p in
      let none_before : prev c.handle va.addr ≡ none =
        ap (prev c.handle) (q.place) ∙ prev-first (c.handle) c ys (alone objs [] c ys (q.own)).1 in
      (va, objs, [], c, rw none_before refl, q, free, tt, ap taken (sym e))
  | inr (ws, b, e) ↦
      let q : Pending cfg lo hi va objs (ws ++ b ∷ []) (c ∷ []) ys =
        subst (λ l. Pending cfg lo hi va objs l (c ∷ []) ys) e p in
      let before : prev c.handle va.addr ≡ some b =
        ap (prev c.handle) (q.place ∙ append_assoc ws (b ∷ []) (c ∷ ys))
        ∙ prev-at (c.handle) b c ws ys (itself c.handle)
            (alone objs (ws ++ b ∷ []) c ys (q.own)).0 in
      elim (Bool-cases (b.used)) [
        | inl used ↦ (
          va,
          objs,
          ws ++ b ∷ [],
          c,
          ap (join_before va c.handle) before ∙ pick_true _ _ used,
          q,
          free,
          EndsUsed-last ws b used,
          ap taken (sym e),
        )
        | inr idle ↦
            let (va', joined, r) =
              coalesce-Pending cfg lo hi _ objs ws b c ys
                (unlist_before cfg lo hi va objs ws b c ys q) in
            (
              va',
              c.handle ∷ objs,
              ws,
              grow_by c.size b,
              ap (join_before va c.handle) before ∙ pick_false _ _ idle ∙ rw joined refl,
              r,
              idle,
              apart_last ws b [] (q.before) idle,
              sym (
                  ap taken e
                  ∙ taken-append ws (b ∷ [])
                  ∙ ap (λ u. taken ws ++ (if u then b ∷ [] else [])) idle
                  ∙ append-nil (taken ws)),
            )
      ]
]

head_after : (a : Chunk) (ys : List Chunk) → a.used ≡ false → Apart (a ∷ ys) → HeadUsed ys
head_after a ys idle apart = elim apart.0 [ inl used ↦ absurd cc | inr used ↦ used ]

-- The chunk after is joined if it is free.
join_after-Pending :
    (cfg : Config) (lo hi : ℕ) (va : VirtAllocator) (objs : List ℕ) (ws : List Chunk) (c : Chunk)
    (ys : List Chunk)
    → Pending cfg lo hi va objs ws (c ∷ []) ys
    → c.used ≡ false
    → (va' : VirtAllocator) × (objs' : List ℕ) × (zs : List Chunk) × (d : Chunk) × (join_after va
          c.handle
          (next c.handle va.addr)
        ≡ some va')
      × Pending cfg lo hi va' objs' ws (d ∷ []) zs
      × (d.handle ≡ c.handle)
      × (d.used ≡ false)
      × HeadUsed zs
      × (taken zs ≡ taken ys)
unfolding join_after
join_after-Pending cfg lo hi va objs ws c [] p free =
    let after : next c.handle va.addr ≡ none =
      ap (next c.handle) (p.place)
      ∙ next-at (c.handle) c ws [] (itself c.handle) (alone objs ws c [] (p.own)).0 in
    (va, objs, [], c, rw after refl, p, refl, free, tt, refl)
join_after-Pending cfg lo hi va objs ws c (a ∷ ys) p free =
    let after : next c.handle va.addr ≡ some a =
      ap (next c.handle) (p.place)
      ∙ next-at (c.handle) c ws (a ∷ ys) (itself c.handle) (alone objs ws c (a ∷ ys) (p.own)).0 in
    elim (Bool-cases (a.used)) [
      | inl used ↦ (
        va,
        objs,
        a ∷ ys,
        c,
        ap (join_after va c.handle) after ∙ pick_true _ _ used,
        p,
        refl,
        free,
        used,
        refl,
      )
      | inr idle ↦
          let (va', joined, r) =
            coalesce-Pending cfg lo hi _ objs ws c a ys
              (unlist_after cfg lo hi va objs ws c a ys p) in
          (
            va',
            a.handle ∷ objs,
            ys,
            grow_by a.size c,
            ap (join_after va c.handle) after ∙ pick_false _ _ idle ∙ joined,
            r,
            refl,
            free,
            head_after a ys idle (p.after),
            sym (ap (λ u. if u then a ∷ taken ys else taken ys) idle),
          )
    ]

-- A chunk in use leaves the others as they are when it is marked free.
begin-Pending :
    (cfg : Config) (lo hi : ℕ) (va : VirtAllocator) (objs : List ℕ) (live xs : List Chunk)
    (c : Chunk) (ys : List Chunk)
    → IsArena cfg lo hi va objs live
    → va.addr ≡ xs ++ c ∷ ys
    → c.used ≡ true
    → Pending cfg lo hi
        (record va { addr = modify c.handle (use_as false) va.addr })
        objs
        xs
        (use_as false c ∷ [])
        ys
begin-Pending cfg lo hi va objs live xs c ys arena place used =
    let own : (h : ℕ)
        → count (λ k. k == h) objs + (holders h xs + (holders h (c ∷ []) + holders h ys)) ≤ 1 =
      λ h.
        let one = subst (λ l. count (λ k. k == h) objs + holders h l ≤ 1) place (arena.own h) in
        omega (arith, one, count-append (λ (d : Chunk). d.handle == h) xs (c ∷ ys)) in
    let (absent, absent') = alone objs xs c ys own in
    let (m, l, r) =
      Tiles-split (page cfg) lo hi xs (c ∷ ys)
        (subst (λ k. Tiles (page cfg) lo k hi) place (arena.tiles)) in
    let (before, after) = apart_split xs (c ∷ ys) (subst Apart place (arena.apart)) in
    record {
      place =
          ap (modify c.handle (use_as false)) place
          ∙ modify-at (c.handle) (use_as false) c xs ys (itself c.handle) absent absent';
      stores = arena.stores;
      own = own;
      tiles = Tiles-join (page cfg) lo m hi xs (use_as false c ∷ ys) l r;
      before = before;
      after = after.1;
      listed = λ cls h.
          let idle = free_in-used cfg cls h c used in
          let all =
            subst (λ l. count (λ k. k == h) (va.sizes cls) ≡ count (free_in cfg cls h) l) place
              (arena.listed cls h) in
          omega (arith, all, ap bit idle, count-append (free_in cfg cls h) xs (c ∷ ys));
    }

-- A chunk in use can always be freed: vaInsertFree ends in a valid arena, where the other chunks
-- in use are as they were, and no two free chunks are neighbours.
pub insert_free-IsArena :
    (cfg : Config) (lo hi : ℕ) (va : VirtAllocator) (objs : List ℕ) (ls : List Chunk) (c : Chunk)
    (rs : List Chunk)
    → IsArena cfg lo hi va objs (ls ++ c ∷ rs)
    → (va' : VirtAllocator) × (objs' : List ℕ) × (insert_free cfg va c.handle ≡ some va')
      × IsArena cfg lo hi va' objs' (ls ++ rs)
unfolding insert_free
insert_free-IsArena cfg lo hi va objs ls c rs arena =
    let (xs, ys, place, left, right, used) = taken-split va.addr ls c rs (arena.kept) in
    let p = begin-Pending cfg lo hi va objs _ xs c ys arena place used in
    let (va1, objs1, ws, d, e1, p1, free1, ends, kept1) =
      join_before-Pending cfg lo hi _ objs xs (use_as false c) ys p refl in
    let (va2, objs2, zs, d2, e2, p2, same, free2, first, kept2) =
      join_after-Pending cfg lo hi va1 objs1 ws d ys p1 free1 in
    let at : find d.handle va2.addr ≡ some d2 =
      ap (find d.handle) (p2.place)
      ∙ subst (λ h. find h (ws ++ d2 ∷ zs) ≡ some d2) same
          (find-at (d2.handle) d2 ws zs (itself d2.handle) (alone objs2 ws d2 zs (p2.own)).0) in
    let others : taken ws ++ taken zs ≡ ls ++ rs =
      ap (λ l. l ++ taken zs) (kept1 ∙ left) ∙ ap (λ l. ls ++ l) (kept2 ∙ right) in
    (
      record va2 { sizes = list_append (class_smaller cfg d2.size) d.handle va2.sizes },
      objs2,
      rw (e1, e2, at) refl,
      subst
          (λ h.
            IsArena cfg lo hi
              (record va2 { sizes = list_append (class_smaller cfg d2.size) h va2.sizes }) objs2
              (ls ++ rs))
          same
          (subst
            (λ l.
              IsArena cfg lo hi
                (record va2 { sizes = list_append (class_smaller cfg d2.size) d2.handle va2.sizes })
                objs2 l)
            others (list-Pending cfg lo hi va2 objs2 ws d2 zs p2 free2 ends first)),
    )
