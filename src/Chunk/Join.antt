-- ===== src/Chunk/Join.antt =====
-- A chunk that is freed, while it is not listed, and how it is joined with its neighbours.
use mathlib.Core.List.{append_assoc}
use crts.Prelude.{
  ℕ, suc, ◌+◌, ◌≤◌, ◌≡◌, refl, sym, ap, subst, ◌∙◌, true, false, some, List, [], ◌∷◌, ◌++◌, arith,
  ◌==◌, if◌then◌else◌,
}
use crts.Prelude.Counts.{bit, count, count-append}
use crts.Pool.{pool_put}
use crts.Pool.Stores.{Stores, pool_put-Stores}
use crts.Chunk.{
  Config, page, Chunk, VirtAllocator, class_smaller, find, delete, modify, list_delete, list_append,
  grow_by, coalesce,
}
use crts.Chunk.Places.{holders, find-at, modify-at, delete-at}
use crts.Chunk.Listing.{itself, unlisted, listed_with}
use crts.Chunk.Valid.{
  IsPages, Tiles, HeadUsed, EndsUsed, Apart, taken, free_in, IsArena, Tiles-split, Tiles-join,
  apart_split, apart_join, taken-append,
}

-- The chunks `mid`, of which none is in use or listed, stand between `ws` and `ys`.
pub record Pending (cfg : Config) (lo hi : ℕ) (va : VirtAllocator) (objs : List ℕ)
    (ws mid ys : List Chunk) : Type 0 where
  pub place : va.addr ≡ ws ++ (mid ++ ys)
  pub stores : Stores va.handles objs
  pub own : (h : ℕ) → count (λ k. k == h) objs + (holders h ws + (holders h mid + holders h ys)) ≤ 1
  pub tiles : Tiles (page cfg) lo (ws ++ (mid ++ ys)) hi
  pub before : Apart ws
  pub after : Apart ys
  pub listed :
      (cls h : ℕ)
      → count (λ k. k == h) (va.sizes cls)
        ≡ count (free_in cfg cls h) ws + count (free_in cfg cls h) ys

-- The handle of a chunk is that of no other.
pub alone :
    (objs : List ℕ) (ws : List Chunk) (c : Chunk) (ys : List Chunk)
    → ((h : ℕ)
        → count (λ k. k == h) objs + (holders h ws + (holders h (c ∷ []) + holders h ys)) ≤ 1)
    → (holders c.handle ws ≡ 0) × (holders c.handle ys ≡ 0)
alone objs ws c ys own =
    let one : bit (c.handle == c.handle) ≡ 1 = ap bit (itself c.handle) in
    let bound = own c.handle in (omega arith, omega arith)

pub alone-at :
    (objs : List ℕ) (cs xs : List Chunk) (c : Chunk) (ys : List Chunk)
    → ((h : ℕ) → count (λ k. k == h) objs + holders h cs ≤ 1)
    → cs ≡ xs ++ c ∷ ys
    → (holders c.handle xs ≡ 0) × (holders c.handle ys ≡ 0)
alone-at objs cs xs c ys own place = alone objs xs c ys λ h. omega (
  arith,
  subst (λ l. count (λ k. k == h) objs + holders h l ≤ 1) place (own h),
  count-append (λ (d : Chunk). d.handle == h) xs (c ∷ ys),
)

IsPages-add : (pg a b : ℕ) → IsPages pg a → IsPages pg b → IsPages pg (a + b)
IsPages-add pg a b (k, e) (l, f) = (suc (k + l), rw (e, f) (grind arith))

found_after :
    (h : ℕ) (b c : Chunk) (ws ys : List Chunk)
    → (c.handle == h) ≡ true
    → holders h (ws ++ b ∷ []) ≡ 0
    → find h (ws ++ b ∷ c ∷ ys) ≡ some c
found_after h b c ws ys e n =
    ap (find h) (sym (append_assoc ws (b ∷ []) (c ∷ ys))) ∙ find-at h c (ws ++ b ∷ []) ys e n

deleted_after :
    (h : ℕ) (b c : Chunk) (ws ys : List Chunk)
    → (c.handle == h) ≡ true
    → holders h (ws ++ b ∷ []) ≡ 0
    → delete h (ws ++ b ∷ c ∷ ys) ≡ ws ++ b ∷ ys
deleted_after h b c ws ys e n =
    ap (delete h) (sym (append_assoc ws (b ∷ []) (c ∷ ys)))
    ∙ delete-at h c (ws ++ b ∷ []) ys e n
    ∙ append_assoc ws (b ∷ []) ys

joined-Tiles :
    (pg lo hi : ℕ) (ws : List Chunk) (b c : Chunk) (ys : List Chunk)
    → Tiles pg lo (ws ++ b ∷ c ∷ ys) hi
    → Tiles pg lo (ws ++ grow_by c.size b ∷ ys) hi
joined-Tiles pg lo hi ws b c ys t =
    let (m, l, r) = Tiles-split pg lo hi ws (b ∷ c ∷ ys) t in
    let same : m + b.size + c.size ≡ m + (b.size + c.size) = omega arith in
    Tiles-join pg lo m hi ws (grow_by c.size b ∷ ys) l
      (r.0, IsPages-add pg b.size c.size r.1 r.2.1, subst (λ k. Tiles pg k ys hi) same r.2.2)

-- Two chunks that are joined are one of the total size.
pub coalesce-Pending :
    (cfg : Config) (lo hi : ℕ) (va : VirtAllocator) (objs : List ℕ) (ws : List Chunk) (b c : Chunk)
    (ys : List Chunk)
    → Pending cfg lo hi va objs ws (b ∷ c ∷ []) ys
    → (va' : VirtAllocator) × (coalesce va b.handle c.handle ≡ some va')
      × Pending cfg lo hi va' (c.handle ∷ objs) ws (grow_by c.size b ∷ []) ys
unfolding coalesce
coalesce-Pending cfg lo hi va objs ws b c ys p =
    let own = p.own in
    let (absent_c, _) =
      alone objs (ws ++ b ∷ []) c ys
        (λ h. omega (arith, own h, count-append (λ (d : Chunk). d.handle == h) ws (b ∷ []))) in
    let (absent_b, absent_b') = alone objs ws b (c ∷ ys) (λ h. omega (arith, own h)) in
    let found : find c.handle va.addr ≡ some c =
      ap (find c.handle) (p.place) ∙ found_after (c.handle) b c ws ys (itself c.handle) absent_c in
    let joined : modify b.handle (grow_by c.size) (delete c.handle va.addr)
        ≡ ws ++ grow_by c.size b ∷ ys =
      ap (λ l. modify b.handle (grow_by c.size) (delete c.handle l)) (p.place)
      ∙ ap (modify b.handle (grow_by c.size))
          (deleted_after (c.handle) b c ws ys (itself c.handle) absent_c)
      ∙ modify-at (b.handle) (grow_by c.size) b ws ys (itself b.handle) absent_b (omega arith) in
    (
      record va {
        addr = modify b.handle (grow_by c.size) (delete c.handle va.addr);
        handles = pool_put va.handles c.handle;
      },
      rw found refl,
      record {
        place = joined;
        stores = pool_put-Stores va.handles objs c.handle (p.stores);
        own = λ h. omega (arith, own h);
        tiles = joined-Tiles (page cfg) lo hi ws b c ys (p.tiles);
        before = p.before;
        after = p.after;
        listed = p.listed;
      },
    )

-- A neighbour that is not in use is taken off its list.
pub unlist_before :
    (cfg : Config) (lo hi : ℕ) (va : VirtAllocator) (objs : List ℕ) (ws : List Chunk) (b c : Chunk)
    (ys : List Chunk)
    → Pending cfg lo hi va objs (ws ++ b ∷ []) (c ∷ []) ys
    → Pending cfg lo hi
        (record va { sizes = list_delete b.handle va.sizes })
        objs
        ws
        (b ∷ c ∷ [])
        ys
unlist_before cfg lo hi va objs ws b c ys p =
    let assoc = append_assoc ws (b ∷ []) (c ∷ ys) in
    let own : (h : ℕ)
        → count (λ k. k == h) objs + (holders h ws + (holders h (b ∷ c ∷ []) + holders h ys)) ≤ 1 =
      λ h. omega (arith, p.own h, count-append (λ (d : Chunk). d.handle == h) ws (b ∷ [])) in
    record {
      place = p.place ∙ assoc;
      stores = p.stores;
      own = own;
      tiles = subst (λ l. Tiles (page cfg) lo l hi) assoc (p.tiles);
      before = (apart_split ws (b ∷ []) (p.before)).0;
      after = p.after;
      listed = λ cls h.
          unlisted cfg cls h (va.sizes cls) ws b ys (omega (arith, own h))
            (omega (arith, p.listed cls h, count-append (free_in cfg cls h) ws (b ∷ [])));
    }

pub unlist_after :
    (cfg : Config) (lo hi : ℕ) (va : VirtAllocator) (objs : List ℕ) (ws : List Chunk) (c a : Chunk)
    (ys : List Chunk)
    → Pending cfg lo hi va objs ws (c ∷ []) (a ∷ ys)
    → Pending cfg lo hi
        (record va { sizes = list_delete a.handle va.sizes })
        objs
        ws
        (c ∷ a ∷ [])
        ys
unlist_after cfg lo hi va objs ws c a ys p = record {
  place = p.place;
  stores = p.stores;
  own = λ h. omega (arith, p.own h);
  tiles = p.tiles;
  before = p.before;
  after = (p.after).1;
  listed = λ cls h.
      unlisted cfg cls h (va.sizes cls) ws a ys (omega (arith, p.own h))
        (omega (arith, p.listed cls h));
}

-- Once its neighbours are in use, the chunk is listed by its class.
pub list-Pending :
    (cfg : Config) (lo hi : ℕ) (va : VirtAllocator) (objs : List ℕ) (ws : List Chunk) (c : Chunk)
    (ys : List Chunk)
    → Pending cfg lo hi va objs ws (c ∷ []) ys
    → c.used ≡ false
    → EndsUsed ws
    → HeadUsed ys
    → IsArena cfg lo hi
        (record va { sizes = list_append (class_smaller cfg c.size) c.handle va.sizes })
        objs
        (taken ws ++ taken ys)
list-Pending cfg lo hi va objs ws c ys p free ends first =
    let place = p.place in
    record {
      stores = p.stores;
      own = λ h.
          subst (λ l. count (λ k. k == h) objs + holders h l ≤ 1) (sym place)
            (omega (arith, p.own h, count-append (λ (d : Chunk). d.handle == h) ws (c ∷ ys)));
      tiles = subst (λ l. Tiles (page cfg) lo l hi) (sym place) (p.tiles);
      apart = subst Apart (sym place) (apart_join ws ys c (p.before) ends first (p.after));
      kept =
          ap taken place
          ∙ taken-append ws (c ∷ ys)
          ∙ ap (λ b. taken ws ++ (if b then c ∷ taken ys else taken ys)) free;
      listed = λ cls h.
          subst
            (λ l.
              count (λ k. k == h) (list_append (class_smaller cfg c.size) c.handle va.sizes cls)
              ≡ count (free_in cfg cls h) l)
            (sym place)
            (listed_with cfg cls h c (va.sizes cls) free
              ∙ omega (arith, p.listed cls h, count-append (free_in cfg cls h) ws (c ∷ ys)));
    }
