-- ===== src/Chunk/Valid.antt =====
-- What holds of an arena: its chunks tile it, and no two free ones are neighbours.
use crts.Prelude.{
  ℕ, suc, ◌+◌, ◌*◌, ◌≤◌, ◌≡◌, ◌⊎◌, refl, sym, ap, subst, ◌∙◌, Bool, true, false, not, ◌&&◌, List,
  [], ◌∷◌, ◌++◌, arith, ◌==◌, inl, inr, if◌then◌else◌, Bool-cases, pick_true, pick_false, ◌∙◌, sym,
}
use crts.Prelude.Counts.{count}
use crts.Pool.Stores.{Stores}
use crts.Chunk.{Config, page, Chunk, VirtAllocator, class_smaller}
use crts.Chunk.Places.{holders}

-- A number of pages, at least one.
abbrev pub IsPages : ℕ → ℕ → Type 0
IsPages pg n = (k : ℕ) × (n ≡ pg * suc k)

-- The chunks lie from `lo` to `hi`, without gaps.
abbrev pub Tiles : ℕ → ℕ → List Chunk → ℕ → Type 0
Tiles pg lo [] hi = lo ≡ hi
Tiles pg lo (c ∷ cs) hi = (c.start ≡ lo) × IsPages pg c.size × Tiles pg (lo + c.size) cs hi

abbrev pub HeadUsed : List Chunk → Type 0
HeadUsed [] = Unit
HeadUsed (c ∷ cs) = c.used ≡ true

abbrev pub EndsUsed : List Chunk → Type 0
EndsUsed [] = Unit
EndsUsed (c ∷ []) = c.used ≡ true
EndsUsed (c ∷ d ∷ cs) = EndsUsed (d ∷ cs)

-- Of two neighbours at least one is used.
abbrev pub Apart : List Chunk → Type 0
Apart [] = Unit
Apart (c ∷ cs) = ((c.used ≡ true) ⊎ HeadUsed cs) × Apart cs

-- The chunks in use.
abbrev pub taken : List Chunk → List Chunk
taken [] = []
taken (c ∷ cs) = let rest = taken cs in if c.used then c ∷ rest else rest

-- Whether a chunk belongs, with this handle, into the list of a class.
abbrev pub free_in : Config → ℕ → ℕ → Chunk → Bool
free_in cfg cls h c = not c.used && ((c.handle == h) && (class_smaller cfg c.size == cls))

-- The state of the allocator for the arena from `lo` to `hi`: the pool has the handles `objs`,
-- the chunks in use are `live`. The list of a class has the free chunks of that class, each once.
pub record IsArena (cfg : Config) (lo hi : ℕ) (va : VirtAllocator) (objs : List ℕ)
    (live : List Chunk) : Type 0 where
  pub stores : Stores va.handles objs
  pub own : (h : ℕ) → count (λ k. k == h) objs + holders h va.addr ≤ 1
  pub tiles : Tiles (page cfg) lo va.addr hi
  pub apart : Apart va.addr
  pub kept : taken va.addr ≡ live
  pub listed : (cls h : ℕ) → count (λ k. k == h) (va.sizes cls) ≡ count (free_in cfg cls h) va.addr

pub Tiles-split :
    (pg lo hi : ℕ) (xs ys : List Chunk)
    → Tiles pg lo (xs ++ ys) hi
    → (m : ℕ) × Tiles pg lo xs m × Tiles pg m ys hi
Tiles-split pg lo hi [] ys t = (lo, refl, t)
Tiles-split pg lo hi (x ∷ xs) ys t =
    let (m, a, b) = Tiles-split pg (lo + x.size) hi xs ys t.2 in (m, (t.0, t.1, a), b)

pub Tiles-join :
    (pg lo m hi : ℕ) (xs ys : List Chunk)
    → Tiles pg lo xs m
    → Tiles pg m ys hi
    → Tiles pg lo (xs ++ ys) hi
Tiles-join pg lo m hi [] ys a b = subst (λ l. Tiles pg l ys hi) (sym a) b
Tiles-join pg lo m hi (x ∷ xs) ys a b = (a.0, a.1, Tiles-join pg (lo + x.size) m hi xs ys a.2 b)

pub apart_split : (xs ys : List Chunk) → Apart (xs ++ ys) → Apart xs × Apart ys
apart_split [] ys a = (tt, a)
apart_split (x ∷ []) ys a = ((inr tt, tt), a.1)
apart_split (x ∷ y ∷ xs) ys a = let (l, r) = apart_split (y ∷ xs) ys a.1 in ((a.0, l), r)

-- Before a free chunk there is a used one, or none.
pub apart_last :
    (ws : List Chunk) (b : Chunk) (ys : List Chunk)
    → Apart (ws ++ b ∷ ys)
    → b.used ≡ false
    → EndsUsed ws
apart_last [] b ys a free = tt
apart_last (w ∷ []) b ys a free = elim a.0 [ inl used ↦ used | inr used ↦ absurd cc ]
apart_last (w ∷ v ∷ ws) b ys a free = apart_last (v ∷ ws) b ys a.1 free

pub apart_join :
    (xs ys : List Chunk) (c : Chunk)
    → Apart xs
    → EndsUsed xs
    → HeadUsed ys
    → Apart ys
    → Apart (xs ++ c ∷ ys)
apart_join [] ys c a used first b = (inr first, b)
apart_join (x ∷ []) ys c a used first b = (inl used, (inr first, b))
apart_join (x ∷ y ∷ xs) ys c a used first b = (a.0, apart_join (y ∷ xs) ys c a.1 used first b)

pub EndsUsed-last : (ws : List Chunk) (b : Chunk) → b.used ≡ true → EndsUsed (ws ++ b ∷ [])
EndsUsed-last [] b used = used
EndsUsed-last (w ∷ []) b used = used
EndsUsed-last (w ∷ v ∷ ws) b used = EndsUsed-last (v ∷ ws) b used

taken_first :
    (b : Bool) (x : Chunk) (l m : List Chunk)
    → (if b then x ∷ (l ++ m) else l ++ m) ≡ (if b then x ∷ l else l) ++ m
taken_first true x l m = refl
taken_first false x l m = refl

pub taken-append : (xs ys : List Chunk) → taken (xs ++ ys) ≡ taken xs ++ taken ys
taken-append [] ys = refl
taken-append (x ∷ xs) ys =
    ap (λ l. if x.used then x ∷ l else l) (taken-append xs ys)
    ∙ taken_first (x.used) x (taken xs) (taken ys)

pub free_in-used :
    (cfg : Config) (cls h : ℕ) (c : Chunk) → c.used ≡ true → free_in cfg cls h c ≡ false
free_in-used cfg cls h c used =
    ap (λ u. not u && ((c.handle == h) && (class_smaller cfg c.size == cls))) used

-- A used chunk may stand anywhere.
pub apart_used :
    (xs : List Chunk) (c : Chunk) (ys : List Chunk)
    → Apart xs
    → c.used ≡ true
    → Apart ys
    → Apart (xs ++ c ∷ ys)
apart_used [] c ys a used b = (inl used, b)
apart_used (x ∷ []) c ys a used b = (inr used, (inl used, b))
apart_used (x ∷ y ∷ xs) c ys a used b = (a.0, apart_used (y ∷ xs) c ys a.1 used b)

-- Only the holders of a handle are listed with it.
pub count-free_in :
    (cfg : Config) (cls h : ℕ) (cs : List Chunk) → count (free_in cfg cls h) cs ≤ holders h cs
count-free_in cfg cls h [] = omega arith
count-free_in cfg cls h (c ∷ cs) = ground (arith, count-free_in cfg cls h cs)

-- A list is empty or has a last element.
pub last_cases :
    (xs : List Chunk) → (xs ≡ []) ⊎ ((ws : List Chunk) × (b : Chunk) × (xs ≡ ws ++ b ∷ []))
last_cases [] = inl refl
last_cases (x ∷ xs) = elim (last_cases xs) [
  | inl e ↦ inr ([], x, ap (λ l. x ∷ l) e)
  | inr (ws, b, e) ↦ inr (x ∷ ws, b, ap (λ l. x ∷ l) e)
]

-- A chunk in use has a place among all chunks.
abbrev pub Splits : List Chunk → List Chunk → Chunk → List Chunk → Type 0
Splits cs ls c rs =
    (xs : List Chunk) × (ys : List Chunk) × (cs ≡ xs ++ c ∷ ys)
    × (taken xs ≡ ls)
    × (taken ys ≡ rs)
    × (c.used ≡ true)

taken_here :
    (x : Chunk) (cs ls : List Chunk) (c : Chunk) (rs : List Chunk)
    → x.used ≡ true
    → x ∷ taken cs ≡ ls ++ c ∷ rs
    → ((l : List Chunk) → taken cs ≡ l ++ c ∷ rs → Splits cs l c rs)
    → Splits (x ∷ cs) ls c rs
taken_here x cs [] c rs used e again =
    let same : x ≡ c = cc in
    ([], cs, ap (λ d. d ∷ cs) same, refl, cc, ap (λ (d : Chunk). d.used) (sym same) ∙ used)
taken_here x cs (l ∷ ls) c rs used e again =
    let same : x ≡ l = cc in
    let (xs, ys, place, left, right, taken_c) = again ls cc in
    (
      x ∷ xs,
      ys,
      ap (λ k. x ∷ k) place,
      pick_true _ _ used ∙ ap (λ k. x ∷ k) left ∙ ap (λ d. d ∷ ls) same,
      right,
      taken_c,
    )

pub taken-split :
    (cs ls : List Chunk) (c : Chunk) (rs : List Chunk) → taken cs ≡ ls ++ c ∷ rs → Splits cs ls c rs
taken-split [] [] c rs e = absurd cc
taken-split [] (l ∷ ls) c rs e = absurd cc
taken-split (x ∷ cs) ls c rs e = elim (Bool-cases (x.used)) [
  | inl used ↦
      taken_here x cs ls c rs used (sym (pick_true _ _ used) ∙ e) (λ l h. taken-split cs l c rs h)
  | inr idle ↦
      let (xs, ys, place, left, right, used) =
        taken-split cs ls c rs (sym (pick_false _ _ idle) ∙ e) in
      (x ∷ xs, ys, ap (λ l. x ∷ l) place, pick_false _ _ idle ∙ left, right, used)
]
