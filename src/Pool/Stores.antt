-- ===== src/Pool/Stores.antt =====
-- A pool as the list of the objects that it can still hand out.
use native.Mathlib.Nat.{div-lt_iff_lt-mul, le-div_iff_mul-le}
use crts.Prelude.{
  ℕ, zero, suc, ◌+◌, ◌-◌, ◌*◌, ◌/◌, ◌≤◌, ◌<◌, ◌≡◌, ◌↔◌, ◌⊎◌, refl, sym, ap, ◌∙◌, subst, true, false,
  none, some, List, [], ◌∷◌, ◌++◌, length, length-append, arith, inl, inr, List-cases,
}
use crts.Pool.{Pool, pool_alloc, pool_put, pool_get, pool_try_get, has_room, walk, pool_avail}

-- `k` objects in a row.
abbrev pub row : ℕ → ℕ → ℕ → List ℕ
row object start zero = []
row object start (suc k) = start ∷ row object (start + object) k

pub record Stores (p : Pool) (objs : List ℕ) : Type 0 where
  pub fresh : ℕ
  pub some_object : 0 < p.object
  pub room : p.next + fresh * p.object ≤ p.limit
  pub no_more : p.limit < p.next + suc fresh * p.object
  pub objects : objs ≡ p.free ++ row p.object p.next fresh

-- An object that is put back is the next to be handed out.
pub pool_put-Stores :
    (p : Pool) (objs : List ℕ) (obj : ℕ) → Stores p objs → Stores (pool_put p obj) (obj ∷ objs)
unfolding pool_put
pool_put-Stores p objs obj s = record {
  fresh = s.fresh;
  some_object = s.some_object;
  room = s.room;
  no_more = s.no_more;
  objects = ap (◌∷◌ obj) (s.objects);
}

abbrev pub Gets : Pool → List ℕ → Type 0
Gets p objs =
    (obj : ℕ) × (rest : List ℕ) × (p' : Pool) × (objs ≡ obj ∷ rest)
    × (pool_try_get p ≡ some (obj, p'))
    × (pool_get p ≡ (obj, p'))
    × Stores p' rest

abbrev pub Spent : Pool → List ℕ → Type 0
Spent p objs = (objs ≡ []) × (pool_try_get p ≡ none)

get_fresh :
    (p : Pool) (fresh : ℕ)
    → 0 < p.object
    → p.next + fresh * p.object ≤ p.limit
    → p.limit < p.next + suc fresh * p.object
    → p.free ≡ []
    → Spent p (row p.object p.next fresh) ⊎ Gets p (row p.object p.next fresh)
unfolding pool_try_get pool_get pool_alloc
get_fresh p zero o room no_more e =
    let full : has_room p ≡ false = ground arith in inl (refl, rw (e, full) refl)
get_fresh p (suc k) o room no_more e =
    let more : has_room p ≡ true = ground arith in
    inr (
      p.next,
      row p.object (p.next + p.object) k,
      record p { next = p.next + p.object },
      refl,
      rw (e, more) refl,
      rw e refl,
      record {
        fresh = k;
        some_object = o;
        room = omega arith;
        no_more = omega arith;
        objects = rw e refl;
      },
    )

-- For a pool with the objects `objs`, either there is none, and chiPoolTryGet fails, or
-- chiPoolTryGet and chiPoolGet hand out the first and the pool keeps the others.
pub pool_try_get-Stores : (p : Pool) (objs : List ℕ) → Stores p objs → Spent p objs ⊎ Gets p objs
unfolding pool_try_get pool_get
pool_try_get-Stores p objs s = elim (List-cases (p.free)) [
  | inl e ↦
      let same : objs ≡ row p.object p.next (s.fresh) = s.objects ∙ rw e refl in
      subst (λ l. Spent p l ⊎ Gets p l) (sym same)
        (get_fresh p (s.fresh) (s.some_object) (s.room) (s.no_more) e)
  | inr (obj, rest, e) ↦ inr (
    obj,
    rest ++ row p.object p.next (s.fresh),
    record p { free = rest },
    s.objects ∙ rw e refl,
    rw e refl,
    rw e refl,
    record {
      fresh = s.fresh;
      some_object = s.some_object;
      room = s.room;
      no_more = s.no_more;
      objects = refl;
    },
  )
]

walk_iff : (free : List ℕ) (n : ℕ) → (walk free n ≡ true) ↔ (n < length free)
unfolding walk
walk_iff [] n = ground arith
walk_iff (x ∷ free) zero = ground arith
walk_iff (x ∷ free) (suc n) = ground (arith, walk_iff free n)

pub length-row : (object start k : ℕ) → length (row object start k) ≡ k
length-row object start zero = refl
length-row object start (suc k) = ap suc (length-row object (start + object) k)

-- The answer is yes exactly if the objects that were never handed out are enough, or if there are
-- more objects than asked for; so it can be no where there are just as many.
pub pool_avail_iff :
    (p : Pool) (objs : List ℕ) (n : ℕ) (s : Stores p objs)
    → (pool_avail p n ≡ true) ↔ ((n ≤ s.fresh) ⊎ (n < length objs))
unfolding pool_avail
pool_avail_iff p objs n s =
    let o = s.some_object in
    let room = s.room in
    let no_more = s.no_more in
    let low : s.fresh ≤ (p.limit - p.next) / p.object = (le-div_iff_mul-le o).1 (omega arith) in
    let high : (p.limit - p.next) / p.object < suc (s.fresh) =
      (div-lt_iff_lt-mul o).1 (omega arith) in
    let count : (p.limit - p.next) / p.object ≡ s.fresh = omega arith in
    let total : length objs ≡ length p.free + s.fresh =
      ap length (s.objects)
      ∙ length-append p.free (row p.object p.next (s.fresh))
      ∙ ap (λ t. length p.free + t) (length-row p.object p.next (s.fresh)) in
    rw (count, total) (ground (arith, walk_iff p.free (n - s.fresh)))

-- The answer yes is never wrong.
pub pool_avail-length :
    (p : Pool) (objs : List ℕ) (n : ℕ) → Stores p objs → pool_avail p n ≡ true → n ≤ length objs
pool_avail-length p objs n s yes_said =
    let total : length objs ≡ length p.free + s.fresh =
      ap length (s.objects)
      ∙ length-append p.free (row p.object p.next (s.fresh))
      ∙ ap (λ t. length p.free + t) (length-row p.object p.next (s.fresh)) in
    elim ((pool_avail_iff p objs n s).0 yes_said) [
      | inl fresh ↦ omega arith
      | inr more ↦ omega arith
    ]
