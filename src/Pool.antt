-- ===== src/Pool.antt =====
-- native/pool.h, a pool of objects of one size, which serves the chunk allocator with handles.
pub mod Stores
pub mod Loops
pub mod Tests
use crts.Prelude.{
  ℕ, zero, suc, ◌+◌, ◌-◌, ◌/◌, Bool, true, false, Option, none, some, List, [], ◌∷◌, leb,
  if◌then◌else◌, ◌>>=◌,
}

-- Objects are addresses; the free objects are linked through their first word, here a list.
pub record Pool : Type 0 where
  pub object : ℕ
  pub next : ℕ
  pub limit : ℕ
  pub free : List ℕ

unfoldable pub pool_init : ℕ → Pool
pool_init object = record { object = object; next = 0; limit = 0; free = [] }

-- `_chiPoolAlloc`, where the source asserts that there is room.
unfoldable pub pool_alloc : Pool → ℕ × Pool
pool_alloc p = (p.next, record p { next = p.next + p.object })

unfoldable pub pool_put : Pool → ℕ → Pool
pool_put p obj = record p { free = obj ∷ p.free }

abbrev pub has_room : Pool → Bool
has_room p = leb (p.next + p.object) p.limit

unfoldable pub pool_try_get : Pool → Option (ℕ × Pool)
pool_try_get p = elim p.free [
  | obj ∷ rest ↦ some (obj, record p { free = rest })
  | [] ↦ if has_room p then some (pool_alloc p) else none
]

-- The free list is not empty or there is room, which the source asserts.
unfoldable pub pool_get : Pool → ℕ × Pool
pool_get p = elim p.free [ obj ∷ rest ↦ (obj, record p { free = rest }) | [] ↦ pool_alloc p ]

-- The loop of the growth, on fuel: each round takes an object off what is left.
unfoldable pub pool_flush : ℕ → Pool → Option Pool
pool_flush zero p = none
pool_flush (suc fuel) p =
    let again = pool_flush fuel in
    let (obj, rest) = pool_alloc p in if has_room p then again (pool_put rest obj) else some p

unfoldable pub pool_grow : Pool → ℕ → ℕ → Option Pool
pool_grow p start size =
    pool_flush (suc p.limit) p >>= λ q. some (record q { next = start; limit = start + size })

-- `while (obj && n --> 0) obj = obj->next; return !!obj;`
unfoldable pub walk : List ℕ → ℕ → Bool
walk [] n = false
walk (obj ∷ rest) zero = true
walk (obj ∷ rest) (suc n) = walk rest n

unfoldable pub pool_avail : Pool → ℕ → Bool
pool_avail p n =
    let avail = (p.limit - p.next) / p.object in
    if leb n avail then true else walk p.free (n - avail)
