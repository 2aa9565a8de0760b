-- ===== src/Pool/Tests.antt =====
-- Runs of the pool and instances of its theorems.
use crts.Prelude.{ℕ, ◌/◌, ◌≡◌, refl, false, some, List, [], ◌∷◌, ◌++◌, arith}
use crts.Prelude.Counts.{SameElements}
use crts.Pool.{Pool, pool_alloc, pool_put, pool_flush, pool_grow, walk, pool_avail}
use crts.Pool.Stores.{row, Stores}
use crts.Pool.Loops.{pool_grow-Stores}

-- Room for two objects of 16 bytes, and two free ones.
abbrev four : Pool
four = record { object = 16; next = 100; limit = 140; free = 500 ∷ 516 ∷ [] }

abbrev four_objects : List ℕ
four_objects = 500 ∷ 516 ∷ 100 ∷ 116 ∷ []

four-Stores : Stores four four_objects
four-Stores = record {
  fresh = 2;
  some_object = omega arith;
  room = omega arith;
  no_more = omega arith;
  objects = refl;
}

-- All four objects are there, but the answer is no.
avail_four : pool_avail four 4 ≡ false
unfolding pool_avail walk
avail_four = refl

grow_four :
    pool_grow four 1000 40
    ≡ some record { object = 16; next = 1000; limit = 1040; free = 116 ∷ 100 ∷ 500 ∷ 516 ∷ [] }
unfolding pool_grow pool_flush pool_put pool_alloc
grow_four = refl

pool_grow-Stores_example :
    (p' : Pool) × (kept : List ℕ) × (pool_grow four 1000 40 ≡ some p')
    × SameElements kept four_objects
    × Stores p' (kept ++ row 16 1000 (40 / 16))
pool_grow-Stores_example = pool_grow-Stores four four_objects 1000 40 four-Stores
