-- ===== src/Vec/Tests.antt =====
-- Runs of the vector operations and instances of their theorems.
use crts.Prelude.{
  ℕ, ◌≡◌, refl, arith, some, List, [], ◌∷◌, ◌++◌, replicate, length, length-replicate,
}
use crts.Vec.{
  Vec, write, move, vec_free, vec_grow, grow_capacity, vec_append_many, vec_append, vec_insert_many,
  vec_insert,
}
use crts.Vec.Grow.{Stores}
use crts.Vec.Refines.{vec_insert_many-Stores}

abbrev zeros : ℕ → List ℕ
zeros n = replicate n 0

length-zeros : (n : ℕ) → length (zeros n) ≡ n
length-zeros n = length-replicate n 0

abbrev three : Vec ℕ
three = record { used = 3; capacity = 4; elem_cells = 7 ∷ 8 ∷ 9 ∷ 0 ∷ [] }

three-Stores : Stores three (7 ∷ 8 ∷ 9 ∷ [])
three-Stores = record { spare = 0 ∷ []; cells = refl; count = refl; size = refl }

append_grows :
    vec_append_many 200 zeros three (1 ∷ 2 ∷ [])
    ≡ some record { used = 5; capacity = 8; elem_cells = 7 ∷ 8 ∷ 9 ∷ 1 ∷ 2 ∷ 0 ∷ 0 ∷ 0 ∷ [] }
unfolding vec_append_many vec_grow grow_capacity write
append_grows = refl

insert_first :
    vec_insert 200 zeros three 0 5
    ≡ some record { used = 4; capacity = 4; elem_cells = 5 ∷ 7 ∷ 8 ∷ 9 ∷ [] }
unfolding vec_insert vec_insert_many vec_grow grow_capacity write move
insert_first = refl

append_one :
    vec_append 200 zeros (vec_free three) 5
    ≡ some record { used = 1; capacity = 1; elem_cells = 5 ∷ [] }
unfolding vec_append vec_append_many vec_grow grow_capacity write vec_free
append_one = refl

vec_insert_many-Stores_example :
    (v' : Vec ℕ) × (vec_insert_many 200 zeros three 1 (1 ∷ 2 ∷ []) ≡ some v')
    × Stores v' ((7 ∷ []) ++ (1 ∷ 2 ∷ []) ++ (8 ∷ 9 ∷ []))
vec_insert_many-Stores_example =
    vec_insert_many-Stores 200 zeros (omega arith) length-zeros three (7 ∷ []) (8 ∷ 9 ∷ [])
      (1 ∷ 2 ∷ []) three-Stores
