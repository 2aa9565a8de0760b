-- ===== src/Blocks/Tests.antt =====
-- Runs of the block manager and instances of its theorems.
use crts.Prelude.{◌≡◌, refl, [], ◌∷◌, arith}
use crts.Blocks.{
  BlockManager, manager_setup, fresh_block, manager_alloc, free_chunk_list, manager_free,
  manager_free_list,
}
use crts.Blocks.Managed.{
  IsManaged, IsNew, Frees, manager_setup-IsManaged, manager_alloc-IsManaged, manager_free-IsManaged,
}

-- Blocks of 64 bytes in chunks of 128.
abbrev empty : BlockManager
empty = manager_setup 64 128

empty-IsManaged : IsManaged empty []
empty-IsManaged = manager_setup-IsManaged 64 128 (omega arith) (omega arith)

empty-IsNew : IsNew empty [] 1024
unfolding manager_setup
empty-IsNew = (omega arith, λ x low high. refl)

one-IsManaged : IsManaged ((manager_alloc empty 1024).1) ((manager_alloc empty 1024).0 ∷ [])
one-IsManaged = manager_alloc-IsManaged empty [] 1024 empty-IsManaged empty-IsNew

manager_alloc-IsManaged_example :
    IsManaged ((manager_alloc empty 1024).1) ((manager_alloc empty 1024).0 ∷ [])
manager_alloc-IsManaged_example = manager_alloc-IsManaged empty [] 1024 empty-IsManaged empty-IsNew

manager_free-IsManaged_example :
    Frees
      ((manager_alloc empty 1024).1)
      []
      (manager_free ((manager_alloc empty 1024).1) ((manager_alloc empty 1024).0))
manager_free-IsManaged_example =
    manager_free-IsManaged ((manager_alloc empty 1024).1) [] ((manager_alloc empty 1024).0) []
      one-IsManaged

-- Two blocks of one chunk, the second of which leaves nothing; the chunk is freed with them.
both : (manager_alloc ((manager_alloc empty 1024).1) 2048).0 ≡ 1088
unfolding manager_alloc fresh_block manager_setup
both = refl

all_freed :
    (manager_free_list ((manager_alloc ((manager_alloc empty 1024).1) 2048).1) (1024 ∷ 1088 ∷ [])).1
    ≡ 1024 ∷ []
unfolding manager_alloc fresh_block manager_setup manager_free_list free_chunk_list
all_freed = refl
