-- ===== src/Chunk/Tests.antt =====
-- Runs of the chunk allocator and instances of its theorems.
use crts.Prelude.{
  ℕ, ◌+◌, ◌*◌, ◌^◌, ◌≤◌, ◌<◌, ◌≡◌, ◌⊎◌, refl, ap, ◌∙◌, Bool, true, false, Option, none, some, List,
  [], ◌∷◌, arith, ◌==◌, inr, ◌>>=◌,
}
use crts.Prelude.Counts.{bit, count}
use crts.Pool.{pool_init, pool_alloc, pool_put, pool_get, pool_grow, pool_flush, pool_avail, walk}
use crts.Pool.Stores.{Stores, row}
use crts.Num.Tests.{leading_zeros, leading_zeros-IsClz}
use crts.Chunk.{
  Config, Chunk, VirtAllocator, find, modify, delete, prev_from, next, insert_before, insert_after,
  unlink, coalesce, join_before, join_after, insert_free, first_class, find_size, split_begin,
  split_end, reserve_handles, need_handles, give_back, carve, find_chunk, commit_chunk, new_chunk,
  setup_arena,
}
use crts.Chunk.Valid.{IsPages, IsArena, taken}
use crts.Chunk.Free.{insert_free-IsArena}
use crts.Chunk.Finds.{find_size-finds}
use crts.Chunk.Supply.{IsSupply}
use crts.Chunk.New.{IsRequest, Fails, Gives, new_chunk-IsArena}
use crts.Chunk.Steps.{setup_arena-IsArena, allocate, Reaches, initial, step, in_use-disjoint}

abbrev pub linux : Config
linux = record { min_shift = 12; max_class = 24; clz = leading_zeros }

-- Sixteen pages from address 65536; handles of 100 bytes.
abbrev empty : VirtAllocator
empty = setup_arena linux 100 7 65536 65536 false

abbrev pub commits : ℕ → ℕ → Bool → Bool
commits start size huge = true

abbrev ended : Option (VirtAllocator × Option ℕ) → VirtAllocator
ended none = empty
ended (some r) = r.0

abbrev one : VirtAllocator
one = ended (new_chunk linux (some 1000000) commits empty 4096 0)

abbrev two : VirtAllocator
two = ended (new_chunk linux none commits one 8192 8192)

addr_two :
    two.addr
    ≡ record { handle = 7; start = 65536; size = 4096; used = true }
      ∷ record { handle = 1000100; start = 69632; size = 4096; used = false }
      ∷ record { handle = 1000000; start = 73728; size = 8192; used = true }
      ∷ record { handle = 1000200; start = 81920; size = 49152; used = false }
      ∷ []
unfolding setup_arena pool_init new_chunk commit_chunk find_chunk need_handles reserve_handles
    pool_avail walk pool_grow pool_flush pool_alloc pool_put pool_get find_size first_class carve
    split_begin split_end give_back insert_free join_before join_after coalesce find modify delete
    prev_from next insert_before insert_after unlink
addr_two = refl

abbrev pub first_chunk : Chunk
first_chunk = record { handle = 7; start = 65536; size = 4096; used = true }

abbrev second_chunk : Chunk
second_chunk = record { handle = 1000000; start = 73728; size = 8192; used = true }

one_is_new : new_chunk linux (some 1000000) commits empty 4096 0 ≡ some (one, some 7)
unfolding setup_arena pool_init new_chunk commit_chunk find_chunk need_handles reserve_handles
    pool_avail walk pool_grow pool_flush pool_alloc pool_put pool_get find_size first_class carve
    split_begin split_end give_back insert_free join_before join_after coalesce find modify delete
    prev_from next insert_before insert_after unlink
one_is_new = refl

two_is_new : new_chunk linux none commits one 8192 8192 ≡ some (two, some 1000000)
unfolding setup_arena pool_init new_chunk commit_chunk find_chunk need_handles reserve_handles
    pool_avail walk pool_grow pool_flush pool_alloc pool_put pool_get find_size first_class carve
    split_begin split_end give_back insert_free join_before join_after coalesce find modify delete
    prev_from next insert_before insert_after unlink
two_is_new = refl

-- Whatever the order in which they are freed, the arena is one free chunk again.
all_freed :
    (insert_free linux two 7 >>= λ va. insert_free linux va 1000000 >>= λ va'. some va'.addr)
    ≡ some (record { handle = 7; start = 65536; size = 65536; used = false } ∷ [])
unfolding setup_arena pool_init new_chunk commit_chunk find_chunk need_handles reserve_handles
    pool_avail walk pool_grow pool_flush pool_alloc pool_put pool_get find_size first_class carve
    split_begin split_end give_back insert_free join_before join_after coalesce find modify delete
    prev_from next insert_before insert_after unlink
all_freed = refl

request :
    (size align : ℕ)
    → IsPages 4096 size
    → (k : ℕ) → align ≡ 4096 * k
    → size + align < 2 ^ 64
    → IsRequest linux 65536 131072 size align
request size align pages k e small = record {
  spec = leading_zeros-IsClz;
  base = (16, refl);
  top = omega arith;
  pages = pages;
  aligns = (k, e);
  small = small;
}

empty-IsArena : IsArena linux 65536 131072 empty [] []
empty-IsArena = setup_arena-IsArena linux 100 7 65536 65536 false (omega arith) (15, refl)

-- New memory from 1000000 is unlike the only handle, which is 7.
empty-IsSupply :
    (objs : List ℕ) → Stores empty.handles objs → IsSupply linux empty objs (some 1000000)
unfolding setup_arena pool_init
empty-IsSupply objs s =
    let room : 0 + s.fresh * 100 ≤ 0 = s.room in
    let no_fresh : s.fresh ≡ 0 = omega arith in
    let no_objs : objs ≡ [] = s.objects ∙ ap (row 100 0) no_fresh in
    (
      omega arith,
      λ h low high.
          (let no : (7 == h) ≡ false = ground arith in
            omega (arith, ap bit no, ap (count (λ k. k == h)) no_objs)),
    )

new_chunk-IsArena_example :
    Fails linux 65536 131072 [] (new_chunk linux (some 1000000) commits empty 4096 0)
    ⊎ Gives linux 65536 131072 [] 4096 0 (new_chunk linux (some 1000000) commits empty 4096 0)
new_chunk-IsArena_example =
    new_chunk-IsArena linux 65536 131072 empty [] [] (some 1000000) commits 4096 0
      (request 4096 0 (0, refl) 0 refl (omega arith)) empty-IsArena
      (empty-IsSupply [] (empty-IsArena.stores))

steps : Reaches linux 65536 131072 empty two
steps =
    step one two
      (step empty one initial (
        allocate empty one (some 1000000) commits 4096 0 (some 7)
          (request 4096 0 (0, refl) 0 refl (omega arith)) empty-IsSupply one_is_new))
      (allocate one two none commits 8192 8192 (some 1000000)
        (request 8192 8192 (1, refl) 2 refl (omega arith)) (λ objs s. tt) two_is_new)

taken_two : taken two.addr ≡ first_chunk ∷ second_chunk ∷ []
unfolding setup_arena pool_init new_chunk commit_chunk find_chunk need_handles reserve_handles
    pool_avail walk pool_grow pool_flush pool_alloc pool_put pool_get find_size first_class carve
    split_begin split_end give_back insert_free join_before join_after coalesce find modify delete
    prev_from next insert_before insert_after unlink
taken_two = refl

in_use-disjoint_example : (65536 ≤ 65536) × (65536 + 4096 ≤ 73728) × (73728 + 8192 ≤ 65536 + 65536)
in_use-disjoint_example =
    in_use-disjoint linux 100 7 65536 65536 false two [] first_chunk [] second_chunk []
      (omega arith) (15, refl) steps taken_two

-- An arena of one chunk in use.
abbrev pub full : VirtAllocator
full = record {
  addr = first_chunk ∷ [];
  sizes = λ cls. [];
  handles = pool_init 100;
  small_pages = true;
}

pub full-IsArena : IsArena linux 65536 69632 full [] (first_chunk ∷ [])
unfolding pool_init
full-IsArena = record {
  stores = record {
    fresh = 0;
    some_object = omega arith;
    room = omega arith;
    no_more = omega arith;
    objects = refl;
  };
  own = λ h. ground arith;
  tiles = (refl, (0, refl), refl);
  apart = (inr tt, tt);
  kept = refl;
  listed = λ cls h. refl;
}

insert_free-IsArena_example :
    (va' : VirtAllocator) × (objs' : List ℕ) × (insert_free linux full 7 ≡ some va')
    × IsArena linux 65536 69632 va' objs' []
insert_free-IsArena_example =
    insert_free-IsArena linux 65536 69632 full [] [] first_chunk [] full-IsArena

abbrev whole_arena : Chunk
whole_arena = record { handle = 7; start = 65536; size = 65536; used = false }

find_size-finds_example :
    (va' : VirtAllocator) × (h : ℕ) × (find_size linux empty 8192 ≡ (va', some h))
unfolding setup_arena
find_size-finds_example =
    find_size-finds linux 65536 131072 empty [] [] 8192 [] whole_arena [] empty-IsArena refl refl
      (omega arith) (omega arith)
