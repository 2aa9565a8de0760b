-- ===== src/Chunk/Unmap/Tests.antt =====
-- Runs of the delayed freeing and instances of its theorems.
use crts.Prelude.{
  ℕ, ◌≡◌, refl, true, false, Option, none, some, List, [], ◌∷◌, ◌>>=◌, ◌==◌, arith, if◌then◌else◌,
}
use crts.Pool.{pool_init, pool_alloc, pool_put, pool_get, pool_grow, pool_flush, pool_avail, walk}
use crts.Chunk.{
  VirtAllocator, find, modify, delete, prev_from, next, insert_before, insert_after, unlink,
  coalesce, join_before, join_after, insert_free, first_class, find_size, split_begin, split_end,
  reserve_handles, need_handles, give_back, carve, find_chunk, commit_chunk, new_chunk, setup_arena,
}
use crts.Chunk.Valid.{IsArena}
use crts.Chunk.Tests.{linux, full, first_chunk, full-IsArena, commits}
use crts.Chunk.Unmap.{
  UnmapAllocator, first_fit, reuse, free_popped, free_emergency, free_delayed, try_new_chunk,
  unmap_new_chunk,
}
use crts.Chunk.New.{IsRequest}
use crts.Num.Tests.{leading_zeros-IsClz}
use crts.Chunk.Unmap.Emergency.{free_emergency-IsArena}
use crts.Chunk.Unmap.Once.{Ends, unmap_new_chunk-Ends}

-- The only chunk of the arena is to be freed later.
abbrev waiting : UnmapAllocator
waiting = record { va = full; list = 7 ∷ []; deadlines = λ h. 100; timeout = 100; has_task = false }

free_emergency-IsArena_example :
    (va' : VirtAllocator) × (objs' : List ℕ) × (free_emergency linux waiting
      ≡ some (record waiting { va = va'; list = [] }, false))
    × IsArena linux 65536 69632 va' objs' []
free_emergency-IsArena_example =
    free_emergency-IsArena linux 65536 69632 waiting [] (first_chunk ∷ []) [] full-IsArena
      ([], first_chunk, [], refl, refl, refl)

-- Two pages are asked for, of which there are none, so the chunk that waits is freed.
request : IsRequest linux 65536 69632 8192 0
request = record {
  spec = leading_zeros-IsClz;
  base = (16, refl);
  top = omega arith;
  pages = (1, refl);
  aligns = (0, refl);
  small = omega arith;
}

unmap_new_chunk-Ends_example :
    Ends linux 65536 69632 waiting
      (first_chunk ∷ [])
      []
      8192
      0
      (unmap_new_chunk 3 linux (λ n. none) commits waiting 8192 0)
unmap_new_chunk-Ends_example =
    unmap_new_chunk-Ends linux 65536 69632 commits waiting [] (first_chunk ∷ []) [] 8192 0 request
      full-IsArena ([], first_chunk, [], refl, refl, refl) 2 (λ n. none) tt

abbrev handle_of : Option (UnmapAllocator × Option ℕ) → Option ℕ
handle_of none = none
handle_of (some r) = r.1

-- Two pages, of which each is a chunk that is to be freed later.
abbrev pages : UnmapAllocator
pages = record {
  va = record {
    addr =
        record { handle = 7; start = 65536; size = 4096; used = true }
        ∷ record { handle = 8; start = 69632; size = 4096; used = true }
        ∷ [];
    sizes = λ cls. [];
    handles = pool_init 100;
    small_pages = false;
  };
  list = 7 ∷ 8 ∷ [];
  deadlines = λ h. 100;
  timeout = 100;
  has_task = true;
}

abbrev ask : UnmapAllocator → Option (UnmapAllocator × Option ℕ)
ask ua = unmap_new_chunk 3 linux (λ n. some 1000000) commits ua 8192 0

-- A chunk of two pages is not given, but it is when one asks again.
first_none : handle_of (ask pages) ≡ none
unfolding setup_arena pool_init new_chunk commit_chunk find_chunk need_handles reserve_handles
    pool_avail walk pool_grow pool_flush pool_alloc pool_put pool_get find_size first_class carve
    split_begin split_end give_back insert_free join_before join_after coalesce find modify delete
    prev_from next insert_before insert_after unlink unmap_new_chunk try_new_chunk reuse first_fit
    free_emergency free_popped
first_none = refl

again_some : handle_of (ask pages >>= λ r. ask r.0) ≡ some 7
unfolding setup_arena pool_init new_chunk commit_chunk find_chunk need_handles reserve_handles
    pool_avail walk pool_grow pool_flush pool_alloc pool_put pool_get find_size first_class carve
    split_begin split_end give_back insert_free join_before join_after coalesce find modify delete
    prev_from next insert_before insert_after unlink unmap_new_chunk try_new_chunk reuse first_fit
    free_emergency free_popped
again_some = refl

-- A page is reused.
reused : handle_of (unmap_new_chunk 3 linux (λ n. none) commits pages 4096 0) ≡ some 7
unfolding setup_arena pool_init new_chunk commit_chunk find_chunk need_handles reserve_handles
    pool_avail walk pool_grow pool_flush pool_alloc pool_put pool_get find_size first_class carve
    split_begin split_end give_back insert_free join_before join_after coalesce find modify delete
    prev_from next insert_before insert_after unlink unmap_new_chunk try_new_chunk reuse first_fit
    free_emergency free_popped
reused = refl

later :
    free_delayed true 50 (record waiting { list = [] }) 7
    ≡ (record waiting { list = 7 ∷ []; deadlines = λ k. if k == 7 then 150 else 100 }, true)
unfolding free_delayed
later = refl
