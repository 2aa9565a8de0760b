-- ===== src/Blocks.antt =====
-- native/blockman.c, the manager of the blocks that the heap is made of.
mod Managed
pub mod Tests
use crts.Prelude.{
  ℕ, zero, suc, ◌+◌, Bool, true, false, not, ◌&&◌, List, [], ◌∷◌, ◌++◌, length, leb, ltb, ◌==◌,
  if◌then◌else◌,
}

-- ChiBlockManager; a block and a chunk are the addresses where they start. Addresses and sizes are
-- in bytes, the null pointer is 0.
pub record BlockManager : Type 0 where
  pub next_block : ℕ
  pub chunk_end : ℕ
  pub block_size : ℕ
  pub chunk_size : ℕ
  pub blocks_count : ℕ
  pub free : List ℕ
  pub chunks : List ℕ

unfoldable pub manager_setup : ℕ → ℕ → BlockManager
manager_setup block_size chunk_size = record {
  next_block = 0;
  chunk_end = 0;
  block_size = block_size;
  chunk_size = chunk_size;
  blocks_count = 0;
  free = [];
  chunks = [];
}

-- freshBlock; `start` is the chunk that chiBlockManagerChunkNew returns.
unfoldable pub fresh_block : BlockManager → ℕ → ℕ × BlockManager
fresh_block bm start =
    let block_end = bm.next_block + bm.block_size in
    let next = record bm {
      next_block = if block_end == bm.chunk_end then 0 else block_end;
      blocks_count = bm.blocks_count + 1;
    } in
    let new = record bm {
      chunk_end = start + bm.chunk_size;
      next_block = start + bm.block_size;
      chunks = bm.chunks ++ start ∷ [];
      blocks_count = bm.blocks_count + 1;
    } in
    if not (bm.next_block == 0) && leb block_end bm.chunk_end
    then (bm.next_block, next)
    else (start, new)

abbrev pub pop_or : List ℕ → BlockManager → ℕ × BlockManager → ℕ × BlockManager
pop_or [] bm fresh = fresh
pop_or (b ∷ rest) bm fresh = (b, record bm { free = rest })

-- chiBlockManagerAlloc, without the hook.
unfoldable pub manager_alloc : BlockManager → ℕ → ℕ × BlockManager
manager_alloc bm start = pop_or bm.free bm (fresh_block bm start)

-- freeChunkList, with the chunks that it frees.
unfoldable pub free_chunk_list : BlockManager → BlockManager × List ℕ
free_chunk_list bm =
    let reset = record bm {
      chunks = [];
      free = [];
      next_block = 0;
      chunk_end = 0;
      blocks_count = 0;
    } in
    if bm.blocks_count == length bm.free then (reset, bm.chunks) else (bm, [])

unfoldable pub manager_free : BlockManager → ℕ → BlockManager × List ℕ
manager_free bm b = free_chunk_list (record bm { free = b ∷ bm.free })

unfoldable pub manager_free_list : BlockManager → List ℕ → BlockManager × List ℕ
manager_free_list bm [] = (bm, [])
manager_free_list bm (b ∷ list) = free_chunk_list (record bm { free = bm.free ++ b ∷ list })
