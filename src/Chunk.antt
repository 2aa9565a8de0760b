-- ===== src/Chunk.antt =====
-- native/chunk.c, the allocator of chunks in an arena (CHI_CHUNK_ARENA_ENABLED).
mod Places
pub mod Valid
mod Listing
mod Join
pub mod Free
mod Pages
mod Sizes
mod Classes
mod Finds
mod Supply
mod New
mod Steps
mod Split
mod Begin
pub mod Unmap
pub mod Tests
use crts.Prelude.{
  ℕ, zero, suc, ◌+◌, ◌-◌, ◌*◌, ◌/◌, ◌%◌, ◌^◌, Bool, true, false, not, ◌&&◌, Option, none, some,
  List, [], ◌∷◌, ◌++◌, leb, ltb, ◌==◌, if◌then◌else◌, ◌>>=◌,
}
use crts.Pool.{Pool, pool_init, pool_put, pool_get, pool_grow, pool_avail}

-- CHI_CHUNK_MIN_SHIFT, CHI_CHUNK_MAX and __builtin_clzll.
pub record Config : Type 0 where
  pub min_shift : ℕ
  pub max_class : ℕ
  pub clz : ℕ → ℕ

-- CHI_CHUNK_MIN_SIZE
abbrev pub page : Config → ℕ
page cfg = 2 ^ cfg.min_shift

-- ChiChunk; the handle is its address. The links are the lists of the allocator.
pub record Chunk : Type 0 where
  pub handle : ℕ
  pub start : ℕ
  pub size : ℕ
  pub used : Bool

-- The chunks in the order of their addresses, and the handles of the free ones by size class.
pub record VirtAllocator : Type 0 where
  pub addr : List Chunk
  pub sizes : ℕ → List ℕ
  pub handles : Pool
  pub small_pages : Bool

-- The lists are rings through their elements (generic/list.h); an element is its handle.
unfoldable pub find : ℕ → List Chunk → Option Chunk
find h [] = none
find h (c ∷ cs) = let rest = find h cs in if c.handle == h then some c else rest

unfoldable pub modify : ℕ → (Chunk → Chunk) → List Chunk → List Chunk
modify h f [] = []
modify h f (c ∷ cs) = (if c.handle == h then f c else c) ∷ modify h f cs

unfoldable pub delete : ℕ → List Chunk → List Chunk
delete h [] = []
delete h (c ∷ cs) = let rest = delete h cs in if c.handle == h then cs else c ∷ rest

unfoldable pub prev_from : ℕ → Chunk → List Chunk → Option Chunk
prev_from h b [] = none
prev_from h b (c ∷ cs) = let rest = prev_from h c cs in if c.handle == h then some b else rest

abbrev pub prev : ℕ → List Chunk → Option Chunk
prev h [] = none
prev h (c ∷ cs) = prev_from h c cs

abbrev pub head : List Chunk → Option Chunk
head [] = none
head (c ∷ cs) = some c

unfoldable pub next : ℕ → List Chunk → Option Chunk
next h [] = none
next h (c ∷ cs) = let rest = next h cs in if c.handle == h then head cs else rest

unfoldable pub insert_before : ℕ → Chunk → List Chunk → List Chunk
insert_before h b [] = []
insert_before h b (c ∷ cs) =
    let rest = insert_before h b cs in if c.handle == h then b ∷ c ∷ cs else c ∷ rest

unfoldable pub insert_after : ℕ → Chunk → List Chunk → List Chunk
insert_after h b [] = []
insert_after h b (c ∷ cs) =
    let rest = insert_after h b cs in if c.handle == h then c ∷ b ∷ cs else c ∷ rest

unfoldable pub unlink : ℕ → List ℕ → List ℕ
unlink h [] = []
unlink h (k ∷ ks) = let rest = unlink h ks in if k == h then ks else k ∷ rest

-- A free chunk is in one of the lists, and leaves it.
abbrev pub list_delete : ℕ → (ℕ → List ℕ) → ℕ → List ℕ
list_delete h sizes cls = unlink h (sizes cls)

abbrev pub list_append : ℕ → ℕ → (ℕ → List ℕ) → ℕ → List ℕ
list_append at h sizes cls = if cls == at then sizes cls ++ h ∷ [] else sizes cls

abbrev pub log2_floor : (ℕ → ℕ) → ℕ → ℕ
log2_floor clz x = 63 - clz x

abbrev pub class_smaller : Config → ℕ → ℕ
class_smaller cfg size = log2_floor cfg.clz size - cfg.min_shift

abbrev pub class_larger : Config → ℕ → ℕ
class_larger cfg size =
    let cls = class_smaller cfg size in
    if ltb (2 ^ (cls + cfg.min_shift)) size then cls + 1 else cls

abbrev pub use_as : Bool → Chunk → Chunk
use_as used c = record c { used = used }

abbrev pub grow_by : ℕ → Chunk → Chunk
grow_by n c = record c { size = c.size + n }

-- The chunk `s` after `h` becomes a part of it. A missing handle is a fault, here none.
unfoldable pub coalesce : VirtAllocator → ℕ → ℕ → Option VirtAllocator
coalesce va h s = find s va.addr >>= λ c. some record va {
  addr = modify h (grow_by c.size) (delete s va.addr);
  handles = pool_put va.handles s;
}

unfoldable pub join_before : VirtAllocator → ℕ → Option Chunk → Option (VirtAllocator × ℕ)
join_before va h none = some (va, h)
join_before va h (some before) =
    let joined =
      coalesce (record va { sizes = list_delete before.handle va.sizes }) before.handle h in
    if before.used then some (va, h) else (joined >>= λ va'. some (va', before.handle))

unfoldable pub join_after : VirtAllocator → ℕ → Option Chunk → Option VirtAllocator
join_after va h none = some va
join_after va h (some after) =
    let joined =
      coalesce (record va { sizes = list_delete after.handle va.sizes }) h after.handle in
    if after.used then some va else joined

-- vaInsertFree
unfoldable pub insert_free : Config → VirtAllocator → ℕ → Option VirtAllocator
insert_free cfg va h =
    let freed = record va { addr = modify h (use_as false) va.addr } in
    join_before freed h (prev h freed.addr) >>= λ r.
    join_after r.0 r.1 (next r.1 (r.0).addr) >>= λ va'. find r.1 va'.addr >>= λ c.
    some record va' { sizes = list_append (class_smaller cfg c.size) r.1 va'.sizes }

-- chiVirtDecommit is left out.
abbrev pub free_chunk : Config → VirtAllocator → ℕ → Option VirtAllocator
free_chunk cfg va h = insert_free cfg va h

-- The loop over the classes, for so many rounds, and the pop.
abbrev pub first_in : List ℕ → Option ℕ → Option ℕ
first_in [] rest = rest
first_in (h ∷ hs) rest = some h

unfoldable pub first_class : ℕ → ℕ → (ℕ → List ℕ) → Option ℕ
first_class zero cls sizes = none
first_class (suc rounds) cls sizes = first_in (sizes cls) (first_class rounds (suc cls) sizes)

abbrev pub take_out : VirtAllocator → Option ℕ → VirtAllocator × Option ℕ
take_out va none = (va, none)
take_out va (some h) =
    (record va { addr = modify h (use_as true) va.addr; sizes = list_delete h va.sizes }, some h)

unfoldable pub find_size : Config → VirtAllocator → ℕ → VirtAllocator × Option ℕ
find_size cfg va size =
    let cls = class_larger cfg size in
    take_out va (first_class (suc cfg.max_class - cls) cls va.sizes)

-- `!(start & (align - 1))`, for a power of two.
abbrev pub aligned : ℕ → ℕ → Bool
aligned start align = if align == 0 then true else start % align == 0

-- CHI_ALIGNUP, for a power of two: the mask clears what is left of the division.
abbrev pub align_up : ℕ → ℕ → ℕ
align_up i align = (i + (align - 1)) % 2 ^ 64 / align * align

abbrev pub move_to : ℕ → ℕ → Chunk → Chunk
move_to start less c = record c { start = start; size = c.size - less }

abbrev pub shrink_by : ℕ → Chunk → Chunk
shrink_by n c = record c { size = c.size - n }

unfoldable pub split_begin : VirtAllocator → ℕ → ℕ → Option (VirtAllocator × Option ℕ)
split_begin va h align = find h va.addr >>= λ c.
    let start = align_up c.start align in
    let size = start - c.start in
    let before : Chunk = record {
      handle = (pool_get va.handles).0;
      start = c.start;
      size = size;
      used = true;
    } in
    let split = record va {
      addr = insert_before h before (modify h (move_to start size) va.addr);
      handles = (pool_get va.handles).1;
    } in
    some (if aligned c.start align then (va, none) else (split, some before.handle))

unfoldable pub split_end : VirtAllocator → ℕ → ℕ → Option (VirtAllocator × Option ℕ)
split_end va h size = find h va.addr >>= λ c.
    let rest = c.size - size in
    let after : Chunk = record {
      handle = (pool_get va.handles).0;
      start = c.start + size;
      size = rest;
      used = true;
    } in
    let split = record va {
      addr = insert_after h after (modify h (shrink_by rest) va.addr);
      handles = (pool_get va.handles).1;
    } in
    some (if c.size == size then (va, none) else (split, some after.handle))

-- `mem` is what chiVirtAlloc returns (CHI_SYSTEM_HAS_VIRTALLOC).
unfoldable pub reserve_handles : Config → VirtAllocator → Option ℕ → Option (VirtAllocator × Bool)
reserve_handles cfg va none = some (va, false)
reserve_handles cfg va (some start) =
    pool_grow va.handles start (page cfg) >>= λ p. some (record va { handles = p }, true)

unfoldable pub need_handles : Config → VirtAllocator → ℕ → Option ℕ → Option (VirtAllocator × Bool)
need_handles cfg va needed mem =
    let reserved = reserve_handles cfg va mem in
    if pool_avail va.handles needed then some (va, true) else reserved

unfoldable pub give_back : Config → VirtAllocator → Option ℕ → Option VirtAllocator
give_back cfg va none = some va
give_back cfg va (some h) = insert_free cfg va h

-- vaFind, once a chunk is found.
unfoldable pub carve : Config → VirtAllocator → Option ℕ → ℕ → ℕ → Option (VirtAllocator × Option ℕ)
carve cfg va none size align = some (va, none)
carve cfg va (some h) size align = split_begin va h align >>= λ b. split_end b.0 h size >>= λ a.
    give_back cfg a.0 b.1 >>= λ va'. give_back cfg va' a.1 >>= λ va''. some (va'', some h)

unfoldable pub find_chunk :
    Config → Option ℕ → VirtAllocator → ℕ → ℕ → Option (VirtAllocator × Option ℕ)
find_chunk cfg mem va size align = need_handles cfg va 2 mem >>= λ r.
    let found = find_size cfg r.0 (size + align) in
    let carved = carve cfg found.0 found.1 size align in if r.1 then carved else some (r.0, none)

abbrev pub alloc_huge : VirtAllocator → ℕ → Bool
alloc_huge va size = leb (2 ^ 21) size && not va.small_pages

-- vaNewChunk; `commit` is chiVirtCommit.
unfoldable pub commit_chunk :
    Config → (ℕ → ℕ → Bool → Bool) → VirtAllocator → Option ℕ → Option (VirtAllocator × Option ℕ)
commit_chunk cfg commit va none = some (va, none)
commit_chunk cfg commit va (some h) = find h va.addr >>= λ c.
    let undone = insert_free cfg va h >>= λ va'. some (va', none) in
    if commit c.start c.size (alloc_huge va c.size) then some (va, some h) else undone

unfoldable pub new_chunk :
    Config
    → Option ℕ
    → (ℕ → ℕ → Bool → Bool)
    → VirtAllocator
    → ℕ
    → ℕ
    → Option (VirtAllocator × Option ℕ)
new_chunk cfg mem commit va size align =
    find_chunk cfg mem va size align >>= λ r. commit_chunk cfg commit r.0 r.1

-- vaSetup: the whole arena is one free chunk, the handle of which is `arena`.
unfoldable pub setup_arena : Config → ℕ → ℕ → ℕ → ℕ → Bool → VirtAllocator
setup_arena cfg object arena start size small_pages = record {
  addr = record { handle = arena; start = start; size = size; used = false } ∷ [];
  sizes = list_append (class_smaller cfg size) arena (λ cls. []);
  handles = pool_init object;
  small_pages = small_pages;
}
