-- ===== src/Chunk/Unmap.antt =====
-- native/chunk.c with the task that unmaps chunks later (CHI_UNMAP_TASK_ENABLED).
mod Emergency
mod Once
pub mod Tests
use crts.Prelude.{
  ℕ, zero, suc, ◌+◌, Bool, true, false, not, ◌&&◌, Option, none, some, List, [], ◌∷◌, ◌++◌, ltb,
  ◌==◌, if◌then◌else◌, ◌>>=◌,
}
use crts.Chunk.{Config, Chunk, VirtAllocator, find, unlink, aligned, free_chunk, new_chunk}

-- The list has the handles of the chunks that are to be freed; `deadlines` has the `_unmapTimeout`
-- of each.
pub record UnmapAllocator : Type 0 where
  pub va : VirtAllocator
  pub list : List ℕ
  pub deadlines : ℕ → ℕ
  pub timeout : ℕ
  pub has_task : Bool

-- The first chunk of the list that fits. A missing handle is a fault, here the outer none.
unfoldable pub first_fit : List ℕ → List Chunk → ℕ → ℕ → Option (Option ℕ)
first_fit [] chunks size align = some none
first_fit (h ∷ hs) chunks size align =
    let rest = first_fit hs chunks size align in
    find h chunks >>= λ c. if (c.size == size) && aligned c.start align then some (some h) else rest

abbrev pub take_reused : UnmapAllocator → Option ℕ → UnmapAllocator × Option ℕ
take_reused ua none = (ua, none)
take_reused ua (some h) = (record ua { list = unlink h ua.list }, some h)

-- uaReuse
unfoldable pub reuse : UnmapAllocator → ℕ → ℕ → Option (UnmapAllocator × Option ℕ)
reuse ua size align = first_fit ua.list ua.va.addr size align >>= λ fit. some (take_reused ua fit)

abbrev pub is_chunk : Option ℕ → Bool
is_chunk none = false
is_chunk (some h) = true

-- The loop of uaFreeEmergency over the handles that it pops, with what is then in `chunk`.
unfoldable pub free_popped : Config → VirtAllocator → List ℕ → Option (VirtAllocator × Option ℕ)
free_popped cfg va [] = some (va, none)
free_popped cfg va (h ∷ hs) = free_chunk cfg va h >>= λ va'. free_popped cfg va' hs

unfoldable pub free_emergency : Config → UnmapAllocator → Option (UnmapAllocator × Bool)
free_emergency cfg ua =
    free_popped cfg ua.va ua.list >>= λ r. some (record ua { va = r.0; list = [] }, is_chunk r.1)

-- uaFreeDelayed at the time `now`; `creates` says whether chiTaskTryCreate succeeds.
abbrev pub expired : (ℕ → ℕ) → ℕ → List ℕ → Bool
expired deadlines now [] = false
expired deadlines now (h ∷ hs) = ltb (deadlines h) now

unfoldable pub free_delayed : Bool → ℕ → UnmapAllocator → ℕ → UnmapAllocator × Bool
free_delayed creates now ua h =
    let deadlines : ℕ → ℕ = λ k. if k == h then now + ua.timeout else ua.deadlines k in
    let list = ua.list ++ h ∷ [] in
    let queued : UnmapAllocator = record ua { list = list; deadlines = deadlines } in
    let started : UnmapAllocator = record queued { has_task = creates } in
    if not (expired deadlines now list)
    then (queued, true)
    else if ua.has_task
    then (queued, true)
    else (started, creates)

-- uaFreeChunk
unfoldable pub unmap_free_chunk : Config → Bool → ℕ → UnmapAllocator → ℕ → Option UnmapAllocator
unmap_free_chunk cfg creates now ua h =
    let r = free_delayed creates now ua h in
    let freed = free_emergency cfg r.0 >>= λ e. some e.0 in if r.1 then some r.0 else freed

-- One try of uaNewChunk: a chunk, or none and whether it tries again.
abbrev pub or_emergency :
    Config → UnmapAllocator → Option ℕ → Option (UnmapAllocator × Option ℕ × Bool)
or_emergency cfg ua (some h) = some (ua, some h, false)
or_emergency cfg ua none = free_emergency cfg ua >>= λ e. some (e.0, none, e.1)

abbrev pub or_new :
    Config
    → Option ℕ
    → (ℕ → ℕ → Bool → Bool)
    → UnmapAllocator
    → Option ℕ
    → ℕ
    → ℕ
    → Option (UnmapAllocator × Option ℕ × Bool)
or_new cfg mem commit ua (some h) size align = some (ua, some h, false)
or_new cfg mem commit ua none size align =
    new_chunk cfg mem commit ua.va size align >>= λ n. or_emergency cfg (record ua { va = n.0 }) n.1

unfoldable pub try_new_chunk :
    Config
    → Option ℕ
    → (ℕ → ℕ → Bool → Bool)
    → UnmapAllocator
    → ℕ
    → ℕ
    → Option (UnmapAllocator × Option ℕ × Bool)
try_new_chunk cfg mem commit ua size align =
    reuse ua size align >>= λ r. or_new cfg mem commit r.0 r.1 size align

-- The loop on fuel, with what chiVirtAlloc returns in each round.
unfoldable pub unmap_new_chunk :
    ℕ
    → Config
    → (ℕ → Option ℕ)
    → (ℕ → ℕ → Bool → Bool)
    → UnmapAllocator
    → ℕ
    → ℕ
    → Option (UnmapAllocator × Option ℕ)
unmap_new_chunk zero cfg mem commit ua size align = none
unmap_new_chunk (suc fuel) cfg mem commit ua size align =
    let again = unmap_new_chunk fuel cfg mem commit in
    try_new_chunk cfg (mem fuel) commit ua size align >>= λ t.
    if t.2 then again t.0 size align else some (t.0, t.1)
