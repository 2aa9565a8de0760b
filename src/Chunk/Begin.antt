-- ===== src/Chunk/Begin.antt =====
-- Splitting off what stands before an aligned address.
use crts.Prelude.{
  ℕ, suc, ◌+◌, ◌-◌, ◌%◌, ◌^◌, ◌≤◌, ◌<◌, ◌≡◌, refl, sym, ap, subst, ◌∙◌, true, false, Option, none,
  some, List, ◌∷◌, ◌++◌, length, arith, ◌==◌, Bool-cases, inl, inr, dec_lt, pick_true, pick_false,
}
use crts.Prelude.Counts.{count}
use crts.Pool.{Pool}
use crts.Chunk.{
  Config, page, Chunk, VirtAllocator, find, modify, insert_before, aligned, align_up, move_to,
  split_begin,
}
use crts.Chunk.Places.{find-at, modify-at, insert_before-at}
use crts.Chunk.Valid.{taken-split, IsPages, Tiles, IsArena, Tiles-split}
use crts.Chunk.Listing.{itself}
use crts.Chunk.Join.{alone-at}
use crts.Chunk.Split.{parts, handle_of, gets, replace-IsArena}
use crts.Chunk.Pages.{
  IsMultiple, IsMultiple-add, IsPages-sub, Tiles-start, Tiles-bound, align_up_lem,
  align_up-IsMultiple,
}

-- An address that is not aligned is no multiple of the alignment, which is not zero.
not_aligned : (start align : ℕ) → aligned start align ≡ false → (0 < align) × (0 < start % align)
not_aligned start align e = elim (Bool-cases (align == 0)) [
  | inl z ↦ absurd (let wrong : true ≡ false = sym (pick_true _ _ z) ∙ e in cc)
  | inr nz ↦
      let rest : (start % align == 0) ≡ false = sym (pick_false _ _ nz) ∙ e in
      (ground arith, ground arith)
]

is_aligned : (start align : ℕ) → 0 < align → start % align ≡ 0 → aligned start align ≡ true
is_aligned start align pos exact = ground arith

lower : (a b align : ℕ) → a ≤ b → 0 < a % align → b % align ≡ 0 → a < b
lower a b align le off exact = elim (dec_lt a b) [
  | yes lt ↦ lt
  | no ge ↦ let same : a ≡ b = omega arith in absurd (omega (arith, ap (λ x. x % align) same))
]

begin-Tiles :
    (pg m hi start : ℕ) (b c : Chunk) (ys : List Chunk)
    → IsPages pg (start - c.start)
    → IsMultiple pg start
    → IsMultiple pg c.start
    → c.start < start
    → start < c.start + c.size
    → b.start ≡ c.start
    → b.size ≡ start - c.start
    → Tiles pg m (c ∷ ys) hi
    → Tiles pg m (b ∷ move_to start (start - c.start) c ∷ ys) hi
begin-Tiles pg m hi start b c ys pages mult mult' lt inside at size (from, (l, whole), rest) =
    let end : m + c.size ≡ m + b.size + (c.size - (start - c.start)) = omega arith in
    let left : c.size - (start - c.start) ≡ c.start + c.size - start = omega arith in
    let all = IsMultiple-add pg c.start c.size mult' (suc l, whole) in
    (
      omega arith,
      subst (IsPages pg) (sym size) pages,
      (
        omega arith,
        subst (IsPages pg) (sym left) (IsPages-sub pg (c.start + c.size) start all mult inside),
        subst (λ x. Tiles pg x ys hi) end rest,
      ),
    )

-- What stands before the first aligned address in a chunk in use is split off.
pub split_begin-IsArena :
    (cfg : Config) (lo hi : ℕ) (va : VirtAllocator) (objs : List ℕ) (ls : List Chunk) (c : Chunk)
    (rs : List Chunk) (size align : ℕ)
    → IsArena cfg lo hi va objs (ls ++ c ∷ rs)
    → 1 < length objs
    → IsMultiple (page cfg) lo
    → IsMultiple (page cfg) align
    → hi ≤ 2 ^ 64
    → 0 < size
    → size + align ≤ c.size
    → (va' : VirtAllocator) × (objs' : List ℕ) × (before : Option Chunk) × (d : Chunk)
      × (split_begin va c.handle align ≡ some (va', handle_of before))
      × IsArena cfg lo hi va' objs' (ls ++ (parts before ++ d ∷ rs))
      × (0 < length objs')
      × (d.handle ≡ c.handle)
      × (aligned d.start align ≡ true)
      × (size ≤ d.size)
unfolding split_begin
split_begin-IsArena cfg lo hi va objs ls c rs size align arena more base mult top some_size le =
    let (xs, ys, place, left, right, used) = taken-split va.addr ls c rs (arena.kept) in
    let (absent, absent') = alone-at objs va.addr xs c ys (arena.own) place in
    let found : find c.handle va.addr ≡ some c =
      ap (find c.handle) place ∙ find-at (c.handle) c xs ys (itself c.handle) absent in
    let (m, l, r) =
      Tiles-split (page cfg) lo hi xs (c ∷ ys)
        (subst (λ k. Tiles (page cfg) lo k hi) place (arena.tiles)) in
    let bound = Tiles-bound (page cfg) (m + c.size) hi ys r.2 in
    elim (Bool-cases (aligned c.start align)) [
      | inl e ↦ (
        va,
        objs,
        none,
        c,
        rw found (ap some (pick_true _ _ e)),
        arena,
        omega arith,
        refl,
        e,
        omega arith,
      )
      | inr e ↦
          let (pos, off) = not_aligned c.start align e in
          let (above, below, exact) = align_up_lem c.start align pos (omega (arith, r.0)) in
          let start = align_up c.start align in
          let lt : c.start < start = omega (arith, lower c.start start align above off exact) in
          let mult' = align_up-IsMultiple (page cfg) c.start align mult in
          let base' =
            subst (IsMultiple (page cfg)) (sym r.0) (Tiles-start (page cfg) lo m xs l base) in
          let (obj, rest, p', objects, got, stores) =
            gets va.handles objs (arena.stores) (omega arith) in
          let gap = start - c.start in
          let before : ℕ → Chunk =
            λ h. record { handle = h; start = c.start; size = gap; used = true } in
          let d = move_to start gap c in
          let split : ℕ × Pool → VirtAllocator = λ q. record va {
            addr =
                insert_before c.handle (before q.0) (modify c.handle (move_to start gap) va.addr);
            handles = q.1;
          } in
          let at : insert_before c.handle (before obj) (modify c.handle (move_to start gap) va.addr)
              ≡ xs ++ before obj ∷ d ∷ ys =
            ap (λ l. insert_before c.handle (before obj) (modify c.handle (move_to start gap) l))
              place
            ∙ ap (insert_before c.handle (before obj))
                (modify-at (c.handle) (move_to start gap) c xs ys (itself c.handle) absent absent')
            ∙ insert_before-at (c.handle) (before obj) d xs ys (itself c.handle) absent in
          (
            record va { addr = xs ++ before obj ∷ d ∷ ys; handles = p' },
            rest,
            some (before obj),
            d,
            rw found (
                ap some (
                  pick_false _ _ e
                  ∙ ap (λ (q : ℕ × Pool). (split q, some q.0)) got
                  ∙ ap (λ l. (record va { addr = l; handles = p' }, some obj)) at)),
            replace-IsArena cfg lo hi va objs rest p' ls xs c (before obj) d ys rs arena place left
                right stores (λ h. omega (arith, ap (count (λ k. k == h)) objects))
                (λ m t.
                  begin-Tiles (page cfg) m hi start (before obj) c ys
                    (IsPages-sub (page cfg) start c.start mult' base' lt) mult' base' lt
                    (omega arith) refl refl t)
                used refl used,
            omega (arith, ap length objects),
            refl,
            is_aligned start align pos exact,
            omega arith,
          )
    ]
