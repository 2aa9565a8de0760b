-- ===== src/Blocks/Managed.antt =====
-- Blocks never overlap, and the chunks are given back when all blocks are free.
use crts.Prelude.{
  ℕ, ◌+◌, ◌≤◌, ◌<◌, ◌≡◌, refl, sym, ap, subst, Bool, true, false, not, ◌&&◌, List, [], ◌∷◌, ◌++◌,
  length, length-append, leb, ltb, ◌==◌, arith, ==_iff, Bool-cases, List-cases, inl, inr,
  if◌then◌else◌, pick_true, pick_false,
}
use crts.Prelude.Counts.{bit, count, count-append}
use crts.Blocks.{
  BlockManager, fresh_block, pop_or, manager_alloc, free_chunk_list, manager_free,
  manager_free_list, manager_setup,
}

-- Whether an address lies in a block.
abbrev pub covers : ℕ → ℕ → ℕ → Bool
covers size x b = leb b x && ltb x (b + size)

-- Whether an address lies in what is left of the last chunk.
abbrev pub in_rest : BlockManager → ℕ → Bool
in_rest bm x = not (bm.next_block == 0) && (leb bm.next_block x && ltb x bm.chunk_end)

-- The blocks `used` are handed out. Each address lies in one free block, in one that is used or in
-- what is left of the last chunk, or in none of these; and the blocks are counted.
pub record IsManaged (bm : BlockManager) (used : List ℕ) : Type 0 where
  pub some_size : 0 < bm.block_size
  pub fits : bm.block_size ≤ bm.chunk_size
  pub counted : bm.blocks_count ≡ length bm.free + length used
  pub apart :
      (x : ℕ)
      → count (covers bm.block_size x) bm.free
          + (count (covers bm.block_size x) used + bit (in_rest bm x))
        ≤ 1

-- The memory of a new chunk is not that of a block.
abbrev pub IsNew : BlockManager → List ℕ → ℕ → Type 0
IsNew bm used start =
    (0 < start)
    × ((x : ℕ)
        → start ≤ x
        → x < start + bm.chunk_size
        → count (covers bm.block_size x) bm.free + count (covers bm.block_size x) used ≡ 0)

-- A block at the start of what is left takes its addresses from it.
rest_splits :
    (next end size x : ℕ)
    → (not (next == 0) && leb (next + size) end) ≡ true
    → bit (leb next x && ltb x (next + size))
        + bit (
            not ((if next + size == end then 0 else next + size) == 0)
            && (leb (if next + size == end then 0 else next + size) x && ltb x end))
      ≤ bit (not (next == 0) && (leb next x && ltb x end))
rest_splits next end size x e = ground arith

-- A new chunk is a block and what is left.
chunk_splits :
    (start size chunk x : ℕ)
    → size ≤ chunk
    → bit (leb start x && ltb x (start + size))
        + bit (not (start + size == 0) && (leb (start + size) x && ltb x (start + chunk)))
      ≤ bit (leb start x && ltb x (start + chunk))
chunk_splits start size chunk x fits = ground arith

between : (a x b : ℕ) → (leb a x && ltb x b) ≡ true → (a ≤ x) × (x < b)
between a x b e = ground arith

abbrev Alloc : List ℕ → ℕ × BlockManager → Type 0
Alloc used r = IsManaged (r.1) (r.0 ∷ used)

fresh_block-IsManaged :
    (bm : BlockManager) (used : List ℕ) (start : ℕ)
    → IsManaged bm used
    → IsNew bm used start
    → IsManaged ((fresh_block bm start).1) ((fresh_block bm start).0 ∷ used)
unfolding fresh_block
fresh_block-IsManaged bm used start m (pos, new) =
    let test = not (bm.next_block == 0) && leb (bm.next_block + bm.block_size) bm.chunk_end in
    elim (Bool-cases test) [
      | inl e ↦ subst (Alloc used) (sym (pick_true _ _ e)) record {
        some_size = m.some_size;
        fits = m.fits;
        counted = omega (arith, m.counted);
        apart =
            λ x. omega (arith, m.apart x, rest_splits bm.next_block bm.chunk_end bm.block_size x e);
      }
      | inr e ↦ subst (Alloc used) (sym (pick_false _ _ e)) record {
        some_size = m.some_size;
        fits = m.fits;
        counted = omega (arith, m.counted);
        apart = λ x. new_apart x;
      }
    ]
  where
    new_apart :
        (x : ℕ)
        → count (covers bm.block_size x) bm.free
            + (bit (covers bm.block_size x start)
                + count (covers bm.block_size x) used
                + bit (
                    not (start + bm.block_size == 0)
                    && (leb (start + bm.block_size) x && ltb x (start + bm.chunk_size))))
          ≤ 1
    new_apart x =
        let splits = chunk_splits start bm.block_size bm.chunk_size x (m.fits) in
        elim (Bool-cases (leb start x && ltb x (start + bm.chunk_size))) [
          | inl inside ↦
              let (low, high) = between start x (start + bm.chunk_size) inside in
              omega (arith, splits, ap bit inside, new x low high)
          | inr outside ↦ omega (arith, splits, ap bit outside, m.apart x)
        ]

-- chiBlockManagerAlloc hands out a block that overlaps with no other.
pub manager_alloc-IsManaged :
    (bm : BlockManager) (used : List ℕ) (start : ℕ)
    → IsManaged bm used
    → IsNew bm used start
    → IsManaged ((manager_alloc bm start).1) ((manager_alloc bm start).0 ∷ used)
unfolding manager_alloc
manager_alloc-IsManaged bm used start m new = elim (List-cases (bm.free)) [
  | inl e ↦
      subst (λ l. Alloc used (pop_or l bm (fresh_block bm start))) (sym e)
        (fresh_block-IsManaged bm used start m new)
  | inr (b, rest, e) ↦
      subst (λ l. Alloc used (pop_or l bm (fresh_block bm start))) (sym e)
        record {
          some_size = m.some_size;
          fits = m.fits;
          counted = omega (arith, m.counted, ap length e);
          apart = λ x. omega (arith, m.apart x, ap (count (covers bm.block_size x)) e);
        }
]

-- The chunks are freed when no block is used.
none_covered : (test : ℕ → Bool) (xs : List ℕ) → length xs ≡ 0 → count test xs ≡ 0
none_covered test [] e = refl
none_covered test (x ∷ xs) e = absurd (omega arith)

abbrev pub Frees : BlockManager → List ℕ → BlockManager × List ℕ → Type 0
Frees bm used r = IsManaged (r.0) used × (r.1 ≡ (if length used == 0 then bm.chunks else []))

free_chunk_list-Frees :
    (bm : BlockManager) (used : List ℕ) → IsManaged bm used → Frees bm used (free_chunk_list bm)
unfolding free_chunk_list
free_chunk_list-Frees bm used m = elim (Bool-cases (bm.blocks_count == length bm.free)) [
  | inl e ↦
      let none_used : length used ≡ 0 = omega (arith, m.counted, (==_iff _ _).0 e) in
      subst (Frees bm used) (sym (pick_true _ _ e)) (
        record {
          some_size = m.some_size;
          fits = m.fits;
          counted = omega arith;
          apart = λ x. omega (arith, none_covered (covers bm.block_size x) used none_used);
        },
        sym (pick_true _ _ ((==_iff _ _).1 none_used)),
      )
  | inr e ↦
      let some_used : (length used == 0) ≡ false = ground (arith, m.counted) in
      subst (Frees bm used) (sym (pick_false _ _ e)) (m, sym (pick_false _ _ some_used))
]

-- chiBlockManagerFree takes a block back, wherever it stands among those handed out; exactly when
-- it was the last one, all chunks are freed.
pub manager_free-IsManaged :
    (bm : BlockManager) (us : List ℕ) (b : ℕ) (vs : List ℕ)
    → IsManaged bm (us ++ b ∷ vs)
    → Frees bm (us ++ vs) (manager_free bm b)
unfolding manager_free
manager_free-IsManaged bm us b vs m =
    free_chunk_list-Frees (record bm { free = b ∷ bm.free }) (us ++ vs)
      record {
        some_size = m.some_size;
        fits = m.fits;
        counted = omega (arith, m.counted, length-append us (b ∷ vs), length-append us vs);
        apart = λ x. omega (
          arith,
          m.apart x,
          count-append (covers bm.block_size x) us (b ∷ vs),
          count-append (covers bm.block_size x) us vs,
        );
      }

-- chiBlockManagerFreeList takes a list of blocks back at once.
pub manager_free_list-IsManaged :
    (bm : BlockManager) (b : ℕ) (list us : List ℕ)
    → IsManaged bm (b ∷ (list ++ us))
    → Frees bm us (manager_free_list bm (b ∷ list))
unfolding manager_free_list
manager_free_list-IsManaged bm b list us m =
    free_chunk_list-Frees (record bm { free = bm.free ++ b ∷ list }) us
      record {
        some_size = m.some_size;
        fits = m.fits;
        counted = omega (arith, m.counted, length-append list us, length-append bm.free (b ∷ list));
        apart = λ x. omega (
          arith,
          m.apart x,
          count-append (covers bm.block_size x) list us,
          count-append (covers bm.block_size x) bm.free (b ∷ list),
        );
      }

-- At the start there is no block.
pub manager_setup-IsManaged :
    (block_size chunk_size : ℕ)
    → 0 < block_size
    → block_size ≤ chunk_size
    → IsManaged (manager_setup block_size chunk_size) []
unfolding manager_setup
manager_setup-IsManaged block_size chunk_size some_size fits = record {
  some_size = some_size;
  fits = fits;
  counted = refl;
  apart = λ x. omega arith;
}
