-- ===== src/Vec/Refines.antt =====
-- The operations on a vector are those on the list of its elements.
use crts.Prelude.{
  ℕ, suc, ◌+◌, ◌-◌, ◌≤◌, ◌≡◌, refl, sym, ap, ◌∙◌, some, List, [], ◌∷◌, ◌++◌, length, length-append,
  arith, ◌==◌, Bool-cases, inl, inr,
}
use crts.Vec.{Vec, write, move, vec_delete, vec_append_many, vec_insert_many}
use crts.Vec.Cells.{append_assoc, parts, write_lem, move_lem}
use crts.Vec.Grow.{Stores, grow-Stores}

module _ {ℓ} {A : Type ℓ} where
  empty_same : (xs ys : List A) → length xs ≡ 0 → length ys ≡ 0 → xs ≡ ys
  empty_same [] [] h k = refl
  empty_same [] (y ∷ ys) h k = absurd (omega arith)
  empty_same (x ∷ xs) ys h k = absurd (omega arith)

  regroup :
      (before after gap rest u o : List A)
      → after ++ gap ≡ u ++ o
      → before ++ after ++ (gap ++ rest) ≡ (before ++ u) ++ o ++ rest
  regroup before after gap rest u o e =
      sym (append_assoc (before ++ after) gap rest)
      ∙ ap (λ t. t ++ rest)
          (append_assoc before after gap ∙ ap (◌++◌ before) e ∙ sym (append_assoc before u o))

  -- Deleting the element at an index stays in bounds and leaves the others in their order.
  pub vec_delete-Stores :
      (v : Vec A) (before : List A) (x : A) (after : List A)
      → Stores v (before ++ (x ∷ after))
      → (v' : Vec A) × (vec_delete v (length before) ≡ some v') × Stores v' (before ++ after)
  unfolding vec_delete
  vec_delete-Stores v before x after s =
      let (o, w, e, n) = parts (length after) (x ∷ after) (omega arith) in
      let sizes : length (x ∷ after) ≡ length o + length w = ap length e ∙ length-append o w in
      let count : v.used ≡ length before + suc (length after) =
        s.count ∙ length-append before (x ∷ after) in
      let size = s.size in
      let total = length-append before (x ∷ after) in
      let kept = length-append before after in
      let one : v.elem_cells ≡ (before ++ (x ∷ [])) ++ after ++ s.spare =
        s.cells ∙ ap (λ t. t ++ s.spare) (sym (append_assoc before (x ∷ []) after)) in
      let two : v.elem_cells ≡ before ++ o ++ (w ++ s.spare) =
        s.cells
        ∙ ap (λ t. before ++ t ++ s.spare) e
        ∙ ap (λ t. t ++ s.spare) (sym (append_assoc before o w))
        ∙ append_assoc (before ++ o) w (s.spare) in
      let from : length before + 1 ≡ length (before ++ (x ∷ [])) =
        sym (length-append before (x ∷ [])) in
      let block : v.used - 1 - length before ≡ length after = omega arith in
      let moved : move v.elem_cells (length before) (length before + 1) (v.used - 1 - length before)
          ≡ some (before ++ after ++ (w ++ s.spare)) =
        rw (from, block)
          (move_lem v.elem_cells (before ++ (x ∷ [])) after (s.spare) before o (w ++ s.spare) one
            two n) in
      (
        record v { used = v.used - 1; elem_cells = before ++ after ++ (w ++ s.spare) },
        rw moved refl,
        record {
          spare = w ++ s.spare;
          cells = refl;
          count = omega arith;
          size = omega (arith, length-append w (s.spare));
        },
      )

module _ {ℓ} {A : Type ℓ} (growth : ℕ) (fresh : ℕ → List A) (g : 200 ≤ growth)
    (fresh_length : (n : ℕ) → length (fresh n) ≡ n) where
  -- If CHI_VEC_GROWTH is 200 or more and chiRealloc adds as many cells as it is asked for, then
  -- appending ends, stays in bounds, and the elements are the old ones and then the new ones.
  pub vec_append_many-Stores :
      (v : Vec A) (old xs : List A)
      → Stores v old
      → (v' : Vec A) × (vec_append_many growth fresh v xs ≡ some v') × Stores v' (old ++ xs)
  unfolding vec_append_many
  vec_append_many-Stores v old xs s =
      let (w, grown, t, room) = grow-Stores growth fresh g fresh_length v old (length xs) s in
      let (gap, rest, e, n) = parts (length xs) (t.spare) room in
      let count = t.count in
      let size = t.size in
      let cells : w.elem_cells ≡ old ++ gap ++ rest =
        t.cells ∙ ap (◌++◌ old) e ∙ sym (append_assoc old gap rest) in
      let written : write w.elem_cells w.used xs ≡ some (old ++ xs ++ rest) =
        rw (cells, count) (write_lem old gap xs rest n) in
      (
        record w { used = w.used + length xs; elem_cells = old ++ xs ++ rest },
        rw (grown, written) refl,
        record {
          spare = rest;
          cells = refl;
          count = omega (arith, length-append old xs);
          size = omega (arith, length-append old xs, length-append gap rest, ap length e);
        },
      )

  -- If CHI_VEC_GROWTH is 200 or more and chiRealloc adds as many cells as it is asked for, then
  -- inserting ends, stays in bounds, and the new elements stand between the old ones before the
  -- index and those from it on.
  pub vec_insert_many-Stores :
      (v : Vec A) (before after xs : List A)
      → Stores v (before ++ after)
      → (v' : Vec A) × (vec_insert_many growth fresh v (length before) xs ≡ some v')
        × Stores v' (before ++ xs ++ after)
  unfolding vec_insert_many
  vec_insert_many-Stores v before after xs s =
      let (w, grown, t, room) =
        grow-Stores growth fresh g fresh_length v (before ++ after) (length xs) s in
      let (gap, rest, e, n) = parts (length xs) (t.spare) room in
      let count = t.count in
      let size = t.size in
      let both = length-append before after in
      let (u, o, eu, nu) =
        parts (length xs) (after ++ gap) (omega (arith, length-append after gap)) in
      let no : length o ≡ length after =
        omega (arith, ap length eu, length-append u o, length-append after gap) in
      -- The cells, seen from the block that is moved and from the place where it goes.
      let one : w.elem_cells ≡ before ++ after ++ (gap ++ rest) =
        t.cells ∙ ap (◌++◌ (before ++ after)) e in
      let two : w.elem_cells ≡ (before ++ u) ++ o ++ rest =
        one ∙ regroup before after gap rest u o eu in
      let written : write ((before ++ u) ++ after ++ rest) (length before) xs
          ≡ some (before ++ xs ++ (after ++ rest)) =
        rw (append_assoc (before ++ u) after rest) (write_lem before u xs (after ++ rest) nu) in
      let result = record w {
        used = w.used + length xs;
        elem_cells = before ++ xs ++ (after ++ rest);
      } in
      let stored : Stores result (before ++ xs ++ after) = record {
        spare = rest;
        cells = sym (append_assoc (before ++ xs) after rest);
        count = omega (arith, length-append (before ++ xs) after, length-append before xs);
        size = omega (
          arith,
          length-append (before ++ xs) after,
          length-append before xs,
          length-append gap rest,
          ap length e,
        );
      } in
      elim (Bool-cases (length before == w.used)) [
        | inl at_end ↦
            let empty : length after ≡ 0 = ground arith in
            let same : w.elem_cells ≡ (before ++ u) ++ after ++ rest =
              two ∙ ap (λ k. (before ++ u) ++ k ++ rest) (empty_same o after (no ∙ empty) empty) in
            (result, rw (grown, at_end, same, written) refl, stored)
        | inr inside ↦
            let to : length before + length xs ≡ length (before ++ u) =
              omega (arith, length-append before u) in
            let block : w.used - length before ≡ length after = omega arith in
            let moved : move w.elem_cells (length before + length xs) (length before)
                  (w.used - length before)
                ≡ some ((before ++ u) ++ after ++ rest) =
              rw (to, block)
                (move_lem w.elem_cells before after (gap ++ rest) (before ++ u) o rest one two
                  no) in
            (result, rw (grown, inside, moved, written) refl, stored)
      ]
