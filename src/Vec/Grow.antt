-- ===== src/Vec/Grow.antt =====
-- The growth of a vector ends with room enough, and keeps the elements.
use native.Mathlib.Nat.{mul-le-mul_left}
use crts.Prelude.{
  ℕ, zero, suc, ◌+◌, ◌-◌, ◌*◌, ◌/◌, ◌≤◌, ◌<◌, ◌≡◌, refl, ap, ◌∙◌, some, List, ◌++◌, length,
  length-append, take, take_all, arith, ltb, ltb→lt, ◌==◌, Bool-cases, inl, inr, if◌then◌else◌,
}
use crts.Vec.{Vec, grow_capacity, vec_grow}
use crts.Vec.Cells.{append_assoc}

-- The vector has the elements `xs`; cells after them may hold anything.
pub record Stores {ℓ} {A : Type ℓ} (v : Vec A) (xs : List A) : Type ℓ where
  pub spare : List A
  pub cells : v.elem_cells ≡ xs ++ spare
  pub count : v.used ≡ length xs
  pub size : v.capacity ≡ length xs + length spare

-- A round of the loop adds a cell or more.
grow_capacity_lem :
    (growth fuel capacity need : ℕ)
    → 200 ≤ growth
    → need < fuel + capacity
    → capacity < need
    → (c : ℕ) × (grow_capacity growth fuel capacity need ≡ some c) × (need ≤ c)
unfolding grow_capacity
grow_capacity_lem growth zero capacity need g h lt = absurd (omega arith)
grow_capacity_lem growth (suc fuel) capacity need g h lt =
    let next = if capacity == 0 then 1 else capacity * growth / 100 in
    let double : capacity * 200 ≤ capacity * growth = mul-le-mul_left capacity g in
    let more : capacity < next = ground arith in
    elim (Bool-cases (ltb next need)) [
      | inl e ↦
          let (c, result, le) =
            grow_capacity_lem growth fuel next need g (omega arith) (ground arith) in
          (c, rw e result, le)
      | inr e ↦ (next, rw e refl, ground arith)
    ]

module _ {ℓ} {A : Type ℓ} (growth : ℕ) (fresh : ℕ → List A) (g : 200 ≤ growth)
    (fresh_length : (n : ℕ) → length (fresh n) ≡ n) where
  -- What the operations call: afterwards there is room for `n` more.
  pub grow-Stores :
      (v : Vec A) (xs : List A) (n : ℕ)
      → Stores v xs
      → (v' : Vec A) × ((if ltb (v.capacity) (v.used + n)
            then vec_grow growth fresh v n
            else some v)
          ≡ some v')
        × (s : Stores v' xs) × (n ≤ length (s.spare))
  unfolding vec_grow
  grow-Stores v xs n s = elim (Bool-cases (ltb (v.capacity) (v.used + n))) [
    | inr e ↦ let count = s.count in let size = s.size in (v, rw e refl, s, ground arith)
    | inl e ↦
        let count = s.count in
        let size = s.size in
        let (c, result, le) =
          grow_capacity_lem growth (suc (v.used + n)) (v.capacity) (v.used + n) g (omega arith)
            (ground arith) in
        let added = fresh (c - v.capacity) in
        let added_length = fresh_length (c - v.capacity) in
        let spare = s.spare ++ added in
        let spare_length : length spare ≡ length (s.spare) + (c - v.capacity) =
          omega (arith, length-append (s.spare) added) in
        let cells : v.elem_cells ++ added ≡ xs ++ spare =
          ap (λ t. t ++ added) (s.cells) ∙ append_assoc xs (s.spare) added in
        let total : length (v.elem_cells ++ added) ≤ c =
          omega (arith, ap length cells, length-append xs spare, ltb→lt _ _ e) in
        (
          record v { capacity = c; elem_cells = take c (v.elem_cells ++ added) },
          rw (e, result) refl,
          record {
            spare = spare;
            cells = take_all c (v.elem_cells ++ added) total ∙ cells;
            count = count;
            size = omega (arith, ltb→lt _ _ e);
          },
          omega (arith, ltb→lt _ _ e),
        )
  ]
