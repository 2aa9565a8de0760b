-- ===== src/Vec.antt =====
-- native/generic/vec.h, growing arrays.
mod Cells
mod Grow
mod Refines
pub mod Tests
use crts.Prelude.{
  ℕ, zero, suc, ◌+◌, ◌-◌, ◌*◌, ◌/◌, Bool, true, false, Option, none, some, List, [], ◌∷◌, ◌++◌,
  length, take, drop, leb, ltb, ◌==◌, if◌then◌else◌, ◌>>=◌,
}

pub record Vec {ℓ} (A : Type ℓ) : Type ℓ where
  pub used : ℕ
  pub capacity : ℕ
  pub elem_cells : List A

module _ {ℓ} {A : Type ℓ} where
  -- memcpy and memmove between cells; an access out of bounds is none.
  unfoldable pub write : List A → ℕ → List A → Option (List A)
  write cells i xs =
      if leb (i + length xs) (length cells)
      then some (take i cells ++ xs ++ drop (i + length xs) cells)
      else none

  unfoldable pub move : List A → ℕ → ℕ → ℕ → Option (List A)
  move cells to from n =
      if leb (from + n) (length cells) then write cells to (take n (drop from cells)) else none

  unfoldable pub vec_free : Vec A → Vec A
  vec_free v = record { used = 0; capacity = 0; elem_cells = [] }

  unfoldable pub vec_delete : Vec A → ℕ → Option (Vec A)
  vec_delete v i =
      let used = v.used - 1 in
      move v.elem_cells i (i + 1) (used - i) >>= λ cells.
      some (record v { used = used; elem_cells = cells })

-- The loop of the growth, on fuel; `growth` is CHI_VEC_GROWTH.
unfoldable pub grow_capacity : ℕ → ℕ → ℕ → ℕ → Option ℕ
grow_capacity growth zero capacity need = none
grow_capacity growth (suc fuel) capacity need =
    let again = grow_capacity growth fuel in
    let next = if capacity == 0 then 1 else capacity * growth / 100 in
    if ltb next need then again next need else some next

-- `fresh` are the cells that chiRealloc adds.
module _ {ℓ} {A : Type ℓ} (growth : ℕ) (fresh : ℕ → List A) where
  unfoldable pub vec_grow : Vec A → ℕ → Option (Vec A)
  vec_grow v n =
      if ltb v.capacity (v.used + n)
      then (grow_capacity growth (suc (v.used + n)) v.capacity (v.used + n) >>= λ capacity.
          some record v {
            capacity = capacity;
            elem_cells = take capacity (v.elem_cells ++ fresh (capacity - v.capacity));
          })
      else some v

  unfoldable pub vec_append_many : Vec A → List A → Option (Vec A)
  vec_append_many v xs =
      (if ltb v.capacity (v.used + length xs) then vec_grow v (length xs) else some v) >>= λ v.
      write v.elem_cells v.used xs >>= λ cells.
      some record v { used = v.used + length xs; elem_cells = cells }

  unfoldable pub vec_insert_many : Vec A → ℕ → List A → Option (Vec A)
  vec_insert_many v i xs =
      (if ltb v.capacity (v.used + length xs) then vec_grow v (length xs) else some v) >>= λ v.
      (if i == v.used then some v.elem_cells else move v.elem_cells (i + length xs) i (v.used - i))
      >>= λ cells. write cells i xs >>= λ cells.
          some record v { used = v.used + length xs; elem_cells = cells }

  unfoldable pub vec_append : Vec A → A → Option (Vec A)
  vec_append v x = vec_append_many v (x ∷ [])

  unfoldable pub vec_insert : Vec A → ℕ → A → Option (Vec A)
  vec_insert v i x = vec_insert_many v i (x ∷ [])
