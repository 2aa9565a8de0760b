-- ===== src/Vec/Cells.antt =====
-- What the moves between cells do.
use crts.Prelude.{
  ℕ, ◌+◌, ◌≤◌, ◌≡◌, refl, sym, ap, subst, true, some, List, [], ◌∷◌, ◌++◌, length, length-append,
  length-take, take, drop, take-append-drop, arith, leb, le→leb,
}
use crts.Vec.{write, move}

module _ {ℓ} {A : Type ℓ} where
  pub append_assoc : (xs ys zs : List A) → (xs ++ ys) ++ zs ≡ xs ++ (ys ++ zs)
  append_assoc [] ys zs = refl
  append_assoc (x ∷ xs) ys zs = ap (◌∷◌ x) (append_assoc xs ys zs)

  pub append_nil : (xs : List A) → xs ++ [] ≡ xs
  append_nil [] = refl
  append_nil (x ∷ xs) = ap (◌∷◌ x) (append_nil xs)

  pub take-append : (xs ys : List A) → take (length xs) (xs ++ ys) ≡ xs
  take-append [] ys = refl
  take-append (x ∷ xs) ys = ap (◌∷◌ x) (take-append xs ys)

  pub drop-append : (xs ys : List A) → drop (length xs) (xs ++ ys) ≡ ys
  drop-append [] ys = refl
  drop-append (x ∷ xs) ys = drop-append xs ys

  -- A list falls into two parts, of which the first has a given length.
  pub parts :
      (n : ℕ) (xs : List A) → n ≤ length xs → (ys zs : List A) × (xs ≡ ys ++ zs) × (length ys ≡ n)
  parts n xs h =
      (take n xs, drop n xs, sym (take-append-drop n xs), omega (arith, length-take n xs))

  pub write_lem :
      (before old xs after : List A)
      → length old ≡ length xs
      → write (before ++ old ++ after) (length before) xs ≡ some (before ++ xs ++ after)
  unfolding write
  write_lem before old xs after e =
      let size = length-append (before ++ old) after in
      let front = length-append before old in
      let fits : leb (length before + length xs) (length (before ++ old ++ after)) ≡ true =
        le→leb _ _ (omega arith) in
      let end : length before + length xs ≡ length (before ++ old) = omega arith in
      let rest : drop (length before + length xs) (before ++ old ++ after) ≡ after =
        rw end (drop-append (before ++ old) after) in
      let start : take (length before) (before ++ old ++ after) ≡ before =
        rw (append_assoc before old after) (take-append before (old ++ after)) in
      rw (fits, start, rest) refl

  -- A block `xs` that stands at a place is copied to another, where `old` stands.
  pub move_lem :
      (cells b1 xs a1 b2 old a2 : List A)
      → cells ≡ b1 ++ xs ++ a1
      → cells ≡ b2 ++ old ++ a2
      → length old ≡ length xs
      → move cells (length b2) (length b1) (length xs) ≡ some (b2 ++ xs ++ a2)
  unfolding move
  move_lem cells b1 xs a1 b2 old a2 e1 e2 e =
      let size : length cells ≡ length b1 + length xs + length a1 =
        omega (arith, ap length e1, length-append (b1 ++ xs) a1, length-append b1 xs) in
      let fits : leb (length b1 + length xs) (length cells) ≡ true = le→leb _ _ (omega arith) in
      let block : take (length xs) (drop (length b1) cells) ≡ xs =
        rw (e1, append_assoc b1 xs a1, drop-append b1 (xs ++ a1)) (take-append xs a1) in
      rw (fits, block)
        (subst (λ c. write c (length b2) xs ≡ some (b2 ++ xs ++ a2)) (sym e2)
          (write_lem b2 old xs a2 e))
