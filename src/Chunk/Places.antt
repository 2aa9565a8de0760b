-- ===== src/Chunk/Places.antt =====
-- The operations on the list of chunks at the place of a handle that occurs once.
use crts.Prelude.{
  ℕ, ◌-◌, ◌≡◌, refl, ap, true, false, none, some, List, [], ◌∷◌, ◌++◌, arith, ◌==◌, ==_iff,
  Bool-cases, inl, inr, if◌then◌else◌,
}
use crts.Prelude.Counts.{bit, count, count-append}
use crts.Chunk.{
  Chunk, find, modify, delete, prev_from, prev, head, next, insert_before, insert_after, unlink,
}

-- How many chunks have a handle.
abbrev pub holders : ℕ → List Chunk → ℕ
holders h cs = count (λ (c : Chunk). c.handle == h) cs

-- An absent handle is not that of the first chunk, nor of another.
other : (h : ℕ) (b : Chunk) (xs : List Chunk) → holders h (b ∷ xs) ≡ 0 → (b.handle == h) ≡ false
other h b xs n = elim (Bool-cases (b.handle == h)) [
  | inl e ↦ absurd (let one : bit (b.handle == h) ≡ 1 = rw e refl in omega arith)
  | inr e ↦ e
]

pub find-at :
    (h : ℕ) (c : Chunk) (xs ys : List Chunk)
    → (c.handle == h) ≡ true
    → holders h xs ≡ 0
    → find h (xs ++ c ∷ ys) ≡ some c
unfolding find
find-at h c [] ys e n = rw e refl
find-at h c (b ∷ xs) ys e n = rw (other h b xs n) (find-at h c xs ys e (omega arith))

modify-absent :
    (h : ℕ) (f : Chunk → Chunk) (xs : List Chunk) → holders h xs ≡ 0 → modify h f xs ≡ xs
unfolding modify
modify-absent h f [] n = refl
modify-absent h f (b ∷ xs) n =
    rw (other h b xs n) (ap (λ l. b ∷ l) (modify-absent h f xs (omega arith)))

pub modify-at :
    (h : ℕ) (f : Chunk → Chunk) (c : Chunk) (xs ys : List Chunk)
    → (c.handle == h) ≡ true
    → holders h xs ≡ 0
    → holders h ys ≡ 0
    → modify h f (xs ++ c ∷ ys) ≡ xs ++ f c ∷ ys
unfolding modify
modify-at h f c [] ys e n n' = rw e (ap (λ l. f c ∷ l) (modify-absent h f ys n'))
modify-at h f c (b ∷ xs) ys e n n' =
    rw (other h b xs n) (ap (λ l. b ∷ l) (modify-at h f c xs ys e (omega arith) n'))

pub delete-at :
    (h : ℕ) (c : Chunk) (xs ys : List Chunk)
    → (c.handle == h) ≡ true
    → holders h xs ≡ 0
    → delete h (xs ++ c ∷ ys) ≡ xs ++ ys
unfolding delete
delete-at h c [] ys e n = rw e refl
delete-at h c (b ∷ xs) ys e n =
    rw (other h b xs n) (ap (λ l. b ∷ l) (delete-at h c xs ys e (omega arith)))

prev_from-absent :
    (h : ℕ) (b : Chunk) (xs : List Chunk) → holders h xs ≡ 0 → prev_from h b xs ≡ none
unfolding prev_from
prev_from-absent h b [] n = refl
prev_from-absent h b (c ∷ xs) n = rw (other h c xs n) (prev_from-absent h c xs (omega arith))

pub prev-first : (h : ℕ) (c : Chunk) (ys : List Chunk) → holders h ys ≡ 0 → prev h (c ∷ ys) ≡ none
prev-first h c ys n = prev_from-absent h c ys n

prev_from-at :
    (h : ℕ) (a b c : Chunk) (xs ys : List Chunk)
    → (c.handle == h) ≡ true
    → holders h xs ≡ 0
    → (b.handle == h) ≡ false
    → prev_from h a (xs ++ b ∷ c ∷ ys) ≡ some b
unfolding prev_from
prev_from-at h a b c [] ys e n n' = rw (n', e) refl
prev_from-at h a b c (x ∷ xs) ys e n n' =
    rw (other h x xs n) (prev_from-at h x b c xs ys e (omega arith) n')

pub prev-at :
    (h : ℕ) (b c : Chunk) (xs ys : List Chunk)
    → (c.handle == h) ≡ true
    → holders h (xs ++ b ∷ []) ≡ 0
    → prev h (xs ++ b ∷ c ∷ ys) ≡ some b
unfolding prev_from
prev-at h b c [] ys e n = rw e refl
prev-at h b c (x ∷ xs) ys e n =
    let split = count-append (λ (d : Chunk). d.handle == h) xs (b ∷ []) in
    prev_from-at h x b c xs ys e (omega arith) (other h b [] (omega arith))

pub next-at :
    (h : ℕ) (c : Chunk) (xs ys : List Chunk)
    → (c.handle == h) ≡ true
    → holders h xs ≡ 0
    → next h (xs ++ c ∷ ys) ≡ head ys
unfolding next
next-at h c [] ys e n = rw e refl
next-at h c (b ∷ xs) ys e n = rw (other h b xs n) (next-at h c xs ys e (omega arith))

pub insert_before-at :
    (h : ℕ) (b c : Chunk) (xs ys : List Chunk)
    → (c.handle == h) ≡ true
    → holders h xs ≡ 0
    → insert_before h b (xs ++ c ∷ ys) ≡ xs ++ b ∷ c ∷ ys
unfolding insert_before
insert_before-at h b c [] ys e n = rw e refl
insert_before-at h b c (x ∷ xs) ys e n =
    rw (other h x xs n) (ap (λ l. x ∷ l) (insert_before-at h b c xs ys e (omega arith)))

pub insert_after-at :
    (h : ℕ) (b c : Chunk) (xs ys : List Chunk)
    → (c.handle == h) ≡ true
    → holders h xs ≡ 0
    → insert_after h b (xs ++ c ∷ ys) ≡ xs ++ c ∷ b ∷ ys
unfolding insert_after
insert_after-at h b c [] ys e n = rw e refl
insert_after-at h b c (x ∷ xs) ys e n =
    rw (other h x xs n) (ap (λ l. x ∷ l) (insert_after-at h b c xs ys e (omega arith)))

-- Taking a handle off a list takes it off once.
pub count-unlink :
    (h k : ℕ) (ks : List ℕ)
    → count (λ x. x == k) (unlink h ks)
      ≡ (if k == h then count (λ x. x == k) ks - 1 else count (λ x. x == k) ks)
unfolding unlink
count-unlink h k [] = ground arith
count-unlink h k (x ∷ ks) = elim (Bool-cases (x == h)) [
  | inl e ↦ rw e (ground (arith, ==_iff x h, ==_iff x k, ==_iff k h))
  | inr e ↦ rw (e, count-unlink h k ks) (ground (arith, ==_iff x h, ==_iff x k, ==_iff k h))
]
