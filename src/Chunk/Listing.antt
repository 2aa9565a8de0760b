-- ===== src/Chunk/Listing.antt =====
-- The lists of free chunks, when a handle is put on one or taken off.
use crts.Prelude.{
  ℕ, ◌+◌, ◌≤◌, ◌≡◌, refl, sym, ap, subst, ◌∙◌, Bool, true, false, not, ◌&&◌, List, [], ◌∷◌, ◌++◌,
  arith, ◌==◌, ==_iff, Bool-cases, inl, inr, if◌then◌else◌,
}
use crts.Prelude.Counts.{bit, count, count-append}
use crts.Chunk.{Config, Chunk, class_smaller, unlink}
use crts.Chunk.Places.{holders, count-unlink}
use crts.Chunk.Valid.{free_in, count-free_in}

pub itself : (h : ℕ) → (h == h) ≡ true
itself h = (==_iff h h).1 refl

-- Taking the handle of `b` off a list that has the free chunks of a class leaves the others.
pub unlisted :
    (cfg : Config) (cls k : ℕ) (ks : List ℕ) (ws : List Chunk) (b : Chunk) (ys : List Chunk)
    → holders k ws + (holders k (b ∷ []) + holders k ys) ≤ 1
    → count (λ x. x == k) ks
      ≡ count (free_in cfg cls k) ws
        + (count (free_in cfg cls k) (b ∷ []) + count (free_in cfg cls k) ys)
    → count (λ x. x == k) (unlink b.handle ks)
      ≡ count (free_in cfg cls k) ws + count (free_in cfg cls k) ys
unlisted cfg cls k ks ws b ys own all =
    let before = count-free_in cfg cls k ws in
    let after = count-free_in cfg cls k ys in
    let one = count-free_in cfg cls k (b ∷ []) in
    elim (Bool-cases (k == b.handle)) [
      | inl e ↦
          let held : bit (b.handle == k) ≡ 1 = ap bit (
            subst (λ x. (b.handle == x) ≡ true) (sym ((==_iff k b.handle).0 e))
              (itself b.handle)) in
          count-unlink b.handle k ks ∙ rw e (omega arith)
      | inr e ↦
          let held : (b.handle == k) ≡ false =
            ground (arith, ==_iff k b.handle, ==_iff b.handle k) in
          let none_held : holders k (b ∷ []) ≡ 0 = omega (arith, ap bit held) in
          count-unlink b.handle k ks ∙ rw e (omega arith)
    ]

free_in-listed :
    (cfg : Config) (cls h : ℕ) (c : Chunk)
    → c.used ≡ false
    → free_in cfg cls h c ≡ (if cls == class_smaller cfg c.size then c.handle == h else false)
free_in-listed cfg cls h c free =
    let at = class_smaller cfg c.size in
    ap (λ u. not u && ((c.handle == h) && (at == cls))) free ∙ both (c.handle == h) cls at
  where
    both : (b : Bool) (x y : ℕ) → (true && (b && (y == x))) ≡ (if x == y then b else false)
    both b x y = ground (arith, ==_iff x y, ==_iff y x)

pub listed_with :
    (cfg : Config) (cls h : ℕ) (c : Chunk) (ks : List ℕ)
    → c.used ≡ false
    → count (λ k. k == h) (if cls == class_smaller cfg c.size then ks ++ c.handle ∷ [] else ks)
      ≡ count (λ k. k == h) ks + count (free_in cfg cls h) (c ∷ [])
listed_with cfg cls h c ks free = elim (Bool-cases (cls == class_smaller cfg c.size)) [
  | inl e ↦
      let same : free_in cfg cls h c ≡ (c.handle == h) =
        free_in-listed cfg cls h c free ∙ rw e refl in
      rw e (omega (arith, ap bit same, count-append (λ k. k == h) ks (c.handle ∷ [])))
  | inr e ↦
      let same : free_in cfg cls h c ≡ false = free_in-listed cfg cls h c free ∙ rw e refl in
      rw e (omega (arith, ap bit same))
]
