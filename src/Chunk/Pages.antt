-- ===== src/Chunk/Pages.antt =====
-- Sizes and addresses in pages, and the alignment.
use native.Mathlib.Nat.{mul-add, mod-eq_of_lt, mul-le-mul_left, div-add-mod', mul-mod_left, mod-lt}
use crts.Prelude.{
  ℕ, suc, ◌+◌, ◌-◌, ◌*◌, ◌/◌, ◌%◌, ◌^◌, ◌≤◌, ◌<◌, ◌≡◌, sym, ap, subst, ◌∙◌, arith, List, [], ◌∷◌,
  dec_lt,
}
use crts.Chunk.{Chunk, align_up}
use crts.Chunk.Valid.{IsPages, Tiles}

abbrev pub IsMultiple : ℕ → ℕ → Type 0
IsMultiple pg n = (k : ℕ) × (n ≡ pg * k)

pub IsMultiple-add : (pg a b : ℕ) → IsMultiple pg a → IsMultiple pg b → IsMultiple pg (a + b)
IsMultiple-add pg a b (k, e) (l, f) = (k + l, rw (e, f) (sym (mul-add pg k l)))

-- A positive difference of multiples is some pages.
pub IsPages-sub : (pg a b : ℕ) → IsMultiple pg a → IsMultiple pg b → b < a → IsPages pg (a - b)
IsPages-sub pg a b (k, e) (l, f) lt = elim (dec_lt l k) [
  | yes h ↦
      let j = k - l - 1 in
      let same : k ≡ l + suc j = omega arith in
      (j, omega (arith, e, f, ap (λ x. pg * x) same, mul-add pg l (suc j)))
  | no h ↦ let le : k ≤ l = omega arith in absurd (omega (arith, e, f, mul-le-mul_left pg le))
]

-- The chunks of an arena start at multiples of a page.
pub Tiles-start :
    (pg lo m : ℕ) (xs : List Chunk) → Tiles pg lo xs m → IsMultiple pg lo → IsMultiple pg m
Tiles-start pg lo m [] t base = subst (IsMultiple pg) t base
Tiles-start pg lo m (x ∷ xs) t base =
    Tiles-start pg (lo + x.size) m xs t.2 (IsMultiple-add pg lo x.size base (suc (t.1).0, (t.1).1))

pub Tiles-bound : (pg lo m : ℕ) (xs : List Chunk) → Tiles pg lo xs m → lo ≤ m
Tiles-bound pg lo m [] t = omega arith
Tiles-bound pg lo m (x ∷ xs) t = omega (arith, Tiles-bound pg (lo + x.size) m xs t.2)

-- What CHI_ALIGNUP promises.
pub align_up_lem :
    (start align : ℕ)
    → 0 < align
    → start + align ≤ 2 ^ 64
    → (start ≤ align_up start align)
      × (align_up start align < start + align)
      × (align_up start align % align ≡ 0)
align_up_lem start align pos fits =
    let x = start + (align - 1) in
    let small : x % 2 ^ 64 ≡ x = mod-eq_of_lt (omega arith) in
    let whole = div-add-mod' x align in
    let less : x % align < align = mod-lt x pos in
    rw small (omega arith, omega arith, mul-mod_left (x / align) align)

pub align_up-IsMultiple :
    (pg start align : ℕ) → IsMultiple pg align → IsMultiple pg (align_up start align)
align_up-IsMultiple pg start align (k, e) =
    let q = (start + (align - 1)) % 2 ^ 64 / align in (q * k, ap (λ a. q * a) e ∙ grind arith)
