-- ===== src/Chunk/Sizes.antt =====
-- The size classes of chunks.
use native.Mathlib.Nat.{pow-le-pow_right, one-le-pow}
use crts.Prelude.{
  ℕ, ◌+◌, ◌-◌, ◌^◌, ◌≤◌, ◌<◌, ◌≡◌, subst, arith, ltb, Bool-cases, inl, inr, dec_lt, pick_true,
  pick_false,
}
use crts.Num.Size.{IsClz}
use crts.Chunk.{Config, page, class_smaller, class_larger, log2_floor}

-- A size of at least a page, below the range of the machine's numbers.
abbrev pub IsSize : Config → ℕ → Type 0
IsSize cfg n = (page cfg ≤ n) × (n < 2 ^ 64)

log2_page :
    (cfg : Config) (spec : IsClz (cfg.clz)) (n : ℕ)
    → IsSize cfg n
    → class_smaller cfg n + cfg.min_shift ≡ log2_floor cfg.clz n
log2_page cfg spec n (least, fits) =
    let pos : 0 < n = omega (arith, one-le-pow cfg.min_shift 2 (omega arith)) in
    let few = spec.below n pos fits in
    let high = spec.high n pos fits in
    elim (dec_lt (log2_floor cfg.clz n) cfg.min_shift) [
      | yes lt ↦
          let le : 64 - cfg.clz n ≤ cfg.min_shift = omega arith in
          let grows : 2 ^ (64 - cfg.clz n) ≤ 2 ^ cfg.min_shift =
            pow-le-pow_right (omega arith) le in
          absurd (omega arith)
      | no ge ↦ omega arith
    ]

-- A chunk of the class that a size asks for is as large.
pub class_larger_lem :
    (cfg : Config) (spec : IsClz (cfg.clz)) (s t : ℕ)
    → IsSize cfg s
    → IsSize cfg t
    → class_larger cfg s ≤ class_smaller cfg t
    → s ≤ t
class_larger_lem cfg spec s t sized sized' le =
    let some_page = one-le-pow cfg.min_shift 2 (omega arith) in
    let pos : 0 < s = omega (arith, some_page, sized.0) in
    let pos' : 0 < t = omega (arith, some_page, sized'.0) in
    let at = log2_page cfg spec s sized in
    let at' = log2_page cfg spec t sized' in
    let few = spec.below s pos sized.1 in
    let high = spec.high s pos sized.1 in
    let low = spec.low t pos' sized'.1 in
    let cls = class_smaller cfg s in
    elim (Bool-cases (ltb (2 ^ (cls + cfg.min_shift)) s)) [
      | inl e ↦
          let le' : cls + 1 ≤ class_smaller cfg t =
            subst (λ k. k ≤ class_smaller cfg t) (pick_true _ _ e) le in
          let more : 64 - cfg.clz s ≤ 63 - cfg.clz t = omega arith in
          let grows : 2 ^ (64 - cfg.clz s) ≤ 2 ^ (63 - cfg.clz t) =
            pow-le-pow_right (omega arith) more in
          omega arith
      | inr e ↦
          let le' : cls ≤ class_smaller cfg t =
            subst (λ k. k ≤ class_smaller cfg t) (pick_false _ _ e) le in
          let more : cls + cfg.min_shift ≤ 63 - cfg.clz t = omega arith in
          let grows : 2 ^ (cls + cfg.min_shift) ≤ 2 ^ (63 - cfg.clz t) =
            pow-le-pow_right (omega arith) more in
          let small : s ≤ 2 ^ (cls + cfg.min_shift) = ground arith in omega arith
    ]
