-- ===== src/Num/Size.antt =====
-- countDigits10, which places the text before it is written.
use Prim.Native.Nat.pow
use native.Mathlib.Nat.{one-le-pow, pow-succ'}
use crts.Prelude.{
  ℕ, zero, suc, ◌+◌, ◌-◌, ◌*◌, ◌/◌, ◌^◌, ◌≤◌, ◌<◌, ◌≡◌, refl, sym, ap, subst, ◌∙◌, max, Bool, true,
  false, ◌&&◌, ◌||◌, some, List, length, get_or, arith, leb, ltb, ◌==◌, ==_iff, leb→le, ltb→lt,
  lt→ltb, every_below_at, Bool-cases, inl, inr, if◌then◌else◌,
}
use crts.Bigint.Digits.Value.{pow-le-pow}
use crts.Num.{pow_10, count_digits_10, show_uint}
use crts.Num.Value.{number, number-lt}
use crts.Num.Show.{IsDecimal, show_uint-text}

-- The compiler's documentation: the leading zeros of a number of 64 bits that is not zero.
pub record IsClz (clz : ℕ → ℕ) : Type 0 where
  pub below : (n : ℕ) → 0 < n → n < 2 ^ 64 → clz n < 64
  pub low : (n : ℕ) → 0 < n → n < 2 ^ 64 → 2 ^ (63 - clz n) ≤ n
  pub high : (n : ℕ) → 0 < n → n < 2 ^ 64 → n < 2 ^ (64 - clz n)

-- For each number of bits, the estimate is the number of decimal digits or one less.
entry : ℕ → Bool
entry bits =
    let t = bits * 1233 / 2 ^ 12 in
    (get_or pow_10 t 0 == 10 ^ t)
    && leb (2 ^ bits) (10 ^ suc t)
    && ((t == 0) || leb (10 ^ (t - 1)) (2 ^ (bits - 1)))

-- The number of digits of `n`, by its bounds.
abbrev pub HasDigits : ℕ → ℕ → Type 0
HasDigits n k = (10 ^ k ≤ max 1 n) × (n < 10 ^ suc k)

below_estimate :
    (n t bits : ℕ)
    → n < 10 ^ t
    → 2 ^ (bits - 1) ≤ n
    → ((t == 0) || leb (10 ^ (t - 1)) (2 ^ (bits - 1))) ≡ true
    → get_or pow_10 t 0 ≡ 10 ^ t
    → (k : ℕ) × (t - (if ltb n (get_or pow_10 t 0) then 1 else 0) + 1 ≡ suc k) × HasDigits n k
below_estimate n zero bits lt lo e power =
    let some : 0 < 2 ^ (bits - 1) = one-le-pow (bits - 1) 2 (omega arith) in
    absurd (omega (arith, pow.zero 10))
below_estimate n (suc t) bits lt lo e power =
    let le : 10 ^ t ≤ 2 ^ (bits - 1) = leb→le _ _ (grind arith) in
    let here : ltb n (10 ^ suc t) ≡ true = lt→ltb _ _ lt in
    (t, rw (power, here) (omega arith), (ground arith, lt))

estimate :
    (bits n : ℕ)
    → 0 < bits
    → bits < 65
    → 2 ^ (bits - 1) ≤ n
    → n < 2 ^ bits
    → (k : ℕ) × (bits * 1233 / 2 ^ 12
          - (if ltb n (get_or pow_10 (bits * 1233 / 2 ^ 12) 0) then 1 else 0)
          + 1
        ≡ suc k)
      × HasDigits n k
unfolding entry
estimate bits n pos lt lo hi =
    let t = bits * 1233 / 2 ^ 12 in
    let ok : entry bits ≡ true = every_below_at 65 entry refl bits lt in
    let power : get_or pow_10 t 0 ≡ 10 ^ t = (==_iff _ _).0 (grind arith) in
    let above : 2 ^ bits ≤ 10 ^ suc t = leb→le _ _ (grind arith) in
    elim (Bool-cases (ltb n (10 ^ t))) [
      | inr e ↦ (t, rw (power, e) (omega arith), (ground arith, omega arith))
      | inl e ↦ below_estimate n t bits (ltb→lt _ _ e) lo (grind arith) power
    ]

-- Bounds by powers of ten fix the number of digits.
same_digits : (n j k : ℕ) → HasDigits n j → HasDigits n k → j ≡ k
same_digits n j k hj hk =
    let one : (a : ℕ) → 1 < 10 ^ suc a =
      λ a. omega (arith, pow-succ' 10 a, one-le-pow a 10 (omega arith)) in
    let le : (a b : ℕ) → HasDigits n a → HasDigits n b → a ≤ b = λ a b ha hb.
      elim (Bool-cases (leb a b)) [
        | inl e ↦ leb→le a b e
        | inr e ↦
            let up = pow-le-pow 10 (suc b) a (omega arith) (ground arith) in
            let big = one b in absurd (omega (arith, ha.0, hb.1))
      ] in
    let x = le j k hj hk in let y = le k j hk hj in omega arith

count_digits_10_lem :
    (clz : ℕ → ℕ) (spec : IsClz clz) (n : ℕ)
    → n < 2 ^ 64
    → (k : ℕ) × (count_digits_10 clz n ≡ suc k) × HasDigits n k
unfolding count_digits_10
count_digits_10_lem clz spec zero h =
    (0, refl, (ground (arith, pow.zero 10), ground (arith, pow.zero 10, pow-succ' 10 0)))
count_digits_10_lem clz spec (suc n) h =
    let lt = spec.below (suc n) (omega arith) h in
    let bits = 64 - clz (suc n) in
    let exponent : bits - 1 ≡ 63 - clz (suc n) = omega arith in
    let low : 2 ^ (bits - 1) ≤ suc n = rw exponent (spec.low (suc n) (omega arith) h) in
    let test : (suc n == 0) ≡ false = ground arith in
    rw test
      (estimate bits (suc n) (omega arith) (omega arith) low (spec.high (suc n) (omega arith) h))

-- If __builtin_clzll counts leading zeros, then for each number of 64 bits chiShowUInt writes its
-- decimal digits, with no zero at the front but for zero itself, and as many as countDigits10
-- computes, so that the text starts at the pointer that is passed in.
pub show_uint-IsDecimal :
    (clz : ℕ → ℕ) (spec : IsClz clz) (n : ℕ)
    → n < 2 ^ 64
    → (text : List ℕ) × (show_uint n ≡ some text)
      × IsDecimal n text
      × (length text ≡ count_digits_10 clz n)
show_uint-IsDecimal clz spec n h =
    let (text, shown, dec) = show_uint-text n h in
    let (k, count, hk) = count_digits_10_lem clz spec n h in
    let bound : n < 10 ^ suc (dec.rest) =
      subst (λ v. v < 10 ^ suc (dec.rest)) (dec.value)
        (subst (λ l. number text < 10 ^ l) (dec.length_rest) (number-lt text (dec.digits))) in
    let same = same_digits n (dec.rest) k (dec.tight, bound) hk in
    (text, shown, dec, dec.length_rest ∙ ap suc same ∙ sym count)
