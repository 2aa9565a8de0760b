-- ===== src/Hashes/Cyclic.antt =====
-- Arithmetic on the indices of a table, which go round at its capacity.
use Prim.Native.Nat.pow
use Prim.Native.Nat.{bit_and}
use native.Mathlib.Nat.{
  pow-succ', pow-le-pow_right, one-le-pow, mod-lt, mul_assoc, add-mod-mod, add-mod_right,
  mod-eq-sub-mod, mod-eq_of_lt, mod-add-mod, add-mul-mod_self_left, div-add-mod,
}
use crts.Prelude.{
  ℕ, zero, suc, ◌+◌, ◌-◌, ◌*◌, ◌/◌, ◌%◌, ◌^◌, ◌≤◌, ◌<◌, ◌≡◌, refl, sym, ap, ◌∙◌, arith, dec_lt, ◌⊎◌,
  inl, inr,
}
use crts.Prelude.Bits.{bit_and-mask}
use crts.Hashes.{size_mod}

pow-add : (k j : ℕ) → 2 ^ (k + j) ≡ 2 ^ k * 2 ^ j
pow-add zero j =
    let e : 0 + j ≡ j = omega arith in
    ap (λ t. 2 ^ t) e ∙ sym (omega (arith, pow.zero 2, ap (λ t. t * 2 ^ j) (pow.zero 2)))
pow-add (suc k) j =
    let e : suc k + j ≡ suc (k + j) = omega arith in
    rw e (
      pow-succ' 2 (k + j)
      ∙ ap (λ (t : ℕ). 2 * t) (pow-add k j)
      ∙ omega (arith, ap (λ (t : ℕ). t * 2 ^ j) (pow-succ' 2 k), mul_assoc 2 (2 ^ k) (2 ^ j)))

-- A capacity, and how often it goes into the values of a size_t.
pub record IsSize (c : ℕ) : Type 0 where
  pub shift : ℕ
  pub times : ℕ
  pub power : c ≡ 2 ^ shift
  pub narrow : shift ≤ 64
  pub divides : size_mod ≡ c * times

pub power-IsSize : (k : ℕ) → k ≤ 64 → IsSize (2 ^ k)
power-IsSize k h =
    let all : k + (64 - k) ≡ 64 = omega arith in
    record {
      shift = k;
      times = 2 ^ (64 - k);
      power = refl;
      narrow = h;
      divides = ap (λ t. 2 ^ t) (sym all) ∙ pow-add k (64 - k);
    }

pub IsSize-pos : (c : ℕ) → IsSize c → 0 < c
IsSize-pos c s = omega (arith, s.power, one-le-pow s.shift 2)

pub IsSize-le : (c : ℕ) → IsSize c → c ≤ size_mod
IsSize-le c s =
    let le = pow-le-pow_right {n = 2} (omega arith) {i = s.shift} {j = 64} s.narrow in
    omega (arith, s.power)

mod_multiple : (c b x : ℕ) → x % (c * b) % c ≡ x % c
mod_multiple c b x =
    let whole : c * b * (x / (c * b)) + x % (c * b) ≡ x = div-add-mod x (c * b) in
    sym (
      ap (λ t. t % c) (sym whole ∙ omega (arith, mul_assoc c b (x / (c * b))))
      ∙ add-mul-mod_self_left (x % (c * b)) c (b * (x / (c * b))))

-- `&` with the capacity less one is the remainder, and a wrapped size_t makes no difference.
pub mask_lem : (c : ℕ) → IsSize c → (x : ℕ) → bit_and (x % size_mod) (c - 1) ≡ x % c
mask_lem c s x =
    ap (λ t. bit_and (x % size_mod) (t - 1)) s.power
    ∙ bit_and-mask s.shift (x % size_mod)
    ∙ ap (λ t. x % size_mod % t) (sym s.power)
    ∙ ap (λ t. x % t % c) s.divides
    ∙ mod_multiple c s.times x

-- Every index is within a round from every other.
pub reach : (c i s : ℕ) → s < c → (d : ℕ) × (d < c) × ((i + d) % c ≡ s)
reach c i s h =
    let pos : 0 < c = omega arith in
    let low = mod-lt i pos in
    let d : ℕ = (s + c - i % c) % c in
    let up : i % c + (s + c - i % c) ≡ s + c = omega arith in
    (
      d,
      mod-lt (s + c - i % c) pos,
      add-mod-mod i (s + c - i % c) c
          ∙ sym (mod-add-mod i c (s + c - i % c))
          ∙ ap (λ t. t % c) up
          ∙ add-mod_right s c
          ∙ mod-eq_of_lt h,
    )

fold : (c x : ℕ) → x < c + c → ((x % c ≡ x) × (x < c)) ⊎ ((x % c + c ≡ x) × (c ≤ x))
fold c x h = elim (dec_lt x c) [
  | yes low ↦ inl (mod-eq_of_lt low, low)
  | no high ↦ inr (
    ap (λ t. t + c) (mod-eq-sub-mod (omega arith) ∙ mod-eq_of_lt (omega arith)) ∙ omega arith,
    omega arith,
  )
]

-- Two steps of less than a round from one index that meet are equal.
pub steps-injective : (c i n m : ℕ) → n < c → m < c → (i + n) % c ≡ (i + m) % c → n ≡ m
steps-injective c i n m hn hm e =
    let pos : 0 < c = omega arith in
    let low = mod-lt i pos in
    let same : (i % c + n) % c ≡ (i % c + m) % c =
      mod-add-mod i c n ∙ e ∙ sym (mod-add-mod i c m) in
    omega (arith, fold c (i % c + n) (omega (arith, low)), fold c (i % c + m) (omega (arith, low)))

-- How far an index is behind another.
pub behind_lem :
    (c : ℕ) → IsSize c → (i n : ℕ) → i < size_mod → n < c → ((i + n) % c + size_mod - i) % c ≡ n
behind_lem c s i n hi hn =
    let a = (i + n) / c in
    let whole : c * a + (i + n) % c ≡ i + n = div-add-mod (i + n) c in
    let y = (i + n) % c + size_mod - i in
    let both : y + c * a ≡ n + c * s.times = omega (arith, s.divides) in
    sym (add-mul-mod_self_left y c a)
    ∙ ap (λ t. t % c) both
    ∙ add-mul-mod_self_left n c s.times
    ∙ mod-eq_of_lt hn

-- The way back from an index leads to it.
pub way_back :
    (c : ℕ) → IsSize c → (i g : ℕ) → i < size_mod → g < c → (i + (g + size_mod - i) % c) % c ≡ g
way_back c s i g hi hg =
    let up : i + (g + size_mod - i) ≡ g + c * s.times = omega (arith, s.divides) in
    add-mod-mod i (g + size_mod - i) c
    ∙ ap (λ t. t % c) up
    ∙ add-mul-mod_self_left g c s.times
    ∙ mod-eq_of_lt hg

pub cancel_steps : (c a b k : ℕ) → 0 < c → (a + k) % c ≡ (b + k) % c → a % c ≡ b % c
cancel_steps c a b k pos e =
    let turn : (x : ℕ) → (k + x % c) % c ≡ (x + k) % c =
      λ x. add-mod-mod k x c ∙ ap (λ t. t % c) (omega arith) in
    steps-injective c k (a % c) (b % c) (mod-lt a pos) (mod-lt b pos) (turn a ∙ e ∙ sym (turn b))

-- One step after some steps.
pub step_after : (c e d f : ℕ) → f ≡ (e + d) % c → (f + 1) % c ≡ (e + suc d) % c
step_after c e d f at =
    ap (λ t. (t + 1) % c) at
    ∙ mod-add-mod (e + d) c 1
    ∙ (let same : e + d + 1 ≡ e + suc d = omega arith in ap (λ t. t % c) same)
