-- ===== src/Num/Show.antt =====
-- chiShowUInt writes the digits of its number.
use Prim.Native.Nat.pow
use native.Mathlib.Nat.{pow-succ', mul-le-mul_right, div-lt_iff_lt-mul}
use crts.Prelude.{
  ℕ, zero, suc, ◌+◌, ◌-◌, ◌*◌, ◌/◌, ◌%◌, ◌^◌, ◌≤◌, ◌<◌, ◌≡◌, ◌⊎◌, max, refl, sym, ap, subst, ◌∙◌,
  true, false, some, List, [], ◌∷◌, length, arith, leb, ltb, Bool-cases, inl, inr, if◌then◌else◌,
}
use crts.Num.{put_pair, show_by_10000, show_by_100, show_uint, is_digit}
use crts.Num.Value.{number, AllDigits, put_pair_lem}

-- The text so far is the end of the text of `n`, of which `m` is the front.
pub record IsShown (n m : ℕ) (text : List ℕ) : Type 0 where
  pub value : m * 10 ^ length text + number text ≡ n
  pub digits : AllDigits text
  pub front : (text ≡ []) ⊎ (0 < m)

digit : (d : ℕ) → d < 10 → is_digit (48 + d) ≡ true
digit d h = ground arith

-- Horner's scheme for two digits.
horner :
    (h q r p rest : ℕ)
    → h * (10 * (10 * p)) + (q * (10 * p) + (r * p + rest)) ≡ (h * 100 + q * 10 + r) * p + rest
horner h q r p rest = omega arith

horner_2 : (q r p rest : ℕ) → q * (10 * p) + (r * p + rest) ≡ (q * 10 + r) * p + rest
horner_2 q r p rest = omega arith

minus_48 : (d : ℕ) → 48 + d - 48 ≡ d
minus_48 d = omega arith

shift_2 :
    (m : ℕ) (text : List ℕ)
    → m / 100 * 10 ^ suc (suc (length text))
        + number ((48 + m % 100 / 10) ∷ (48 + m % 100 % 10) ∷ text)
      ≡ m * 10 ^ length text + number text
shift_2 m text =
    let p = 10 ^ length text in
    let whole : m / 100 * 100 + m % 100 / 10 * 10 + m % 100 % 10 ≡ m = omega arith in
    rw
      (
        minus_48 (m % 100 / 10),
        minus_48 (m % 100 % 10),
        pow-succ' 10 (suc (length text)),
        pow-succ' 10 (length text),
      )
      (horner (m / 100) (m % 100 / 10) (m % 100 % 10) p (number text)
        ∙ ap (λ t. t * p + number text) whole)

two_digits :
    (m : ℕ) (text : List ℕ)
    → number ((48 + m / 10) ∷ (48 + m % 10) ∷ text) ≡ m * 10 ^ length text + number text
two_digits m text =
    let p = 10 ^ length text in
    let whole : m / 10 * 10 + m % 10 ≡ m = omega arith in
    rw (minus_48 (m / 10), minus_48 (m % 10), pow-succ' 10 (length text))
      (horner_2 (m / 10) (m % 10) p (number text) ∙ ap (λ t. t * p + number text) whole)

-- Two digits go from the front to the text.
IsShown-pair :
    (n m : ℕ) (text : List ℕ)
    → IsShown n m text
    → 100 ≤ m
    → IsShown n (m / 100) (put_pair (2 * (m % 100)) text)
IsShown-pair n m text s h =
    let k = m % 100 in
    let e = put_pair_lem k text (omega arith) in
    let d1 = digit (k / 10) (omega arith) in
    let d2 = digit (k % 10) (omega arith) in
    subst (IsShown n (m / 100)) (sym e) record {
      value = shift_2 m text ∙ s.value;
      digits = rw (d1, d2) (s.digits);
      front = inr (omega arith);
    }

-- The first loop takes four digits in a round, and ends.
by_10000-IsShown :
    (n rounds m : ℕ) (text : List ℕ)
    → IsShown n m text
    → m < 10000 ^ suc rounds
    → (m' : ℕ) × (text' : List ℕ) × (show_by_10000 (suc rounds) m text ≡ some (m', text'))
      × IsShown n m' text'
      × (m' < 10000)
unfolding show_by_10000
by_10000-IsShown n zero m text s h =
    let low : leb 10000 m ≡ false = ground (arith, pow-succ' 10000 0, pow.zero 10000) in
    (m, text, rw low refl, s, ground arith)
by_10000-IsShown n (suc rounds) m text s h = elim (Bool-cases (leb 10000 m)) [
  | inr e ↦ (m, text, rw e refl, s, ground arith)
  | inl e ↦
      let one = IsShown-pair n m text s (ground arith) in
      let k1 : m / 100 % 100 ≡ m % 10000 / 100 = omega arith in
      let k2 : m % 100 ≡ m % 10000 % 100 = omega arith in
      let left : m / 100 / 100 ≡ m / 10000 = omega arith in
      let two = IsShown-pair n (m / 100) (put_pair (2 * (m % 100)) text) one (ground arith) in
      let next : m / 10000 < 10000 ^ suc rounds =
        (div-lt_iff_lt-mul (omega arith)).1 (omega (arith, pow-succ' 10000 (suc rounds))) in
      let state : IsShown n (m / 10000)
          (put_pair (2 * (m % 10000 / 100)) (put_pair (2 * (m % 10000 % 100)) text)) =
        rw (← k1, ← k2, ← left) two in
      let (m', text', result, shown, small) =
        by_10000-IsShown n rounds (m / 10000)
          (put_pair (2 * (m % 10000 / 100)) (put_pair (2 * (m % 10000 % 100)) text)) state next in
      (m', text', rw e result, shown, small)
]

by_100-IsShown :
    (n m : ℕ) (text : List ℕ)
    → IsShown n m text
    → m < 10000
    → (m' : ℕ) × (text' : List ℕ) × (show_by_100 2 m text ≡ some (m', text'))
      × IsShown n m' text'
      × (m' < 100)
unfolding show_by_100
by_100-IsShown n m text s h = elim (Bool-cases (leb 100 m)) [
  | inr e ↦ (m, text, rw e refl, s, ground arith)
  | inl e ↦
      let last : leb 100 (m / 100) ≡ false = ground arith in
      (
        m / 100,
        put_pair (2 * (m % 100)) text,
        rw (e, last) refl,
        IsShown-pair n m text s (ground arith),
        omega arith,
      )
]

-- A text is that of a number when it has its digits, and no zero at its front but for zero itself.
pub record IsDecimal (n : ℕ) (text : List ℕ) : Type 0 where
  pub digits : AllDigits text
  pub value : number text ≡ n
  pub rest : ℕ
  pub length_rest : length text ≡ suc rest
  pub tight : 10 ^ rest ≤ max 1 n

last-IsDecimal :
    (n m : ℕ) (text : List ℕ)
    → IsShown n m text
    → m < 100
    → IsDecimal n (if ltb m 10 then (48 + m) ∷ text else put_pair (m * 2) text)
last-IsDecimal n m text s h = elim (Bool-cases (ltb m 10)) [
  | inl e ↦
      let d = digit m (ground arith) in
      rw e record {
        digits = rw d (s.digits);
        value = rw (minus_48 m) (s.value);
        rest = length text;
        length_rest = refl;
        tight = elim (s.front) [
          | inl empty ↦ rw empty (ground (arith, pow.zero 10))
          | inr front ↦
              let v = s.value in
              let le = mul-le-mul_right (10 ^ length text) front in ground (arith, v, le)
        ];
      }
  | inr e ↦
      let d1 = digit (m / 10) (omega arith) in
      let d2 = digit (m % 10) (omega arith) in
      let turned : put_pair (m * 2) text ≡ (48 + m / 10) ∷ (48 + m % 10) ∷ text =
        ap (λ k. put_pair k text) (omega arith) ∙ put_pair_lem m text h in
      let whole : m / 10 * 10 + m % 10 ≡ m = omega arith in
      rw (e, turned)
        record {
          digits = rw (d1, d2) (s.digits);
          value = two_digits m text ∙ s.value;
          rest = suc (length text);
          length_rest = refl;
          tight =
              let v = s.value in
              let ten : 10 ≤ m = ground arith in
              let le = mul-le-mul_right (10 ^ length text) ten in
              ground (arith, v, le, pow-succ' 10 (length text));
        }
]

pub show_uint-text :
    (n : ℕ) → n < 2 ^ 64 → (text : List ℕ) × (show_uint n ≡ some text) × IsDecimal n text
unfolding show_uint
show_uint-text n h =
    let start : IsShown n n [] = record {
      value = omega (arith, pow.zero 10);
      digits = refl;
      front = inl refl;
    } in
    let (m1, t1, r1, s1, small) = by_10000-IsShown n 5 n [] start (omega arith) in
    let (m2, t2, r2, s2, lt) = by_100-IsShown n m1 t1 s1 small in
    (_, rw (r1, r2) refl, last-IsDecimal n m2 t2 s2 lt)
