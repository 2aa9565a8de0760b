-- ===== src/Num/Value.antt =====
-- The number that a text of digits stands for.
use Prim.Native.Nat.pow
use native.Mathlib.Nat.{pow-succ', mul-le-mul_right}
use crts.Prelude.{
  ℕ, zero, suc, ◌+◌, ◌-◌, ◌*◌, ◌/◌, ◌%◌, ◌^◌, ◌≤◌, ◌<◌, ◌≡◌, refl, Bool, true, ◌&&◌, List, [], ◌∷◌,
  length, all, take, drop, get_or, arith, ◌==◌, ==_iff, every_below_at,
}
use crts.Num.{digits, put_pair, is_digit}

abbrev pub number : List ℕ → ℕ
number [] = 0
number (c ∷ cs) = (c - 48) * 10 ^ length cs + number cs

abbrev pub AllDigits : List ℕ → Type 0
AllDigits cs = all is_digit cs ≡ true

pub number-lt : (cs : List ℕ) → AllDigits cs → number cs < 10 ^ length cs
number-lt [] h = grind (arith, pow.zero 10)
number-lt (c ∷ cs) h =
    let small : c - 48 ≤ 9 = grind arith in
    let ih : number cs < 10 ^ length cs = number-lt cs (grind arith) in
    omega (arith, mul-le-mul_right (10 ^ length cs) small, pow-succ' 10 (length cs))

take-drop_two :
    (xs : List ℕ) (b : ℕ)
    → b + 1 < length xs
    → take 2 (drop b xs) ≡ get_or xs b 0 ∷ get_or xs (suc b) 0 ∷ []
take-drop_two [] b h = absurd (omega arith)
take-drop_two (x ∷ []) zero h = absurd (omega arith)
take-drop_two (x ∷ y ∷ xs) zero h = refl
take-drop_two (x ∷ xs) (suc b) h = take-drop_two xs b (omega arith)

-- An entry of the table is the digits of its number.
entry_test : ℕ → Bool
entry_test k =
    (get_or digits (2 * k) 0 == 48 + k / 10) && (get_or digits (suc (2 * k)) 0 == 48 + k % 10)

pub put_pair_lem :
    (k : ℕ) (text : List ℕ) → k < 100 → put_pair (2 * k) text ≡ (48 + k / 10) ∷ (48 + k % 10) ∷ text
unfolding put_pair entry_test
put_pair_lem k text h =
    let entry : entry_test k ≡ true = every_below_at 100 entry_test refl k h in
    let first : get_or digits (2 * k) 0 ≡ 48 + k / 10 = (==_iff _ _).0 (grind arith) in
    let second : get_or digits (suc (2 * k)) 0 ≡ 48 + k % 10 = (==_iff _ _).0 (grind arith) in
    rw (take-drop_two digits (2 * k) (omega arith), first, second) refl
