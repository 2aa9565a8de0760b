-- ===== src/Prelude/Int.antt =====
-- Signed integers over the native numbers, under the library's names (its ℤ stands on the unary ℕ).
-- Sums and orders go through the two parts of an integer, which are numbers that `omega` reads.
use crts.Prelude.{
  ℕ, suc, ◌+◌, ◌-◌, ◌*◌, ◌≤◌, ◌≡◌, refl, sym, ◌∙◌, ◌≢◌, Bool, true, false, not, arith, ltb, leb,
  if◌then◌else◌, differs,
}

-- `negsuc n` is -(n + 1).
pub data ℤ : Type 0 where
  pos : ℕ → ℤ
  negsuc : ℕ → ℤ

abbrev pub pos_part : ℤ → ℕ
pos_part (pos n) = n
pos_part (negsuc n) = 0

abbrev pub neg_part : ℤ → ℕ
neg_part (pos n) = 0
neg_part (negsuc n) = suc n

-- a - b, as an integer.
abbrev pub sub_ℕ : ℕ → ℕ → ℤ
sub_ℕ a b = if leb b a then pos (a - b) else negsuc (b - a - 1)

infixl 65 ◌+ℤ◌ ◌-ℤ◌
infixl 70 ◌*ℤ◌
infix 50 ◌≤ℤ◌
unfoldable pub ◌+ℤ◌ : ℤ → ℤ → ℤ
a +ℤ b = sub_ℕ (pos_part a + pos_part b) (neg_part a + neg_part b)

unfoldable pub ◌-ℤ◌ : ℤ → ℤ → ℤ
a -ℤ b = sub_ℕ (pos_part a + neg_part b) (neg_part a + pos_part b)

unfoldable pub ◌*ℤ◌ : ℤ → ℤ → ℤ
a *ℤ b =
    sub_ℕ (pos_part a * pos_part b + neg_part a * neg_part b)
      (pos_part a * neg_part b + neg_part a * pos_part b)

abbrev pub ◌≤ℤ◌ : ℤ → ℤ → Type 0
a ≤ℤ b = pos_part a + neg_part b ≤ pos_part b + neg_part a

abbrev pub ltb_ℤ : ℤ → ℤ → Bool
ltb_ℤ a b = ltb (pos_part a + neg_part b) (pos_part b + neg_part a)

-- With the operations unfolded `ground` splits on the signs.
pub +ℤ_comm : (a b : ℤ) → a +ℤ b ≡ b +ℤ a
unfolding ◌+ℤ◌
+ℤ_comm a b = ground arith

pub +ℤ_assoc : (a b c : ℤ) → a +ℤ b +ℤ c ≡ a +ℤ (b +ℤ c)
unfolding ◌+ℤ◌
+ℤ_assoc a b c = ground arith

-- One lemma for each operation lets `omega` work with the operations shut, at any depth.
pub +ℤ_parts :
    (a b : ℤ)
    → pos_part (a +ℤ b) + neg_part a + neg_part b ≡ neg_part (a +ℤ b) + pos_part a + pos_part b
unfolding ◌+ℤ◌
+ℤ_parts a b = ground arith

pub -ℤ_parts :
    (a b : ℤ)
    → pos_part (a -ℤ b) + neg_part a + pos_part b ≡ neg_part (a -ℤ b) + pos_part a + neg_part b
unfolding ◌-ℤ◌
-ℤ_parts a b = ground arith

pub *ℤ_parts :
    (a b : ℤ)
    → pos_part (a *ℤ b) + (pos_part a * neg_part b + neg_part a * pos_part b)
      ≡ neg_part (a *ℤ b) + (pos_part a * pos_part b + neg_part a * neg_part b)
unfolding ◌*ℤ◌
*ℤ_parts a b = ground arith

pub eq_of_parts : (a b : ℤ) → pos_part a + neg_part b ≡ pos_part b + neg_part a → a ≡ b
eq_of_parts a b h = ground arith

pub ruleset int_laws = (arith, +ℤ_parts, -ℤ_parts, eq_of_parts)

-- A magnitude with a sign; there is one zero.
unfoldable pub signed : Bool → ℕ → ℤ
signed false n = pos n
signed true n = sub_ℕ 0 n

pub signed_add : (s t : Bool) (x y : ℕ) → s ≡ t → signed s (x + y) ≡ signed s x +ℤ signed t y
unfolding signed ◌+ℤ◌
signed_add true true x y e = ground arith
signed_add true false x y e = cc
signed_add false true x y e = cc
signed_add false false x y e = ground arith

pub signed_sub :
    (s t : Bool) (x y d : ℕ) → s ≢ t → d + y ≡ x → signed s d ≡ signed s x +ℤ signed t y
unfolding signed ◌+ℤ◌
signed_sub true true x y d ne e = absurd (ne refl)
signed_sub true false x y d ne e = ground arith
signed_sub false true x y d ne e = ground arith
signed_sub false false x y d ne e = absurd (ne refl)

pub signed_sub_left :
    (s t : Bool) (x y d : ℕ) → s ≢ t → d + x ≡ y → signed t d ≡ signed s x +ℤ signed t y
signed_sub_left s t x y d ne e =
    signed_sub t s y x d (λ q. ne (sym q)) e ∙ +ℤ_comm (signed t y) (signed s x)

pub signed_zero_add : (s t : Bool) (y : ℕ) → signed t y ≡ signed s 0 +ℤ signed t y
unfolding signed ◌+ℤ◌
signed_zero_add true true y = ground arith
signed_zero_add true false y = ground arith
signed_zero_add false true y = ground arith
signed_zero_add false false y = ground arith

pub signed_zero : (s : Bool) → signed s 0 ≡ pos 0
unfolding signed
signed_zero true = refl
signed_zero false = refl

pub signed_mul : (s t : Bool) (x y : ℕ) → signed (differs s t) (x * y) ≡ signed s x *ℤ signed t y
unfolding signed ◌*ℤ◌
signed_mul true true x y = ground arith
signed_mul true false x y = ground arith
signed_mul false true x y = ground arith
signed_mul false false x y = ground arith

pub signed-not : (z : ℤ) (s : Bool) (n : ℕ) → z -ℤ signed s n ≡ z +ℤ signed (not s) n
unfolding signed ◌-ℤ◌ ◌+ℤ◌
signed-not z true n = ground arith
signed-not z false n = ground arith

pub signed_minus_zero : (z : ℤ) (s t : Bool) → z -ℤ signed s 0 ≡ z +ℤ signed t 0
unfolding signed ◌-ℤ◌ ◌+ℤ◌
signed_minus_zero z true true = ground arith
signed_minus_zero z true false = ground arith
signed_minus_zero z false true = ground arith
signed_minus_zero z false false = ground arith

pub signed_not_pos : (z : ℤ) (n : ℕ) → z -ℤ pos n ≡ z +ℤ signed true n
unfolding signed
signed_not_pos z n = signed-not z false n

pub *ℤ_comm : (a b : ℤ) → a *ℤ b ≡ b *ℤ a
unfolding ◌*ℤ◌
*ℤ_comm a b = ground arith

pub signed_negate : (s : Bool) (n : ℕ) → signed (not s) n ≡ pos 0 -ℤ signed s n
unfolding signed ◌-ℤ◌
signed_negate true n = ground arith
signed_negate false n = ground arith

pub signed_zero_negate : (s t : Bool) → signed s 0 ≡ pos 0 -ℤ signed t 0
unfolding signed ◌-ℤ◌
signed_zero_negate true true = refl
signed_zero_negate true false = refl
signed_zero_negate false true = refl
signed_zero_negate false false = refl

pub signed_scale : (s : Bool) (x y : ℕ) → signed s (x * y) ≡ signed s x *ℤ pos y
unfolding signed ◌*ℤ◌
signed_scale true x y = ground arith
signed_scale false x y = ground arith
