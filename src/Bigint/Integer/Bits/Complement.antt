-- ===== src/Bigint/Integer/Bits/Complement.antt =====
-- Integers from magnitudes: one more, with a minus sign.
use crts.Prelude.{
  ℕ, zero, suc, ◌+◌, ◌^◌, ◌≤◌, ◌<◌, ◌≡◌, refl, sym, ap, subst, ◌∙◌, Bool, true, false, ◌||◌, length,
  arith,
}
use crts.Prelude.Int.{ℤ, pos, negsuc, pos_part, signed, sub_ℕ, ◌+ℤ◌}
use crts.Bigint.Digits.{value}
use crts.Bigint.Integer.{ZInt, z_err, IsNormal, to_ℤ, z_add_1, z_addsub_1, z_new_checked, z_new_ok}
use crts.Bigint.Integer.Gives.{Gives}
use crts.Bigint.Integer.Sum.{z_add_1-Gives}
use crts.Bigint.Integer.Bits.{negative_inc}
use crts.Bigint.Integer.Bits.Made.{Made, made, lost}

-- The integer of a result, if there is one.
pub data Stands (base : ℕ) (malloc : ℕ → Bool) (n : ℕ) (v : ℤ) : ZInt → Type 0 where
  stands : (r : ZInt) → IsNormal base r → to_ℤ base r ≡ v → Stands base malloc n v r
  no_room : (k : ℕ) (r : ZInt) → k ≤ n → malloc k ≡ false → r.err ≡ true → Stands base malloc n v r

magnitude_of : (s : Bool) (x v : ℕ) → signed s x ≡ pos (suc v) → x ≡ suc v
unfolding signed
magnitude_of true zero v e = ap pos_part e
magnitude_of true (suc x) v e = absurd (grind (arith, ap pos_part e))
magnitude_of false x v e = ap pos_part e

module _ (bits : ℕ) (big : 1 < 2 ^ bits) (malloc : ℕ → Bool) where
  abbrev base : ℕ
  base = 2 ^ bits

  pub Made→Stands :
      (n v : ℕ) (r : ZInt) → Made base malloc n v r → Stands base malloc (n + 1) (pos v) r
  unfolding to_ℤ signed
  Made→Stands n v _ (made r normal sign same fits) =
      stands r normal (positive r.neg (value base r.digits) sign ∙ ap pos same)
    where
      positive : (s : Bool) (x : ℕ) → s ≡ false → signed s x ≡ pos x
      positive false x e = refl
      positive true x e = cc
  Made→Stands n v _ (lost k le e) = no_room k z_err le e refl

  inc_of :
      (n v k : ℕ) (ok : Bool) (s : ZInt)
      → k ≤ n
      → malloc k ≡ ok
      → Gives base ok (pos (suc v)) s
      → Stands base malloc n (negsuc v) (record s { neg = true })
  unfolding to_ℤ signed
  inc_of n v k false s le e h =
      no_room k (record s { neg = true }) le e (ap (λ (x : ZInt). x.err) h)
  inc_of n v k true s le e (normal, same, fits) =
      let m : value base s.digits ≡ suc v = magnitude_of s.neg (value base s.digits) v same in
      stands (record s { neg = true })
        (record {
          digits_fit = normal.digits_fit;
          trimmed = normal.trimmed;
          zero_sign = λ none. absurd (omega (arith, m, ap (value base) none));
          no_error = normal.no_error;
        })
        (ap (sub_ℕ 0) m ∙ minus v)
    where
      minus : (v : ℕ) → sub_ℕ 0 (suc v) ≡ negsuc v
      minus v = ground arith

  inc-err : (negative_inc bits malloc z_err).err ≡ true
  unfolding negative_inc z_add_1 z_addsub_1 z_new_checked z_new_ok
  inc-err = refl

  -- One more, with a minus sign.
  pub inc-Stands :
      (n v : ℕ) (r : ZInt)
      → Made base malloc n v r
      → Stands base malloc (n + 1) (negsuc v) (negative_inc bits malloc r)
  unfolding negative_inc to_ℤ signed ◌+ℤ◌
  inc-Stands n v _ (lost k le e) = no_room k _ le e inc-err
  inc-Stands n v _ (made r normal sign same fits) =
      let one_more : to_ℤ base r +ℤ pos 1 ≡ pos (suc v) =
        sum r.neg (value base r.digits) sign same in
      inc_of (n + 1) v (length r.digits + 1) _ _ (omega arith) refl (
        subst (λ w. Gives base (malloc (length r.digits + 1)) w (z_add_1 base malloc r 1)) one_more
          (z_add_1-Gives base malloc big r 1 normal (omega arith) big))
    where
      sum : (s : Bool) (x : ℕ) → s ≡ false → x ≡ v → signed s x +ℤ pos 1 ≡ pos (suc v)
      sum false x e f = ground arith
      sum true x e f = cc

  -- Operations on results.
  pub lift :
      (n : ℕ) (f : ℕ → ℕ → ℕ) (op : ZInt → ZInt → ZInt)
      → ((x y : ZInt)
          → IsNormal base x
          → IsNormal base y
          → length x.digits ≤ n
          → length y.digits ≤ n
          → Made base malloc n (f (value base x.digits) (value base y.digits)) (op x y))
      → ((x y : ZInt) → (x.err || y.err) ≡ true → op x y ≡ z_err)
      → (v w : ℕ) (x y : ZInt) → Made base malloc n v x
      → Made base malloc n w y
      → Made base malloc n (f v w) (op x y)
  lift n f op normal err v w _ _ (made x hx sx ex lx) (made y hy sy ey ly) =
      subst (λ t. Made base malloc n t (op x y))
        (ap (λ t. f t (value base y.digits)) ex ∙ ap (f v) ey) (normal x y hx hy lx ly)
  lift n f op normal err v w _ y (lost k le e) hy =
      subst (λ t. Made base malloc n (f v w) t) (sym (err z_err y refl)) (lost k le e)
  lift n f op normal err v w _ _ (made x hx sx ex lx) (lost k le e) =
      subst (λ t. Made base malloc n (f v w) t) (sym (err x z_err (or_true x.err))) (lost k le e)
    where
      or_true : (b : Bool) → (b || true) ≡ true
      or_true true = refl
      or_true false = refl
