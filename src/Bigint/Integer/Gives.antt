-- ===== src/Bigint/Integer/Gives.antt =====
-- The result of an operation that allocates once.
use crts.Prelude.{
  ℕ, ◌≤◌, ◌<◌, ◌≡◌, refl, sym, ◌∙◌, Bool, true, false, ◌||◌, List, [], arith, length,
}
use crts.Prelude.Int.{ℤ, signed, signed_zero}
use crts.Bigint.Integer.{ZInt, z_err, IsNormal, to_ℤ, z_new_ok, z_new_checked}
use crts.Bigint.Integer.Normal.{IsTidy, Stands}

-- What an operation returns, once it is known whether its allocation succeeds: the normal form of
-- `v`, within the allocated digits, or the error value.
abbrev pub Gives : ℕ → Bool → ℤ → ZInt → Type 0
Gives base true v r = IsNormal base r × (to_ℤ base r ≡ v) × (length r.digits ≤ r.alloc)
Gives base false v r = r ≡ z_err

module _ (base : ℕ) (malloc : ℕ → Bool) where
  pub new_ok-pos : (n : ℕ) (b : Bool) → 0 < n → malloc n ≡ b → z_new_ok malloc false n ≡ b
  unfolding z_new_ok
  new_ok-pos n b pos e = rw (← e) (ground arith)

  pub checked-Gives :
      (n : ℕ) (v : ℤ) (r : Bool × List ℕ) (ok : Bool)
      → 0 < n
      → malloc n ≡ ok
      → Stands base v n r
      → Gives base ok v (z_new_checked malloc false n r)
  unfolding z_new_checked to_ℤ
  checked-Gives n v r true pos e ((d, t), sign, val, le) =
      rw (new_ok-pos n true pos e)
        (record { digits_fit = d; trimmed = t; zero_sign = sign; no_error = refl }, val, le)
  checked-Gives n v r false pos e st = rw (new_ok-pos n false pos e)

  -- Zero needs no memory.
  pub zero-Gives :
      (neg err : Bool)
      → err ≡ false
      → Gives base true (signed neg 0) (z_new_checked malloc err 0 (false, []))
  unfolding z_new_checked z_new_ok to_ℤ
  zero-Gives neg err e = rw e (
    record { digits_fit = tt; trimmed = tt; zero_sign = λ _. refl; no_error = refl },
    signed_zero false ∙ sym (signed_zero neg),
    omega arith,
  )

-- An operand in error makes the result the error value, whatever the allocator does.
pub checked-err :
    (malloc : ℕ → Bool) (n : ℕ) (r : Bool × List ℕ) → z_new_checked malloc true n r ≡ z_err
unfolding z_new_checked z_new_ok
checked-err malloc n r = refl

pub no_err : (x y : Bool) → x ≡ false → y ≡ false → (x || y) ≡ false
no_err x y e f = ground arith

pub tidy : (base : ℕ) {a : ZInt} → IsNormal base a → IsTidy base a.digits
tidy base h = (h.digits_fit, h.trimmed)
