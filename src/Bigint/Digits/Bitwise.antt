-- ===== src/Bigint/Digits/Bitwise.antt =====
-- The functions of native/bigint/znogmp.h that combine digits bit by bit.
pub mod Numbers
pub mod Tables
pub mod Laws
use Prim.Native.Nat.{bit_and, bit_or, bit_xor}
use crts.Prelude.{ℕ, ◌-◌, ◌^◌, List, [], ◌∷◌}

-- A loop over two arrays, as far as both go.
abbrev pub zip_digits : (ℕ → ℕ → ℕ) → List ℕ → List ℕ → List ℕ
zip_digits op [] b = []
zip_digits op (x ∷ a) [] = []
zip_digits op (x ∷ a) (y ∷ b) = op x y ∷ zip_digits op a b

unfoldable pub zd_or_n : List ℕ → List ℕ → List ℕ
zd_or_n a b = zip_digits bit_or a b

unfoldable pub zd_and_n : List ℕ → List ℕ → List ℕ
zd_and_n a b = zip_digits bit_and a b

-- `~y` of a digit of so many bits.
unfoldable pub zd_andnot_n : ℕ → List ℕ → List ℕ → List ℕ
zd_andnot_n bits a b = zip_digits (λ x y. bit_and x (2 ^ bits - 1 - y)) a b

unfoldable pub zd_xor_n : List ℕ → List ℕ → List ℕ
zd_xor_n a b = zip_digits bit_xor a b
