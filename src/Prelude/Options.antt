-- ===== src/Prelude/Options.antt =====
-- Sequencing of steps that may fail.
use mathlib.Core.Option.{Option, none, some}

-- `abbrev`, so that `some a >>= f` computes wherever it stands.
infixl 5 ◌>>=◌
abbrev pub ◌>>=◌ {ℓ κ} : {A : Type ℓ} {B : Type κ} → Option A → (A → Option B) → Option B
none >>= f = none
some a >>= f = f a
