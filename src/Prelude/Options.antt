-- ===== src/Prelude/Options.antt =====
-- Fallible code as `Option`: `none` is a fault, which `do` blocks pass on.
use mathlib.Core.Option.{Option, none, some}

infixl 5 ◌>>=◌
abbrev pub ◌>>=◌ {ℓ κ} : {A : Type ℓ} {B : Type κ} → Option A → (A → Option B) → Option B
none >>= f = none
some a >>= f = f a
