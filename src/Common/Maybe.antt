-- ===== src/Common/Maybe.antt =====
-- Validation that raises one error, as `Option`: `none` is the raise.
use mathlib.Core.Bool.{Bool, true, false}
use mathlib.Core.Option.{Option, none, some}

infixl 5 ◌>>=◌ ◌>>◌
unfoldable pub ◌>>=◌ : {A B : Type 0} → Option A → (A → Option B) → Option B
none >>= f = none
some a >>= f = f a

abbrev pub ◌>>◌ : {B : Type 0} → Option (Unit {0}) → Option B → Option B
m >> k = m >>= λ _. k

-- `if not test: raise`
abbrev pub check : Bool → Option (Unit {0})
check true = some tt
check false = none
