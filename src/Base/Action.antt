-- ===== src/Base/Action.antt =====
-- Functions that may fail with an error and change a state, also if they fail.
pub mod Keeps
use mathlib.Core.Bool.{Bool, true, false}
use duro_ledger.Base.Results.{Result, ok, err}

abbrev pub Action : Type 0 → Type 0 → Type 0 → Type 0
Action S E A = S → Result E A × S

abbrev pub after_result : {S E A B : Type 0} → (A → Action S E B) → Result E A → Action S E B
after_result f (ok a) s = f a s
after_result f (err e) s = (err e, s)

infixl 5 ◌>>=◌ ◌>>◌
abbrev pub ◌>>=◌ : {S E A B : Type 0} → Action S E A → (A → Action S E B) → Action S E B
◌>>=◌ m f s = after_result f (m s).0 (m s).1

abbrev pub ◌>>◌ : {S E B : Type 0} → Action S E (Unit {0}) → Action S E B → Action S E B
m >> k = m >>= λ _. k

abbrev pub pure : {S E A : Type 0} → A → Action S E A
pure a s = (ok a, s)

abbrev pub fail : {S E A : Type 0} → E → Action S E A
fail e s = (err e, s)

-- The error in other terms, as `fmt.Errorf` with `%w` makes it.
abbrev pub map_result : {E F A : Type 0} → (E → F) → Result E A → Result F A
map_result f (ok a) = ok a
map_result f (err e) = err (f e)

abbrev pub map_error : {S E F A : Type 0} → (E → F) → Action S E A → Action S F A
map_error f m s = (map_result f (m s).0, (m s).1)

-- `if c { return err }`
abbrev pub reject_if : {S E : Type 0} → Bool → E → Action S E (Unit {0})
reject_if true e = fail e
reject_if false e = pure tt

-- A `defer`red call that only changes the state.
abbrev pub then_do : {S E A : Type 0} → (S → S) → Action S E A → Action S E A
then_do f m s = ((m s).0, f (m s).1)
