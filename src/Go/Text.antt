-- ===== src/Go/Text.antt =====
-- `strings.ReplaceAll`.
use duro_ledger.Base.{ℕ, zero, suc, ◌-◌, none, some, [], ◌∷◌, ◌++◌, Bytes, length, strip_prefix?}

-- From here on, behind the bytes of a match that are still to be skipped.
unfoldable pub replace_from : Bytes → Bytes → ℕ → Bytes → Bytes
replace_from old new skip [] = []
replace_from old new (suc skip) (c ∷ s) = replace_from old new skip s
replace_from old new zero (c ∷ s) = elim (strip_prefix? old (c ∷ s)) [
  | none ↦ c ∷ replace_from old new 0 s
  | some rest ↦ new ++ replace_from old new (length old - 1) s
]

-- Where the text to replace is not empty.
unfoldable pub replace_all : Bytes → Bytes → Bytes → Bytes
unfolding replace_from
replace_all s old new = replace_from old new 0 s
