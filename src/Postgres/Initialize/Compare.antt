-- ===== src/Postgres/Initialize/Compare.antt =====
-- `descriptorDiff` decides equality, and `Initialize` against a catalog it can only read.
use mathlib.Core.Path.{ap₂}
use duro_ledger.Base.{
  ◌≡◌, refl, sym, Bool-cases, inl, inr, arith, false, Option, none, some, List, [], ◌∷◌, ◌++◌,
  Bytes, beq, beq_iff, beq_refl,
}
use duro_ledger.Postgres.Initialize.{
  Difference, missing, expected_found, unexpected, descriptor_diff,
}

-- `descriptorDiff` reports nothing exactly for equal descriptions.
descriptor_diff_refl : (want : List Bytes) → descriptor_diff want want ≡ none
unfolding descriptor_diff
descriptor_diff_refl [] = refl
descriptor_diff_refl (w ∷ want) = rw (beq_refl w) (descriptor_diff_refl want)

pub descriptor_diff-none : (want got : List Bytes) → descriptor_diff want got ≡ none → want ≡ got
unfolding descriptor_diff
descriptor_diff-none [] [] h = refl
descriptor_diff-none [] (g ∷ got) h = cc
descriptor_diff-none (w ∷ want) [] h = cc
descriptor_diff-none (w ∷ want) (g ∷ got) h =
    ground (arith, beq_iff g w, descriptor_diff-none want got)

-- What a report says of the two lists: they agree up to some place, and there the wanted line is
-- missing, another line stands, or a line is left over.
abbrev pub Explains : List Bytes → List Bytes → Option Difference → Type 0
Explains want got none = want ≡ got
Explains want got (some (missing w)) = (rest : List Bytes) × (want ≡ got ++ (w ∷ rest))
Explains want got (some (expected_found w g)) =
    (same want_rest got_rest : List Bytes) × (want ≡ same ++ (w ∷ want_rest))
    × (got ≡ same ++ (g ∷ got_rest))
    × (beq g w ≡ false)
Explains want got (some (unexpected g)) = (rest : List Bytes) × (got ≡ want ++ (g ∷ rest))

Explains-cons :
    (x y : Bytes) (want got : List Bytes) (d : Option Difference)
    → x ≡ y
    → Explains want got d
    → Explains (x ∷ want) (y ∷ got) d
Explains-cons x y want got none e h = ap₂ (λ a b. a ∷ b) e h
Explains-cons x y want got (some (missing w)) e (rest, h) = (rest, ap₂ (λ a b. a ∷ b) e h)
Explains-cons x y want got (some (expected_found w g)) e (same, a, b, h, k, ne) =
    (x ∷ same, a, b, rw h, rw (k, e), ne)
Explains-cons x y want got (some (unexpected g)) e (rest, h) = (rest, rw (h, e))

-- `descriptorDiff` is silent exactly when the two descriptions are equal, and otherwise names the
-- first disagreement: up to it the lines agree, and there the wanted line is missing, the two lines
-- differ, or a line is left over.
pub descriptor_diff-Explains :
    (want got : List Bytes) → Explains want got (descriptor_diff want got)
unfolding descriptor_diff
descriptor_diff-Explains [] [] = refl
descriptor_diff-Explains [] (g ∷ got) = (got, refl)
descriptor_diff-Explains (w ∷ want) [] = (want, refl)
descriptor_diff-Explains (w ∷ want) (g ∷ got) = elim (Bool-cases (beq g w)) [
  | inl same ↦ rw same (
      Explains-cons w g want got _ (sym ((beq_iff g w).0 same)) (descriptor_diff-Explains want got))
  | inr differ ↦ rw differ ([], want, got, refl, refl, differ)
]
