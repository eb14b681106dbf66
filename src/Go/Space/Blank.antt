-- ===== src/Go/Space/Blank.antt =====
-- When trimming leaves nothing.
use mathlib.Core.List.{reverse, reverse-cons}
use duro_ledger.Base.{
  ℕ, ◌≡◌, refl, ◌∙◌, arith, Bool, false, List, [], ◌∷◌, ◌++◌, all, all-append, is_empty,
}
use duro_ledger.Go.Space.{trim_left, trim}

module _ (p : ℕ → Bool) where
  is_empty-trim_left : (s : List ℕ) → is_empty (trim_left p s) ≡ all p s
  unfolding trim_left
  is_empty-trim_left [] = refl
  is_empty-trim_left (c ∷ s) = ground (arith, is_empty-trim_left s)

  all-trim_left : (s : List ℕ) → all p (trim_left p s) ≡ all p s
  unfolding trim_left
  all-trim_left [] = refl
  all-trim_left (c ∷ s) = ground (arith, all-trim_left s)

  all-reverse : (s : List ℕ) → all p (reverse s) ≡ all p s
  all-reverse [] = refl
  all-reverse (c ∷ s) = rw (reverse-cons, all-append) (ground (arith, all-reverse s))

is_empty-append : (s : List ℕ) (c : ℕ) → is_empty (s ++ (c ∷ [])) ≡ false
is_empty-append [] c = refl
is_empty-append (x ∷ s) c = refl

is_empty-reverse : (s : List ℕ) → is_empty (reverse s) ≡ is_empty s
is_empty-reverse [] = refl
is_empty-reverse (c ∷ s) = rw reverse-cons (is_empty-append (reverse s) c)

-- Nothing is left exactly when every code point passes the test.
pub is_empty-trim : (p : ℕ → Bool) (s : List ℕ) → is_empty (trim p s) ≡ all p s
unfolding trim
is_empty-trim p s =
    is_empty-reverse _ ∙ is_empty-trim_left p _ ∙ all-reverse p _ ∙ all-trim_left p s
