-- ===== src/Go/Space.antt =====
-- unicode.IsSpace and strings.TrimSpace, on the code points of a text.
pub mod Blank
use mathlib.Core.List.{reverse}
use duro_ledger.Base.{
  ℕ, Bool, true, false, ◌&&◌, ◌||◌, List, [], ◌∷◌, ◌++◌, ◌≡◌, ◌↔◌, refl, arith, ◌==◌, all,
  if◌then◌else◌, is_empty, Bool-cases, inl, inr,
}
use duro_ledger.Go.Utf8.{between}

-- `unicode.IsSpace`
unfoldable pub is_space : ℕ → Bool
is_space c =
    between 0x09 0x0d c
    || (c == 0x20
        || (c == 0x85
            || (c == 0xa0
                || (c == 0x1680
                    || (between 0x2000 0x200a c
                        || (c == 0x2028
                            || (c == 0x2029 || (c == 0x202f || (c == 0x205f || c == 0x3000)))))))))

-- The rest after the leading code points that pass the test.
unfoldable pub trim_left : (ℕ → Bool) → List ℕ → List ℕ
trim_left p [] = []
trim_left p (c ∷ s) = if p c then trim_left p s else c ∷ s

-- `strings.TrimFunc`
unfoldable pub trim : (ℕ → Bool) → List ℕ → List ℕ
unfolding trim_left
trim p s = reverse (trim_left p (reverse (trim_left p s)))

-- `strings.TrimSpace`
unfoldable pub trim_space : List ℕ → List ℕ
unfolding trim is_space
trim_space = trim is_space
