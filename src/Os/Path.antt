-- ===== src/Os/Path.antt =====
-- path/filepath on absolute clean paths. A path is the list of its names, the last one first, and
-- `/` is the empty list.
use duro_ledger.Base.{
  Bool, true, false, ◌&&◌, List, [], ◌∷◌, ◌++◌, ◌≡◌, ◌↔◌, ◌≢◌, refl, arith, ◌==◌, if◌then◌else◌,
  Bytes, str, beq, beq_iff,
}

abbrev pub FilePath : Type 0
FilePath = List Bytes

unfoldable pub path_eq : FilePath → FilePath → Bool
path_eq [] [] = true
path_eq (a ∷ p) (b ∷ q) = beq a b && path_eq p q
path_eq _ _ = false

pub path_eq_iff : (p q : FilePath) → (path_eq p q ≡ true) ↔ (p ≡ q)
unfolding path_eq
path_eq_iff [] [] = ground arith
path_eq_iff [] (b ∷ q) = ground arith
path_eq_iff (a ∷ p) [] = ground arith
path_eq_iff (a ∷ p) (b ∷ q) = ground (arith, beq_iff a b, path_eq_iff p q)

pub path_eq_refl : (p : FilePath) → path_eq p p ≡ true
path_eq_refl p = (path_eq_iff p p).1 refl

pub path_eq_ne : (p q : FilePath) → p ≢ q → path_eq p q ≡ false
path_eq_ne p q h = ground (arith, path_eq_iff p q)

-- `filepath.Dir`
abbrev pub parent : FilePath → FilePath
parent [] = []
parent (name ∷ p) = p

-- One element between slashes, as `filepath.Clean` treats it.
unfoldable pub enter : FilePath → Bytes → FilePath
enter p name =
    if beq name []
    then p
    else if beq name (str ".")
    then p
    else if beq name (str "..")
    then parent p
    else name ∷ p

-- The elements of a text that may hold slashes; the second argument is the element so far.
unfoldable pub enter_all : FilePath → Bytes → Bytes → FilePath
unfolding enter
enter_all p name [] = enter p name
enter_all p name (c ∷ s) =
    if c == b'/' then enter_all (enter p name) [] s else enter_all p (name ++ (c ∷ [])) s

-- `filepath.Join`, of a clean absolute path and more texts.
unfoldable pub join : FilePath → List Bytes → FilePath
unfolding enter_all
join p [] = p
join p (s ∷ more) = join (enter_all p [] s) more
