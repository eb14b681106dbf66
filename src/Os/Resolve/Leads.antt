-- ===== src/Os/Resolve/Leads.antt =====
-- Paths that lead to a directory through any links, without the bounds on their number.
use mathlib.Core.List.{reverse, reverse-cons}
use duro_ledger.Base.{
  ◌≡◌, refl, ap, sym, subst, ◌∙◌, Option, some, List, [], ◌∷◌, ◌++◌, append_assoc, Bytes,
}
use duro_ledger.Os.Path.{FilePath}
use duro_ledger.Os.State.{Node, directory, symlink}

-- From the directory `d` the names lead to the directory `e`.
pub data Leads (f : FilePath → Option Node) (e : FilePath) : FilePath → List Bytes → Type 0 where
  stop : {d : FilePath} → e ≡ d → Leads f e d []
  into :
      {d : FilePath} {name : Bytes} {rest : List Bytes}
      → f (name ∷ d) ≡ some directory
      → Leads f e (name ∷ d) rest
      → Leads f e d (name ∷ rest)
  jumped :
      {d : FilePath} {name : Bytes} {rest : List Bytes} (q : FilePath)
      → f (name ∷ d) ≡ some (symlink q)
      → Leads f e [] (reverse q ++ rest)
      → Leads f e d (name ∷ rest)

module _ (f : FilePath → Option Node) where
  -- The names lead to one directory at most.
  pub Leads-unique :
      (e e' d : FilePath) (rest : List Bytes) → Leads f e d rest → Leads f e' d rest → e ≡ e'
  Leads-unique e e' d [] (stop h) (stop k) = h ∙ sym k
  Leads-unique e e' d (name ∷ rest) (into h l) (into k m) = Leads-unique e e' (name ∷ d) rest l m
  Leads-unique e e' d (name ∷ rest) (into h l) (jumped q k m) = cc
  Leads-unique e e' d (name ∷ rest) (jumped q h l) (into k m) = cc
  Leads-unique e e' d (name ∷ rest) (jumped q h l) (jumped r k m) =
      let same : q ≡ r = cc in
      Leads-unique e e' [] (reverse q ++ rest) l
        (subst (λ x. Leads f e' [] (reverse x ++ rest)) (sym same) m)

  pub Leads-append :
      (e g d : FilePath) (xs ys : List Bytes)
      → Leads f e d xs
      → Leads f g e ys
      → Leads f g d (xs ++ ys)
  Leads-append e g d [] ys (stop h) m = subst (λ x. Leads f g x ys) h m
  Leads-append e g d (name ∷ xs) ys (into h l) m = into h (Leads-append e g (name ∷ d) xs ys l m)
  Leads-append e g d (name ∷ xs) ys (jumped q h l) m = jumped q h (
      subst (λ x. Leads f g [] x) (append_assoc (reverse q) xs ys)
        (Leads-append e g [] (reverse q ++ xs) ys l m))

  -- The first names lead to a directory on the way.
  Leads-first :
      (g d : FilePath) (xs ys zs : List Bytes)
      → Leads f g d zs
      → zs ≡ xs ++ ys
      → (e : FilePath) × Leads f e d xs
  Leads-first g d [] ys zs m h = (d, stop refl)
  Leads-first g d (x ∷ xs) ys [] (stop k) h = cc
  Leads-first g d (x ∷ xs) ys (name ∷ rest) (into k m) h =
      let same : name ≡ x = cc in
      let more : rest ≡ xs ++ ys = cc in
      let (e, l) = Leads-first g (name ∷ d) xs ys rest m more in
      (e, subst (λ n. Leads f e d (n ∷ xs)) same (into k l))
  Leads-first g d (x ∷ xs) ys (name ∷ rest) (jumped q k m) h =
      let same : name ≡ x = cc in
      let more : rest ≡ xs ++ ys = cc in
      let (e, l) =
        Leads-first g [] (reverse q ++ xs) ys (reverse q ++ rest) m
          (ap (λ l. reverse q ++ l) more ∙ sym (append_assoc (reverse q) xs ys)) in
      (e, subst (λ n. Leads f e d (n ∷ xs)) same (jumped q k l))

  -- What leads on behind a directory on the way.
  pub Leads-rest :
      (e g d : FilePath) (xs ys : List Bytes)
      → Leads f e d xs
      → Leads f g d (xs ++ ys)
      → Leads f g e ys
  Leads-rest e g d [] ys (stop h) m = subst (λ x. Leads f g x ys) (sym h) m
  Leads-rest e g d (name ∷ xs) ys (into h l) (into k m) = Leads-rest e g (name ∷ d) xs ys l m
  Leads-rest e g d (name ∷ xs) ys (into h l) (jumped q k m) = cc
  Leads-rest e g d (name ∷ xs) ys (jumped q h l) (into k m) = cc
  Leads-rest e g d (name ∷ xs) ys (jumped q h l) (jumped r k m) =
      let same : r ≡ q = cc in
      Leads-rest e g [] (reverse q ++ xs) ys l (
        subst (λ x. Leads f g [] x) (sym (append_assoc (reverse q) xs ys))
          (subst (λ x. Leads f g [] (reverse x ++ (xs ++ ys))) same m))

  -- Every directory on the path of a directory that is led to is one itself.
  abbrev AllDirectories : FilePath → Type 0
  AllDirectories [] = Unit {0}
  AllDirectories (name ∷ d) = (f (name ∷ d) ≡ some directory) × AllDirectories d

  Leads-AllDirectories :
      (e d : FilePath) (rest : List Bytes) → AllDirectories d → Leads f e d rest → AllDirectories e
  Leads-AllDirectories e d [] all (stop h) = subst AllDirectories (sym h) all
  Leads-AllDirectories e d (name ∷ rest) all (into h l) =
      Leads-AllDirectories e (name ∷ d) rest (h, all) l
  Leads-AllDirectories e d (name ∷ rest) all (jumped q h l) =
      Leads-AllDirectories e [] (reverse q ++ rest) tt l

  -- A name more.
  pub Leads-child :
      (e : FilePath) (name : Bytes) (p : FilePath)
      → Leads f e [] (reverse p)
      → f (name ∷ e) ≡ some directory
      → Leads f (name ∷ e) [] (reverse (name ∷ p))
  Leads-child e name p l there =
      subst (λ x. Leads f (name ∷ e) [] x) (sym (reverse-cons name p))
        (Leads-append e (name ∷ e) [] (reverse p) (name ∷ []) l (into there (stop refl)))

  -- A directory that is led to leads to itself.
  AllDirectories-Leads : (e : FilePath) → AllDirectories e → Leads f e [] (reverse e)
  AllDirectories-Leads [] all = stop refl
  AllDirectories-Leads (name ∷ e) (there, all) =
      Leads-child e name e (AllDirectories-Leads e all) there

  -- A path with a child that leads to a directory does so too.
  pub Leads-parent :
      (p g : FilePath) (name : Bytes)
      → Leads f g [] (reverse (name ∷ p))
      → (e : FilePath) × Leads f e [] (reverse p)
  Leads-parent p g name m =
      Leads-first g [] (reverse p) (name ∷ []) (reverse (name ∷ p)) m (reverse-cons name p)

  -- A child of a path is a child of the directory that the path leads to.
  pub Leads-canonical :
      (p e g : FilePath) (name : Bytes)
      → Leads f e [] (reverse p)
      → Leads f g [] (reverse (name ∷ p))
      → Leads f g [] (reverse (name ∷ e))
  Leads-canonical p e g name l m =
      let split : Leads f g [] (reverse p ++ (name ∷ [])) =
        subst (λ x. Leads f g [] x) (reverse-cons name p) m in
      let last = Leads-rest e g [] (reverse p) (name ∷ []) l split in
      let self = AllDirectories-Leads e (Leads-AllDirectories e [] (reverse p) tt l) in
      subst (λ x. Leads f g [] x) (sym (reverse-cons name e))
        (Leads-append e g [] (reverse e) (name ∷ []) self last)

-- More paths that are taken change no way.
pub Leads-grown :
    (f g : FilePath → Option Node) (e d : FilePath) (rest : List Bytes)
    → ((q : FilePath) (n : Node) → f q ≡ some n → g q ≡ some n)
    → Leads f e d rest
    → Leads g e d rest
Leads-grown f g e d [] grown (stop h) = stop h
Leads-grown f g e d (name ∷ rest) grown (into h l) =
    into (grown (name ∷ d) directory h) (Leads-grown f g e (name ∷ d) rest grown l)
Leads-grown f g e d (name ∷ rest) grown (jumped q h l) =
    jumped q (grown (name ∷ d) (symlink q) h) (Leads-grown f g e [] (reverse q ++ rest) grown l)
