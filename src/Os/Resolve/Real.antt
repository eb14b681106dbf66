-- ===== src/Os/Resolve/Real.antt =====
-- What `EvalSymlinks` returns, and what `MkdirAll` makes through links.
use mathlib.Core.List.{reverse}
use duro_ledger.Base.{
  ℕ, zero, suc, ◌≡◌, refl, ap, sym, subst, ◌∙◌, inl, Bool, true, false, Option, some, List, [], ◌∷◌,
  ◌++◌, Bytes, Result, ok, err,
}
use duro_ledger.Base.Action.Keeps.{bind_keeps, bind_ok}
use duro_ledger.Os.Path.{FilePath}
use duro_ledger.Os.State.{Errno, Node, regular, directory, special, symlink, Os, Syscall}
use duro_ledger.Os.Calls.{Found, lstat}
use duro_ledger.Os.Calls.Frame.{lstat-nodes, Made, Made-trans, mkdir-Made}
use duro_ledger.Os.Calls.Success.{lstat_ok}
use duro_ledger.Os.Resolve.{
  Jump, visit, walk_names, walk, eval_symlinks, max_links_walked, mkdir_real, when_missing, real,
  mkdir_all_real,
}

abbrev is_link : Node → Bool
is_link (symlink q) = true
is_link directory = false
is_link (regular b m) = false
is_link special = false

-- The path names what is there, and neither it nor a directory above it is a link.
abbrev pub IsReal : (FilePath → Option Node) → FilePath → Type 0
IsReal f [] = Unit {0}
IsReal f (name ∷ d) = IsReal f d × (n : Node) × (f (name ∷ d) ≡ some n) × (is_link n ≡ false)

-- A walk finds such paths, and changes no file.
record Walks (m : Syscall FilePath) : Type 0 where
  finds : (s : Os) (p : FilePath) → (m s).0 ≡ ok p → IsReal s.nodes p
  keeps : (s : Os) → (m s).1.nodes ≡ s.nodes

-- The same behind a directory that is found already.
record WalksBehind (d : FilePath) (m : Syscall FilePath) : Type 0 where
  finds_behind : (s : Os) (p : FilePath) → IsReal s.nodes d → (m s).0 ≡ ok p → IsReal s.nodes p
  keeps_behind : (s : Os) → (m s).1.nodes ≡ s.nodes

ok-real :
    (f : FilePath → Option Node) (d p : FilePath) (r : Result Errno FilePath)
    → IsReal f d
    → r ≡ ok d
    → r ≡ ok p
    → IsReal f p
ok-real f d p r h e e' = let same : d ≡ p = cc in subst (λ x. IsReal f x) same h

module _ (jump : Jump (Syscall FilePath))
    (jumps : (q : FilePath) (rest : List Bytes) → Walks (jump q rest)) where
  visit-nodes :
      (p : FilePath) (rest : List Bytes) (n : Node) (next : Syscall FilePath) (s : Os)
      → ((t : Os) → (next t).1.nodes ≡ t.nodes)
      → (visit jump p rest n next s).1.nodes ≡ s.nodes
  visit-nodes p rest directory next s h = h s
  visit-nodes p rest (symlink q) next s h = (jumps q rest).keeps s
  visit-nodes p [] (regular b m) next s h = h s
  visit-nodes p [] special next s h = h s
  visit-nodes p (name ∷ rest) (regular b m) next s h = refl
  visit-nodes p (name ∷ rest) special next s h = refl

  visit-finds :
      (name : Bytes) (d : FilePath) (rest : List Bytes) (n : Node) (next : Syscall FilePath)
      (s : Os) (p : FilePath)
      → WalksBehind (name ∷ d) next
      → s.nodes (name ∷ d) ≡ some n
      → IsReal s.nodes d
      → (visit jump (name ∷ d) rest n next s).0 ≡ ok p
      → IsReal s.nodes p
  visit-finds name d rest directory next s p w there h e =
      w.finds_behind s p (h, directory, there, refl) e
  visit-finds name d rest (symlink q) next s p w there h e = (jumps q rest).finds s p e
  visit-finds name d [] (regular b m) next s p w there h e =
      w.finds_behind s p (h, regular b m, there, refl) e
  visit-finds name d [] special next s p w there h e =
      w.finds_behind s p (h, special, there, refl) e
  visit-finds name d (x ∷ rest) (regular b m) next s p w there h e = cc
  visit-finds name d (x ∷ rest) special next s p w there h e = cc

  walk_names-Walks : (d : FilePath) (rest : List Bytes) → WalksBehind d (walk_names jump d rest)
  unfolding walk_names
  walk_names-Walks d [] = record {
    finds_behind = λ s p h e. ok-real s.nodes d p (ok d) h refl e;
    keeps_behind = λ s. refl;
  }
  walk_names-Walks d (name ∷ rest) =
      let next = walk_names jump (name ∷ d) rest in
      let w = walk_names-Walks (name ∷ d) rest in
      record {
        finds_behind = λ s p h e.
            let (n, found, run) = bind_ok (lstat (name ∷ d)) _ s e in
            let (there, drew) = lstat_ok (name ∷ d) s n found in
            let t = (lstat (name ∷ d) s).1 in
            let same : t.nodes ≡ s.nodes = lstat-nodes (name ∷ d) s in
            subst (λ f. IsReal f p) same
              (visit-finds name d rest n next t p w (ap (λ f. f (name ∷ d)) same ∙ there)
                (subst (λ f. IsReal f d) (sym same) h) (subst (λ x. x.0 ≡ ok p) run e));
        keeps_behind = λ s.
            bind_keeps (λ t. t.nodes ≡ s.nodes) (lstat (name ∷ d)) _ s (lstat-nodes (name ∷ d) s)
              λ n k. visit-nodes (name ∷ d) rest n next _ w.keeps_behind ∙ k;
      }

top-Walks : (m : Syscall FilePath) → WalksBehind [] m → Walks m
top-Walks m w = record { finds = λ s p e. w.finds_behind s p tt e; keeps = w.keeps_behind }

walk-Walks : (k : ℕ) (d : FilePath) (rest : List Bytes) → WalksBehind d (walk k d rest)
unfolding walk
walk-Walks zero d rest =
    walk_names-Walks _ (λ q more. record { finds = λ s p e. cc; keeps = λ s. refl }) d rest
walk-Walks (suc k) d rest =
    walk_names-Walks _ (λ q more. top-Walks _ (walk-Walks k [] (reverse q ++ more))) d rest

-- `EvalSymlinks` returns a path to what is there with no link in it, and changes no file.
pub eval_symlinks-IsReal :
    (p q : FilePath) (s : Os) → (eval_symlinks p s).0 ≡ ok q → IsReal s.nodes q
unfolding eval_symlinks
eval_symlinks-IsReal p q s h = (walk-Walks max_links_walked [] (reverse p)).finds_behind s q tt h

pub eval_symlinks-nodes : (p : FilePath) (s : Os) → (eval_symlinks p s).1.nodes ≡ s.nodes
unfolding eval_symlinks
eval_symlinks-nodes p s = (walk-Walks max_links_walked [] (reverse p)).keeps_behind s

pub mkdir_real-Made :
    (found : Found) (name : Bytes) (q : FilePath) (s : Os)
    → Made (s.nodes q) ((mkdir_real found name s).1.nodes q)
mkdir_real-Made (err e) name q s = inl refl
mkdir_real-Made (ok (d, n)) name q s = mkdir-Made (name ∷ d) q s

when_missing-Made :
    (found : Found) (make : Syscall (Unit {0})) (q : FilePath) (s : Os)
    → Made (s.nodes q) ((make s).1.nodes q)
    → Made (s.nodes q) ((when_missing found make s).1.nodes q)
when_missing-Made (err e) make q s h = h
when_missing-Made (ok (d, directory)) make q s h = inl refl
when_missing-Made (ok (d, regular b m)) make q s h = inl refl
when_missing-Made (ok (d, special)) make q s h = inl refl
when_missing-Made (ok (d, symlink x)) make q s h = inl refl

-- Through links too, `MkdirAll` makes directories at free paths and changes nothing else.
pub mkdir_all_real-Made :
    (p q : FilePath) (s : Os) → Made (s.nodes q) ((mkdir_all_real p s).1.nodes q)
unfolding mkdir_all_real
mkdir_all_real-Made [] q s = inl refl
mkdir_all_real-Made (name ∷ p) q s = when_missing-Made (real s.nodes (name ∷ p)) _ q s (
    bind_keeps (λ t. Made (s.nodes q) (t.nodes q)) (mkdir_all_real p) _ s
      (mkdir_all_real-Made p q s)
      λ u k.
        let t = (mkdir_all_real p s).1 in
        Made-trans (s.nodes q) (t.nodes q) _ k (mkdir_real-Made (real t.nodes p) name q t))
