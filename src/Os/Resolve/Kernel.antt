-- ===== src/Os/Resolve/Kernel.antt =====
-- The kernel's resolution of a path, and the directories that the path leads to.
use mathlib.Core.List.{reverse}
use duro_ledger.Base.{
  ℕ, zero, suc, ◌≡◌, ◌≢◌, Bool, true, false, refl, sym, ◌∙◌, Option, none, some, List, [], ◌∷◌,
  ◌++◌, Bytes, ok,
}
use duro_ledger.Os.Path.{FilePath}
use duro_ledger.Os.State.{Node, regular, directory, special, symlink}
use duro_ledger.Os.Calls.{Found, max_links}
use duro_ledger.Os.Resolve.{Jump, leaf, enter_node, look_names, look, real}
use duro_ledger.Os.Resolve.Leads.{Leads, stop, into, jumped}

abbrev is_directory : Node → Bool
is_directory directory = true
is_directory (regular b m) = false
is_directory special = false
is_directory (symlink q) = false

leaf_no_directory :
    (p e : FilePath) (rest : List Bytes) (n : Node)
    → is_directory n ≡ false
    → leaf p n rest ≢ ok (e, directory)
leaf_no_directory p e [] directory h k = cc
leaf_no_directory p e [] (regular b m) h k = cc
leaf_no_directory p e [] special h k = cc
leaf_no_directory p e [] (symlink q) h k = cc
leaf_no_directory p e (x ∷ rest) n h k = cc

module _ (f : FilePath → Option Node) where
  enter_node-Leads :
      (jump : Jump Found) (d e : FilePath) (name : Bytes) (rest : List Bytes) (o : Option Node)
      (next : Found)
      → ((q : FilePath) (more : List Bytes)
          → jump q more ≡ ok (e, directory)
          → Leads f e [] (reverse q ++ more))
      → (next ≡ ok (e, directory) → Leads f e (name ∷ d) rest)
      → f (name ∷ d) ≡ o
      → enter_node jump (name ∷ d) rest o next ≡ ok (e, directory)
      → Leads f e d (name ∷ rest)
  enter_node-Leads jump d e name rest none next jumps on there k = cc
  enter_node-Leads jump d e name rest (some directory) next jumps on there k = into there (on k)
  enter_node-Leads jump d e name rest (some (symlink q)) next jumps on there k =
      jumped q there (jumps q rest k)
  enter_node-Leads jump d e name rest (some (regular b m)) next jumps on there k =
      absurd (leaf_no_directory (name ∷ d) e rest (regular b m) refl k)
  enter_node-Leads jump d e name rest (some special) next jumps on there k =
      absurd (leaf_no_directory (name ∷ d) e rest special refl k)

  -- The kernel's resolution finds a way.
  look_names-Leads :
      (jump : Jump Found) (d e : FilePath) (rest : List Bytes)
      → ((q : FilePath) (more : List Bytes)
          → jump q more ≡ ok (e, directory)
          → Leads f e [] (reverse q ++ more))
      → look_names f jump d rest ≡ ok (e, directory)
      → Leads f e d rest
  unfolding look_names
  look_names-Leads jump d e [] jumps h = stop cc
  look_names-Leads jump d e (name ∷ rest) jumps h =
      enter_node-Leads jump d e name rest (f (name ∷ d)) (look_names f jump (name ∷ d) rest) jumps
        (look_names-Leads jump (name ∷ d) e rest jumps) refl h

  pub look-Leads :
      (k : ℕ) (d e : FilePath) (rest : List Bytes)
      → look k f d rest ≡ ok (e, directory)
      → Leads f e d rest
  unfolding look
  look-Leads zero d e rest h = look_names-Leads _ d e rest (λ q more k. cc) h
  look-Leads (suc n) d e rest h =
      look_names-Leads _ d e rest (λ q more k. look-Leads n [] e (reverse q ++ more) k) h

  pub real-Leads : (p e : FilePath) → real f p ≡ ok (e, directory) → Leads f e [] (reverse p)
  unfolding real
  real-Leads p e h = look-Leads max_links [] e (reverse p) h

  -- The kernel's resolution comes to no other place.
  look_names-place :
      (jump : Jump Found) (d e p : FilePath) (n : Node) (rest : List Bytes)
      → ((q : FilePath) (more : List Bytes)
          → jump q more ≡ ok (p, n)
          → Leads f e [] (reverse q ++ more)
          → p ≡ e)
      → look_names f jump d rest ≡ ok (p, n)
      → Leads f e d rest
      → p ≡ e
  unfolding look_names
  look_names-place jump d e p n [] jumps h (stop same) = (let k : d ≡ p = cc in sym k ∙ sym same)
  look_names-place jump d e p n (name ∷ rest) jumps h (into there l) =
      look_names-place jump (name ∷ d) e p n rest jumps (rw there at h) l
  look_names-place jump d e p n (name ∷ rest) jumps h (jumped q there l) =
      jumps q rest (rw there at h) l

  look-place :
      (k : ℕ) (d e p : FilePath) (n : Node) (rest : List Bytes)
      → look k f d rest ≡ ok (p, n)
      → Leads f e d rest
      → p ≡ e
  unfolding look
  look-place zero d e p n rest h l = look_names-place _ d e p n rest (λ q more k m. cc) h l
  look-place (suc k) d e p n rest h l =
      look_names-place _ d e p n rest (λ q more j m. look-place k [] e p n (reverse q ++ more) j m)
        h l

  pub real-place :
      (p e g : FilePath) (n : Node) → real f p ≡ ok (g, n) → Leads f e [] (reverse p) → g ≡ e
  unfolding real
  real-place p e g n h l = look-place max_links [] e g n (reverse p) h l
