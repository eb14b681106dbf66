-- ===== src/Os/Resolve.antt =====
-- Paths with symbolic links anywhere: the kernel's own resolution, `os.MkdirAll` through it, and
-- `filepath.EvalSymlinks`.
pub mod Arrives
pub mod Kernel
pub mod Leads
pub mod Real
pub mod Silent
use mathlib.Core.List.{reverse}
use duro_ledger.Base.{ℕ, zero, suc, Option, none, some, List, [], ◌∷◌, ◌++◌, Bytes, Result, ok, err}
use duro_ledger.Base.Action.{◌>>=◌, ◌>>◌, pure, fail}
use duro_ledger.Os.Path.{FilePath}
use duro_ledger.Os.State.{
  Errno, not_exist, exist, not_directory, too_many_links, short_write, other, Node, regular,
  directory, special, symlink, Os, Syscall,
}
use duro_ledger.Os.Calls.{Found, max_links, lstat, mkdir}

-- What a walk does at a link, by the target of the link and the names left.
abbrev pub Jump : Type 0 → Type 0
Jump A = FilePath → List Bytes → A

-- A file is no place to go on from.
abbrev leaf : FilePath → Node → List Bytes → Found
leaf p n [] = ok (p, n)
leaf p n (name ∷ rest) = err not_directory

abbrev enter_node : Jump Found → FilePath → List Bytes → Option Node → Found → Found
enter_node jump p rest none next = err not_exist
enter_node jump p rest (some directory) next = next
enter_node jump p rest (some (symlink q)) next = jump q rest
enter_node jump p rest (some (regular b m)) next = leaf p (regular b m) rest
enter_node jump p rest (some special) next = leaf p special rest

-- The names from the left, behind a directory that is resolved.
unfoldable pub look_names : (FilePath → Option Node) → Jump Found → FilePath → List Bytes → Found
look_names f jump d [] = ok (d, directory)
look_names f jump d (name ∷ rest) =
    enter_node jump (name ∷ d) rest (f (name ∷ d)) (look_names f jump (name ∷ d) rest)

unfoldable pub look : ℕ → (FilePath → Option Node) → Jump Found
look zero f d rest = look_names f (λ q more. err too_many_links) d rest
look (suc k) f d rest = look_names f (λ q more. look k f [] (reverse q ++ more)) d rest

-- The path and node that the kernel comes to.
unfoldable pub real : (FilePath → Option Node) → FilePath → Found
real f p = look max_links f [] (reverse p)

abbrev pub mkdir_real : Found → Bytes → Syscall (Unit {0})
mkdir_real (err e) name = fail e
mkdir_real (ok (d, n)) name = mkdir (name ∷ d)

abbrev unless_directory : Option Node → Errno → Result Errno (Unit {0})
unless_directory (some directory) e = ok tt
unless_directory none e = err e
unless_directory (some (regular b m)) e = err e
unless_directory (some special) e = err e
unless_directory (some (symlink q)) e = err e

abbrev made_result :
    (FilePath → Option Node) → Found → Bytes → Result Errno (Unit {0}) → Result Errno (Unit {0})
made_result f found name (ok u) = ok u
made_result f (err e') name (err e) = err e
made_result f (ok (d, n)) name (err e) = unless_directory (f (name ∷ d)) e

-- `Mkdir`, and behind one that fails the `Lstat`, by which a directory will do.
abbrev pub make_in : Found → Bytes → Syscall (Unit {0})
make_in found name s =
    let made = mkdir_real found name s in (made_result made.1.nodes found name made.0, made.1)

abbrev pub when_missing : Found → Syscall (Unit {0}) → Syscall (Unit {0})
when_missing (ok (d, directory)) make = pure tt
when_missing (ok (d, regular b m)) make = fail not_directory
when_missing (ok (d, special)) make = fail not_directory
when_missing (ok (d, symlink q)) make = fail not_directory
when_missing (err e) make = make

-- `os.MkdirAll` through links: what is there, seen through links, need not be made.
unfoldable pub mkdir_all_real : FilePath → Syscall (Unit {0})
mkdir_all_real [] s = (ok tt, s)
mkdir_all_real (name ∷ p) s =
    when_missing (real s.nodes (name ∷ p))
      (do mkdir_all_real p; λ t. make_in (real t.nodes p) name t) s

-- One step of `walkSymlinks`, at the node that `Lstat` found.
abbrev pub visit :
    Jump (Syscall FilePath) → FilePath → List Bytes → Node → Syscall FilePath → Syscall FilePath
visit jump p rest directory next = next
visit jump p rest (symlink q) next = jump q rest
visit jump p [] (regular b m) next = next
visit jump p [] special next = next
visit jump p (name ∷ rest) (regular b m) next = fail not_directory
visit jump p (name ∷ rest) special next = fail not_directory

unfoldable pub walk_names : Jump (Syscall FilePath) → FilePath → List Bytes → Syscall FilePath
walk_names jump d [] = pure d
walk_names jump d (name ∷ rest) = do
  n ← lstat (name ∷ d)
  visit jump (name ∷ d) rest n (walk_names jump (name ∷ d) rest)

unfoldable pub walk : ℕ → Jump (Syscall FilePath)
walk zero d rest = walk_names (λ q more. fail too_many_links) d rest
walk (suc k) d rest = walk_names (λ q more. walk k [] (reverse q ++ more)) d rest

-- The number of links that `filepath.EvalSymlinks` follows.
abbrev pub max_links_walked : ℕ
max_links_walked = 255

-- `filepath.EvalSymlinks`
unfoldable pub eval_symlinks : FilePath → Syscall FilePath
eval_symlinks p = walk max_links_walked [] (reverse p)
