-- ===== src/Os/Calls.antt =====
-- The calls of package os that pkg/cas makes.
pub mod Frame
pub mod Success
pub mod Temp
use duro_ledger.Base.{
  ℕ, zero, suc, Bool, true, false, Option, none, some, List, [], ◌∷◌, ◌++◌, if◌then◌else◌, Bytes,
  Result, ok, err,
}
use duro_ledger.Base.Action.{◌>>=◌, ◌>>◌, pure, fail}
use duro_ledger.Os.Path.{FilePath}
use duro_ledger.Os.State.{
  Errno, not_exist, exist, not_directory, too_many_links, Node, regular, directory, symlink,
  special, Os, set_node, Syscall, call,
}

abbrev pub Found : Type 0
Found = Result Errno (FilePath × Node)

follow_node : (FilePath → Found) → FilePath → Option Node → Found
follow_node more p none = err not_exist
follow_node more p (some (symlink q)) = more q
follow_node more p (some (regular b m)) = ok (p, regular b m)
follow_node more p (some directory) = ok (p, directory)
follow_node more p (some special) = ok (p, special)

-- The path and node behind symbolic links at the last name.
unfoldable pub follow : ℕ → (FilePath → Option Node) → FilePath → Found
unfolding follow_node
follow zero f p = err too_many_links
follow (suc n) f p = follow_node (follow n f) p (f p)

-- The number of links that the kernel follows.
abbrev pub max_links : ℕ
max_links = 40

abbrev pub node_at : Option Node → Syscall Node
node_at none = fail not_exist
node_at (some n) = pure n

-- `os.Lstat`
unfoldable pub lstat : FilePath → Syscall Node
lstat p = call (λ s. node_at (s.nodes p) s)

abbrev pub open_at : Found → Syscall FilePath
open_at (ok (q, n)) = pure q
open_at (err e) = fail e

-- `os.Open`: the path behind the links, by which the handle goes on.
unfoldable pub open_file : FilePath → Syscall FilePath
unfolding follow
open_file p = call (λ s. open_at (follow max_links s.nodes p) s)

-- `f.Stat`
unfoldable pub fstat : FilePath → Syscall Node
fstat p = call (λ s. node_at (s.nodes p) s)

-- `(*os.File).Sync`
unfoldable pub fsync : FilePath → Syscall (Unit {0})
fsync p = call (λ s. (ok tt, record s { synced = p ∷ s.synced }))

-- `(*os.File).Close`, where its error is read
unfoldable pub close : Syscall (Unit {0})
close = call (pure tt)

abbrev pub mkdir_new : FilePath → Option Node → Syscall (Unit {0})
mkdir_new p none = λ s. (ok tt, set_node p (some directory) s)
mkdir_new p (some n) = fail exist

-- `os.Mkdir`, in a directory that is there
unfoldable pub mkdir : FilePath → Syscall (Unit {0})
mkdir p = call (λ s. mkdir_new p (s.nodes p) s)

abbrev pub mkdir_at : Option Node → Syscall (Unit {0}) → Syscall (Unit {0})
mkdir_at none make = make
mkdir_at (some directory) make = pure tt
mkdir_at (some (regular b m)) make = fail not_directory
mkdir_at (some special) make = fail not_directory
mkdir_at (some (symlink q)) make = fail not_directory

-- `os.MkdirAll`
unfoldable pub mkdir_all : FilePath → Syscall (Unit {0})
mkdir_all [] s = (ok tt, s)
mkdir_all (name ∷ p) s = mkdir_at (s.nodes (name ∷ p)) (mkdir_all p >> mkdir (name ∷ p)) s

abbrev pub link_node : FilePath → Option Node → Option Node → Syscall (Unit {0})
link_node new none taken = fail not_exist
link_node new (some n) (some m) = fail exist
link_node new (some n) none = λ s. (ok tt, set_node new (some n) s)

-- `os.Link`: it fails if the new path is taken.
unfoldable pub link : FilePath → FilePath → Syscall (Unit {0})
link old new = call (λ s. link_node new (s.nodes old) (s.nodes new) s)

abbrev pub with_mode : ℕ → Option Node → Option Node
with_mode m none = none
with_mode m (some directory) = some directory
with_mode m (some special) = some special
with_mode m (some (symlink q)) = some (symlink q)
with_mode m (some (regular b old)) = some (regular b m)

-- `os.Chmod`
unfoldable pub chmod : FilePath → ℕ → Syscall (Unit {0})
chmod p m = call (λ s. (ok tt, set_node p (with_mode m (s.nodes p)) s))

abbrev pub remove_at : FilePath → Option Node → Syscall (Unit {0})
remove_at p none = fail not_exist
remove_at p (some n) = λ s. (ok tt, set_node p none s)

-- `os.Remove` of a file
unfoldable pub remove : FilePath → Syscall (Unit {0})
remove p = call (λ s. remove_at p (s.nodes p) s)

abbrev pub choose_name :
    Option Node
    → FilePath
    → List Bytes
    → Result Errno FilePath × List Bytes
    → Result Errno FilePath × List Bytes
choose_name none p names later = (ok p, names)
choose_name (some n) p names later = later

-- The first drawn suffix whose path is free, and the suffixes left.
unfoldable pub free_name :
    (FilePath → Option Node) → FilePath → Bytes → List Bytes → Result Errno FilePath × List Bytes
free_name f dir prefix [] = (err exist, [])
free_name f dir prefix (x ∷ names) =
    let p = (prefix ++ x) ∷ dir in choose_name (f p) p names (free_name f dir prefix names)

abbrev pub create_at : Result Errno FilePath → Syscall FilePath
create_at (err e) = fail e
create_at (ok p) = λ s. (ok p, set_node p (some (regular [] 384)) s)

abbrev pub create_named : FilePath → Bytes → Syscall FilePath
create_named dir prefix s =
    let named = free_name s.nodes dir prefix s.names in
    create_at named.0 (record s { names = named.1 })

abbrev pub create_in : Option Node → Syscall FilePath → Syscall FilePath
create_in none make = fail not_exist
create_in (some directory) make = make
create_in (some (regular b m)) make = fail not_directory
create_in (some special) make = fail not_directory
create_in (some (symlink q)) make = fail not_directory

-- `os.CreateTemp`: a new empty file of mode 0600 in `dir`, at a path that was free.
unfoldable pub create_temp : FilePath → Bytes → Syscall FilePath
create_temp dir prefix = call (λ s. create_in (s.nodes dir) (create_named dir prefix) s)
