-- ===== src/Os/Resolve/Silent.antt =====
-- Calls that write nothing to the caller's writer.
use mathlib.Core.List.{reverse}
use duro_ledger.Base.{
  ℕ, zero, suc, ◌≡◌, refl, ◌∙◌, Option, none, some, List, [], ◌∷◌, ◌++◌, Bytes, ok, err,
}
use duro_ledger.Base.Action.{Action, ◌>>=◌}
use duro_ledger.Base.Action.Keeps.{bind_keeps}
use duro_ledger.Os.Path.{FilePath}
use duro_ledger.Os.State.{Node, regular, directory, special, symlink, Os, Syscall, call, drawn}
use duro_ledger.Os.Calls.{
  Found, lstat, node_at, open_file, open_at, follow, max_links, fsync, mkdir, mkdir_new,
}
use duro_ledger.Os.Calls.Frame.{call-keeps}
use duro_ledger.Os.Resolve.{
  Jump, visit, walk_names, walk, eval_symlinks, max_links_walked, mkdir_real, when_missing, real,
  mkdir_all_real,
}

abbrev pub Silent : {E A : Type 0} → Action Os E A → Type 0
Silent m = (s : Os) → (m s).1.out ≡ s.out

pub bind-Silent :
    {E A B : Type 0} (m : Action Os E A) (f : A → Action Os E B)
    → Silent m
    → ((a : A) → Silent (f a))
    → Silent (m >>= f)
bind-Silent m f h k s = bind_keeps (λ t. t.out ≡ s.out) m f s (h s) λ a e. k a (m s).1 ∙ e

call-Silent :
    {A : Type 0} (run : Os → Syscall A) → ((s : Os) → Silent (run s)) → Silent (call (λ s. run s s))
call-Silent run h s = call-keeps (λ t. t.out ≡ s.out) (λ t. run t t) s refl (h (drawn s) (drawn s))

node_at-Silent : (o : Option Node) → Silent (node_at o)
node_at-Silent none s = refl
node_at-Silent (some n) s = refl

lstat-Silent : (p : FilePath) → Silent (lstat p)
unfolding lstat
lstat-Silent p = call-Silent (λ s. node_at (s.nodes p)) (λ s. node_at-Silent (s.nodes p))

open_at-Silent : (found : Found) → Silent (open_at found)
open_at-Silent (ok (q, n)) s = refl
open_at-Silent (err e) s = refl

pub open_file-Silent : (p : FilePath) → Silent (open_file p)
unfolding open_file
open_file-Silent p =
    call-Silent (λ s. open_at (follow max_links s.nodes p))
      (λ s. open_at-Silent (follow max_links s.nodes p))

pub fsync-Silent : (p : FilePath) → Silent (fsync p)
unfolding fsync
fsync-Silent p = call-Silent (λ s t. (ok tt, record t { synced = p ∷ s.synced })) (λ s t. refl)

mkdir_new-Silent : (p : FilePath) (o : Option Node) → Silent (mkdir_new p o)
mkdir_new-Silent p none s = refl
mkdir_new-Silent p (some n) s = refl

mkdir_real-Silent : (found : Found) (name : Bytes) → Silent (mkdir_real found name)
unfolding mkdir
mkdir_real-Silent (err e) name s = refl
mkdir_real-Silent (ok (d, n)) name s =
    call-Silent (λ t. mkdir_new (name ∷ d) (t.nodes (name ∷ d)))
      (λ t. mkdir_new-Silent (name ∷ d) (t.nodes (name ∷ d))) s

when_missing-Silent :
    (found : Found) (make : Syscall (Unit {0})) → Silent make → Silent (when_missing found make)
when_missing-Silent (err e) make h s = h s
when_missing-Silent (ok (d, directory)) make h s = refl
when_missing-Silent (ok (d, regular b m)) make h s = refl
when_missing-Silent (ok (d, special)) make h s = refl
when_missing-Silent (ok (d, symlink q)) make h s = refl

pub mkdir_all_real-Silent : (p : FilePath) → Silent (mkdir_all_real p)
unfolding mkdir_all_real
mkdir_all_real-Silent [] s = refl
mkdir_all_real-Silent (name ∷ p) s =
    when_missing-Silent (real s.nodes (name ∷ p)) _
      (λ t.
        bind_keeps (λ u. u.out ≡ t.out) (mkdir_all_real p) _ t (mkdir_all_real-Silent p t)
          λ u e. let v = (mkdir_all_real p t).1 in mkdir_real-Silent (real v.nodes p) name v ∙ e)
      s

module _ (jump : Jump (Syscall FilePath))
    (h : (q : FilePath) (rest : List Bytes) → Silent (jump q rest)) where
  visit-Silent :
      (p : FilePath) (rest : List Bytes) (n : Node) (next : Syscall FilePath)
      → Silent next
      → Silent (visit jump p rest n next)
  visit-Silent p rest directory next k s = k s
  visit-Silent p rest (symlink q) next k s = h q rest s
  visit-Silent p [] (regular b m) next k s = k s
  visit-Silent p [] special next k s = k s
  visit-Silent p (name ∷ rest) (regular b m) next k s = refl
  visit-Silent p (name ∷ rest) special next k s = refl

  walk_names-Silent : (d : FilePath) (rest : List Bytes) → Silent (walk_names jump d rest)
  unfolding walk_names
  walk_names-Silent d [] = λ s. refl
  walk_names-Silent d (name ∷ rest) =
      let next = walk_names jump (name ∷ d) rest in
      bind-Silent (lstat (name ∷ d)) (λ n. visit jump (name ∷ d) rest n next)
        (lstat-Silent (name ∷ d))
        λ n. visit-Silent (name ∷ d) rest n next (walk_names-Silent (name ∷ d) rest)

walk-Silent : (k : ℕ) (d : FilePath) (rest : List Bytes) → Silent (walk k d rest)
unfolding walk
walk-Silent zero d rest = walk_names-Silent _ (λ q more s. refl) d rest
walk-Silent (suc k) d rest =
    walk_names-Silent _ (λ q more. walk-Silent k [] (reverse q ++ more)) d rest

pub eval_symlinks-Silent : (p : FilePath) → Silent (eval_symlinks p)
unfolding eval_symlinks
eval_symlinks-Silent p = walk-Silent max_links_walked [] (reverse p)
