-- ===== src/Os/Calls/Frame.antt =====
-- What each call leaves as it was, whichever answer it draws.
use duro_ledger.Base.{
  ◌≡◌, ◌⊎◌, inl, inr, refl, ◌∙◌, false, Option, none, some, [], ◌∷◌, Bytes, Result, ok, err,
  Result-cases, Bool-cases, ℕ,
}
use duro_ledger.Base.Action.{◌>>◌}
use duro_ledger.Os.Path.{FilePath, path_eq, path_eq_iff, path_eq_refl}
use duro_ledger.Os.State.{
  Errno, Node, regular, directory, symlink, special, Answer, works, fails, partial, short, Os,
  answer, drawn, answered, call, Syscall, update,
}
use duro_ledger.Os.Calls.{
  Found, follow, max_links, node_at, lstat, open_at, open_file, fstat, close, fsync, mkdir,
  mkdir_new, mkdir_at, mkdir_all, link, link_node, chmod, remove, remove_at,
}

-- What holds before a call and after what it runs holds after the call.
module _ {A : Type 0} (P : Os → Type 0) (run : Syscall A) where
  answered-keeps : (a : Answer) (s : Os) → P s → P (run s).1 → P (answered a run s).1
  answered-keeps works s p q = q
  answered-keeps (short n) s p q = q
  answered-keeps (fails e) s p q = p
  answered-keeps (partial n e) s p q = p

  pub call-keeps : (s : Os) → P (drawn s) → P (run (drawn s)).1 → P (call run s).1
  call-keeps s = answered-keeps (answer s) (drawn s)

abbrev SameNodes : Os → Os → Type 0
SameNodes s t = t.nodes ≡ s.nodes

node_at-nodes : (o : Option Node) (s : Os) → (node_at o s).1.nodes ≡ s.nodes
node_at-nodes none s = refl
node_at-nodes (some n) s = refl

pub lstat-nodes : (p : FilePath) (s : Os) → (lstat p s).1.nodes ≡ s.nodes
unfolding lstat
lstat-nodes p s = call-keeps (SameNodes s) _ s refl (node_at-nodes (s.nodes p) (drawn s))

pub fstat-nodes : (p : FilePath) (s : Os) → (fstat p s).1.nodes ≡ s.nodes
unfolding fstat
fstat-nodes p s = call-keeps (SameNodes s) _ s refl (node_at-nodes (s.nodes p) (drawn s))

pub close-nodes : (s : Os) → (close s).1.nodes ≡ s.nodes
unfolding close
close-nodes s = call-keeps (SameNodes s) _ s refl refl

pub fsync-nodes : (p : FilePath) (s : Os) → (fsync p s).1.nodes ≡ s.nodes
unfolding fsync
fsync-nodes p s = call-keeps (SameNodes s) _ s refl refl

open_at-nodes : (f : Found) (s : Os) → (open_at f s).1.nodes ≡ s.nodes
open_at-nodes (ok (q, n)) s = refl
open_at-nodes (err e) s = refl

pub open_file-nodes : (p : FilePath) (s : Os) → (open_file p s).1.nodes ≡ s.nodes
unfolding open_file
open_file-nodes p s =
    call-keeps (SameNodes s) _ s refl (open_at-nodes (follow max_links s.nodes p) (drawn s))

-- A path is as it was, or was free and is a directory now.
abbrev pub Made : Option Node → Option Node → Type 0
Made before after = (after ≡ before) ⊎ ((before ≡ none) × (after ≡ some directory))

pub Made-trans : (a b c : Option Node) → Made a b → Made b c → Made a c
Made-trans a b c (inl e) h = rw (← e) h
Made-trans a b c (inr (free, made)) (inl e) = inr (free, e ∙ made)
Made-trans a b c (inr (free, made)) (inr (free', made')) = inr (free, made')

mkdir_new-Made :
    (p q : FilePath) (o : Option Node) (s : Os)
    → s.nodes p ≡ o
    → Made (s.nodes q) ((mkdir_new p o s).1.nodes q)
mkdir_new-Made p q (some n) s h = inl refl
mkdir_new-Made p q none s h = elim (Bool-cases (path_eq p q)) [
  | inl here ↦ rw (here, ← (path_eq_iff p q).0 here, h) (inr (refl, refl))
  | inr there ↦ rw there (inl refl)
]

pub mkdir-Made : (p q : FilePath) (s : Os) → Made (s.nodes q) ((mkdir p s).1.nodes q)
unfolding mkdir
mkdir-Made p q s =
    call-keeps (λ t. Made (s.nodes q) (t.nodes q)) _ s (inl refl)
      (mkdir_new-Made p q (s.nodes p) (drawn s) refl)

then_mkdir-Made :
    (m : Syscall (Unit {0})) (p q : FilePath) (s : Os)
    → Made (s.nodes q) ((m s).1.nodes q)
    → Made (s.nodes q) (((m >> mkdir p) s).1.nodes q)
then_mkdir-Made m p q s h = elim (Result-cases (m s).0) [
  | inl (u, made) ↦ rw made (Made-trans _ _ _ h (mkdir-Made p q (m s).1))
  | inr (e, failed) ↦ rw failed h
]

mkdir_at-Made :
    (o : Option Node) (make : Syscall (Unit {0})) (q : FilePath) (s : Os)
    → Made (s.nodes q) ((make s).1.nodes q)
    → Made (s.nodes q) ((mkdir_at o make s).1.nodes q)
mkdir_at-Made none make q s h = h
mkdir_at-Made (some directory) make q s h = inl refl
mkdir_at-Made (some (regular b m)) make q s h = inl refl
mkdir_at-Made (some special) make q s h = inl refl
mkdir_at-Made (some (symlink t)) make q s h = inl refl

-- `MkdirAll` makes directories at free paths and changes nothing else.
pub mkdir_all-Made : (p q : FilePath) (s : Os) → Made (s.nodes q) ((mkdir_all p s).1.nodes q)
unfolding mkdir_all
mkdir_all-Made [] q s = inl refl
mkdir_all-Made (name ∷ p) q s =
    mkdir_at-Made (s.nodes (name ∷ p)) _ q s
      (then_mkdir-Made (mkdir_all p) (name ∷ p) q s (mkdir_all-Made p q s))

-- What a link that succeeds has done: the old path held a node, the new one was free, and holds
-- the same node now; and a link that fails has done nothing.
abbrev pub LinkEffect : FilePath → FilePath → Os → Result Errno (Unit {0}) → Os → Type 0
LinkEffect old new s (err e) t = t.nodes ≡ s.nodes
LinkEffect old new s (ok u) t =
    (n : Node) × (s.nodes old ≡ some n)
    × (s.nodes new ≡ none)
    × (t.nodes ≡ update s.nodes new (some n))

link_node_lem :
    (old new : FilePath) (from to : Option Node) (s : Os)
    → s.nodes old ≡ from
    → s.nodes new ≡ to
    → let done = link_node new from to s in LinkEffect old new s done.0 done.1
link_node_lem old new none to s h k = refl
link_node_lem old new (some n) none s h k = (n, h, k, refl)
link_node_lem old new (some n) (some m) s h k = refl

answered_link :
    (old new : FilePath) (s : Os) (a : Answer) (t : Os)
    → t.nodes ≡ s.nodes
    → let done = answered a (λ u. link_node new (u.nodes old) (u.nodes new) u) t in
      LinkEffect old new t done.0 done.1
answered_link old new s works t h = link_node_lem old new _ _ t refl refl
answered_link old new s (short n) t h = link_node_lem old new _ _ t refl refl
answered_link old new s (fails e) t h = refl
answered_link old new s (partial n e) t h = refl

pub link-LinkEffect :
    (old new : FilePath) (s : Os)
    → let done = link old new s in LinkEffect old new (drawn s) done.0 done.1
unfolding link
link-LinkEffect old new s = answered_link old new s (answer s) (drawn s) refl

-- `Remove` and `Chmod` touch only their path.
remove_at_frame :
    (p q : FilePath) (o : Option Node) (s : Os)
    → path_eq p q ≡ false
    → (remove_at p o s).1.nodes q ≡ s.nodes q
remove_at_frame p q none s h = refl
remove_at_frame p q (some n) s h = rw h

pub remove_frame :
    (p q : FilePath) (s : Os) → path_eq p q ≡ false → (remove p s).1.nodes q ≡ s.nodes q
unfolding remove
remove_frame p q s h =
    call-keeps (λ t. t.nodes q ≡ s.nodes q) _ s refl (remove_at_frame p q _ (drawn s) h)

pub chmod_frame :
    (p q : FilePath) (m : ℕ) (s : Os) → path_eq p q ≡ false → (chmod p m s).1.nodes q ≡ s.nodes q
unfolding chmod
chmod_frame p q m s h = call-keeps (λ t. t.nodes q ≡ s.nodes q) _ s refl (rw h)

-- `Chmod` keeps the bytes of a file.
pub chmod_content :
    (p : FilePath) (m : ℕ) (s : Os) (b : Bytes)
    → ((old : ℕ) × (s.nodes p ≡ some (regular b old)))
    → (new : ℕ) × ((chmod p m s).1.nodes p ≡ some (regular b new))
unfolding chmod
chmod_content p m s b (old, h) =
    call-keeps (λ t. (new : ℕ) × (t.nodes p ≡ some (regular b new))) _ s (old, h)
      (m, rw (path_eq_refl p, h))
