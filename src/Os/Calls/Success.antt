-- ===== src/Os/Calls/Success.antt =====
-- What a call that succeeds has found.
use duro_ledger.Base.{err, ◌≡◌, refl, ap, subst, ◌∙◌, Option, none, some, ◌∷◌, Bytes, ℕ, ok}
use duro_ledger.Os.Path.{FilePath}
use duro_ledger.Os.State.{
  Node, regular, Answer, works, fails, partial, short, Os, Syscall, answer, drawn, answered, call,
}
use duro_ledger.Os.Calls.{
  Found, lstat, fstat, fsync, open_file, open_at, node_at, follow, follow_node, max_links,
}

answered_ok :
    {A : Type 0} (a : Answer) (run : Syscall A) (s : Os) (x : A)
    → (answered a run s).0 ≡ ok x
    → answered a run s ≡ run s
answered_ok works run s x h = refl
answered_ok (short k) run s x h = refl
answered_ok (fails e) run s x h = cc
answered_ok (partial k e) run s x h = cc

-- A call that succeeds has run.
pub call_ok :
    {A : Type 0} (run : Syscall A) (s : Os) (x : A)
    → (call run s).0 ≡ ok x
    → call run s ≡ run (drawn s)
call_ok run s = answered_ok (answer s) run (drawn s)

node_at_ok :
    (o : Option Node) (s : Os) (n : Node)
    → (node_at o s).0 ≡ ok n
    → (o ≡ some n) × ((node_at o s).1 ≡ s)
node_at_ok none s n h = cc
node_at_ok (some m) s n h = (cc, refl)

-- `os.Lstat` reports what stands at the path.
pub lstat_ok :
    (p : FilePath) (s : Os) (n : Node)
    → (lstat p s).0 ≡ ok n
    → (s.nodes p ≡ some n) × ((lstat p s).1 ≡ drawn s)
unfolding lstat
lstat_ok p s n h =
    let ran = call_ok (λ t. node_at (t.nodes p) t) s n h in
    let (there, same) = node_at_ok (s.nodes p) (drawn s) n (subst (λ x. x.0 ≡ ok n) ran h) in
    (there, ap (λ x. x.1) ran ∙ same)

-- `f.Stat` reports the file behind the handle.
pub fstat_ok :
    (p : FilePath) (s : Os) (n : Node)
    → (fstat p s).0 ≡ ok n
    → (s.nodes p ≡ some n) × ((fstat p s).1 ≡ drawn s)
unfolding fstat
fstat_ok p s n h =
    let ran = call_ok (λ t. node_at (t.nodes p) t) s n h in
    let (there, same) = node_at_ok (s.nodes p) (drawn s) n (subst (λ x. x.0 ≡ ok n) ran h) in
    (there, ap (λ x. x.1) ran ∙ same)

pub follow_regular :
    (f : FilePath → Option Node) (p : FilePath) (b : Bytes) (mode : ℕ)
    → f p ≡ some (regular b mode)
    → follow max_links f p ≡ ok (p, regular b mode)
unfolding follow follow_node
follow_regular f p b mode h = rw h refl

-- Opening a path where a file stands gives that file.
pub open_file_ok :
    (p q : FilePath) (s : Os) (b : Bytes) (mode : ℕ)
    → s.nodes p ≡ some (regular b mode)
    → (open_file p s).0 ≡ ok q
    → open_file p s ≡ (ok p, drawn s)
unfolding open_file
open_file_ok p q s b mode there h =
    call_ok (λ t. open_at (follow max_links t.nodes p) t) s q h
    ∙ ap (λ r. open_at r (drawn s)) (follow_regular s.nodes p b mode there)

open_at_ok :
    (found : Found) (s : Os) (f : FilePath)
    → (open_at found s).0 ≡ ok f
    → ((n : Node) × (found ≡ ok (f, n))) × ((open_at found s).1 ≡ s)
open_at_ok (ok (q, n)) s f h = ((n, cc), refl)
open_at_ok (err e) s f h = cc

-- A path that was opened resolves to the path of the handle.
pub open_file-follow :
    (p f : FilePath) (s : Os)
    → (open_file p s).0 ≡ ok f
    → ((n : Node) × (follow max_links s.nodes p ≡ ok (f, n))) × ((open_file p s).1 ≡ drawn s)
unfolding open_file
open_file-follow p f s h =
    let ran = call_ok (λ t. open_at (follow max_links t.nodes p) t) s f h in
    let (found, same) =
      open_at_ok (follow max_links s.nodes p) (drawn s) f (subst (λ x. x.0 ≡ ok f) ran h) in
    (found, ap (λ x. x.1) ran ∙ same)

-- A sync that succeeds is recorded.
pub fsync_ok :
    (p : FilePath) (s : Os) (u : Unit {0})
    → (fsync p s).0 ≡ ok u
    → (fsync p s).1.synced ≡ p ∷ s.synced
unfolding fsync
fsync_ok p s u h =
    ap (λ x. x.1.synced) (call_ok (λ t. (ok tt, record t { synced = p ∷ t.synced })) s u h)
