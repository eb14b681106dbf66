-- ===== src/Os/Resolve/Arrives.antt =====
-- Where `EvalSymlinks` and `MkdirAll` arrive through links.
use mathlib.Core.List.{reverse}
use duro_ledger.Base.{
  ℕ, zero, suc, ◌≡◌, refl, ap, sym, subst, ◌∙◌, inl, inr, Option, none, some, List, [], ◌∷◌, ◌++◌,
  Bytes, ok, err, Result-cases,
}
use duro_ledger.Base.Action.Keeps.{bind_ok}
use duro_ledger.Os.Path.{FilePath, path_eq_refl}
use duro_ledger.Os.State.{Errno, Node, regular, directory, special, symlink, Os, Syscall, drawn}
use duro_ledger.Os.Calls.{Found, lstat, mkdir, mkdir_new}
use duro_ledger.Os.Calls.Frame.{lstat-nodes, Made}
use duro_ledger.Os.Calls.Success.{lstat_ok, call_ok}
use duro_ledger.Os.Resolve.{
  Jump, visit, walk_names, walk, eval_symlinks, max_links_walked, make_in, unless_directory,
  when_missing, real, mkdir_all_real,
}
use duro_ledger.Os.Resolve.Leads.{Leads, stop, into, jumped, Leads-child, Leads-grown}
use duro_ledger.Os.Resolve.Kernel.{real-Leads, real-place}
use duro_ledger.Os.Resolve.Real.{mkdir_real-Made}

module _ (e : FilePath) (jump : Jump (Syscall FilePath)) (f : FilePath → Option Node) (p : FilePath)
    (jumps : (q : FilePath) (more : List Bytes) (t : Os)
      → t.nodes ≡ f
      → (jump q more t).0 ≡ ok p
      → Leads f e [] (reverse q ++ more)
      → p ≡ e) where
  visit-place :
      (name : Bytes) (d : FilePath) (rest : List Bytes) (n : Node) (next : Syscall FilePath)
      (t : Os)
      → t.nodes ≡ f
      → ((next t).0 ≡ ok p → Leads f e (name ∷ d) rest → p ≡ e)
      → f (name ∷ d) ≡ some n
      → (visit jump (name ∷ d) rest n next t).0 ≡ ok p
      → Leads f e d (name ∷ rest)
      → p ≡ e
  visit-place name d rest n next t same on at went (into there l) =
      let is : n ≡ directory = cc in
      on (subst (λ m. (visit jump (name ∷ d) rest m next t).0 ≡ ok p) is went) l
  visit-place name d rest n next t same on at went (jumped q there l) =
      let is : n ≡ symlink q = cc in
      jumps q rest t same (subst (λ m. (visit jump (name ∷ d) rest m next t).0 ≡ ok p) is went) l

  walk_names-place :
      (d : FilePath) (rest : List Bytes) (s : Os)
      → s.nodes ≡ f
      → (walk_names jump d rest s).0 ≡ ok p
      → Leads f e d rest
      → p ≡ e
  unfolding walk_names
  walk_names-place d [] s same h (stop there) = (let k : d ≡ p = cc in sym k ∙ sym there)
  walk_names-place d (name ∷ rest) s same h way =
      let next = walk_names jump (name ∷ d) rest in
      let (n, found, run) = bind_ok (lstat (name ∷ d)) _ s h in
      let (there, drew) = lstat_ok (name ∷ d) s n found in
      let t = (lstat (name ∷ d) s).1 in
      let same' : t.nodes ≡ f = lstat-nodes (name ∷ d) s ∙ same in
      visit-place name d rest n next t same' (walk_names-place (name ∷ d) rest t same')
        (ap (λ g. g (name ∷ d)) (sym same) ∙ there) (subst (λ x. x.0 ≡ ok p) run h) way

walk-place :
    (k : ℕ) (e d p : FilePath) (rest : List Bytes) (s : Os) (f : FilePath → Option Node)
    → s.nodes ≡ f
    → (walk k d rest s).0 ≡ ok p
    → Leads f e d rest
    → p ≡ e
unfolding walk
walk-place zero e d p rest s f same h way =
    walk_names-place e _ f p (λ q more t j g l. cc) d rest s same h way
walk-place (suc k) e d p rest s f same h way =
    walk_names-place e _ f p (λ q more t j g l. walk-place k e [] p (reverse q ++ more) t f j g l) d
      rest s same h way

-- Where a path leads to a directory, `EvalSymlinks` returns that directory.
pub eval_symlinks-place :
    (e p q : FilePath) (s : Os)
    → (eval_symlinks p s).0 ≡ ok q
    → Leads s.nodes e [] (reverse p)
    → q ≡ e
unfolding eval_symlinks
eval_symlinks-place e p q s h way =
    walk-place max_links_walked e [] q (reverse p) s s.nodes refl h way

grown :
    (f g : FilePath → Option Node)
    → ((q : FilePath) → Made (f q) (g q))
    → (q : FilePath) (n : Node) → f q ≡ some n
    → g q ≡ some n
grown f g made q n h = elim (made q) [
  | inl same ↦ same ∙ h
  | inr new ↦ (let (free, there) = new in cc)
]

pub Leads-Made :
    (f g : FilePath → Option Node) (e d : FilePath) (rest : List Bytes)
    → ((q : FilePath) → Made (f q) (g q))
    → Leads f e d rest
    → Leads g e d rest
Leads-Made f g e d rest made way = Leads-grown f g e d rest (grown f g made) way

mkdir_new_ok :
    (p : FilePath) (o : Option Node) (s : Os)
    → (mkdir_new p o s).0 ≡ ok tt
    → (mkdir_new p o s).1.nodes p ≡ some directory
mkdir_new_ok p none s h = rw path_eq_refl refl
mkdir_new_ok p (some n) s h = cc

mkdir_ok : (p : FilePath) (s : Os) → (mkdir p s).0 ≡ ok tt → (mkdir p s).1.nodes p ≡ some directory
unfolding mkdir
mkdir_ok p s h =
    let ran = call_ok (λ t. mkdir_new p (t.nodes p) t) s tt h in
    subst (λ x. x.1.nodes p ≡ some directory) (sym ran)
      (mkdir_new_ok p (s.nodes p) (drawn s) (subst (λ x. x.0 ≡ ok tt) ran h))

unless_directory_ok :
    (o : Option Node) (e : Errno) → unless_directory o e ≡ ok tt → o ≡ some directory
unless_directory_ok none e h = cc
unless_directory_ok (some directory) e h = refl
unless_directory_ok (some (regular b m)) e h = cc
unless_directory_ok (some special) e h = cc
unless_directory_ok (some (symlink q)) e h = cc

-- A name that was made, or that was there as a directory.
make_in_ok :
    (d : FilePath) (n : Node) (name : Bytes) (s : Os)
    → (make_in (ok (d, n)) name s).0 ≡ ok tt
    → (make_in (ok (d, n)) name s).1.nodes (name ∷ d) ≡ some directory
make_in_ok d n name s h = elim (Result-cases (mkdir (name ∷ d) s).0) [
  | inl (u, made) ↦ mkdir_ok (name ∷ d) s made
  | inr (e, failed) ↦ unless_directory_ok _ e (rw failed at h)
]

make_in-Leads :
    (found : Found) (e : FilePath) (name : Bytes) (p : FilePath) (t : Os)
    → real t.nodes p ≡ found
    → Leads t.nodes e [] (reverse p)
    → (make_in found name t).0 ≡ ok tt
    → (g : FilePath) × Leads (make_in found name t).1.nodes g [] (reverse (name ∷ p))
make_in-Leads (err x) e name p t there way h = cc
make_in-Leads (ok (d, n)) e name p t there way h =
    let u = (make_in (ok (d, n)) name t).1 in
    let place : d ≡ e = real-place t.nodes p e d n there way in
    let made : u.nodes (name ∷ e) ≡ some directory =
      subst (λ x. u.nodes (name ∷ x) ≡ some directory) place (make_in_ok d n name t h) in
    let way' =
      Leads-Made t.nodes u.nodes e [] (reverse p) (λ q. mkdir_real-Made (ok (d, n)) name q t) way in
    (name ∷ e, Leads-child u.nodes e name p way' made)

when_missing-Leads :
    (found : Found) (p : FilePath) (make : Syscall (Unit {0})) (s : Os)
    → real s.nodes p ≡ found
    → ((make s).0 ≡ ok tt → (g : FilePath) × Leads (make s).1.nodes g [] (reverse p))
    → (when_missing found make s).0 ≡ ok tt
    → (g : FilePath) × Leads (when_missing found make s).1.nodes g [] (reverse p)
when_missing-Leads (ok (d, directory)) p make s there made h = (d, real-Leads s.nodes p d there)
when_missing-Leads (ok (d, regular b m)) p make s there made h = cc
when_missing-Leads (ok (d, special)) p make s there made h = cc
when_missing-Leads (ok (d, symlink q)) p make s there made h = cc
when_missing-Leads (err e) p make s there made h = made h

-- If `MkdirAll` succeeds, the path leads to a directory.
pub mkdir_all_real-Leads :
    (p : FilePath) (s : Os)
    → (mkdir_all_real p s).0 ≡ ok tt
    → (g : FilePath) × Leads (mkdir_all_real p s).1.nodes g [] (reverse p)
unfolding mkdir_all_real
mkdir_all_real-Leads [] s h = ([], stop refl)
mkdir_all_real-Leads (name ∷ p) s h =
    when_missing-Leads (real s.nodes (name ∷ p)) (name ∷ p) _ s refl
      (λ done.
        let t = (mkdir_all_real p s).1 in
        let (u, above, run) =
          bind_ok (mkdir_all_real p) (λ _ v. make_in (real v.nodes p) name v) s done in
        let (e, way) = mkdir_all_real-Leads p s above in
        let last =
          make_in-Leads (real t.nodes p) e name p t refl way (subst (λ x. x.0 ≡ ok tt) run done) in
        subst (λ x. (g : FilePath) × Leads x.1.nodes g [] (reverse (name ∷ p))) (sym run) last)
      h
