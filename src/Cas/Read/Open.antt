-- ===== src/Cas/Read/Open.antt =====
-- What it means that `get` succeeds.
use duro_ledger.Base.{
  ℕ, Bool-cases, inl, inr, subst, ◌≡◌, refl, ap, ◌∙◌, true, some, Bytes, Result, ok, err,
}
use duro_ledger.Base.Action.{◌>>=◌, map_result}
use duro_ledger.Base.Action.Keeps.{bind_ok}
use duro_ledger.Os.Path.{FilePath}
use duro_ledger.Os.State.{Errno, Node, regular, directory, special, symlink, Os, Syscall, drawn}
use duro_ledger.Os.Calls.{lstat, open_file}
use duro_ledger.Os.Calls.Success.{lstat_ok, open_file_ok}
use duro_ledger.Cas.Identity.{valid_digest}
use duro_ledger.Cas.Types.{Store, blob_path, Io}
use duro_ledger.Cas.Read.{or_not_found, missing_or, regular_size, size_if_regular, get}

-- A call with a translated error that ends well has ended well.
map_result-ok :
    {A : Type 0} (r : Result Errno A) (a : A) → map_result missing_or r ≡ ok a → r ≡ ok a
map_result-ok (ok x) a h = cc
map_result-ok (err e) a h = cc

pub or_not_found-ok :
    {A : Type 0} (m : Syscall A) (s : Os) (a : A) → (or_not_found m s).0 ≡ ok a → (m s).0 ≡ ok a
or_not_found-ok m s a h = map_result-ok (m s).0 a h

-- The file that `get` has opened.
pub record IsFound (s : Store) (digest : Bytes) (os : Os) (f : FilePath) (after : Os) : Type 0 where
  pub valid : valid_digest digest ≡ true
  pub bytes : Bytes
  pub mode : ℕ
  pub there : os.nodes (blob_path s digest) ≡ some (regular bytes mode)
  pub place : f ≡ blob_path s digest
  pub later : after ≡ drawn (drawn os)

-- `get` behind its `Lstat`.
abbrev open_regular : Store → Bytes → Node → Io FilePath
open_regular s digest info = do
  _ ← regular_size (size_if_regular info)
  or_not_found (open_file (blob_path s digest))

open_regular_ok :
    (s : Store) (digest : Bytes) (info : Node) (t : Os) (f : FilePath)
    → t.nodes (blob_path s digest) ≡ some info
    → (open_regular s digest info t).0 ≡ ok f
    → (b : Bytes) × (mode : ℕ) × (info ≡ regular b mode)
      × (f ≡ blob_path s digest)
      × ((open_regular s digest info t).1 ≡ drawn t)
open_regular_ok s digest (regular b mode) t f there h =
    let opened =
      open_file_ok (blob_path s digest) f t b mode there
        (or_not_found-ok (open_file (blob_path s digest)) t f h) in
    (
      b,
      mode,
      refl,
      (let e = rw opened at (or_not_found-ok (open_file (blob_path s digest)) t f h) in cc),
      ap (λ x. x.1) opened,
    )
open_regular_ok s digest directory t f there h = cc
open_regular_ok s digest special t f there h = cc
open_regular_ok s digest (symlink q) t f there h = cc

get_valid_ok :
    (s : Store) (digest : Bytes) (os : Os) (f : FilePath)
    → let body = (do
      info ← or_not_found (lstat (blob_path s digest))
      open_regular s digest info) in
      valid_digest digest ≡ true → (body os).0 ≡ ok f → IsFound s digest os f (body os).1
get_valid_ok s digest os f v h =
    let path = blob_path s digest in
    let (info, found, run) = bind_ok (or_not_found (lstat path)) (open_regular s digest) os h in
    let (there, drew) = lstat_ok path os info (or_not_found-ok (lstat path) os info found) in
    let there' : (lstat path os).1.nodes path ≡ some info = rw drew there in
    let (b, mode, e, place, last) =
      open_regular_ok s digest info (lstat path os).1 f there' (subst (λ x. x.0 ≡ ok f) run h) in
    record {
      valid = v;
      bytes = b;
      mode = mode;
      there = there ∙ ap some e;
      place = place;
      later = ap (λ x. x.1) run ∙ last ∙ ap drawn drew;
    }

pub get-IsFound :
    (s : Store) (digest : Bytes) (os : Os) (f : FilePath)
    → (get s digest os).0 ≡ ok f
    → IsFound s digest os f (get s digest os).1
unfolding get
get-IsFound s digest os f h = elim (Bool-cases (valid_digest digest)) [
  | inl v ↦ rw v (get_valid_ok s digest os f v (rw v at h))
  | inr w ↦ (let k = rw w at h in cc)
]
