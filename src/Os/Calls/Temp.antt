-- ===== src/Os/Calls/Temp.antt =====
-- What `os.CreateTemp` has done.
use duro_ledger.Base.{◌≡◌, refl, Option, none, some, List, [], ◌∷◌, ◌++◌, Bytes, Result, ok, err}
use duro_ledger.Os.Path.{FilePath}
use duro_ledger.Os.State.{
  Errno, Node, regular, directory, symlink, special, Answer, works, fails, partial, short, Os,
  answer, drawn, answered, update,
}
use duro_ledger.Os.Calls.{free_name, choose_name, create_named, create_temp, create_at, create_in}

-- What `CreateTemp` has done: on success the path lies in the directory, has the prefix, was free,
-- and holds an empty file now; on failure nothing.
abbrev pub TempEffect : FilePath → Bytes → Os → Result Errno FilePath → Os → Type 0
TempEffect dir prefix s (err e) t = t.nodes ≡ s.nodes
TempEffect dir prefix s (ok p) t =
    (x : Bytes) × (p ≡ (prefix ++ x) ∷ dir)
    × (s.nodes p ≡ none)
    × (t.nodes ≡ update s.nodes p (some (regular [] 384)))

-- A drawn name is free.
abbrev IsFree : (FilePath → Option Node) → FilePath → Bytes → Result Errno FilePath → Type 0
IsFree f dir prefix (err e) = Unit
IsFree f dir prefix (ok p) = (x : Bytes) × (p ≡ (prefix ++ x) ∷ dir) × (f p ≡ none)

choose_name-IsFree :
    (f : FilePath → Option Node) (dir : FilePath) (prefix x : Bytes) (o : Option Node)
    (names : List Bytes) (later : Result Errno FilePath × List Bytes)
    → f ((prefix ++ x) ∷ dir) ≡ o
    → IsFree f dir prefix later.0
    → IsFree f dir prefix (choose_name o ((prefix ++ x) ∷ dir) names later).0
choose_name-IsFree f dir prefix x none names later e h = (x, refl, e)
choose_name-IsFree f dir prefix x (some n) names later e h = h

free_name-IsFree :
    (f : FilePath → Option Node) (dir : FilePath) (prefix : Bytes) (names : List Bytes)
    → IsFree f dir prefix (free_name f dir prefix names).0
unfolding free_name
free_name-IsFree f dir prefix [] = tt
free_name-IsFree f dir prefix (x ∷ names) =
    choose_name-IsFree f dir prefix x _ names _ refl (free_name-IsFree f dir prefix names)

create_at-TempEffect :
    (dir : FilePath) (prefix : Bytes) (r : Result Errno FilePath) (s : Os)
    → IsFree s.nodes dir prefix r
    → let done = create_at r s in TempEffect dir prefix s done.0 done.1
create_at-TempEffect dir prefix (err e) s h = refl
create_at-TempEffect dir prefix (ok p) s (x, e, free) = (x, e, free, refl)

create_in-TempEffect :
    (dir : FilePath) (prefix : Bytes) (o : Option Node) (s : Os)
    → let done = create_in o (create_named dir prefix) s in TempEffect dir prefix s done.0 done.1
create_in-TempEffect dir prefix none s = refl
create_in-TempEffect dir prefix (some directory) s =
    create_at-TempEffect dir prefix _
      (record s { names = (free_name s.nodes dir prefix s.names).1 })
      (free_name-IsFree s.nodes dir prefix s.names)
create_in-TempEffect dir prefix (some (regular b m)) s = refl
create_in-TempEffect dir prefix (some special) s = refl
create_in-TempEffect dir prefix (some (symlink q)) s = refl

answered_temp :
    (dir : FilePath) (prefix : Bytes) (a : Answer) (t : Os)
    → let done = answered a (λ u. create_in (u.nodes dir) (create_named dir prefix) u) t in
      TempEffect dir prefix t done.0 done.1
answered_temp dir prefix works t = create_in-TempEffect dir prefix _ t
answered_temp dir prefix (short n) t = create_in-TempEffect dir prefix _ t
answered_temp dir prefix (fails e) t = refl
answered_temp dir prefix (partial n e) t = refl

pub create_temp-TempEffect :
    (dir : FilePath) (prefix : Bytes) (s : Os)
    → let done = create_temp dir prefix s in TempEffect dir prefix (drawn s) done.0 done.1
unfolding create_temp
create_temp-TempEffect dir prefix s = answered_temp dir prefix (answer s) (drawn s)
