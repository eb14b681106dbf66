-- ===== src/Tests/Store.antt =====
-- A digest of the wrong strength and the right shape, a store at the root, and a file system with it.
use duro_ledger.Base.{
  ℕ, zero, suc, ◌+◌, ◌%◌, ◌≡◌, refl, arith, true, Option, none, some, [], ◌∷◌, ltb, if◌then◌else◌,
  Bytes, str, length, all, Bool-cases, inl, inr, ap,
}
use duro_ledger.Os.Path.{FilePath, path_eq, path_eq_iff}
use duro_ledger.Os.State.{Node, directory, regular, Os}
use duro_ledger.Os.Calls.{fsync}
use duro_ledger.Os.Calls.Frame.{fsync-nodes}
use duro_ledger.Cas.Identity.{Sha256}
use duro_ledger.Cas.Types.{Store, blob_path}
use duro_ledger.Cas.Types.Paths.{blob_path_lem}
use duro_ledger.Cas.Write.Fill.{SyncKeeps}
use duro_ledger.Cas.Write.Safety.{IsIntact}

abbrev copies : ℕ → ℕ → Bytes
copies zero c = []
copies (suc n) c = c ∷ copies n c

pub length-copies : (n c : ℕ) → length (copies n c) ≡ n
length-copies zero c = refl
length-copies (suc n) c = omega (arith, length-copies n c)

pub all-copies : (n c : ℕ) → ltb c 256 ≡ true → all (λ x. ltb x 256) (copies n c) ≡ true
all-copies zero c h = refl
all-copies (suc n) c h = rw h (all-copies n c h)

abbrev total : Bytes → ℕ
total [] = 0
total (c ∷ s) = c + total s

pub small : (n : ℕ) → ltb (n % 256) 256 ≡ true
small n = ground arith

-- The sum of the bytes, 32 times.
abbrev pub checksum : Sha256
checksum = record {
  sum = λ s. copies 32 (total s % 256);
  length-sum = λ s. length-copies 32 (total s % 256);
  sum_bytes = λ s. all-copies 32 (total s % 256) (small (total s));
}

abbrev pub top_store : Store
top_store = record { root = []; sync_file = fsync; after_stat = none }

pub top_store-SyncKeeps : SyncKeeps top_store
top_store-SyncKeeps p os = fsync-nodes p os

-- `.tmp` and a source file are there.
abbrev some_files : FilePath → Option Node
some_files p =
    if path_eq p (str ".tmp" ∷ [])
    then some directory
    else if path_eq p (str "in" ∷ [])
    then some (regular (str "hello") 420)
    else if path_eq p []
    then some directory
    else none

abbrev pub new_os : Os
new_os = record {
  nodes = some_files;
  answers = [];
  names = str "1" ∷ str "2" ∷ [];
  synced = [];
  out = [];
}

regular_place :
    (p : FilePath) (b : Bytes) (mode : ℕ) → some_files p ≡ some (regular b mode) → length p ≡ 1
regular_place p b mode h = elim (Bool-cases (path_eq p (str ".tmp" ∷ []))) [
  | inl here ↦ (let k = rw here at h in cc)
  | inr apart ↦ elim (Bool-cases (path_eq p (str "in" ∷ []))) [
    | inl here ↦ ap length ((path_eq_iff p (str "in" ∷ [])).0 here)
    | inr apart' ↦ elim (Bool-cases (path_eq p [])) [
      | inl here ↦ (let k = rw (apart, apart', here) at h in cc)
      | inr apart'' ↦ (let k = rw (apart, apart', apart'') at h in cc)
    ]
  ]
]

-- No blob is stored yet.
pub new_os-IsIntact : IsIntact checksum top_store new_os
new_os-IsIntact digest b mode v h = absurd (
    let n = regular_place _ b mode h in
    let k : length (blob_path top_store digest) ≡ 4 =
      ap length (blob_path_lem top_store digest v) in
    omega (arith, n, k))
