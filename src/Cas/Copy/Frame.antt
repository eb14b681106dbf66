-- ===== src/Cas/Copy/Frame.antt =====
-- What `hashingCopy` leaves alone.
use duro_ledger.Base.{
  ℕ, ◌-◌, ◌≡◌, refl, ◌∙◌, Option, none, some, List, [], ◌∷◌, ltb, ◌==◌, length, Bytes, Bool-cases,
  inl, inr, err,
}
use duro_ledger.Os.Path.{FilePath}
use duro_ledger.Os.State.{Errno, Os}
use duro_ledger.Os.Stream.{Read, got, broke, Writer, write}
use duro_ledger.Os.Stream.Transfer.{Spares, write_frame}
use duro_ledger.Cas.Identity.{Sha256}
use duro_ledger.Cas.Types.{system}
use duro_ledger.Cas.Copy.{max_int64, Copier, after_write, copy_chunk, copy_loop, hashing_copy}

-- What every `Write` keeps, a copy keeps, also if it fails.
module _ (H : Sha256) (w : Writer) (P : Os → Type 0)
    (keep : (c : Bytes) (s : Os) → P s → P (write w c s).1) where
  after_write-keeps :
      (c : Bytes) (next : Copier)
      → ((n : ℕ) (hashed : Bytes) (s : Os) → P s → P (next n hashed s).1)
      → (n : ℕ) (hashed : Bytes) (nw : ℕ) (e : Option Errno) (s : Os) → P s
      → P (after_write c next n hashed (nw, e) s).1
  after_write-keeps c next h n hashed nw (some e) s p = p
  after_write-keeps c next h n hashed nw none s p = elim (Bool-cases (nw == length c)) [
    | inl whole ↦ rw whole (h _ _ s p)
    | inr part ↦ rw part p
  ]

  copy_chunk-keeps :
      (c : Bytes) (next : Copier)
      → ((n : ℕ) (hashed : Bytes) (s : Os) → P s → P (next n hashed s).1)
      → (n : ℕ) (hashed : Bytes) (s : Os) → P s
      → P (copy_chunk w c next n hashed s).1
  unfolding copy_chunk
  copy_chunk-keeps [] next h n hashed s p = h n hashed s p
  copy_chunk-keeps (x ∷ c) next h n hashed s p =
      elim (Bool-cases (ltb (max_int64 - length (x ∷ c)) n)) [
        | inl large ↦ rw large p
        | inr fits ↦ rw fits (after_write-keeps (x ∷ c) next h n hashed _ _ _ (keep (x ∷ c) s p))
      ]

  copy_loop-keeps :
      (reads : List Read) (n : ℕ) (hashed : Bytes) (s : Os)
      → P s
      → P (copy_loop H w reads n hashed s).1
  unfolding copy_loop
  copy_loop-keeps [] n hashed s p = p
  copy_loop-keeps (got c ∷ reads) n hashed s p =
      copy_chunk-keeps c (copy_loop H w reads) (copy_loop-keeps reads) n hashed s p
  copy_loop-keeps (broke c e ∷ reads) n hashed s p =
      copy_chunk-keeps c (λ n' hashed' s'. ((n', err (system e)), s')) (λ n' hashed' s' q. q) n
        hashed s p

  pub hashing_copy-keeps : (reads : List Read) (s : Os) → P s → P (hashing_copy H w reads s).1
  unfolding hashing_copy
  hashing_copy-keeps reads s p = copy_loop-keeps reads 0 [] s p

-- A copy touches only the file that it writes to.
pub hashing_copy_frame :
    (H : Sha256) (w : Writer) (reads : List Read) (s : Os) (q : FilePath)
    → Spares w q
    → (hashing_copy H w reads s).1.nodes q ≡ s.nodes q
hashing_copy_frame H w reads s q spares =
    hashing_copy-keeps H w (λ t. t.nodes q ≡ s.nodes q) (λ c t p. write_frame w c t q spares ∙ p)
      reads s refl
