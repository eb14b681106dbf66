-- ===== src/Cas/Copy.antt =====
-- `hashingCopy` of cas.go.
pub mod Bounds
pub mod Frame
pub mod Success
use duro_ledger.Base.{
  ℕ, ◌+◌, ◌-◌, ◌^◌, Option, none, some, List, [], ◌∷◌, ◌++◌, ltb, ◌==◌, if◌then◌else◌, Bytes,
  length, Result, ok, err, is_empty,
}
use duro_ledger.Os.State.{Errno, Os}
use duro_ledger.Os.Stream.{Read, got, broke, Writer, Written, write}
use duro_ledger.Cas.Identity.{Sha256, digest_of}
use duro_ledger.Cas.Types.{CasError, too_large, short_copy, system}

-- `math.MaxInt64`
abbrev pub max_int64 : ℕ
max_int64 = 2 ^ 63 - 1

-- The count, and the digest or the error.
abbrev pub Copied : Type 0
Copied = ℕ × Result CasError Bytes

abbrev pub Copier : Type 0
Copier = ℕ → Bytes → Os → Copied × Os

-- After the `Write`: the count grows, an error or a short count ends the copy.
abbrev pub after_write : Bytes → Copier → ℕ → Bytes → Written → Os → Copied × Os
after_write c next n hashed (nw, some e) s = ((n + nw, err (system e)), s)
after_write c next n hashed (nw, none) s =
    if nw == length c then next (n + nw) (hashed ++ c) s else ((n + nw, err short_copy), s)

-- What the loop does with the bytes of one `Read`, before `next` looks at the read's error.
unfoldable pub copy_chunk : Writer → Bytes → Copier → Copier
copy_chunk w c next n hashed s =
    if is_empty c
    then next n hashed s
    else if ltb (max_int64 - length c) n
    then ((n, err too_large), s)
    else let written = write w c s in after_write c next n hashed written.0 written.1

-- The loop, from the count and the hashed bytes so far.
unfoldable pub copy_loop : Sha256 → Writer → List Read → Copier
unfolding copy_chunk digest_of
copy_loop H w [] n hashed s = ((n, ok (digest_of H hashed)), s)
copy_loop H w (got c ∷ reads) n hashed s = copy_chunk w c (copy_loop H w reads) n hashed s
copy_loop H w (broke c e ∷ reads) n hashed s =
    copy_chunk w c (λ n' hashed' s'. ((n', err (system e)), s')) n hashed s

-- `hashingCopy`
unfoldable pub hashing_copy : Sha256 → Writer → List Read → Os → Copied × Os
unfolding copy_loop
hashing_copy H w reads = copy_loop H w reads 0 []
