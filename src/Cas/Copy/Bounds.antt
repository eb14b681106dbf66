-- ===== src/Cas/Copy/Bounds.antt =====
-- The count of `hashingCopy` fits an int64.
use duro_ledger.Base.{
  ℕ, zero, suc, ◌+◌, ◌-◌, ◌≤◌, ◌≡◌, arith, Bool, true, ◌&&◌, Bool-cases, inl, inr, none, some, List,
  [], ◌∷◌, ◌++◌, Bytes, leb, leb→le, ltb, ◌==◌, length, take, err,
}
use duro_ledger.Os.State.{Answer, works, fails, partial, short, Os, answer, drawn}
use duro_ledger.Os.Stream.{
  Read, got, broke, Writer, discard, sink, file, Written, write, write_answered, buffer_rest,
}
use duro_ledger.Cas.Identity.{Sha256}
use duro_ledger.Cas.Types.{system}
use duro_ledger.Cas.Copy.{Copier, max_int64, after_write, copy_chunk, copy_loop, hashing_copy}

-- No `Read` returns more than the buffer of 32 KiB holds.
abbrev piece_of : Read → Bytes
piece_of (got c) = c
piece_of (broke c e) = c

abbrev pub fits_buffer : List Read → Bool
fits_buffer [] = true
fits_buffer (r ∷ reads) = leb (length (piece_of r)) (suc buffer_rest) && fits_buffer reads

length-take_le : (n : ℕ) (c : Bytes) → length (take n c) ≤ length c
length-take_le zero c = omega arith
length-take_le (suc n) [] = omega arith
length-take_le (suc n) (x ∷ c) = omega (arith, length-take_le n c)

write_answered-count :
    (w : Writer) (c : Bytes) (a : Answer) (s : Os) → (write_answered w c a s).0.0 ≤ length c
write_answered-count w c works s = omega arith
write_answered-count w c (fails e) s = omega arith
write_answered-count w c (partial n e) s = length-take_le n c
write_answered-count w c (short n) s = length-take_le n c

-- A `Write` takes no more than it is given.
write-count : (w : Writer) (c : Bytes) (s : Os) → (write w c s).0.0 ≤ length c
unfolding write
write-count discard c s = omega arith
write-count sink c s = write_answered-count sink c (answer s) (drawn s)
write-count (file p) c s = write_answered-count (file p) c (answer s) (drawn s)

abbrev Bounded : Copier → Type 0
Bounded next = (n : ℕ) (hashed : Bytes) (s : Os) → n ≤ max_int64 → (next n hashed s).0.0 ≤ max_int64

after_write-Bounded :
    (c : Bytes) (next : Copier) (n : ℕ) (hashed : Bytes) (w : Written) (s : Os)
    → Bounded next
    → n + length c ≤ max_int64
    → w.0 ≤ length c
    → (after_write c next n hashed w s).0.0 ≤ max_int64
after_write-Bounded c next n hashed (nw, some e) s h fits small = omega (arith, fits, small)
after_write-Bounded c next n hashed (nw, none) s h fits small =
    let sum : n + nw ≤ max_int64 = omega (arith, fits, small) in
    elim (Bool-cases (nw == length c)) [
      | inl all ↦ rw all (h (n + nw) (hashed ++ c) s sum)
      | inr part ↦ rw part sum
    ]

copy_chunk-Bounded :
    (w : Writer) (c : Bytes) (next : Copier)
    → length c ≤ suc buffer_rest
    → Bounded next
    → Bounded (copy_chunk w c next)
unfolding copy_chunk
copy_chunk-Bounded w [] next small h n hashed s fits = h n hashed s fits
copy_chunk-Bounded w (x ∷ c) next small h n hashed s fits =
    elim (Bool-cases (ltb (max_int64 - length (x ∷ c)) n)) [
      | inl over ↦ rw over fits
      | inr room ↦
          let sum : n + length (x ∷ c) ≤ max_int64 = ground (arith, room, small) in
          rw room (
            after_write-Bounded (x ∷ c) next n hashed (write w (x ∷ c) s).0 (write w (x ∷ c) s).1 h
              sum (write-count w (x ∷ c) s))
    ]

copy_loop-Bounded :
    (H : Sha256) (w : Writer) (reads : List Read)
    → fits_buffer reads ≡ true
    → Bounded (copy_loop H w reads)
unfolding copy_loop
copy_loop-Bounded H w [] h n hashed s fits = fits
copy_loop-Bounded H w (got c ∷ reads) h n hashed s fits =
    copy_chunk-Bounded w c (copy_loop H w reads) (leb→le _ _ (ground (arith, h)))
      (copy_loop-Bounded H w reads (ground (arith, h))) n hashed s fits
copy_loop-Bounded H w (broke c e ∷ reads) h n hashed s fits =
    copy_chunk-Bounded w c (λ n' hashed' t. ((n', err (system e)), t))
      (leb→le _ _ (ground (arith, h))) (λ m hashed' t k. k) n hashed s fits

-- Whatever is read and whichever writes fail, the count that `hashingCopy` returns, with an error or
-- without, is at most the largest int64, if no read returns more than the buffer holds: the
-- sum in the loop never wraps.
pub hashing_copy-bounds :
    (H : Sha256) (w : Writer) (reads : List Read) (s : Os)
    → fits_buffer reads ≡ true
    → (hashing_copy H w reads s).0.0 ≤ max_int64
unfolding hashing_copy
hashing_copy-bounds H w reads s h = copy_loop-Bounded H w reads h 0 [] s (omega arith)
