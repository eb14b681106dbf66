-- ===== src/Cas/Copy/Success.antt =====
-- What `hashingCopy` returns and writes.
use duro_ledger.Base.{
  ℕ, suc, ◌+◌, ◌-◌, ◌≤◌, ◌≡◌, ◌≢◌, refl, ap, sym, ◌∙◌, arith, true, false, Option, none, some, List,
  [], ◌∷◌, ◌++◌, ltb, ◌==◌, length, length-append, Bytes, Bool-cases, inl, inr, append_assoc,
  append-nil, Result, ok, err, ==_iff,
}
use duro_ledger.Os.State.{Errno, Os}
use duro_ledger.Os.Stream.{Read, got, broke, Writer, discard, write}
use duro_ledger.Os.Stream.Transfer.{bytes_of, unbroken, Holds, write-Holds}
use duro_ledger.Cas.Identity.{Sha256, digest_of}
use duro_ledger.Cas.Types.{system}
use duro_ledger.Cas.Copy.{
  max_int64, Copied, Copier, after_write, copy_chunk, copy_loop, hashing_copy,
}

ok≢err : {E A : Type 0} {a : A} {e : E} → ◌≢◌ {A = Result E A} (ok a) (err e)
ok≢err h = cc

-- What a piece of the loop has done when the copy ends well: it went on with the piece written,
-- hashed and counted.
record Advanced (w : Writer) (c : Bytes) (next : Copier) (n : ℕ) (hashed : Bytes) (s : Os)
    : Type 0 where
  state : Os
  continued : copy_chunk w c next n hashed s ≡ next (n + length c) (hashed ++ c) state
  written : (b : Bytes) → Holds w b s → Holds w (b ++ c) state

after_write-ok :
    (c : Bytes) (next : Copier) (n : ℕ) (hashed : Bytes) (nw : ℕ) (e : Option Errno) (s : Os)
    (m : ℕ) (sum : Bytes)
    → (after_write c next n hashed (nw, e) s).0 ≡ (m, ok sum)
    → (e ≡ none)
      × (nw ≡ length c)
      × (after_write c next n hashed (nw, e) s ≡ next (n + length c) (hashed ++ c) s)
after_write-ok c next n hashed nw (some e) s m sum h =
    absurd (ok≢err (sym (ap (λ (x : Copied). x.1) h)))
after_write-ok c next n hashed nw none s m sum h = elim (Bool-cases (nw == length c)) [
  | inl whole ↦ let same = (==_iff nw (length c)).0 whole in (refl, same, rw (whole, same))
  | inr part ↦ absurd (ok≢err (sym (ap (λ (x : Copied). x.1) (rw part at h))))
]

copy_chunk-ok :
    (w : Writer) (c : Bytes) (next : Copier) (n : ℕ) (hashed : Bytes) (s : Os) (m : ℕ) (sum : Bytes)
    → (copy_chunk w c next n hashed s).0 ≡ (m, ok sum)
    → Advanced w c next n hashed s
unfolding copy_chunk
copy_chunk-ok w [] next n hashed s m sum h = record {
  state = s;
  continued = let stay : n + 0 ≡ n = omega arith in rw (stay, append-nil);
  written = λ b p. rw append-nil p;
}
copy_chunk-ok w (x ∷ c) next n hashed s m sum h =
    elim (Bool-cases (ltb (max_int64 - length (x ∷ c)) n)) [
      | inl large ↦ absurd (ok≢err (sym (ap (λ (x : Copied). x.1) (rw large at h))))
      | inr fits ↦
          let done = write w (x ∷ c) s in
          let (no_error, whole, same) =
            after_write-ok (x ∷ c) next n hashed done.0.0 done.0.1 done.1 m sum (rw fits at h) in
          record {
            state = done.1;
            continued = rw fits same;
            written = λ b. write-Holds w (x ∷ c) b s no_error whole;
          }
    ]

-- A copy that ends well, from a count and hashed bytes on: the reads ended with `io.EOF`, and all
-- their bytes are counted, hashed and written.
record IsCopied (H : Sha256) (w : Writer) (reads : List Read) (n : ℕ) (hashed : Bytes) (s t : Os)
    (m : ℕ) (sum : Bytes) : Type 0 where
  whole : unbroken reads ≡ true
  count : m ≡ n + length (bytes_of reads)
  digest : sum ≡ digest_of H (hashed ++ bytes_of reads)
  written : (b : Bytes) → Holds w b s → Holds w (b ++ bytes_of reads) t

copy_loop-ok :
    (H : Sha256) (w : Writer) (reads : List Read) (n : ℕ) (hashed : Bytes) (s : Os) (m : ℕ)
    (sum : Bytes)
    → (copy_loop H w reads n hashed s).0 ≡ (m, ok sum)
    → IsCopied H w reads n hashed s (copy_loop H w reads n hashed s).1 m sum
unfolding copy_loop
copy_loop-ok H w [] n hashed s m sum h = record {
  whole = refl;
  count = ground arith;
  digest = rw append-nil (cc);
  written = λ b p. rw append-nil p;
}
copy_loop-ok H w (got c ∷ reads) n hashed s m sum h =
    let adv = copy_chunk-ok w c (copy_loop H w reads) n hashed s m sum h in
    let rest =
      copy_loop-ok H w reads (n + length c) (hashed ++ c) adv.state m sum (rw adv.continued at h) in
    record {
      whole = rest.whole;
      count = omega (arith, length-append c (bytes_of reads), rest.count);
      digest = rest.digest ∙ ap (digest_of H) (append_assoc hashed c (bytes_of reads));
      written = λ b p.
          rw adv.continued
            (rw (← append_assoc b c (bytes_of reads)) (rest.written (b ++ c) (adv.written b p)));
    }
copy_loop-ok H w (broke c e ∷ reads) n hashed s m sum h =
    let adv = copy_chunk-ok w c (λ n' hashed' s'. ((n', err (system e)), s')) n hashed s m sum h in
    absurd (ok≢err (sym (ap (λ (x : Copied). x.1) (rw adv.continued at h))))

-- A `hashingCopy` that succeeds has read up to `io.EOF`; its count and digest are those of all the
-- bytes that were read, whatever pieces they came in, and the writer holds exactly those bytes
-- behind what it held before.
pub hashing_copy-ok :
    (H : Sha256) (w : Writer) (reads : List Read) (s : Os) (n : ℕ) (sum : Bytes)
    → (hashing_copy H w reads s).0 ≡ (n, ok sum)
    → (unbroken reads ≡ true)
      × (n ≡ length (bytes_of reads))
      × (sum ≡ digest_of H (bytes_of reads))
      × ((b : Bytes) → Holds w b s → Holds w (b ++ bytes_of reads) (hashing_copy H w reads s).1)
unfolding hashing_copy
hashing_copy-ok H w reads s n sum h =
    let done = copy_loop-ok H w reads 0 [] s n sum h in
    (done.whole, omega (arith, done.count), done.digest, done.written)

copy_loop_discard :
    (H : Sha256) (reads : List Read) (n : ℕ) (hashed : Bytes) (s : Os)
    → unbroken reads ≡ true
    → n + length (bytes_of reads) ≤ max_int64
    → copy_loop H discard reads n hashed s
      ≡ ((n + length (bytes_of reads), ok (digest_of H (hashed ++ bytes_of reads))), s)
unfolding copy_loop copy_chunk write
copy_loop_discard H [] n hashed s whole fits =
    let stay : n + 0 ≡ n = omega arith in rw (stay, append-nil)
copy_loop_discard H (got [] ∷ reads) n hashed s whole fits =
    copy_loop_discard H reads n hashed s whole fits
copy_loop_discard H (got (x ∷ c) ∷ reads) n hashed s whole fits =
    let size : length (bytes_of (got (x ∷ c) ∷ reads)) ≡ suc (length c) + length (bytes_of reads) =
      omega (arith, length-append c (bytes_of reads)) in
    let sum : (n + suc (length c)) + length (bytes_of reads)
        ≡ n + length (bytes_of (got (x ∷ c) ∷ reads)) =
      omega arith in
    let room : ltb (max_int64 - suc (length c)) n ≡ false = ground arith in
    let same : (suc (length c) == suc (length c)) ≡ true = (==_iff _ _).1 refl in
    rw (room, same, ← sum, ← append_assoc hashed (x ∷ c) (bytes_of reads))
      (copy_loop_discard H reads (n + suc (length c)) (hashed ++ x ∷ c) s whole (omega arith))
copy_loop_discard H (broke c e ∷ reads) n hashed s whole fits = cc

-- Reading to verify: with no writer to fail, reads that end with `io.EOF` and do not pass the
-- largest int64 always give the count and the digest of their bytes, and change nothing.
pub hashing_copy_discard :
    (H : Sha256) (reads : List Read) (s : Os)
    → unbroken reads ≡ true
    → length (bytes_of reads) ≤ max_int64
    → hashing_copy H discard reads s
      ≡ ((length (bytes_of reads), ok (digest_of H (bytes_of reads))), s)
unfolding hashing_copy
hashing_copy_discard H reads s whole fits =
    let start : 0 + length (bytes_of reads) ≡ length (bytes_of reads) = omega arith in
    rw (← start) (copy_loop_discard H reads 0 [] s whole (omega arith))
