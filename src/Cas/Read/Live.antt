-- ===== src/Cas/Read/Live.antt =====
-- Reading where no call fails: an intact blob is always delivered.
use duro_ledger.Base.{
  ℕ, suc, ◌+◌, ◌-◌, ◌≤◌, ◌≡◌, refl, ap, sym, subst, ◌∙◌, arith, true, false, ◌==◌, ==_iff, some,
  List, [], ◌∷◌, ◌++◌, append-nil, append_assoc, Bytes, beq, beq_iff, map, length, length-append,
  ltb, ok,
}
use mathlib.Core.Bool.{not}
use duro_ledger.Base.Action.{◌>>=◌, reject_if}
use duro_ledger.Os.Path.{FilePath}
use duro_ledger.Os.State.{Node, regular, works, first_answer, Os, Syscall, answered, call, drawn}
use duro_ledger.Os.Calls.{lstat, node_at, open_file, open_at, follow, max_links}
use duro_ledger.Os.Calls.Success.{follow_regular}
use duro_ledger.Os.Stream.{
  Read, got, broke, sink, write, reads_of, chunks, buffer_rest, content_of, file_reads,
}
use duro_ledger.Os.Stream.Transfer.{bytes_of, unbroken, reads_of-unbroken}
use duro_ledger.Cas.Identity.{Sha256, digest_of, valid_digest}
use duro_ledger.Cas.Types.{Store, blob_path, Io, corrupt, content_digest}
use duro_ledger.Cas.Copy.{max_int64, copy_chunk, copy_loop, hashing_copy}
use duro_ledger.Cas.Read.{Counted, copy_all, get, get_to_writer}

-- No call fails from here on.
abbrev pub IsCalm : Os → Type 0
IsCalm s = s.answers ≡ []

call-calm : {A : Type 0} (run : Syscall A) (s : Os) → IsCalm s → call run s ≡ run (drawn s)
call-calm run s h = ap (λ l. answered (first_answer l) run (drawn s)) h

lstat-calm :
    (p : FilePath) (s : Os) (n : Node) → IsCalm s → s.nodes p ≡ some n → lstat p s ≡ (ok n, drawn s)
unfolding lstat
lstat-calm p s n h there =
    call-calm (λ t. node_at (t.nodes p) t) s h ∙ ap (λ o. node_at o (drawn s)) there

open_file-calm :
    (p : FilePath) (s : Os) (b : Bytes) (mode : ℕ)
    → IsCalm s
    → s.nodes p ≡ some (regular b mode)
    → open_file p s ≡ (ok p, drawn s)
unfolding open_file
open_file-calm p s b mode h there =
    call-calm (λ t. open_at (follow max_links t.nodes p) t) s h
    ∙ ap (λ r. open_at r (drawn s)) (follow_regular s.nodes p b mode there)

drawn-IsCalm : (s : Os) → IsCalm s → IsCalm (drawn s)
drawn-IsCalm s h = rw h refl

get-calm :
    (s : Store) (digest b : Bytes) (mode : ℕ) (os : Os)
    → valid_digest digest ≡ true
    → IsCalm os
    → os.nodes (blob_path s digest) ≡ some (regular b mode)
    → get s digest os ≡ (ok (blob_path s digest), drawn (drawn os))
unfolding get
get-calm s digest b mode os v h there =
    rw
      (
        v,
        lstat-calm (blob_path s digest) os (regular b mode) h there,
        open_file-calm (blob_path s digest) (drawn os) b mode (drawn-IsCalm os h) there,
      )
      refl

-- A writer that takes everything gets all the bytes.
copy_loop-calm :
    (H : Sha256) (reads : List Read) (n : ℕ) (hashed : Bytes) (s : Os)
    → unbroken reads ≡ true
    → IsCalm s
    → n + length (bytes_of reads) ≤ max_int64
    → ((copy_loop H sink reads n hashed s).0
        ≡ (n + length (bytes_of reads), ok (digest_of H (hashed ++ bytes_of reads))))
      × ((copy_loop H sink reads n hashed s).1.out ≡ s.out ++ bytes_of reads)
unfolding copy_loop copy_chunk write
copy_loop-calm H [] n hashed s whole calm fits =
    let stay : n + 0 ≡ n = omega arith in (rw (stay, append-nil) refl, sym (append-nil s.out))
copy_loop-calm H (got [] ∷ reads) n hashed s whole calm fits =
    copy_loop-calm H reads n hashed s whole calm fits
copy_loop-calm H (got (x ∷ c) ∷ reads) n hashed s whole calm fits =
    let size : length (bytes_of (got (x ∷ c) ∷ reads)) ≡ suc (length c) + length (bytes_of reads) =
      omega (arith, length-append c (bytes_of reads)) in
    let sum : (n + suc (length c)) + length (bytes_of reads)
        ≡ n + length (bytes_of (got (x ∷ c) ∷ reads)) =
      omega arith in
    let room : ltb (max_int64 - suc (length c)) n ≡ false = ground arith in
    let same : (suc (length c) == suc (length c)) ≡ true = (==_iff _ _).1 refl in
    let t = record (drawn s) { out = s.out ++ (x ∷ c) } in
    let rest =
      copy_loop-calm H reads (n + suc (length c)) (hashed ++ x ∷ c) t whole (drawn-IsCalm s calm)
        (omega arith) in
    let turn : copy_loop H sink (got (x ∷ c) ∷ reads) n hashed s
        ≡ copy_loop H sink reads (n + suc (length c)) (hashed ++ x ∷ c) t =
      rw (room, calm, same) refl in
    (
      ap (λ z. z.0) turn ∙ rest.0 ∙ rw (sum, append_assoc hashed (x ∷ c) (bytes_of reads)) refl,
      ap (λ z. z.1.out) turn ∙ rest.1 ∙ append_assoc s.out (x ∷ c) (bytes_of reads),
    )
copy_loop-calm H (broke c e ∷ reads) n hashed s whole calm fits = cc

unbroken-map_got : (cs : List Bytes) → unbroken (map got cs) ≡ true
unbroken-map_got [] = refl
unbroken-map_got (c ∷ cs) = unbroken-map_got cs

-- The reads of a file, where the transfer does not break off.
reads_of-calm : (b : Bytes) → unbroken (reads_of works b) ≡ true
unfolding reads_of
reads_of-calm b = unbroken-map_got (chunks (suc buffer_rest) b)

abbrev finish : Bytes → Counted → Io (Unit {0})
finish digest counted = reject_if (not (beq counted.1 digest)) (corrupt content_digest)

-- The copy of an intact file, and the test of its digest.
copied-calm :
    (H : Sha256) (digest b : Bytes) (reads : List Read) (t : Os)
    → unbroken reads ≡ true
    → bytes_of reads ≡ b
    → IsCalm t
    → digest_of H b ≡ digest
    → length b ≤ max_int64
    → (((copy_all H sink reads >>= finish digest) t).0 ≡ ok tt)
      × (((copy_all H sink reads >>= finish digest) t).1.out ≡ t.out ++ b)
unfolding hashing_copy
copied-calm H digest b reads t whole same calm right fits =
    let size : length (bytes_of reads) ≡ length b = ap length same in
    let copied = copy_loop-calm H reads 0 [] t whole calm (omega (arith, size, fits)) in
    let equal : beq (digest_of H (bytes_of reads)) digest ≡ true =
      (beq_iff _ _).1 (ap (digest_of H) same ∙ right) in
    (rw (copied.0, equal) refl, rw (copied.0, equal) (copied.1 ∙ ap (λ x. t.out ++ x) same))

-- If no call fails, `GetToWriter` always delivers a blob that is intact and not longer than the
-- largest int64: it succeeds, and the caller's writer has got exactly its bytes behind what it had.
pub get_to_writer-delivers :
    (H : Sha256) (s : Store) (digest b : Bytes) (mode : ℕ) (os : Os)
    → IsCalm os
    → valid_digest digest ≡ true
    → os.nodes (blob_path s digest) ≡ some (regular b mode)
    → digest_of H b ≡ digest
    → length b ≤ max_int64
    → ((get_to_writer H s digest sink os).0 ≡ ok tt)
      × ((get_to_writer H s digest sink os).1.out ≡ os.out ++ b)
unfolding get_to_writer
get_to_writer-delivers H s digest b mode os calm v there right fits =
    let path = blob_path s digest in
    let t = drawn (drawn os) in
    let t_calm = drawn-IsCalm (drawn os) (drawn-IsCalm os calm) in
    let reads : (file_reads path t).0 ≡ reads_of works b =
      ap (λ l. reads_of (first_answer l) (content_of (t.nodes path))) t_calm
      ∙ ap (λ o. reads_of works (content_of o)) there in
    let whole = subst (λ r. unbroken r ≡ true) (sym reads) (reads_of-calm b) in
    let bytes : bytes_of (file_reads path t).0 ≡ b =
      ap bytes_of reads ∙ reads_of-unbroken works b (reads_of-calm b) in
    rw (get-calm s digest b mode os v calm there) (
      copied-calm H digest b (file_reads path t).0 (drawn t) whole bytes (drawn-IsCalm t t_calm)
        right fits)
