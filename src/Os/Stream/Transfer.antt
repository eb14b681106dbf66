-- ===== src/Os/Stream/Transfer.antt =====
-- What one `Write` call does to the state, and that cutting into reads loses no byte.
use mathlib.Core.Bool.{true≢false}
use duro_ledger.Base.{
  ℕ, zero, suc, ◌≡◌, refl, ap, sym, ◌∙◌, arith, Bool, true, false, none, some, List, [], ◌∷◌, ◌++◌,
  map, length, take, Bytes,
}
use duro_ledger.Os.Path.{FilePath, path_eq, path_eq_refl}
use duro_ledger.Os.State.{Errno, regular, Answer, works, fails, partial, short, Os, answer, drawn}
use duro_ledger.Os.Stream.{
  Read, got, broke, chunks, reads_of, Writer, discard, sink, file, write, write_answered, accept,
  push_front, buffer_rest,
}

-- The bytes that a sequence of reads delivers, and whether it ends without an error.
abbrev pub bytes_of : List Read → Bytes
bytes_of [] = []
bytes_of (got c ∷ reads) = c ++ bytes_of reads
bytes_of (broke c e ∷ reads) = c

abbrev pub unbroken : List Read → Bool
unbroken [] = true
unbroken (got c ∷ reads) = unbroken reads
unbroken (broke c e ∷ reads) = false

-- Where a writer keeps what it was given.
abbrev pub Holds : Writer → Bytes → Os → Type 0
Holds discard b s = Unit
Holds sink b s = s.out ≡ b
Holds (file p) b s = (mode : ℕ) × (s.nodes p ≡ some (regular b mode))

take-all : (n : ℕ) (c : Bytes) → length (take n c) ≡ length c → take n c ≡ c
take-all zero [] h = refl
take-all zero (x ∷ c) h = absurd (omega arith)
take-all (suc n) [] h = refl
take-all (suc n) (x ∷ c) h = rw (take-all n c (omega arith))

accept-Holds : (w : Writer) (c b : Bytes) (s : Os) → Holds w b s → Holds w (b ++ c) (accept w c s)
accept-Holds discard c b s h = tt
accept-Holds sink c b s h = rw h
accept-Holds (file p) c b s (mode, h) = (mode, rw (path_eq_refl p, h))

write_answered-Holds :
    (w : Writer) (c b : Bytes) (a : Answer) (s : Os)
    → (write_answered w c a s).0.1 ≡ none
    → (write_answered w c a s).0.0 ≡ length c
    → Holds w b s
    → Holds w (b ++ c) (write_answered w c a s).1
write_answered-Holds w c b works s no_error whole h = accept-Holds w c b s h
write_answered-Holds w c b (fails e) s no_error whole h = cc
write_answered-Holds w c b (partial n e) s no_error whole h = cc
write_answered-Holds w c b (short n) s no_error whole h =
    rw (take-all n c whole) (accept-Holds w c b s h)

write_answered_frame :
    (p : FilePath) (c : Bytes) (a : Answer) (s : Os) (q : FilePath)
    → path_eq p q ≡ false
    → (write_answered (file p) c a s).1.nodes q ≡ s.nodes q
write_answered_frame p c works s q h = rw h
write_answered_frame p c (fails e) s q h = refl
write_answered_frame p c (partial n e) s q h = rw h
write_answered_frame p c (short n) s q h = rw h

write_answered_sink :
    (c : Bytes) (a : Answer) (s : Os) → (write_answered sink c a s).1.nodes ≡ s.nodes
write_answered_sink c works s = refl
write_answered_sink c (fails e) s = refl
write_answered_sink c (partial n e) s = refl
write_answered_sink c (short n) s = refl

-- A `Write` that reports the whole length and no error has appended the bytes.
pub write-Holds :
    (w : Writer) (c b : Bytes) (s : Os)
    → (write w c s).0.1 ≡ none
    → (write w c s).0.0 ≡ length c
    → Holds w b s
    → Holds w (b ++ c) (write w c s).1
unfolding write
write-Holds discard c b s no_error whole h = tt
write-Holds sink c b s no_error whole h =
    write_answered-Holds sink c b (answer s) _ no_error whole h
write-Holds (file p) c b s no_error whole h =
    write_answered-Holds (file p) c b (answer s) _ no_error whole h

-- That a writer is no file, or is a file at another path than this.
abbrev pub Spares : Writer → FilePath → Type 0
Spares discard q = Unit
Spares sink q = Unit
Spares (file p) q = path_eq p q ≡ false

-- A `Write` touches only the file that it writes to.
pub write_frame :
    (w : Writer) (c : Bytes) (s : Os) (q : FilePath)
    → Spares w q
    → (write w c s).1.nodes q ≡ s.nodes q
unfolding write
write_frame discard c s q h = refl
write_frame sink c s q h = rw (write_answered_sink c (answer s) (drawn s))
write_frame (file p) c s q h = write_answered_frame p c (answer s) (drawn s) q h

-- The pieces make up the whole.
bytes_of-push_front :
    (b : ℕ) (cs : List Bytes) → bytes_of (map got (push_front b cs)) ≡ b ∷ bytes_of (map got cs)
unfolding push_front
bytes_of-push_front b [] = refl
bytes_of-push_front b (c ∷ cs) = refl

bytes_of-chunks : (room : ℕ) (s : Bytes) → bytes_of (map got (chunks room s)) ≡ s
unfolding chunks
bytes_of-chunks zero [] = refl
bytes_of-chunks (suc room) [] = refl
bytes_of-chunks zero (b ∷ s) =
    rw bytes_of-push_front (ap (λ t. b ∷ t) (bytes_of-chunks buffer_rest s))
bytes_of-chunks (suc room) (b ∷ s) =
    rw bytes_of-push_front (ap (λ t. b ∷ t) (bytes_of-chunks room s))

unbroken-append-broke :
    (cs : List Bytes) (e : Errno) → unbroken (map got cs ++ (broke [] e ∷ [])) ≡ false
unbroken-append-broke [] e = refl
unbroken-append-broke (c ∷ cs) e = unbroken-append-broke cs e

-- The reads of a file that end without an error deliver its bytes.
pub reads_of-unbroken :
    (a : Answer) (s : Bytes) → unbroken (reads_of a s) ≡ true → bytes_of (reads_of a s) ≡ s
unfolding reads_of
reads_of-unbroken works s h = bytes_of-chunks _ s
reads_of-unbroken (short n) s h = bytes_of-chunks _ s
reads_of-unbroken (fails e) s h = cc
reads_of-unbroken (partial n e) s h =
    absurd (true≢false (sym h ∙ unbroken-append-broke (take n (chunks (suc buffer_rest) s)) e))

-- Writing to `io.Discard` changes nothing.
pub write_discard-nodes : (c : Bytes) (s : Os) → (write discard c s).1.nodes ≡ s.nodes
unfolding write
write_discard-nodes c s = refl
