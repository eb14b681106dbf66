-- ===== src/Cmd/Output/Printed.antt =====
-- What the standard output has got when a write to it succeeds, and what a write leaves alone.
use duro_ledger.Base.{
  ℕ, zero, suc, ◌≡◌, ◌≤◌, refl, ap, ◌⊎◌, arith, inl, inr, Bool-cases, Option, none, some, [], ◌∷◌,
  ◌++◌, Bytes, length, take, ltb, ok, err,
}
use duro_ledger.Os.State.{Errno, Answer, works, fails, partial, short, Os, answer, drawn}
use duro_ledger.Os.Stream.{sink, write, write_answered, Written}
use duro_ledger.Postgres.Server.{Server}
use duro_ledger.Cmd.{output, file_result, Process, put_out, encode_line}

take-all : (n : ℕ) (b : Bytes) → length b ≤ length (take n b) → take n b ≡ b
take-all zero [] h = refl
take-all zero (c ∷ b) h = ground arith
take-all (suc n) [] h = refl
take-all (suc n) (c ∷ b) h = ap (λ x. c ∷ x) (take-all n b (omega (arith, h)))

full_write-out :
    (a : Answer) (b : Bytes) (s : Os) (u : Unit {0})
    → file_result b (write_answered sink b a s).0 ≡ ok u
    → (write_answered sink b a s).1.out ≡ s.out ++ b
full_write-out works b s u h = refl
full_write-out (fails e) b s u h = cc
full_write-out (partial n e) b s u h = cc
full_write-out (short n) b s u h = elim (Bool-cases (ltb (length (take n b)) (length b))) [
  | inl less ↦ (let k = rw less at h in cc)
  | inr full ↦ ap (λ x. s.out ++ x) (take-all n b (ground (arith, full)))
]

answered_write-nodes :
    (a : Answer) (b : Bytes) (s : Os) → (write_answered sink b a s).1.nodes ≡ s.nodes
answered_write-nodes works b s = refl
answered_write-nodes (fails e) b s = refl
answered_write-nodes (partial n e) b s = refl
answered_write-nodes (short n) b s = refl

module _ (S : Server) where
  -- A line is written as a whole, or there is an error.
  pub encode_line-ok :
      (b : Bytes) (p : Process S) (u : Unit {0})
      → (encode_line S (some b) p).0 ≡ ok u
      → (encode_line S (some b) p).1.stores.os.out ≡ p.stores.os.out ++ (b ++ (b'\n' ∷ []))
  unfolding encode_line put_out write
  encode_line-ok b p u h =
      full_write-out (answer p.stores.os) (b ++ (b'\n' ∷ [])) (drawn p.stores.os) u h

  pub encode_line-ledger :
      (o : Option Bytes) (p : Process S) → (encode_line S o p).1.stores.ledger ≡ p.stores.ledger
  unfolding encode_line put_out
  encode_line-ledger none p = refl
  encode_line-ledger (some b) p = refl

  pub encode_line-nodes :
      (o : Option Bytes) (p : Process S) → (encode_line S o p).1.stores.os.nodes ≡ p.stores.os.nodes
  unfolding encode_line put_out write
  encode_line-nodes none p = refl
  encode_line-nodes (some b) p =
      answered_write-nodes (answer p.stores.os) (b ++ (b'\n' ∷ [])) (drawn p.stores.os)

file_result-cases :
    (b : Bytes) (w : Written)
    → (file_result b w ≡ ok tt) ⊎ ((e : Errno) × (file_result b w ≡ err (output e)))
file_result-cases b (n, some e) = inr (e, refl)
file_result-cases b (n, none) = elim (Bool-cases (ltb n (length b))) [
  | inl less ↦ rw less (inr (_, refl))
  | inr full ↦ rw full (inl refl)
]

module _ (S : Server) where
  -- Writing ends well, or with an error of the output.
  pub put_out-cases :
      (b : Bytes) (p : Process S)
      → ((put_out S b p).0 ≡ ok tt) ⊎ ((e : Errno) × ((put_out S b p).0 ≡ err (output e)))
  unfolding put_out
  put_out-cases b p = file_result-cases b (write sink b p.stores.os).0
