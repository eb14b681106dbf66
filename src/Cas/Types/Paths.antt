-- ===== src/Cas/Types/Paths.antt =====
-- Where `Path` puts a blob.
use duro_ledger.Base.{
  ℕ, zero, suc, ◌≤◌, ◌≡◌, ◌≢◌, refl, ap, sym, ◌∙◌, arith, Bool, true, false, ◌&&◌, [], ◌∷◌, ◌++◌,
  append-nil, append_assoc, ltb, ◌==◌, Bytes, str, beq, length, take, drop, all,
}
use duro_ledger.Os.Path.{FilePath, enter, enter_all, join}
use duro_ledger.Cas.Identity.{is_lower_hex, valid_digest}
use duro_ledger.Cas.Identity.Forms.{valid_digest_iff}
use duro_ledger.Cas.Types.{Store, blob_path}

-- A text of characters that `Clean` has no rule for stays one element.
enter-plain : (p : FilePath) (c : ℕ) (s : Bytes) → c ≢ b'.' → enter p (c ∷ s) ≡ (c ∷ s) ∷ p
unfolding enter beq
enter-plain p c s h = ground arith

enter_all-plain :
    (p : FilePath) (name s : Bytes)
    → all (λ c. is_lower_hex c) s ≡ true
    → enter_all p name s ≡ enter p (name ++ s)
unfolding enter_all
enter_all-plain p name [] h = rw append-nil
enter_all-plain p name (c ∷ s) h =
    let no_slash : (c == b'/') ≡ false = ground arith in
    let rest : all (λ c. is_lower_hex c) s ≡ true = ground arith in
    rw no_slash
      (enter_all-plain p (name ++ (c ∷ [])) s rest ∙ ap (enter p) (append_assoc name (c ∷ []) s))

enter_hex :
    (p : FilePath) (c : ℕ) (s : Bytes)
    → all (λ c. is_lower_hex c) (c ∷ s) ≡ true
    → enter_all p [] (c ∷ s) ≡ (c ∷ s) ∷ p
enter_hex p c s h = enter_all-plain p [] (c ∷ s) h ∙ enter-plain p c s (λ e. ground arith)

-- A digest has room for both pairs.
digest-long : (digest : Bytes) → valid_digest digest ≡ true → 64 ≤ length digest
digest-long digest v = let n = ((valid_digest_iff digest).0 v).0 in omega arith

all-take : (p : ℕ → Bool) (n : ℕ) (s : Bytes) → all p s ≡ true → all p (take n s) ≡ true
all-take p zero s h = refl
all-take p (suc n) [] h = refl
all-take p (suc n) (c ∷ s) h = ground (arith, all-take p n s)

and-right : (a b : Bool) → (a && b) ≡ true → b ≡ true
and-right true b h = h
and-right false b h = cc

all-drop : (p : ℕ → Bool) (n : ℕ) (s : Bytes) → all p s ≡ true → all p (drop n s) ≡ true
all-drop p zero s h = h
all-drop p (suc n) [] h = refl
all-drop p (suc n) (c ∷ s) h = all-drop p n s (and-right (p c) (all p s) h)

-- A blob with a well-formed digest lies two levels below the directory `sha256`, in the directories
-- named by the first two pairs of its digits.
pub blob_path_lem :
    (s : Store) (digest : Bytes)
    → valid_digest digest ≡ true
    → blob_path s digest ≡ digest ∷ take 2 (drop 2 digest) ∷ take 2 digest ∷ str "sha256" ∷ s.root
unfolding blob_path join
blob_path_lem s [] v = absurd (let h = digest-long [] v in omega arith)
blob_path_lem s (a ∷ []) v = absurd (let h = digest-long (a ∷ []) v in omega arith)
blob_path_lem s (a ∷ b ∷ []) v = absurd (let h = digest-long (a ∷ b ∷ []) v in omega arith)
blob_path_lem s (a ∷ b ∷ c ∷ []) v = absurd (let h = digest-long (a ∷ b ∷ c ∷ []) v in omega arith)
blob_path_lem s (a ∷ b ∷ c ∷ d ∷ r) v =
    let digest = a ∷ b ∷ c ∷ d ∷ r in
    let hex = ((valid_digest_iff digest).0 v).1 in
    let long : ltb (length digest) 4 ≡ false = ground arith in
    let p1 = str "sha256" ∷ s.root in
    let p2 = (a ∷ b ∷ []) ∷ p1 in
    let p3 = (c ∷ d ∷ []) ∷ p2 in
    let e1 = enter-plain s.root 115 (str "ha256") (λ e. ground arith) in
    let e2 = enter_hex p1 a (b ∷ []) (all-take is_lower_hex 2 digest hex) in
    let e3 =
      enter_hex p2 c (d ∷ [])
        (all-take is_lower_hex 2 (c ∷ d ∷ r) (all-drop is_lower_hex 2 digest hex)) in
    let e4 = enter_hex p3 a (b ∷ c ∷ d ∷ r) hex in
    rw long (
      ap (λ p. enter_all (enter_all (enter_all p [] (a ∷ b ∷ [])) [] (c ∷ d ∷ [])) [] digest) e1
      ∙ ap (λ p. enter_all (enter_all p [] (c ∷ d ∷ [])) [] digest) e2
      ∙ ap (λ p. enter_all p [] digest) e3
      ∙ e4)

abbrev head_or : Bytes → FilePath → Bytes
head_or d [] = d
head_or d (x ∷ p) = x

-- No two well-formed digests share a path.
pub blob_path-injective :
    (s : Store) (d e : Bytes)
    → valid_digest d ≡ true
    → valid_digest e ≡ true
    → blob_path s d ≡ blob_path s e
    → d ≡ e
blob_path-injective s d e v w h =
    ap (head_or []) (sym (blob_path_lem s d v) ∙ h ∙ blob_path_lem s e w)
