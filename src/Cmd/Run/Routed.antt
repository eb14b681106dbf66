-- ===== src/Cmd/Run/Routed.antt =====
-- Where `help` in front of a command line leads.
use duro_ledger.Base.{
  ℕ, zero, suc, ◌+◌, ◌<◌, ◌≤◌, ◌≡◌, refl, sym, ap, ◌∙◌, arith, Bool, true, inl, inr, List, [], ◌∷◌,
  ◌++◌, append_assoc, append-nil, if◌then◌else◌, Bytes, str, beq, length, Bool-cases,
}
use duro_ledger.Postgres.Server.{Server}
use duro_ledger.Cmd.{Environment}
use duro_ledger.Cmd.Run.{command, run}

abbrev is_help : Bytes → Bool
is_help arg = beq arg (str "help")

-- The number of words `help` in front, the words behind them, and as many words `--help`.
abbrev helps : List Bytes → ℕ
helps [] = 0
helps (arg ∷ args) = if is_help arg then suc (helps args) else 0

abbrev behind_helps : List Bytes → List Bytes
behind_helps [] = []
behind_helps (arg ∷ args) = if is_help arg then behind_helps args else arg ∷ args

abbrev dash_helps : ℕ → List Bytes
dash_helps zero = []
dash_helps (suc n) = str "--help" ∷ dash_helps n

-- The command line that is run in the end.
abbrev pub routed : List Bytes → List Bytes
routed (arg ∷ []) = arg ∷ []
routed args = behind_helps args ++ dash_helps (helps args)

helps-append : (args : List Bytes) → helps (args ++ (str "--help" ∷ [])) ≡ helps args
unfolding beq
helps-append [] = refl
helps-append (arg ∷ args) = rw (helps-append args) refl

behind_helps-append :
    (args : List Bytes)
    → behind_helps (args ++ (str "--help" ∷ [])) ≡ behind_helps args ++ (str "--help" ∷ [])
unfolding beq
behind_helps-append [] = refl
behind_helps-append (arg ∷ args) = elim (Bool-cases (is_help arg)) [
  | inl more ↦ rw more (behind_helps-append args)
  | inr last ↦ rw last refl
]

helps-length : (args : List Bytes) → helps args ≤ length args
helps-length [] = omega arith
helps-length (arg ∷ args) = elim (Bool-cases (is_help arg)) [
  | inl more ↦ rw more (omega (arith, helps-length args))
  | inr last ↦ rw last (omega arith)
]

helps-step :
    (arg : Bytes) (args : List Bytes) (fuel : ℕ)
    → is_help arg ≡ true
    → helps (arg ∷ args) < suc fuel
    → helps (args ++ (str "--help" ∷ [])) < fuel
helps-step arg args fuel more h =
    let k : suc (helps args) < suc fuel = rw more at h in rw (helps-append args) (omega (arith, k))

routed_long :
    (x : Bytes) (args : List Bytes)
    → let more = (x ∷ args) ++ (str "--help" ∷ []) in
      routed more ≡ behind_helps more ++ dash_helps (helps more)
routed_long x [] = refl
routed_long x (y ∷ args) = refl

-- A step takes one `help` away and leaves the command line that is run in the end.
routed-step :
    (x : Bytes) (args : List Bytes)
    → routed ((x ∷ args) ++ (str "--help" ∷ []))
      ≡ behind_helps (x ∷ args) ++ dash_helps (suc (helps (x ∷ args)))
routed-step x args =
    routed_long x args
    ∙ rw (behind_helps-append (x ∷ args), helps-append (x ∷ args))
        (append_assoc (behind_helps (x ∷ args)) (str "--help" ∷ []) (dash_helps (helps (x ∷ args))))

module _ (S : Server) (env : Environment) where
  run-enough :
      (fuel : ℕ) (args : List Bytes)
      → helps args < fuel
      → run S env fuel args ≡ command S env (routed args)
  unfolding run
  run-enough zero args h = ground arith
  run-enough (suc fuel) [] h = refl
  run-enough (suc fuel) (arg ∷ []) h = elim (Bool-cases (is_help arg)) [
    | inl more ↦ rw more refl
    | inr last ↦ rw last refl
  ]
  run-enough (suc fuel) (arg ∷ x ∷ args) h = elim (Bool-cases (is_help arg)) [
    | inl more ↦
        let shorter : helps ((x ∷ args) ++ (str "--help" ∷ [])) < fuel =
          helps-step arg (x ∷ args) fuel more h in
        rw more (
          run-enough fuel ((x ∷ args) ++ (str "--help" ∷ [])) shorter
          ∙ ap (command S env) (routed-step x args))
    | inr last ↦ rw last (ap (λ l. command S env (arg ∷ x ∷ l)) (sym (append-nil args)))
  ]

  -- `run` always comes to an end: with more fuel than there are words it runs the command line that
  -- has no `help` in front of a command, and a `--help` behind it for each one that stood there.
  pub run-routed :
      (args : List Bytes) → run S env (length args + 1) args ≡ command S env (routed args)
  run-routed args = run-enough (length args + 1) args (omega (arith, helps-length args))
