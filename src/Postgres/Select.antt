-- ===== src/Postgres/Select.antt =====
-- The parts of a query of store.go: `WHERE`, a cross join and `SELECT ... WHERE`, over lists of rows.
use mathlib.Core.List.{Memᴰ}
use mathlib.Core.List.Memᴰ
use duro_ledger.Base.{
  ◌≡◌, ◌↔◌, ◌≢◌, refl, ◌∙◌, sym, ap, subst, Bool, true, false, inl, inr, Bool-cases, List, [], ◌∷◌,
  ◌++◌, map, Bytes, if◌then◌else◌,
}

module _ {A : Type 0} where
  -- `WHERE`
  unfoldable pub keep : (A → Bool) → List A → List A
  keep p [] = []
  keep p (x ∷ xs) = let rest = keep p xs in if p x then x ∷ rest else rest

  -- `FROM xs, ys`
  unfoldable pub pairs : List A → List Bytes → List (A × Bytes)
  pairs [] ys = []
  pairs (x ∷ xs) ys = map (λ y. (x, y)) ys ++ pairs xs ys

  -- `SELECT f FROM xs WHERE p`
  unfoldable pub select_where : (A → Bool) → (A → Bytes) → List A → List Bytes
  select_where p f [] = []
  select_where p f (x ∷ xs) = let rest = select_where p f xs in if p x then f x ∷ rest else rest

  pub keep-mem : (p : A → Bool) (xs : List A) (x : A) → Memᴰ x xs → p x ≡ true → Memᴰ x (keep p xs)
  unfolding keep
  keep-mem p [] x m h = absurd (Memᴰ.not-nil m)
  keep-mem p (y ∷ ys) x (Memᴰ.head e) h = rw (ap p (sym e) ∙ h) (Memᴰ.head e)
  keep-mem p (y ∷ ys) x (Memᴰ.tail m) h = elim (Bool-cases (p y)) [
    | inl p_yes ↦ rw p_yes (Memᴰ.tail (keep-mem p ys x m h))
    | inr p_no ↦ rw p_no (keep-mem p ys x m h)
  ]

  pub mem-keep :
      (p : A → Bool) (xs : List A) (x : A) → Memᴰ x (keep p xs) → Memᴰ x xs × (p x ≡ true)
  unfolding keep
  mem-keep p [] x m = absurd (Memᴰ.not-nil m)
  mem-keep p (y ∷ ys) x m = elim (Bool-cases (p y)) [
    | inl p_yes ↦
        (let m2 = rw p_yes at m in
          elim (Memᴰ.cases_cons m2) [
            | inl e ↦ (Memᴰ.head e, ap p e ∙ p_yes)
            | inr t ↦ (let (there, h) = mem-keep p ys x t in (Memᴰ.tail there, h))
          ])
    | inr p_no ↦ (let (there, h) = mem-keep p ys x (rw p_no at m) in (Memᴰ.tail there, h))
  ]

  none_passes :
      (p : A → Bool) (f : A → Bytes) (xs : List A)
      → select_where p f xs ≡ []
      → (x : A) → Memᴰ x xs
      → p x ≡ false
  unfolding select_where
  none_passes p f [] h x m = absurd (Memᴰ.not-nil m)
  none_passes p f (y ∷ ys) h x m = elim (Bool-cases (p y)) [
    | inl p_yes ↦ (let k = rw p_yes at h in cc)
    | inr p_no ↦ elim (Memᴰ.cases_cons m) [
      | inl e ↦ ap p e ∙ p_no
      | inr t ↦ none_passes p f ys (rw p_no at h) x t
    ]
  ]

  none_selected :
      (p : A → Bool) (f : A → Bytes) (xs : List A)
      → ((x : A) → Memᴰ x xs → p x ≡ false)
      → select_where p f xs ≡ []
  unfolding select_where
  none_selected p f [] h = refl
  none_selected p f (y ∷ ys) h =
      rw (h y (Memᴰ.head refl)) (none_selected p f ys (λ x m. h x (Memᴰ.tail m)))

  -- A query selects no row just if no row passes its test.
  pub select_where-nil :
      (p : A → Bool) (f : A → Bytes) (xs : List A)
      → (select_where p f xs ≡ []) ↔ ((x : A) → Memᴰ x xs → p x ≡ false)
  select_where-nil p f xs = (none_passes p f xs, none_selected p f xs)

  mem-pair :
      (x : A) (ys : List Bytes) (y : Bytes)
      → Memᴰ y ys
      → Memᴰ {A = A × Bytes} (x, y) (map (λ z. (x, z)) ys)
  mem-pair x [] y m = absurd (Memᴰ.not-nil m)
  mem-pair x (z ∷ zs) y (Memᴰ.head e) = Memᴰ.head (ap (λ w. (x, w)) e)
  mem-pair x (z ∷ zs) y (Memᴰ.tail m) = Memᴰ.tail (mem-pair x zs y m)

  pub pairs-mem :
      (xs : List A) (ys : List Bytes) (x : A) (y : Bytes)
      → Memᴰ x xs
      → Memᴰ y ys
      → Memᴰ {A = A × Bytes} (x, y) (pairs xs ys)
  unfolding pairs
  pairs-mem [] ys x y m n = absurd (Memᴰ.not-nil m)
  pairs-mem (z ∷ zs) ys x y (Memᴰ.head e) n =
      Memᴰ.append_left _
        (subst (λ w. Memᴰ {A = A × Bytes} (x, y) (map (λ v. (w, v)) ys)) e (mem-pair x ys y n))
  pairs-mem (z ∷ zs) ys x y (Memᴰ.tail m) n =
      Memᴰ.append_right (map (λ v. (z, v)) ys) (pairs-mem zs ys x y m n)

  pair-mem :
      (z : A) (ys : List Bytes) (x : A × Bytes)
      → Memᴰ x (map (λ v. (z, v)) ys)
      → (x.0 ≡ z) × Memᴰ x.1 ys
  pair-mem z [] x m = absurd (Memᴰ.not-nil m)
  pair-mem z (y ∷ ys) x m = elim (Memᴰ.cases_cons m) [
    | inl e ↦ (ap (λ w. w.0) e, Memᴰ.head (ap (λ w. w.1) e))
    | inr t ↦ (let (a, b) = pair-mem z ys x t in (a, Memᴰ.tail b))
  ]

  pub mem-pairs :
      (xs : List A) (ys : List Bytes) (x : A × Bytes)
      → Memᴰ x (pairs xs ys)
      → Memᴰ x.0 xs × Memᴰ x.1 ys
  unfolding pairs
  mem-pairs [] ys x m = absurd (Memᴰ.not-nil m)
  mem-pairs (z ∷ zs) ys x m = elim (Memᴰ.append_cases (map (λ v. (z, v)) ys) m) [
    | inl here ↦ (let (a, b) = pair-mem z ys x here in (Memᴰ.head a, b))
    | inr later ↦ (let (a, b) = mem-pairs zs ys x later in (Memᴰ.tail a, b))
  ]

cons_ne_nil : {A : Type 0} (x : A) (xs : List A) → x ∷ xs ≢ []
cons_ne_nil x xs h = cc

pub append-nil_iff : {A : Type 0} (xs ys : List A) → (xs ++ ys ≡ []) ↔ ((xs ≡ []) × (ys ≡ []))
append-nil_iff [] ys = (λ h. (refl, h), λ h. h.1)
append-nil_iff (x ∷ xs) ys =
    (λ h. absurd (cons_ne_nil x (xs ++ ys) h), λ h. absurd (cons_ne_nil x xs h.0))

-- A `UNION ALL` has no row just if neither its branches before the last one nor that one has one.
pub union-nil :
    {A : Type 0} (before : List Bytes) (p : A → Bool) (f : A → Bytes) (xs : List A)
    → (before ++ select_where p f xs ≡ []) ↔ ((before ≡ []) × ((x : A) → Memᴰ x xs → p x ≡ false))
union-nil before p f xs =
    let both = append-nil_iff before (select_where p f xs) in
    let none_passes = select_where-nil p f xs in
    (
      λ h. (let (first, last) = both.0 h in (first, none_passes.0 last)),
      λ h. both.1 (h.0, none_passes.1 h.1),
    )

-- What holds of every row of a cross join, holds of every two rows.
pub pairs-all :
    {A : Type 0} (P : A × Bytes → Type 0) (xs : List A) (ys : List Bytes)
    → ((x : A × Bytes) → Memᴰ x (pairs xs ys) → P x)
      ↔ ((x : A) → Memᴰ x xs → (y : Bytes) → Memᴰ y ys → P (x, y))
pairs-all P xs ys = (
  λ h x m y n. h (x, y) (pairs-mem xs ys x y m n),
  λ k x m. (let (there, here) = mem-pairs xs ys x m in k x.0 there x.1 here),
)
