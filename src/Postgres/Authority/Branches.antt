-- ===== src/Postgres/Authority/Branches.antt =====
-- When the branches of `eligibilityQuery` of store.go select nothing.
use mathlib.Core.List.{Memᴰ}
use duro_ledger.Base.{
  ◌≡◌, ◌≢◌, ◌↔◌, inl, inr, refl, arith, Bool, false, Bool-cases, List, [], Bytes, str, beq, beq_iff,
  beq_refl,
}
use duro_ledger.Postgres.Select.{pairs, pairs-all, select_where-nil, union-nil}
use duro_ledger.Postgres.Authority.{
  Role, Authority, mutating, attribute_reasons, owner_reasons, may_mutate, privilege_reasons,
}

beq-false_iff : (a b : Bytes) → (beq a b ≡ false) ↔ (a ≢ b)
beq-false_iff a b = grind (arith, beq_iff a b)

module _ (rows : List Role) where
  pub attribute_reasons-nil : (attribute_reasons rows ≡ []) ↔ (
      (r : Role)
      → Memᴰ r rows
      → (r.rolsuper ≡ false)
        × (r.rolcreaterole ≡ false)
        × (r.rolcreatedb ≡ false)
        × (r.rolbypassrls ≡ false)
        × (r.rolreplication ≡ false))
  unfolding attribute_reasons
  attribute_reasons-nil = (
    λ h.
        let (h4, repl) = (union-nil _ (λ r. r.rolreplication) _ rows).0 h in
        let (h3, bypass) = (union-nil _ (λ r. r.rolbypassrls) _ rows).0 h4 in
        let (h2, db) = (union-nil _ (λ r. r.rolcreatedb) _ rows).0 h3 in
        let (h1, create) = (union-nil _ (λ r. r.rolcreaterole) _ rows).0 h2 in
        let sup = (select_where-nil (λ r. r.rolsuper) _ rows).0 h1 in
        λ r m. (sup r m, create r m, db r m, bypass r m, repl r m),
    λ k.
        let h1 = (select_where-nil (λ r. r.rolsuper) _ rows).1 (λ r m. (k r m).0) in
        let h2 = (union-nil _ (λ r. r.rolcreaterole) _ rows).1 (h1, λ r m. (k r m).1) in
        let h3 = (union-nil _ (λ r. r.rolcreatedb) _ rows).1 (h2, λ r m. (k r m).2) in
        let h4 = (union-nil _ (λ r. r.rolbypassrls) _ rows).1 (h3, λ r m. (k r m).3) in
        (union-nil _ (λ r. r.rolreplication) _ rows).1 (h4, λ r m. (k r m).4),
  )

module _ (a : Authority) (rows : List Role) where
  pub owner_reasons-nil : (owner_reasons a rows ≡ []) ↔ (
      (r : Role)
      → Memᴰ r rows
      → (r.rolname ≢ a.table_owner) × (r.rolname ≢ a.schema_owner) × (r.rolname ≢ a.database_owner))
  unfolding owner_reasons
  owner_reasons-nil = (
    λ h.
        let (h2, database) = (union-nil _ (λ r. beq r.rolname a.database_owner) _ rows).0 h in
        let (h1, schema) = (union-nil _ (λ r. beq r.rolname a.schema_owner) _ rows).0 h2 in
        let table = (select_where-nil (λ r. beq r.rolname a.table_owner) _ rows).0 h1 in
        λ r m. (
          (beq-false_iff _ _).0 (table r m),
          (beq-false_iff _ _).0 (schema r m),
          (beq-false_iff _ _).0 (database r m),
        ),
    λ k.
        let h1 =
          (select_where-nil (λ r. beq r.rolname a.table_owner) _ rows).1
            (λ r m. (beq-false_iff _ _).1 (k r m).0) in
        let h2 =
          (union-nil _ (λ r. beq r.rolname a.schema_owner) _ rows).1
            (h1, λ r m. (beq-false_iff _ _).1 (k r m).1) in
        (union-nil _ (λ r. beq r.rolname a.database_owner) _ rows).1
          (h2, λ r m. (beq-false_iff _ _).1 (k r m).2),
  )

  may_mutate-none :
      (r : Role)
      → ((p : Bytes) → Memᴰ p mutating → may_mutate a (r, p) ≡ false) ↔ (
          ((p : Bytes) → Memᴰ p mutating → a.has_table_privilege r.rolname p ≡ false)
          × (a.has_any_column_privilege r.rolname (str "UPDATE") ≡ false))
  unfolding may_mutate
  may_mutate-none r = (
    λ h. (
      λ p m. (let k = h p m in ground arith),
      (let k = h (str "UPDATE") (Memᴰ.head refl) in
          let e = beq_refl (str "UPDATE") in ground arith),
    ),
    λ k p m.
        let no_table = k.0 p m in
        elim (Bool-cases (beq p (str "UPDATE"))) [
          | inl update ↦
              (let e = (beq_iff p (str "UPDATE")).0 update in rw (no_table, update, e, k.1) refl)
          | inr other ↦ rw (no_table, other) refl
        ],
  )

  pub privilege_reasons-nil :
      (columns extra : List Bytes)
      → (privilege_reasons a columns extra rows ≡ []) ↔ (
          (r : Role)
          → Memᴰ r rows
          → ((p : Bytes) → Memᴰ p mutating → a.has_table_privilege r.rolname p ≡ false)
            × (a.has_any_column_privilege r.rolname (str "UPDATE") ≡ false)
            × ((c : Bytes)
                → Memᴰ c columns
                → a.has_column_privilege r.rolname c (str "INSERT") ≡ false)
            × ((p : Bytes) → Memᴰ p extra → a.has_any_column_privilege r.rolname p ≡ false))
  unfolding privilege_reasons
  privilege_reasons-nil columns extra =
      let inserts : Role × Bytes → Bool =
        λ x. a.has_column_privilege x.0.rolname x.1 (str "INSERT") in
      let holds : Role × Bytes → Bool = λ x. a.has_any_column_privilege x.0.rolname x.1 in
      let each_mutate = pairs-all (λ x. may_mutate a x ≡ false) rows mutating in
      let each_insert = pairs-all (λ x. inserts x ≡ false) rows columns in
      let each_extra = pairs-all (λ x. holds x ≡ false) rows extra in
      (
        λ h.
            let (h2, no_extra) = (union-nil _ holds _ (pairs rows extra)).0 h in
            let (h1, no_insert) = (union-nil _ inserts _ (pairs rows columns)).0 h2 in
            let no_mutate = (select_where-nil (may_mutate a) _ (pairs rows mutating)).0 h1 in
            λ r m.
              let (no_table, no_update) = (may_mutate-none r).0 (each_mutate.0 no_mutate r m) in
              (no_table, no_update, each_insert.0 no_insert r m, each_extra.0 no_extra r m),
        λ k.
            let h1 =
              (select_where-nil (may_mutate a) _ (pairs rows mutating)).1
                (each_mutate.1 (λ r m. (may_mutate-none r).1 ((k r m).0, (k r m).1))) in
            let h2 =
              (union-nil _ inserts _ (pairs rows columns)).1
                (h1, each_insert.1 (λ r m. (k r m).2)) in
            (union-nil _ holds _ (pairs rows extra)).1 (h2, each_extra.1 (λ r m. (k r m).3)),
      )
