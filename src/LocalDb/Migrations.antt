-- ===== src/LocalDb/Migrations.antt =====
-- packages/chat-db/src/migrations.ts. What a statement of a migration does is SQLite's: `exec` runs it
-- on what the database holds besides its version, `none` where it fails.
use mortstack.Prelude.{
  ℕ, String, Option, none, some, List, [], ◌∷◌, length, ltb, leb, keep_if, if◌then◌else◌,
}

pub record Migration : Type 0 where
  pub version : ℕ
  pub up : List String

pub record Applied : Type 0 where
  pub from : ℕ
  pub to : ℕ
  pub applied : ℕ

-- `LAST.version`; the module does not load without a migration.
unfoldable pub latest_version : List Migration → ℕ
latest_version [] = 0
latest_version (m ∷ []) = m.version
latest_version (m ∷ n ∷ ms) = latest_version (n ∷ ms)

module _ {S : Type 0} (exec : S → String → Option S) where
  unfoldable pub run_statements : List String → S → Option S
  run_statements [] s = some s
  run_statements (q ∷ qs) s = elim (exec s q) [ none ↦ none | some s' ↦ run_statements qs s' ]

  -- The version and the rest, after these migrations in a transaction.
  unfoldable pub apply_all : List Migration → ℕ × S → Option (ℕ × S)
  unfolding run_statements
  apply_all [] db = some db
  apply_all (m ∷ ms) (v, s) = elim (run_statements m.up s) [
    | none ↦ none
    | some s' ↦ apply_all ms (m.version, s')
  ]

  unfoldable pub pending : List Migration → ℕ → List Migration
  pending ms current = keep_if (λ m. ltb current m.version) ms

  unfoldable pub committed :
      List Migration → ℕ → List Migration → ℕ × S → Option (ℕ × S) → Option Applied × (ℕ × S)
  unfolding latest_version
  committed ms current todo db none = (none, db)
  committed ms current todo db (some db') =
      (some (record { from = current; to = latest_version ms; applied = length todo }), db')

  -- `none` is the exception, after the rollback.
  unfoldable pub run_migrations : List Migration → ℕ × S → Option Applied × (ℕ × S)
  unfolding apply_all pending latest_version committed
  run_migrations ms db =
      let current = db.0 in
      let todo = pending ms current in
      if leb (latest_version ms) current
      then (some (record { from = current; to = current; applied = 0 }), db)
      else committed ms current todo db (apply_all todo db)
