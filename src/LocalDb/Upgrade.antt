-- ===== src/LocalDb/Upgrade.antt =====
-- An upgrade in steps and one at once.
use mathlib.Core.Bool.{false≢true}
use mathlib.Core.Option.{some-injective}
use mortstack.Prelude.{
  ℕ, ◌≤◌, ◌<◌, String, ◌≡◌, refl, sym, ap, ◌∙◌, Bool, true, false, Option, none, some, List, [],
  ◌∷◌, ◌++◌, length, ltb, keep_if, All, All-imp, All-append, keep_if-append, keep_if_none,
  keep_if-All, arith, Option-cases, inl, inr,
}
use mortstack.LocalDb.Migrations.{
  Migration, latest_version, run_statements, apply_all, pending, committed, run_migrations,
}

latest_version-append :
    (xs ys : List Migration) (y : Migration)
    → latest_version (xs ++ y ∷ ys) ≡ latest_version (y ∷ ys)
unfolding latest_version
latest_version-append [] ys y = refl
latest_version-append (x ∷ []) ys y = refl
latest_version-append (x ∷ z ∷ xs) ys y = latest_version-append (z ∷ xs) ys y

All-latest_version :
    (P : ℕ → Type 0) (y : Migration) (ys : List Migration)
    → All (λ m. P m.version) (y ∷ ys)
    → P (latest_version (y ∷ ys))
unfolding latest_version
All-latest_version P y [] h = h.0
All-latest_version P y (z ∷ ys) h = All-latest_version P z ys h.1

is_there : {A : Type 0} → Option A → Bool
is_there none = false
is_there (some a) = true

none-some : {A : Type 0} (a : A) → none ≡ some a → ⊥
unfolding is_there
none-some a e = absurd (false≢true (ap is_there e))

module _ {S : Type 0} (exec : S → String → Option S) where
  -- A run of two lists, taken apart.
  apply_all-split :
      (xs ys : List Migration) (db done : ℕ × S)
      → apply_all exec (xs ++ ys) db ≡ some done
      → (mid : ℕ × S) × ((apply_all exec xs db ≡ some mid) × (apply_all exec ys mid ≡ some done))
  unfolding apply_all
  apply_all-split [] ys db done h = (db, (refl, h))
  apply_all-split (m ∷ xs) ys (v, s) done h = elim (Option-cases (run_statements exec m.up s)) [
    | inl e ↦ absurd (none-some done (rw (apply_all, e) at h))
    | inr (s', e) ↦
        let (mid, (a, b)) = apply_all-split xs ys (m.version, s') done (rw (apply_all, e) at h) in
        (mid, (rw (apply_all, e) a, b))
  ]

  apply_all-latest :
      (x : Migration) (xs : List Migration) (db done : ℕ × S)
      → apply_all exec (x ∷ xs) db ≡ some done
      → done.0 ≡ latest_version (x ∷ xs)
  unfolding apply_all latest_version
  apply_all-latest x [] (v, s) done h = elim (Option-cases (run_statements exec x.up s)) [
    | inl e ↦ absurd (none-some done (rw (apply_all, e) at h))
    | inr (s', e) ↦ sym (ap (λ (d : ℕ × S). d.0) (some-injective _ _ (rw (apply_all, e) at h)))
  ]
  apply_all-latest x (z ∷ xs) (v, s) done h = elim (Option-cases (run_statements exec x.up s)) [
    | inl e ↦ absurd (none-some done (rw (apply_all, e) at h))
    | inr (s', e) ↦ apply_all-latest z xs (x.version, s') done (rw (apply_all, e) at h)
  ]

  -- The migrations that a database of no version wants are all of them; one that has had the first
  -- ones wants the others.
  pending-split :
      (xs ys : List Migration) (v : ℕ)
      → All (λ m. m.version ≤ v) xs
      → All (λ m. v < m.version) ys
      → pending exec (xs ++ ys) v ≡ ys
  unfolding pending
  pending-split xs ys v hx hy =
      keep_if-append (λ m. ltb v m.version) xs ys
      ∙ (ap (λ l. l ++ keep_if (λ m. ltb v m.version) ys)
            (keep_if_none (λ m. ltb v m.version) xs (All-imp (λ m h. ground (arith, h)) xs hx))
          ∙ keep_if-All (λ m. ltb v m.version) ys (All-imp (λ m h. ground (arith, h)) ys hy))

  run-done :
      (ms : List Migration) (db done : ℕ × S)
      → db.0 < latest_version ms
      → apply_all exec (pending exec ms db.0) db ≡ some done
      → run_migrations exec ms db ≡ (
        some (record {
          from = db.0;
          to = latest_version ms;
          applied = length (pending exec ms db.0);
        }),
        done,
      )
  unfolding run_migrations committed
  run-done ms db done lt e = ground (arith, lt, e)

  run-idle :
      (ms : List Migration) (db : ℕ × S)
      → latest_version ms ≤ db.0
      → run_migrations exec ms db ≡ (some (record { from = db.0; to = db.0; applied = 0 }), db)
  unfolding run_migrations
  run-idle ms db le = ground (arith, le)

  -- For two lists of migrations with versions above 0, the later above every earlier, whose statements
  -- all run on a new database: a database that has been migrated by the earlier ones, by a release that
  -- had no others, and is then migrated by all is the same as a new one that is migrated by all at
  -- once; and to run them once more applies none and changes nothing.
  pub run_migrations_in_steps :
      (x y : Migration) (xs ys : List Migration) (s : S) (done : ℕ × S)
      → All (λ m. 0 < m.version) (x ∷ xs)
      → All (λ m. m.version ≤ latest_version (x ∷ xs)) (x ∷ xs)
      → All (λ m. latest_version (x ∷ xs) < m.version) (y ∷ ys)
      → apply_all exec ((x ∷ xs) ++ y ∷ ys) (0, s) ≡ some done
      → ((run_migrations exec ((x ∷ xs) ++ y ∷ ys) (run_migrations exec (x ∷ xs) (0, s)).1).1
          ≡ (run_migrations exec ((x ∷ xs) ++ y ∷ ys) (0, s)).1)
        × (run_migrations exec
              ((x ∷ xs) ++ y ∷ ys)
              (run_migrations exec ((x ∷ xs) ++ y ∷ ys) (0, s)).1
            ≡ (
              some (record {
                from = latest_version ((x ∷ xs) ++ y ∷ ys);
                to = latest_version ((x ∷ xs) ++ y ∷ ys);
                applied = 0;
              }),
              (run_migrations exec ((x ∷ xs) ++ y ∷ ys) (0, s)).1,
            ))
  run_migrations_in_steps x y xs ys s done pos_versions low high e =
      let early = x ∷ xs in
      let late = y ∷ ys in
      let v = latest_version early in
      let w = latest_version (early ++ late) in
      let (mid, (first, second)) = apply_all-split early late (0, s) done e in
      let at : mid.0 ≡ v = apply_all-latest x xs (0, s) mid first in
      let end : done.0 ≡ w = apply_all-latest x (xs ++ late) (0, s) done e in
      let up : v < w =
        rw (latest_version-append early ys y) (All-latest_version (λ n. v < n) y ys high) in
      let above : 0 < v = All-latest_version (λ n. 0 < n) x xs pos_versions in
      let late_pos : All (λ m. 0 < m.version) late =
        All-imp (λ m h. omega (arith, h, above)) late high in
      let all_pos : All (λ m. 0 < m.version) (early ++ late) =
        All-append (λ m. 0 < m.version) early late pos_versions late_pos in
      let all = early ++ late in
      let run1 =
        run-done early (0, s) mid above
          (ap (λ l. apply_all exec l (0, s)) (pending-split [] early 0 tt pos_versions) ∙ first) in
      let run2 = run-done all mid done (rw at up) (
        ap (λ l. apply_all exec l mid)
          (ap (pending exec all) at ∙ pending-split early late v low high)
        ∙ second) in
      let run3 =
        run-done all (0, s) done (omega (arith, up, above))
          (ap (λ l. apply_all exec l (0, s)) (pending-split [] all 0 tt all_pos) ∙ e) in
      let d = (run_migrations exec all (0, s)).1 in
      let ended : d.0 ≡ w = ap (λ r. r.1.0) run3 ∙ end in
      (
        ap (λ r. (run_migrations exec all r.1).1) run1
            ∙ (ap (λ r. r.1) run2 ∙ sym (ap (λ r. r.1) run3)),
        run-idle all d (omega (arith, ended))
            ∙ ap (λ n. (some (record { from = n; to = n; applied = 0 }), d)) ended,
      )
