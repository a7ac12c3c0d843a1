-- ===== src/LocalDb/Replace.antt =====
-- What the cache of devices holds after it is replaced.
use mathlib.Core.Bool.{false≢true}
use mathlib.Core.List.{append_assoc, append-nil}
use mathlib.Core.Option.{some-injective}
use mortstack.Prelude.{
  ℕ, String, ◌≡◌, refl, sym, ap, ◌∙◌, Bool, true, false, ◌==◌, eq_iff, Option, none, some, List, [],
  ◌∷◌, ◌++◌, map, keep_if, keep_if-append, All, Pairs, arith, Option-cases, Bool-cases, inl, inr,
  if◌then◌else◌,
}
use mortstack.Js.Dict.{Dict, get}
use mortstack.LocalDb.PeerKeys.{
  PeerDeviceInput, PeerDeviceRow, delete_account, insert_devices, replace_all, replace_for_accounts,
}

abbrev pub device_row : String → ℕ → PeerDeviceInput → PeerDeviceRow
device_row id now d = record { account_id = id; device = d; refreshed_at = now }

abbrev pub rows_for : String → List PeerDeviceRow → List PeerDeviceRow
rows_for id rows = keep_if (λ r. r.account_id == id) rows

-- What the account should have.
abbrev pub expected :
    Option (List PeerDeviceInput) → String → ℕ → List PeerDeviceRow → List PeerDeviceRow
expected none id now rows = rows_for id rows
expected (some ds) id now rows = map (device_row id now) ds

insert_devices-appends :
    (id : String) (now : ℕ) (ds : List PeerDeviceInput) (rows rows' : List PeerDeviceRow)
    → insert_devices id now ds rows ≡ some rows'
    → rows' ≡ rows ++ map (device_row id now) ds
unfolding insert_devices
insert_devices-appends id now [] rows rows' h = sym (some-injective _ _ h) ∙ sym (append-nil rows)
insert_devices-appends id now (d ∷ ds) rows rows' h =
    insert_devices-appends id now ds (rows ++ device_row id now d ∷ []) rows' (ground (arith, h))
    ∙ append_assoc rows (device_row id now d ∷ []) (map (device_row id now) ds)

rows_for-new :
    (id j : String) (now : ℕ) (ds : List PeerDeviceInput)
    → rows_for j (map (device_row id now) ds) ≡ (if id == j then map (device_row id now) ds else [])
rows_for-new id j now [] = ground arith
rows_for-new id j now (d ∷ ds) = ground (arith, rows_for-new id j now ds)

rows_for-deleted :
    (id j : String) (rows : List PeerDeviceRow)
    → rows_for j (delete_account id rows) ≡ (if id == j then [] else rows_for j rows)
unfolding delete_account
rows_for-deleted id j [] = ground arith
rows_for-deleted id j (r ∷ rows) =
    ground (
      arith,
      eq_iff r.account_id id,
      eq_iff r.account_id j,
      eq_iff id j,
      rows_for-deleted id j rows,
    )

get-absent :
    (id : String) (m : Dict (List PeerDeviceInput))
    → All (λ e. (id == e.0) ≡ false) m
    → get m id ≡ none
unfolding get
get-absent id [] h = refl
get-absent id ((j, ds) ∷ m) h = ground (arith, h.0, eq_iff id j, eq_iff j id, get-absent id m h.1)

one_of_two :
    (b : Bool) (xs ys : List PeerDeviceRow)
    → (if b then [] else ys) ++ (if b then xs else []) ≡ (if b then xs else ys)
one_of_two true xs ys = refl
one_of_two false xs ys = append-nil ys

replaced_row :
    (id j : String) (now : ℕ) (ds : List PeerDeviceInput) (rows : List PeerDeviceRow)
    → rows_for j (delete_account id rows ++ map (device_row id now) ds)
      ≡ (if id == j then map (device_row id now) ds else rows_for j rows)
replaced_row id j now ds rows =
    keep_if-append (λ r. r.account_id == j) (delete_account id rows) (map (device_row id now) ds)
    ∙ (ap (λ l. l ++ rows_for j (map (device_row id now) ds)) (rows_for-deleted id j rows)
        ∙ (ap (λ l. (if id == j then [] else rows_for j rows) ++ l) (rows_for-new id j now ds)
            ∙ one_of_two (id == j) (map (device_row id now) ds) (rows_for j rows)))

abbrev DiffersFrom : String × List PeerDeviceInput → String × List PeerDeviceInput → Type 0
DiffersFrom p q = (p.0 == q.0) ≡ false

expected_same :
    (o : Option (List PeerDeviceInput)) (j : String) (now : ℕ) (mid rows : List PeerDeviceRow)
    → rows_for j mid ≡ rows_for j rows
    → expected o j now mid ≡ expected o j now rows
expected_same none j now mid rows h = h
expected_same (some ds) j now mid rows h = refl

replace_all_follows :
    (by_account : Dict (List PeerDeviceInput)) (now : ℕ) (rows rows' : List PeerDeviceRow)
    (j : String)
    → Pairs DiffersFrom by_account
    → replace_all by_account now rows ≡ some rows'
    → rows_for j rows' ≡ expected (get by_account j) j now rows
unfolding replace_all get
replace_all_follows [] now rows rows' j u h = ap (rows_for j) (sym (some-injective _ _ h))
replace_all_follows ((id, ds) ∷ more) now rows rows' j u h =
    elim (Option-cases (insert_devices id now ds (delete_account id rows))) [
      | inl e ↦ absurd (ground (arith, rw (replace_all, e) at h))
      | inr (mid, e) ↦
          let rest = replace_all_follows more now mid rows' j u.1 (rw (replace_all, e) at h) in
          let m : rows_for j mid
              ≡ (if id == j then map (device_row id now) ds else rows_for j rows) =
            ap (rows_for j) (insert_devices-appends id now ds (delete_account id rows) mid e)
            ∙ replaced_row id j now ds rows in
          elim (Bool-cases (id == j)) [
            | inl t ↦
                let same = (eq_iff id j).0 t in
                let absent = ap (get more) (sym same) ∙ get-absent id more u.0 in
                rest
                ∙ (ap (λ o. expected o j now mid) absent
                    ∙ (m ∙ rw t (ap (λ k. map (device_row k now) ds) same)))
            | inr t ↦ rest ∙ rw t (expected_same (get more j) j now mid rows (m ∙ rw t refl))
          ]
    ]

-- A replacement of the devices of some accounts, each named once, that is done leaves each of them with
-- the devices given, refreshed now, also if these are none, and every other account with the rows that
-- it had; one that fails leaves the table as it was.
pub replace_for_accounts_follows :
    (by_account : Dict (List PeerDeviceInput)) (now : ℕ) (rows : List PeerDeviceRow) (j : String)
    → Pairs (λ p q. (p.0 == q.0) ≡ false) by_account
    → ((replace_for_accounts by_account now rows).1 ≡ true
        → rows_for j (replace_for_accounts by_account now rows).0
          ≡ expected (get by_account j) j now rows)
      × ((replace_for_accounts by_account now rows).1 ≡ false
          → (replace_for_accounts by_account now rows).0 ≡ rows)
unfolding replace_for_accounts
replace_for_accounts_follows by_account now rows j u =
    elim (Option-cases (replace_all by_account now rows)) [
      | inl e ↦ rw (replace_for_accounts, e) (λ h. absurd (false≢true h), λ h. refl)
      | inr (rows', e) ↦
          rw (replace_for_accounts, e)
            (
              λ h. replace_all_follows by_account now rows rows' j u e,
              λ h. absurd (false≢true (sym h)),
            )
    ]
