-- ===== src/LocalDb/PeerKeys.antt =====
-- packages/chat-db/src/peer-keys.ts: the cached devices of other accounts.
use mortstack.Prelude.{
  ℕ, String, Bool, true, false, not, ◌==◌, ◌&&◌, Option, none, some, List, [], ◌∷◌, ◌++◌, any, ltb,
  keep_if, if◌then◌else◌,
}
use mortstack.Js.Unique.{member}
use mortstack.Js.Dict.{Dict}

pub record PeerDeviceInput : Type 0 where
  pub device_id : String
  pub ed25519_pub : List ℕ
  pub x25519_pub : List ℕ
  pub server_updated_at : ℕ

pub record PeerDeviceRow : Type 0 where
  pub account_id : String
  pub device : PeerDeviceInput
  pub refreshed_at : ℕ

unfoldable pub get_by_account_ids : List String → List PeerDeviceRow → List PeerDeviceRow
unfolding member
get_by_account_ids ids rows = keep_if (λ r. member ids r.account_id) rows

-- `MAX(refreshed_at)` of an account, and `seen.get(id)`
unfoldable pub max_refreshed : String → List PeerDeviceRow → Option ℕ
max_refreshed id [] = none
max_refreshed id (r ∷ rows) =
    let rest = max_refreshed id rows in
    if r.account_id == id
    then some (elim rest [
      | none ↦ r.refreshed_at
      | some m ↦ if ltb m r.refreshed_at then r.refreshed_at else m
    ])
    else rest

unfoldable pub is_stale : ℕ → Option ℕ → Bool
is_stale before none = true
is_stale before (some refreshed) = ltb refreshed before

unfoldable pub get_stale_account_ids : List String → ℕ → List PeerDeviceRow → List String
unfolding max_refreshed is_stale
get_stale_account_ids ids before rows = keep_if (λ id. is_stale before (max_refreshed id rows)) ids

unfoldable pub delete_account : String → List PeerDeviceRow → List PeerDeviceRow
delete_account id rows = keep_if (λ r. not (r.account_id == id)) rows

-- `none` where the primary key, account and device, is there already.
unfoldable pub insert_devices :
    String → ℕ → List PeerDeviceInput → List PeerDeviceRow → Option (List PeerDeviceRow)
insert_devices id now [] rows = some rows
insert_devices id now (d ∷ ds) rows =
    let rest =
      insert_devices id now ds
        (rows ++ record { account_id = id; device = d; refreshed_at = now } ∷ []) in
    if any (λ r. (r.account_id == id) && (r.device.device_id == d.device_id)) rows
    then none
    else rest

unfoldable pub replace_all :
    Dict (List PeerDeviceInput) → ℕ → List PeerDeviceRow → Option (List PeerDeviceRow)
unfolding delete_account insert_devices
replace_all [] now rows = some rows
replace_all ((id, ds) ∷ more) now rows = elim (insert_devices id now ds (delete_account id rows)) [
  | none ↦ none
  | some rows' ↦ replace_all more now rows'
]

-- The table afterwards, and whether it was done; a failure is rolled back and thrown.
unfoldable pub replace_for_accounts :
    Dict (List PeerDeviceInput) → ℕ → List PeerDeviceRow → List PeerDeviceRow × Bool
unfolding replace_all
replace_for_accounts by_account now rows = elim (replace_all by_account now rows) [
  | none ↦ (rows, false)
  | some rows' ↦ (rows', true)
]

-- `ids` is `none` where the argument is left out.
unfoldable pub clear : Option (List String) → List PeerDeviceRow → List PeerDeviceRow
unfolding member
clear none rows = []
clear (some ids) rows = keep_if (λ r. not (member ids r.account_id)) rows
