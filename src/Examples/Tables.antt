-- ===== src/Examples/Tables.antt =====
-- A local database that is upgraded, whose devices are replaced, and that shows old messages.
use mortstack.Prelude.{ℕ, String, ◌≡◌, refl, true, false, Option, some, List, [], ◌∷◌, arith}
use mortstack.Js.Dict.{Dict, get}
use mortstack.Js.Sort.{sort}
use mortstack.LocalDb.Migrations.{Migration, latest_version, apply_all, run_migrations}
use mortstack.LocalDb.Upgrade.{run_migrations_in_steps}
use mortstack.LocalDb.PeerKeys.{
  PeerDeviceInput, PeerDeviceRow, replace_for_accounts, get_stale_account_ids,
}
use mortstack.LocalDb.Replace.{device_row, rows_for, expected, replace_for_accounts_follows}
use mortstack.LocalDb.Messages.{
  PersistedMessage, sent, persist_message, load_messages_for_chat, row_of, message_of,
}

-- a database that keeps the statements that it ran
abbrev exec : List String → String → Option (List String)
exec s q = some (q ∷ s)

abbrev first_migration : Migration
first_migration = record { version = 1; up = "CREATE TABLE chats" ∷ [] }

abbrev second_migration : Migration
second_migration = record { version = 2; up = "DELETE FROM backfill_cursors" ∷ [] }

run_migrations_in_steps_example :
    ((run_migrations exec
        (first_migration ∷ second_migration ∷ [])
        (run_migrations exec (first_migration ∷ []) (0, [])).1).1
      ≡ (run_migrations exec (first_migration ∷ second_migration ∷ []) (0, [])).1)
    × (run_migrations exec
          (first_migration ∷ second_migration ∷ [])
          (run_migrations exec (first_migration ∷ second_migration ∷ []) (0, [])).1
        ≡ (
          some (record {
            from = latest_version (first_migration ∷ second_migration ∷ []);
            to = latest_version (first_migration ∷ second_migration ∷ []);
            applied = 0;
          }),
          (run_migrations exec (first_migration ∷ second_migration ∷ []) (0, [])).1,
        ))
unfolding latest_version apply_all
run_migrations_in_steps_example =
    run_migrations_in_steps exec first_migration second_migration [] [] []
      (2, "DELETE FROM backfill_cursors" ∷ "CREATE TABLE chats" ∷ []) (omega arith, tt)
      (omega arith, tt) (omega arith, tt) refl

abbrev device : PeerDeviceInput
device = record { device_id = "d"; ed25519_pub = []; x25519_pub = []; server_updated_at = 1 }

abbrev update : Dict (List PeerDeviceInput)
update = ("a", device ∷ []) ∷ ("b", []) ∷ []

abbrev cached : List PeerDeviceRow
cached = device_row "b" 1 device ∷ device_row "c" 1 device ∷ []

replace_for_accounts_follows_example :
    ((replace_for_accounts update 9 cached).1 ≡ true
      → rows_for "b" (replace_for_accounts update 9 cached).0
        ≡ expected (get update "b") "b" 9 cached)
    × ((replace_for_accounts update 9 cached).1 ≡ false
        → (replace_for_accounts update 9 cached).0 ≡ cached)
replace_for_accounts_follows_example =
    replace_for_accounts_follows update 9 cached "b" ((refl, tt), (tt, tt))

-- the account without devices stays stale
still_stale :
    get_stale_account_ids ("a" ∷ "b" ∷ []) 9 (replace_for_accounts update 9 cached).0 ≡ "b" ∷ []
unfolding get_stale_account_ids replace_for_accounts
still_stale = refl

abbrev message : String → ℕ → PersistedMessage
message id at = record {
  id = id;
  chat_id = "c";
  sender_auth_user_id = "u";
  text = id;
  status = sent;
  client_msg_id = id;
  server_serial = some id;
  created_at = at;
}

-- With more messages than the limit, the newest first_migration is left out.
oldest_first :
    load_messages_for_chat "c" 2 (
      persist_message
        (message "3" 3)
        (persist_message (message "2" 2) (persist_message (message "1" 1) [])))
    ≡ message "1" 1 ∷ message "2" 2 ∷ []
unfolding load_messages_for_chat persist_message row_of message_of sort
oldest_first = refl
