-- ===== src/Examples/Threads.antt =====
-- A thread, a page that overlaps it, and a read mark.
use mathlib.Core.Path.{subst}
use mortstack.Prelude.{
  String, ◌≡◌, refl, true, false, ◌&&◌, ◌==◌, none, some, [], ◌∷◌, pos, if◌then◌else◌, eq_iff,
}
use mortstack.Js.BigInt.{big_int}
use mortstack.Store.{Store, Message, idle}
use mortstack.Store.Messages.{BackfillItem, ingest_backfill, received, before_keys, serial_value}
use mortstack.Store.Ingest.{IsMerged, IsUniqueSerials, ingest_backfill_merges}
use mortstack.Store.Marks.{read_mark, advanced_to, set_read_receipt_max}
use mortstack.Store.Presence.{set_read_receipt}

abbrev message : String → Message
message serial = received "c" serial "ann" "hi" 5

abbrev store : Store
store = record {
  chats = [];
  chat_order = "c" ∷ [];
  messages = ("c", message "9" ∷ message "12" ∷ []) ∷ [];
  reactions = [];
  typing = [];
  read_receipts = ("c", ("bob", "9") ∷ []) ∷ [];
  bootstrap_status = idle;
  bootstrap_error = none;
  has_persist_api = true;
  persisted = [];
}

abbrev item : String → BackfillItem
item serial = record { server_msg_id = serial; sender_auth_user_id = "bob"; text = "yo"; ts = 7 }

two_unique : IsUniqueSerials (message "9" ∷ message "12" ∷ [])
two_unique = (((λ k e. subst (λ j. ("12" == j) ≡ false) ((eq_iff "9" k).0 e) refl), tt), (tt, tt))

ingest_backfill_merges_example :
    (t : Store) × (ingest_backfill "c" (item "10" ∷ item "12" ∷ []) store ≡ some t)
    × IsMerged "c" (item "10" ∷ item "12" ∷ []) store t
unfolding big_int before_keys serial_value mortstack.Js.Dict.get
ingest_backfill_merges_example =
    ingest_backfill_merges "c" (item "10" ∷ item "12" ∷ []) store refl refl ((refl, tt), (tt, tt))
      two_unique

set_read_receipt_max_example : read_mark "c" "bob" (set_read_receipt "c" "bob" "10" store) ≡ (
    if ("c" == "c") && ("bob" == "bob")
    then some (advanced_to (read_mark "c" "bob" store) (pos 10))
    else read_mark "c" "bob" store)
unfolding big_int mortstack.Js.Dict.get
set_read_receipt_max_example =
    set_read_receipt_max "c" "bob" "10" (pos 10) store refl "c" "bob" (pos 9, refl)
