-- ===== src/Store/Messages.antt =====
-- The messages of a chat, the oldest first (store.ts: addIncomingMessage to
-- removeMessageByClientMsgId, compareBySerial, hydrateMessages, ingestBackfill).
use mortstack.Prelude.{
  ℕ, String, Bool, true, false, not, ◌==◌, ◌&&◌, Option, none, some, List, [], ◌∷◌, ◌++◌, map, ℤ,
  pos, ltb, leb, ltb_ℤ, nat_eq, length, any, all, keep_if, if◌then◌else◌,
}
use mortstack.Js.Dict.{get, get_or, put}
use mortstack.Js.Unique.{member, add, of_array}
use mortstack.Js.Sort.{sort}
use mortstack.Js.BigInt.{big_int}
use mortstack.Store.{Store, Message, MessageStatus, sending, sent, failed, fire_persist}

abbrev pub has_serial : String → Message → Bool
has_serial serial m = elim m.server_serial [ none ↦ false | some s ↦ s == serial ]

abbrev pub has_client_id : String → Message → Bool
has_client_id client m = m.client_msg_id == client

unfoldable pub bump : String → List String → List String
bump chat order = if member order chat then chat ∷ keep_if (λ id. not (id == chat)) order else order

-- A message that came from the server, live or in a page.
abbrev pub received : String → String → String → String → ℕ → Message
received chat serial sender text ts = record {
  id = serial;
  chat_id = chat;
  sender_auth_user_id = sender;
  text = text;
  status = sent;
  client_msg_id = serial;
  server_serial = some serial;
  created_at = ts;
}

unfoldable pub add_incoming_message : String → String → String → String → ℕ → Store → Store
unfolding bump
add_incoming_message chat serial sender text ts s =
    let list = get_or s.messages chat [] in
    let m = received chat serial sender text ts in
    if any (has_serial serial) list
    then s
    else fire_persist m (record s {
      messages = put chat (list ++ m ∷ []) s.messages;
      chat_order = bump chat s.chat_order;
    })

unfoldable pub add_optimistic_message : String → String → String → String → ℕ → Store → Store
unfolding bump
add_optimistic_message chat client sender text now s =
    let list = get_or s.messages chat [] in
    if any (has_client_id client) list then s else record s {
      messages =
          put chat
            (list
              ++ record {
                id = client;
                chat_id = chat;
                sender_auth_user_id = sender;
                text = text;
                status = sending;
                client_msg_id = client;
                server_serial = none;
                created_at = now;
              }
                ∷ [])
            s.messages;
      chat_order = bump chat s.chat_order;
    }

unfoldable pub find_first : String → List Message → Option Message
find_first client [] = none
find_first client (m ∷ list) = if has_client_id client m then some m else find_first client list

unfoldable pub replace_first : String → Message → List Message → List Message
replace_first client updated [] = []
replace_first client updated (m ∷ list) =
    let rest = replace_first client updated list in
    if has_client_id client m then updated ∷ list else m ∷ rest

-- `change` gives the updated message, or nothing where the action returns early.
update_message : String → String → (Message → Option Message) → Store → Store
unfolding find_first replace_first
update_message chat client change s = elim (get s.messages chat) [
  | none ↦ s
  | some list ↦ elim (find_first client list) [
    | none ↦ s
    | some existing ↦ elim (change existing) [
      | none ↦ s
      | some updated ↦
          fire_persist updated
            (record s { messages = put chat (replace_first client updated list) s.messages })
    ]
  ]
]

unfoldable pub confirm_optimistic_message : String → String → String → ℕ → Store → Store
unfolding update_message
confirm_optimistic_message chat client serial ts = update_message chat client (λ m.
    some (record m { id = serial; status = sent; server_serial = some serial; created_at = ts }))

abbrev to_failed : Message → MessageStatus → Option Message
to_failed m sent = none
to_failed m _ = some (record m { status = failed })

abbrev to_sending : Message → MessageStatus → Option Message
to_sending m failed = some (record m { status = sending })
to_sending m _ = none

unfoldable pub fail_optimistic_message : String → String → Store → Store
unfolding update_message
fail_optimistic_message chat client = update_message chat client (λ m. to_failed m m.status)

unfoldable pub retry_optimistic_message : String → String → Store → Store
unfolding update_message
retry_optimistic_message chat client = update_message chat client (λ m. to_sending m m.status)

unfoldable pub remove_message_by_client_msg_id : String → String → Store → Store
remove_message_by_client_msg_id chat client s = elim (get s.messages chat) [
  | none ↦ s
  | some list ↦
      let filtered = keep_if (λ m. not (has_client_id client m)) list in
      if nat_eq (length filtered) (length list)
      then s
      else record s { messages = put chat filtered s.messages }
]

-- `compareBySerial(a, b) < 0`, on serials that `BigInt` reads.
unfoldable pub serial_value : String → ℤ
serial_value serial = elim (big_int serial) [ none ↦ pos 0 | some n ↦ n ]

unfoldable pub before_keys : Option String → ℕ → Option String → ℕ → Bool
unfolding serial_value
before_keys (some sa) ta (some sb) tb = ltb_ℤ (serial_value sa) (serial_value sb)
before_keys (some sa) ta none tb = true
before_keys none ta (some sb) tb = false
before_keys none ta none tb = ltb ta tb

abbrev pub before_by_serial : Message → Message → Bool
before_by_serial a b = before_keys a.server_serial a.created_at b.server_serial b.created_at

abbrev pub is_serialled : Message → Bool
is_serialled m = elim m.server_serial [ none ↦ false | some serial ↦ true ]

abbrev pub is_readable : Message → Bool
is_readable m = elim m.server_serial [
  | none ↦ true
  | some serial ↦ elim (big_int serial) [ none ↦ false | some n ↦ true ]
]

-- Whether the sort throws: two messages have serials, so that each of those is in some comparison, and
-- `BigInt` does not read one of them.
unfoldable pub sort_throws : List Message → Bool
sort_throws list = leb 2 (length (keep_if is_serialled list)) && not (all is_readable list)

abbrev before_by_time : Message → Message → Bool
before_by_time a b = ltb a.created_at b.created_at

place_hydrated : String → List Message → List Message → Store → Store
place_hydrated chat existing [] s = s
place_hydrated chat existing (m ∷ more) s = record s {
  messages = put chat (sort before_by_time (existing ++ m ∷ more)) s.messages;
}

unfoldable pub hydrate_messages : String → List Message → Store → Store
unfolding place_hydrated
hydrate_messages chat persisted s =
    let existing = get_or s.messages chat [] in
    let seen = of_array (map (λ m. m.id) existing) in
    place_hydrated chat existing (keep_if (λ m. not (member seen m.id)) persisted) s

pub record BackfillItem : Type 0 where
  pub server_msg_id : String
  pub sender_auth_user_id : String
  pub text : String
  pub ts : ℕ

unfoldable pub serials_of : List Message → List String
serials_of [] = []
serials_of (m ∷ list) =
    let rest = serials_of list in elim m.server_serial [ none ↦ rest | some serial ↦ serial ∷ rest ]

-- The loop over the page, with the set of the serials seen.
unfoldable pub additions_of : String → List String → List BackfillItem → List Message
additions_of chat seen [] = []
additions_of chat seen (m ∷ msgs) =
    let skipped = additions_of chat seen msgs in
    let later = additions_of chat (add m.server_msg_id seen) msgs in
    if member seen m.server_msg_id
    then skipped
    else received chat m.server_msg_id m.sender_auth_user_id m.text m.ts ∷ later

unfoldable pub persist_all : List Message → Store → Store
persist_all [] s = s
persist_all (m ∷ msgs) s = persist_all msgs (fire_persist m s)

unfoldable pub merge : String → List Message → List Message → Store → Option Store
unfolding persist_all sort_throws before_keys
merge chat existing [] s = some s
merge chat existing (m ∷ msgs) s =
    let list = existing ++ m ∷ msgs in
    if sort_throws list
    then none
    else some (
        persist_all (m ∷ msgs)
          (record s { messages = put chat (sort before_by_serial list) s.messages }))

-- `none` is the exception of the sort.
unfoldable pub ingest_backfill : String → List BackfillItem → Store → Option Store
unfolding additions_of serials_of merge
ingest_backfill chat msgs s =
    let existing = get_or s.messages chat [] in
    merge chat existing (additions_of chat (of_array (serials_of existing)) msgs) s
