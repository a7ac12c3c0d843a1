-- ===== src/LocalDb/Messages.antt =====
-- packages/chat-db/src/messages-store.ts: the messages that a cold start shows.
use mortstack.Prelude.{
  ℕ, String, Bool, true, false, ◌==◌, ◌&&◌, Option, none, some, List, [], ◌∷◌, map, take, ltb,
  keep_if, if◌then◌else◌,
}
use mortstack.Js.Sort.{sort}

pub data Status : Type 0 where
  sending sent failed : Status

pub record PersistedMessage : Type 0 where
  pub id : String
  pub chat_id : String
  pub sender_auth_user_id : String
  pub text : String
  pub status : Status
  pub client_msg_id : String
  pub server_serial : Option String
  pub created_at : ℕ

pub record MessageRow : Type 0 where
  pub id : String
  pub chat_id : String
  pub sender_id : String
  pub sent_at : ℕ
  pub received_at : Option ℕ
  pub status : String
  pub plaintext : Option String
  pub client_msg_id : Option String

unfoldable pub map_status : Status → String
map_status sending = "pending"
map_status failed = "failed"
map_status sent = "sent"

unfoldable pub unmap_status : String → Status
unmap_status s = if s == "pending" then sending else if s == "failed" then failed else sent

received : Status → ℕ → Option ℕ
received sent at = some at
received _ at = none

unfoldable pub row_of : PersistedMessage → MessageRow
unfolding map_status received
row_of m = record {
  id = m.id;
  chat_id = m.chat_id;
  sender_id = m.sender_auth_user_id;
  sent_at = m.created_at;
  received_at = received m.status m.created_at;
  status = map_status m.status;
  plaintext = some m.text;
  client_msg_id = some m.client_msg_id;
}

-- `ON CONFLICT(id)`: the row keeps its chat.
unfoldable pub persist_message : PersistedMessage → List MessageRow → List MessageRow
unfolding row_of
persist_message m [] = row_of m ∷ []
persist_message m (r ∷ rows) =
    if r.id == m.id
    then record (row_of m) { chat_id = r.chat_id } ∷ rows
    else r ∷ persist_message m rows

has_plaintext : Option String → Bool
has_plaintext none = false
has_plaintext (some t) = true

text_of : Option String → String → String
text_of none d = d
text_of (some t) d = t

unfoldable pub message_of : MessageRow → PersistedMessage
unfolding unmap_status text_of
message_of r = record {
  id = r.id;
  chat_id = r.chat_id;
  sender_auth_user_id = r.sender_id;
  text = text_of r.plaintext "";
  status = unmap_status r.status;
  client_msg_id = text_of r.client_msg_id r.id;
  server_serial = if r.status == "sent" then some r.id else none;
  created_at = r.sent_at;
}

unfoldable pub load_messages_for_chat : String → ℕ → List MessageRow → List PersistedMessage
unfolding message_of has_plaintext
load_messages_for_chat chat_id limit rows = map message_of (
    take limit (
      sort (λ a b. ltb a.sent_at b.sent_at)
        (keep_if (λ r. (r.chat_id == chat_id) && has_plaintext r.plaintext) rows)))
