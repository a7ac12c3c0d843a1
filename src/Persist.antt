-- ===== src/Persist.antt =====
-- packages/db-edge/src/chat-persist.ts: the statements on the tables ChatMessage and ChatMember.
-- A table is the list of its rows, the oldest first. A statement is a function of the tables; what
-- the network makes of it is in the module that calls it.
pub mod Serials
pub mod Watermark
use mortstack.Prelude.{
  ℕ, String, Bool, true, false, ◌&&◌, ◌==◌, Option, none, some, List, [], ◌∷◌, ◌++◌, map, ℤ, pos,
  leb_ℤ, negsuc, ltb_ℤ, int_eq, nat_eq, any, keep_if, take, if◌then◌else◌,
}
use mortstack.Js.Sort.{sort}

pub record PersistMessageInput : Type 0 where
  pub chat_id : String
  pub server_serial : ℤ
  pub sender_id : String
  pub client_msg_id : String
  pub ciphertext : List ℕ
  pub nonce : List ℕ

-- A row of ChatMessage: what was inserted, and the time that the database put on it.
pub record MessageRow : Type 0 where
  pub input : PersistMessageInput
  pub open input use *
  pub created_at : ℕ

-- A row of ChatMember.
pub record MemberRow : Type 0 where
  pub chat_id : String
  pub user_id : String
  pub last_read_serial : Option ℤ

pub record Database : Type 0 where
  pub messages : List MessageRow
  pub members : List MemberRow

-- What an INSERT comes to: a row, nothing (ON CONFLICT DO NOTHING), or an error, which the other
-- unique index, over chat, client message id and time, raises.
pub data Inserted : Type 0 where
  stored conflict refused : Inserted

-- The primary key is (chatId, serverSerial, createdAt).
abbrev pub same_key : PersistMessageInput → ℕ → MessageRow → Bool
same_key row at r =
    (r.chat_id == row.chat_id) && int_eq r.server_serial row.server_serial && nat_eq r.created_at at

-- The unique index is (chatId, clientMsgId, createdAt).
abbrev pub same_client_key : PersistMessageInput → ℕ → MessageRow → Bool
same_client_key row at r =
    (r.chat_id == row.chat_id) && (r.client_msg_id == row.client_msg_id) && nat_eq r.created_at at

unfoldable pub insert_message : PersistMessageInput → ℕ → Database → Inserted × Database
insert_message row at db =
    if any (same_key row at) db.messages
    then (conflict, db)
    else if any (same_client_key row at) db.messages
    then (refused, db)
    else (
      stored,
      record db { messages = db.messages ++ record { input = row; created_at = at } ∷ [] },
    )

abbrev pub in_chat : String → MessageRow → Bool
in_chat chat r = r.chat_id == chat

-- MAX over the column, `none` over no rows
max_of : List MessageRow → Option ℤ
max_of [] = none
max_of (r ∷ rs) = elim (max_of rs) [
  | none ↦ some r.server_serial
  | some m ↦ some (if ltb_ℤ m r.server_serial then r.server_serial else m)
]

unfoldable pub max_serial : String → Database → ℤ
unfolding max_of
max_serial chat db = elim (max_of (keep_if (in_chat chat) db.messages)) [
  | none ↦ pos 0
  | some m ↦ m
]

abbrev pub by_serial : MessageRow → MessageRow → Bool
by_serial a b = ltb_ℤ a.server_serial b.server_serial

abbrev pub is_member : String → String → MemberRow → Bool
is_member chat user m = (m.chat_id == chat) && (m.user_id == user)

-- The rows of the chat past `after`, for a member; ORDER BY "serverSerial" ASC, then LIMIT.
unfoldable pub messages_since : String → String → ℤ → ℕ → Database → List MessageRow
messages_since chat user after limit db =
    if any (is_member chat user) db.members
    then take limit
        (keep_if (λ r. in_chat chat r && ltb_ℤ after r.server_serial) (sort by_serial db.messages))
    else []

unfoldable pub member_ids : String → Database → List String
member_ids chat db = map (λ m. m.user_id) (keep_if (λ m. m.chat_id == chat) db.members)

-- `"lastReadSerial" IS NULL OR "lastReadSerial" < upto`
abbrev pub is_behind : Option ℤ → ℤ → Bool
is_behind none upto = true
is_behind (some old) upto = ltb_ℤ old upto

advance : String → String → ℤ → MemberRow → MemberRow
advance chat user upto m =
    if is_member chat user m && is_behind m.last_read_serial upto
    then record m { last_read_serial = some upto }
    else m

-- The values of a BIGINT.
unfoldable pub is_int64 : ℤ → Bool
is_int64 n = leb_ℤ (negsuc 9223372036854775807) n && leb_ℤ n (pos 9223372036854775807)

-- `false` is an error, which the database raises on a serial beyond 64 bits.
unfoldable pub update_last_read_serial : String → String → ℤ → Database → Bool × Database
unfolding advance is_int64
update_last_read_serial chat user upto db =
    if is_int64 upto
    then (true, record db { members = map (advance chat user upto) db.members })
    else (false, db)
