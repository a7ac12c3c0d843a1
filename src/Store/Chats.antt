-- ===== src/Store/Chats.antt =====
-- The list of chats (store.ts: bootstrap, refresh, upsertChat, removeChat).
use mortstack.Prelude.{
  String, not, ◌==◌, Option, none, some, List, [], ◌∷◌, ◌++◌, map, keep_if, if◌then◌else◌,
}
use mortstack.Js.Dict.{Dict, put, remove}
use mortstack.Js.Unique.{member, of_array}
use mortstack.Store.{Store, ChatRecord, idle, loading, ready, errored}

-- What the injected `chatList` comes to.
pub data ChatList : Type 0 where
  listed : List ChatRecord → ChatList
  rejected : String → ChatList

abbrev put_all : List ChatRecord → Dict ChatRecord → Dict ChatRecord
put_all [] m = m
put_all (c ∷ chats) m = put_all chats (put c.id c m)

abbrev chat_ids : List ChatRecord → List String
chat_ids = map (λ c. c.id)

-- Up to the call: `none` where there is nothing to do.
unfoldable pub bootstrap_begin : Store → Option Store
bootstrap_begin s =
    let started = some (record s { bootstrap_status = loading; bootstrap_error = none }) in
    elim s.bootstrap_status [ loading ↦ none | ready ↦ none | idle ↦ started | errored ↦ started ]

unfoldable pub bootstrap_end : ChatList → Store → Store
bootstrap_end (listed chats) s = record s {
  chats = put_all chats [];
  chat_order = chat_ids chats;
  bootstrap_status = ready;
}
bootstrap_end (rejected text) s = record s {
  bootstrap_status = errored;
  bootstrap_error = some text;
}

unfoldable pub refresh : ChatList → Store → Store
refresh (listed chats) s = record s {
  chats = put_all chats s.chats;
  chat_order =
      s.chat_order ++ keep_if (λ id. not (member (of_array s.chat_order) id)) (chat_ids chats);
  bootstrap_status = ready;
  bootstrap_error = none;
}
refresh (rejected text) s = s

unfoldable pub upsert_chat : ChatRecord → Store → Store
upsert_chat chat s = record s {
  chats = put chat.id chat s.chats;
  chat_order = if member s.chat_order chat.id then s.chat_order else chat.id ∷ s.chat_order;
}

unfoldable pub remove_chat : String → Store → Store
remove_chat chat s = record s {
  chats = remove chat s.chats;
  chat_order = keep_if (λ id. not (id == chat)) s.chat_order;
  messages = remove chat s.messages;
  reactions = remove chat s.reactions;
  typing = remove chat s.typing;
  read_receipts = remove chat s.read_receipts;
}
