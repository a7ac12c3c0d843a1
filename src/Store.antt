-- ===== src/Store.antt =====
-- packages/chat/src/store.ts and types.ts: the client's store of chats, messages, reactions, typing
-- signals and read marks. An action is a function of the store; `now` is the clock that it reads.
pub mod Chats
pub mod Messages
pub mod Reactions
pub mod Presence
pub mod Thread
pub mod Ingest
pub mod Marks
use mortstack.Prelude.{
  ℕ, String, Bool, true, false, Option, none, some, List, [], ◌∷◌, ◌++◌, if◌then◌else◌,
}
use mortstack.Js.Dict.{Dict}

pub data ChatKind : Type 0 where
  direct group : ChatKind

pub record Member : Type 0 where
  pub account_id : String
  pub auth_user_id : String
  pub handle : Option String
  pub display_name : Option String

pub record ChatRecord : Type 0 where
  pub id : String
  pub kind : ChatKind
  pub name : Option String
  pub members : List Member
  pub created_at : String

pub data MessageStatus : Type 0 where
  sending sent failed : MessageStatus

pub record Reaction : Type 0 where
  pub client_msg_id : String
  pub target : String
  pub emoji : String
  pub sender_auth_user_id : String
  pub status : MessageStatus

pub record Message : Type 0 where
  pub id : String
  pub chat_id : String
  pub sender_auth_user_id : String
  pub text : String
  pub status : MessageStatus
  pub client_msg_id : String
  pub server_serial : Option String
  pub created_at : ℕ

pub data BootstrapStatus : Type 0 where
  idle loading ready errored : BootstrapStatus

-- `has_persist_api` tells whether the injected store is there; `persisted` holds what was passed to it.
pub record Store : Type 0 where
  pub chats : Dict ChatRecord
  pub chat_order : List String
  pub messages : Dict (List Message)
  pub reactions : Dict (Dict (List Reaction))
  pub typing : Dict (Dict ℕ)
  pub read_receipts : Dict (Dict String)
  pub bootstrap_status : BootstrapStatus
  pub bootstrap_error : Option String
  pub has_persist_api : Bool
  pub persisted : List Message

abbrev pub fire_persist : Message → Store → Store
fire_persist m s = if s.has_persist_api then record s { persisted = s.persisted ++ m ∷ [] } else s

unfoldable pub reset : Store → Store
reset s = record {
  chats = [];
  chat_order = [];
  messages = [];
  reactions = [];
  typing = [];
  read_receipts = [];
  bootstrap_status = idle;
  bootstrap_error = none;
  has_persist_api = s.has_persist_api;
  persisted = s.persisted;
}

unfoldable pub set_persist_api : Bool → Store → Store
set_persist_api api s = record s { has_persist_api = api }
