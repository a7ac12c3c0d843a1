-- ===== src/Envelope.antt =====
-- packages/chat-transport/src/envelope.ts: the frames between the clients and the Worker.
-- A field whose shape the receiver checks before use is a `Value`; the others have their declared
-- types. Bytes are lists of numbers, times are milliseconds.
use mortstack.Prelude.{ℕ, String, Bool, Option, List}
use mortstack.Js.Value.{Value}

pub data ChatErrorCode : Type 0 where
  auth_failed not_a_member rate_limited persist_failed bad_frame internal : ChatErrorCode

pub record SendFrame : Type 0 where
  pub chat_id : String
  pub client_msg_id : String
  pub ciphertext : Value
  pub nonce : Value
  pub unencrypted : Value

-- `other` is a frame whose `t` is none of the known ones.
pub data ClientToServer : Type 0 where
  sub : List String → ClientToServer
  send : SendFrame → ClientToServer
  typ : String → Bool → ClientToServer
  read : String → String → ClientToServer
  bf : Value → ClientToServer
  ping : ClientToServer
  other : ClientToServer

pub record AckPayload : Type 0 where
  pub client_msg_id : String
  pub server_msg_id : String
  pub ts : ℕ

pub record MsgPayload : Type 0 where
  pub chat_id : String
  pub server_msg_id : String
  pub sender_id : String
  pub ciphertext : List ℕ
  pub nonce : List ℕ
  pub ts : ℕ
  pub unencrypted : Bool

pub record TypPayload : Type 0 where
  pub chat_id : String
  pub user_id : String
  pub is_on : Bool

pub record ReadPayload : Type 0 where
  pub chat_id : String
  pub user_id : String
  pub upto : String

pub record BackfilledMessage : Type 0 where
  pub server_msg_id : String
  pub sender_id : String
  pub ciphertext : List ℕ
  pub nonce : List ℕ
  pub ts : ℕ

pub record BfdFrame : Type 0 where
  pub chat_id : String
  pub messages : List BackfilledMessage
  pub up_to : String
  pub more : Bool

pub data ServerToClient : Type 0 where
  ack : AckPayload → ServerToClient
  msg : MsgPayload → ServerToClient
  hello : String → ℕ → ServerToClient
  mls_welcome : ℕ → ServerToClient
  typ : TypPayload → ServerToClient
  read : ReadPayload → ServerToClient
  bfd : BfdFrame → ServerToClient
  err : ChatErrorCode → Option String → ServerToClient
  pong : ServerToClient
