-- ===== src/Transport.antt =====
-- packages/chat-transport/src/client.ts: the client's connection. What the functions of one
-- `createChatTransport` share is a record. A socket is a number, the place of its ready state in
-- `sockets`; what is written to a socket and what the handlers and promises get is logged.
pub mod Socket
pub mod Calls
pub mod Events
pub mod Same
pub mod Waiting
pub mod Promises
pub mod Replay
pub mod Closing
use mortstack.Prelude.{ℕ, String, Bool, false, Option, none, List, []}
use mortstack.Js.Dict.{Dict}
use mortstack.Envelope.{ClientToServer, SendFrame, ServerToClient}

pub data ConnectionState : Type 0 where
  idle connecting opened reconnecting closing closed : ConnectionState

-- `WebSocket.readyState`, 0 to 3
pub data ReadyState : Type 0 where
  opening ready ending ended : ReadyState

pub record Options : Type 0 where
  pub reconnect_base_ms : ℕ
  pub reconnect_max_ms : ℕ

pub record SendInput : Type 0 where
  pub chat_id : String
  pub ciphertext : List ℕ
  pub nonce : List ℕ
  pub client_msg_id : Option String

pub record SendResult : Type 0 where
  pub server_msg_id : String
  pub ts : ℕ

-- `promises` are the calls of `send` whose resolvers `resolve` calls, in that order.
pub record PendingSend : Type 0 where
  pub client_msg_id : String
  pub payload : SendFrame
  pub promises : List ℕ
  pub enqueued_at : ℕ

-- `next` counts the calls of `send`; `reconnect_timer` is the delay of the timer that runs.
pub record Transport : Type 0 where
  pub socket : Option ℕ
  pub sockets : List ReadyState
  pub state : ConnectionState
  pub attempt : ℕ
  pub reconnect_timer : Option ℕ
  pub is_beating : Bool
  pub is_explicitly_closed : Bool
  pub subscriptions : List String
  pub pending : Dict PendingSend
  pub next : ℕ
  pub sent : List (ℕ × ClientToServer)
  pub settled : List (ℕ × SendResult)
  pub states : List ConnectionState
  pub handled : List ServerToClient
