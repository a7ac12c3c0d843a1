-- ===== src/Inbox.antt =====
-- services/chat-ws/src/durable/user-inbox.ts: the Durable Object of one user, with the user's
-- sockets. `none` is a handler that throws: what it did until then stands. The decoder of frames is
-- a package's, so it is a parameter; `encodeFrame` is left out, a frame is written as it is.
pub mod Frames
pub mod Devices
pub mod Subscriptions
use mortstack.Prelude.{
  ℕ, String, Bool, true, false, not, ◌==◌, ◌&&◌, ◌||◌, Option, none, some, List, [], ◌∷◌, ◌++◌, map,
  nat_eq, length, all, keep_if, if◌then◌else◌,
}
use mortstack.Js.Unique.{member, add, of_array}
use mortstack.Envelope.{
  ChatErrorCode, ServerToClient, MsgPayload, AckPayload, TypPayload, ReadPayload, ack, msg, hello,
  mls_welcome, typ, read, err,
}
use mortstack.Persist.{Database}
use mortstack.Backfill.{KvAnswer}
use mortstack.Chat.Flush.{SendInput}

pub record SocketAttachment : Type 0 where
  pub user_id : String
  pub device_id : String
  pub conn_id : String

-- A socket: whether it is open, whether a write to it goes through, and its attachment.
pub record Socket : Type 0 where
  pub id : ℕ
  pub is_open : Bool
  pub is_alive : Bool
  pub attachment : Option SocketAttachment

-- A call of a chat's object.
pub data ChatCall : Type 0 where
  attach_inbox detach_inbox : String → String → ChatCall
  accept_send : String → SendInput → ChatCall
  accept_typing : String → String → Bool → ChatCall
  accept_read : String → String → String → ChatCall

-- `subscriptions` is the key of the storage; `answers chat` tells whether a call of that chat's object
-- succeeds; `written` holds the frames that reached a socket, `calls` the calls that were made.
pub record Inbox : Type 0 where
  pub subscriptions : Option (List String)
  pub sockets : List Socket
  pub answers : String → Bool
  pub db : Database
  pub max_cache : Option (String → KvAnswer)
  pub written : List (ℕ × ServerToClient)
  pub calls : List ChatCall
  pub closed : List ℕ

-- `ws.send(…)` with its exception dropped.
abbrev pub write : Socket → List ServerToClient → List (ℕ × ServerToClient)
write ws frames = if ws.is_alive then map (λ frame. (ws.id, frame)) frames else []

abbrev pub send_to : Socket → ServerToClient → Inbox → Inbox
send_to ws frame s = record s { written = s.written ++ write ws (frame ∷ []) }

abbrev pub send_err : Socket → ChatErrorCode → String → Inbox → Inbox
send_err ws code text = send_to ws (err code (some text))

write_all : List Socket → List ServerToClient → List (ℕ × ServerToClient)
write_all [] frames = []
write_all (ws ∷ sockets) frames =
    let rest = write_all sockets frames in if ws.is_open then write ws frames ++ rest else rest

-- Each frame to every open socket, a socket at a time.
unfoldable pub broadcast : List ServerToClient → Inbox → Inbox
unfolding write_all
broadcast frames s = record s { written = s.written ++ write_all s.sockets frames }

unfoldable pub deliver_batch : List MsgPayload → Inbox → Inbox
unfolding broadcast
deliver_batch payloads = broadcast (map msg payloads)

unfoldable pub ack_batch : List AckPayload → Inbox → Inbox
unfolding broadcast
ack_batch payloads = broadcast (map ack payloads)

unfoldable pub deliver_typing : TypPayload → Inbox → Inbox
unfolding broadcast
deliver_typing payload = broadcast (typ payload ∷ [])

unfoldable pub deliver_read : ReadPayload → Inbox → Inbox
unfolding broadcast
deliver_read payload = broadcast (read payload ∷ [])

unfoldable pub notify_mls_welcome : ℕ → Inbox → Inbox
unfolding broadcast
notify_mls_welcome ts = broadcast (mls_welcome ts ∷ [])

unfoldable pub error : ChatErrorCode → Option String → Inbox → Inbox
unfolding broadcast
error code text = broadcast (err code text ∷ [])

-- The device of an open socket; the empty text stands for none.
device_of : Socket → Option String
device_of ws = if not ws.is_open then none else elim ws.attachment [
  | none ↦ none
  | some att ↦ if att.device_id == "" then none else some att.device_id
]

add_devices : List String → List Socket → List String
unfolding device_of
add_devices out [] = out
add_devices out (ws ∷ sockets) =
    add_devices (elim (device_of ws) [ none ↦ out | some device ↦ add device out ]) sockets

unfoldable pub attached_device_ids : Inbox → List String
unfolding add_devices
attached_device_ids s = add_devices [] s.sockets

pub record UpgradeRequest : Type 0 where
  pub upgrade : Option String
  pub user_id : Option String
  pub device_id : Option String

abbrev or_empty : Option String → String
or_empty none = ""
or_empty (some text) = text

-- The HTTP entry point: the status, and the socket that is accepted with its first frame. `id` and
-- `conn_id` are the fresh names that the runtime gives.
unfoldable pub fetch : UpgradeRequest → ℕ → String → ℕ → Inbox → ℕ × Inbox
fetch request id conn_id now s =
    let user = or_empty request.user_id in
    if not (or_empty request.upgrade == "websocket")
    then (426, s)
    else if user == ""
    then (400, s)
    else (
      101,
      record s {
        sockets =
            s.sockets
            ++ record {
              id = id;
              is_open = true;
              is_alive = true;
              attachment = some (record {
                user_id = user;
                device_id = or_empty request.device_id;
                conn_id = conn_id;
              });
            }
              ∷ [];
        written = s.written ++ (id, hello user now) ∷ [];
      },
    )
