-- ===== src/Inbox/Frames.antt =====
-- What a client's frame makes an inbox do (user-inbox.ts: webSocketMessage, handleSubscribe,
-- handleSend, handleTyping, handleRead, handleBackfill).
use mathlib.Core.Option
use mortstack.Prelude.{
  ℕ, String, Bool, not, ◌==◌, ◌||◌, Option, none, some, List, [], ◌∷◌, ◌++◌, map, all, keep_if,
  if◌then◌else◌,
}
use mortstack.Js.Unique.{member, of_array}
use mortstack.Envelope.{
  ClientToServer, sub, send, typ, read, bf, ping, other, SendFrame, bfd, BfdFrame, pong, bad_frame,
  persist_failed,
}
use mortstack.Validators.{
  valid, invalid, validate_send_frame, validate_backfill_frame, requests_of, BackfillRequest,
  is_true, as_bytes,
}
use mortstack.Js.Value.{Value}
use mortstack.Backfill.{resolve_backfill_page, neon_deps}
use mortstack.Chat.Flush.{SendInput}
use mortstack.Inbox.{
  Inbox, Socket, ChatCall, attach_inbox, detach_inbox, accept_send, accept_typing, accept_read,
  send_err, send_to, write,
}

abbrev pub subscribed : Inbox → List String
subscribed s = elim s.subscriptions [ none ↦ [] | some chats ↦ chats ]

-- The calls of one `Promise.all`: all are made, and one that fails fails the whole.
abbrev pub call_all : List ChatCall → List String → Inbox → Bool × Inbox
call_all calls chats s = (all s.answers chats, record s { calls = s.calls ++ calls })

unfoldable pub handle_subscribe : String → List String → Inbox → Option (Unit {0}) × Inbox
handle_subscribe user chats s =
    let current = subscribed s in
    let current_set = of_array current in
    let desired_set = of_array chats in
    let added = keep_if (λ id. not (member current_set id)) chats in
    let removed = keep_if (λ id. not (member desired_set id)) current in
    let (attached, t) = call_all (map (λ chat. attach_inbox chat user) added) added s in
    let (detached, u) = call_all (map (λ chat. detach_inbox chat user) removed) removed t in
    if not attached
    then (none, t)
    else if not detached
    then (none, u)
    else (some tt, record u { subscriptions = some desired_set })

abbrev pub send_input : String → SendFrame → SendInput
send_input user f = record {
  sender_id = user;
  client_msg_id = f.client_msg_id;
  ciphertext = as_bytes f.ciphertext;
  nonce = as_bytes f.nonce;
  unencrypted = is_true f.unencrypted;
}

abbrev pub call : ChatCall → Inbox → Inbox
call c s = record s { calls = s.calls ++ c ∷ [] }

unfoldable pub handle_send : Socket → String → SendFrame → Inbox → Inbox
handle_send ws user f s = elim (validate_send_frame f) [
  | invalid reason ↦ send_err ws bad_frame reason s
  | valid ↦
      let t = call (accept_send f.chat_id (send_input user f)) s in
      if s.answers f.chat_id then t else send_err ws persist_failed "send rejected" t
]

-- A call that fails makes the handler throw.
abbrev awaited : String → Inbox → Option (Unit {0}) × Inbox
awaited chat s = if s.answers chat then (some tt, s) else (none, s)

unfoldable pub handle_typing : String → String → Bool → Inbox → Option (Unit {0}) × Inbox
handle_typing user chat on s =
    if chat == "" then (some tt, s) else awaited chat (call (accept_typing chat user on) s)

unfoldable pub handle_read : String → String → String → Inbox → Option (Unit {0}) × Inbox
handle_read user chat upto s =
    if chat == "" || upto == ""
    then (some tt, s)
    else awaited chat (call (accept_read chat user upto) s)

unfoldable pub backfill_chat : String → Inbox → BackfillRequest → Option BfdFrame
backfill_chat user s c =
    Option.map (λ page. page.frame) (resolve_backfill_page (neon_deps s.max_cache s.db) user c)

-- `Promise.all` over the chats: the frames in the order of the request, or the failure of one.
unfoldable pub backfill_all : String → Inbox → List BackfillRequest → Option (List BfdFrame)
unfolding backfill_chat
backfill_all user s [] = some []
backfill_all user s (c ∷ chats) =
    let rest = backfill_all user s chats in
    elim (backfill_chat user s c) [
      | none ↦ none
      | some frame ↦ Option.map (λ frames. frame ∷ frames) rest
    ]

unfoldable pub handle_backfill : Socket → String → Value → Inbox → Option (Unit {0}) × Inbox
unfolding backfill_all
handle_backfill ws user chats s = elim (validate_backfill_frame chats) [
  | invalid reason ↦ (some tt, send_err ws bad_frame reason s)
  | valid ↦ elim (backfill_all user s (requests_of chats)) [
    | none ↦ (none, s)
    | some frames ↦ (some tt, record s { written = s.written ++ write ws (map bfd frames) })
  ]
]

unfoldable pub handle_frame : Socket → String → ClientToServer → Inbox → Option (Unit {0}) × Inbox
unfolding handle_subscribe handle_send handle_typing handle_read handle_backfill
handle_frame ws user (sub chats) s = handle_subscribe user chats s
handle_frame ws user (send f) s = (some tt, handle_send ws user f s)
handle_frame ws user (typ chat on) s = handle_typing user chat on s
handle_frame ws user (read chat upto) s = handle_read user chat upto s
handle_frame ws user (bf chats) s = handle_backfill ws user chats s
handle_frame ws user ping s = (if ws.is_alive then some tt else none, send_to ws pong s)
handle_frame ws user other s = (some tt, s)

pub data Message : Type 0 where
  text : String → Message
  binary : List ℕ → Message

unfoldable pub web_socket_message :
    (List ℕ → Option ClientToServer) → Socket → Message → Inbox → Option (Unit {0}) × Inbox
unfolding handle_frame
web_socket_message decode ws (text message) s =
    (some tt, send_err ws bad_frame "text frames not supported" s)
web_socket_message decode ws (binary message) s = elim ws.attachment [
  | none ↦ (some tt, record s { closed = s.closed ++ ws.id ∷ [] })
  | some att ↦ elim (decode message) [
    | none ↦ (some tt, send_err ws bad_frame "msgpack decode failed" s)
    | some frame ↦ handle_frame ws att.user_id frame s
  ]
]
