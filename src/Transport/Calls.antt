-- ===== src/Transport/Calls.antt =====
-- packages/chat-transport/src/client.ts: what the owner of the connection calls.
use mortstack.Prelude.{
  ℕ, zero, suc, ◌==◌, String, Bool, true, false, ◌&&◌, ◌||◌, Option, none, some, List, [], ◌∷◌,
  ◌++◌, ℤ, length, if◌then◌else◌,
}
use mortstack.Js.Dict.{get, put}
use mortstack.Js.Unique.{member, add}
use mortstack.Js.Value.{Value, undefined, bytes}
use mortstack.Envelope.{SendFrame, send, typ, read, bf}
use mortstack.Transport.{
  connecting, opened, closing, closed, ReadyState, opening, ending, Options, PendingSend, SendInput,
  Transport,
}
use mortstack.Transport.Socket.{
  is_same, set_state, clear_timers, schedule_reconnect, send_frame, send_subscriptions,
}

-- the part of `connect` before it waits for the token; the flag tells whether it goes on
unfoldable pub connect : Transport → Transport × Bool
unfolding set_state is_same
connect t =
    if is_same t.state opened || is_same t.state connecting
    then (t, false)
    else (set_state connecting (record t { is_explicitly_closed = false }), true)

-- The rest of `connect`: the token that `getToken` gave, and whether `new WebSocket` throws.
unfoldable pub connect_with : Options → Option String → Bool → Bool → ℤ → Transport → Transport
unfolding set_state schedule_reconnect
connect_with o none throws is_online jitter t = set_state closed t
connect_with o (some token) throws is_online jitter t =
    if token == ""
    then set_state closed t
    else if throws
    then schedule_reconnect o is_online jitter t
    else record t { socket = some (length t.sockets); sockets = t.sockets ++ opening ∷ [] }

unfoldable pub set_ready_state : ℕ → ReadyState → List ReadyState → List ReadyState
set_ready_state i r [] = []
set_ready_state zero r (s ∷ ss) = r ∷ ss
set_ready_state (suc i) r (s ∷ ss) = s ∷ set_ready_state i r ss

-- `ws?.close()`
unfoldable pub end_socket : Transport → Transport
unfolding set_ready_state
end_socket t = elim t.socket [
  | none ↦ t
  | some i ↦ record t { sockets = set_ready_state i ending t.sockets }
]

unfoldable pub close : Transport → Transport
unfolding clear_timers set_state end_socket
close t =
    let t1 =
      end_socket (set_state closing (clear_timers (record t { is_explicitly_closed = true }))) in
    set_state closed (record t1 { socket = none })

-- the loop of `subscribe`: the set, and whether it changed
unfoldable pub add_ids : List String → List String × Bool → List String × Bool
unfolding member add
add_ids [] s = s
add_ids (id ∷ ids) (set, changed) =
    if member set id then add_ids ids (set, changed) else add_ids ids (add id set, true)

unfoldable pub subscribe : List String → Transport → Transport
unfolding add_ids is_same send_subscriptions
subscribe ids t =
    let (set, changed) = add_ids ids (t.subscriptions, false) in
    let t1 = record t { subscriptions = set } in
    if changed && is_same t.state opened then send_subscriptions t1 else t1

unfoldable pub frame_of : SendInput → String → SendFrame
frame_of input id = record {
  chat_id = input.chat_id;
  client_msg_id = id;
  ciphertext = bytes input.ciphertext;
  nonce = bytes input.nonce;
  unencrypted = undefined;
}

-- `input.clientMsgId ?? nanoid(21)`
unfoldable pub id_of : SendInput → String → String
id_of input fresh = elim input.client_msg_id [ none ↦ fresh | some id ↦ id ]

-- the entry that the `k`-th call of `send` makes, at the time `now`
unfoldable pub new_entry : SendInput → String → ℕ → ℕ → PendingSend
unfolding frame_of
new_entry input id k now = record {
  client_msg_id = id;
  payload = frame_of input id;
  promises = k ∷ [];
  enqueued_at = now;
}

-- `existing.resolve` and `existing.reject`, with one more promise behind
unfoldable pub attach_promise : ℕ → PendingSend → PendingSend
attach_promise k p = record p { promises = p.promises ++ k ∷ [] }

unfoldable pub keep_pending : String → PendingSend → Transport → Transport
keep_pending id p t = record t { pending = put id p t.pending; next = suc t.next }

-- `fresh` is what `nanoid` gives, `now` the clock.
unfoldable pub send_message : SendInput → String → ℕ → Transport → Transport
unfolding id_of send_frame keep_pending attach_promise new_entry
send_message input fresh now t =
    let id = id_of input fresh in
    elim (get t.pending id) [
      | some p ↦ send_frame (send p.payload) (keep_pending id (attach_promise t.next p) t)
      | none ↦
          let p : PendingSend = new_entry input id t.next now in
          send_frame (send p.payload) (keep_pending id p t)
    ]

unfoldable pub send_typing : String → Bool → Transport → Transport
unfolding send_frame
send_typing chat_id is_on = send_frame (typ chat_id is_on)

unfoldable pub send_read : String → String → Transport → Transport
unfolding send_frame
send_read chat_id upto = send_frame (read chat_id upto)

-- `chats` is the array as the codec takes it, `count` its length.
unfoldable pub send_backfill : ℕ → Value → Transport → Transport
unfolding send_frame
send_backfill zero chats t = t
send_backfill (suc count) chats t = send_frame (bf chats) t
