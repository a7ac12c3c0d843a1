-- ===== src/Transport/Events.antt =====
-- packages/chat-transport/src/client.ts: what the socket and the timers call, and the steps of the
-- connection.
use mortstack.Prelude.{
  ℕ, String, Bool, false, Option, none, some, List, [], ◌∷◌, ◌++◌, map, ℤ, if◌then◌else◌,
}
use mortstack.Js.Dict.{get, remove}
use mortstack.Js.Value.{Value}
use mortstack.Envelope.{
  ping, AckPayload, ServerToClient, ack, msg, hello, mls_welcome, typ, read, bfd, err, pong,
}
use mortstack.Transport.{
  ConnectionState, opened, closed, ready, ended, Options, PendingSend, SendInput, SendResult,
  Transport,
}
use mortstack.Transport.Socket.{
  set_state, clear_timers, schedule_reconnect, start_heartbeat, send_frame, flush_on_connect,
}
use mortstack.Transport.Calls.{
  connect, connect_with, set_ready_state, close, subscribe, send_message, send_typing, send_read,
  send_backfill,
}

unfoldable pub settle : AckPayload → PendingSend → List (ℕ × SendResult)
settle a p = map (λ k. (k, record { server_msg_id = a.server_msg_id; ts = a.ts })) p.promises

unfoldable pub handle_ack : AckPayload → Transport → Transport
unfolding settle
handle_ack a t = elim (get t.pending a.client_msg_id) [
  | none ↦ t
  | some p ↦ record t {
    pending = remove a.client_msg_id t.pending;
    settled = t.settled ++ settle a p;
  }
]

-- the handlers of a kind of frame get it
unfoldable pub hand_on : ServerToClient → Transport → Transport
hand_on env t = record t { handled = t.handled ++ env ∷ [] }

unfoldable pub handle_frame : ServerToClient → Transport → Transport
unfolding handle_ack hand_on flush_on_connect
handle_frame (hello user ts) t = flush_on_connect (record t { attempt = 0 })
handle_frame (ack a) t = handle_ack a t
handle_frame pong t = t
handle_frame (msg m) t = hand_on (msg m) t
handle_frame (typ m) t = hand_on (typ m) t
handle_frame (read m) t = hand_on (read m) t
handle_frame (bfd m) t = hand_on (bfd m) t
handle_frame (mls_welcome n) t = hand_on (mls_welcome n) t
handle_frame (err c m) t = hand_on (err c m) t

-- `ws.onopen` of the socket `i`
unfoldable pub on_open : ℕ → Transport → Transport
unfolding set_state start_heartbeat set_ready_state
on_open i t =
    start_heartbeat (set_state opened (record t { sockets = set_ready_state i ready t.sockets }))

-- `ws.onmessage`: the frame that the codec gives, or `none` where it throws
unfoldable pub on_message : Option ServerToClient → Transport → Transport
unfolding handle_frame
on_message none t = t
on_message (some env) t = handle_frame env t

-- `ws.onclose` of the socket `i`, which need not be the one in `ws`
unfoldable pub on_close : Options → Bool → ℤ → ℕ → Transport → Transport
unfolding clear_timers set_state schedule_reconnect set_ready_state
on_close o is_online jitter i t =
    let t1 = record (clear_timers (record t { sockets = set_ready_state i ended t.sockets })) {
      socket = none;
    } in
    if t1.is_explicitly_closed
    then set_state closed t1
    else schedule_reconnect o is_online jitter t1

-- the timer of `startHeartbeat`
unfoldable pub beat : Transport → Transport
unfolding send_frame
beat t = send_frame ping t

pub data Event : Type 0 where
  connects : Event
  token_comes : Option String → Bool → Bool → ℤ → Event
  timer_fires : Event
  opens : ℕ → Event
  receives : Option ServerToClient → Event
  drops : Bool → ℤ → ℕ → Event
  beats : Event
  closes : Event
  subscribes : List String → Event
  sends : SendInput → String → ℕ → Event
  types : String → Bool → Event
  reads : String → String → Event
  pages : ℕ → Value → Event

unfoldable pub step : Options → Event → Transport → Transport
unfolding connect connect_with close subscribe send_message send_typing send_read send_backfill
    on_open on_message on_close beat
step o connects t = (connect t).0
step o (token_comes token throws is_online jitter) t =
    connect_with o token throws is_online jitter t
step o timer_fires t = (connect t).0
step o (opens i) t = on_open i t
step o (receives env) t = on_message env t
step o (drops is_online jitter i) t = on_close o is_online jitter i t
step o beats t = beat t
step o closes t = close t
step o (subscribes ids) t = subscribe ids t
step o (sends input fresh now) t = send_message input fresh now t
step o (types chat_id is_on) t = send_typing chat_id is_on t
step o (reads chat_id upto) t = send_read chat_id upto t
step o (pages count chats) t = send_backfill count chats t

unfoldable pub fresh_transport : List String → Transport
fresh_transport subscriptions = record {
  socket = none;
  sockets = [];
  state = ConnectionState.idle;
  attempt = 0;
  reconnect_timer = none;
  is_beating = false;
  is_explicitly_closed = false;
  subscriptions = subscriptions;
  pending = [];
  next = 0;
  sent = [];
  settled = [];
  states = [];
  handled = [];
}

-- What can follow on a state: the calls of the owner and what the platform may call, in any order.
pub data Reach (o : Options) (s : Transport) : Transport → Type 0 where
  here : Reach o s s
  after : {t : Transport} → Reach o s t → (e : Event) → Reach o s (step o e t)
