-- ===== src/Transport/Closing.antt =====
-- What becomes of a connection after its owner closed it.
use mathlib.Core.Bool.{false≢true}
use mortstack.Prelude.{
  ℕ, zero, suc, ◌≡◌, refl, Bool, true, false, Option-cases, inl, inr, none, some, List, [], ◌∷◌,
  arith, All, map, if◌then◌else◌, ℤ, String,
}
use mortstack.Js.Dict.{get}
use mortstack.Envelope.{ClientToServer, ServerToClient, AckPayload}
use mortstack.Transport.{closed, Options, Transport, SendInput, PendingSend, ended}
use mortstack.Transport.Socket.{
  is_same, set_state, clear_timers, send_frame, send_frames, send_subscriptions, flush_on_connect,
}
use mortstack.Transport.Calls.{
  close, id_of, set_ready_state, end_socket, subscribe, send_message, send_typing, send_read,
  send_backfill, keep_pending, attach_promise, new_entry,
}
use mortstack.Transport.Events.{
  Event, connects, token_comes, timer_fires, opens, receives, drops, beats, closes, subscribes,
  sends, types, reads, pages, handle_ack, hand_on, handle_frame, on_message, on_close, beat, step,
}

-- The events that do not make a connection; of those that do, the timer is stopped by `close`, and a
-- socket that is closed while it opens never opens.
unfoldable pub is_quiet : Event → Bool
is_quiet connects = false
is_quiet (token_comes k x b j) = false
is_quiet timer_fires = false
is_quiet (opens i) = false
is_quiet _ = true

unfoldable pub run : Options → List Event → Transport → Transport
unfolding step
run o [] t = t
run o (e ∷ es) t = run o es (step o e t)

-- closed by its owner, with no socket, and with these frames sent
record IsShut (sent : List (ℕ × ClientToServer)) (t : Transport) : Type 0 where
  state : t.state ≡ closed
  socket : t.socket ≡ none
  flag : t.is_explicitly_closed ≡ true
  frames : t.sent ≡ sent

if_true {ℓ} :
    {A : Type 0} (P : A → Type ℓ) (b : Bool) (x y : A) → b ≡ true → P x → P (if b then x else y)
if_true P b x y e h = rw e h

send_frame-none : (env : ClientToServer) (t : Transport) → t.socket ≡ none → send_frame env t ≡ t
unfolding send_frame
send_frame-none env t h = ground (arith, h)

send_frames-none :
    (envs : List ClientToServer) (t : Transport) → t.socket ≡ none → send_frames envs t ≡ t
unfolding send_frames
send_frames-none [] t h = refl
send_frames-none (env ∷ envs) t h = rw (send_frame-none env t h) (send_frames-none envs t h)

flush_on_connect-none : (t : Transport) → t.socket ≡ none → flush_on_connect t ≡ t
unfolding flush_on_connect send_subscriptions
flush_on_connect-none t h = ground (
  arith,
  send_frame-none (ClientToServer.sub t.subscriptions) t h,
  send_frames-none (map (λ e. ClientToServer.send e.1.payload) t.pending) t h,
)

module _ (o : Options) (sent : List (ℕ × ClientToServer)) where
  set_state-IsShut :
      (t : Transport)
      → t.socket ≡ none
      → t.is_explicitly_closed ≡ true
      → t.sent ≡ sent
      → IsShut sent (set_state closed t)
  unfolding set_state is_same
  set_state-IsShut t a b c = record {
    state = ground arith;
    socket = ground arith;
    flag = ground arith;
    frames = ground arith;
  }

  send_frame-IsShut :
      (env : ClientToServer) (t : Transport) → IsShut sent t → IsShut sent (send_frame env t)
  send_frame-IsShut env t h = rw (send_frame-none env t h.socket) h

  keep_pending-IsShut :
      (id : String) (p : PendingSend) (t : Transport)
      → IsShut sent t
      → IsShut sent (keep_pending id p t)
  unfolding keep_pending
  keep_pending-IsShut id p t h = record {
    state = h.state;
    socket = h.socket;
    flag = h.flag;
    frames = h.frames;
  }

  send_message-IsShut :
      (i : SendInput) (fresh : String) (now : ℕ) (t : Transport)
      → IsShut sent t
      → IsShut sent (send_message i fresh now t)
  unfolding send_message
  send_message-IsShut i fresh now t h = elim (Option-cases (get t.pending (id_of i fresh))) [
    | inl e ↦
        rw (send_message, e)
          (send_frame-IsShut _ _
            (keep_pending-IsShut (id_of i fresh) (new_entry i (id_of i fresh) t.next now) t h))
    | inr (q, e) ↦
        rw (send_message, e)
          (send_frame-IsShut _ _
            (keep_pending-IsShut (id_of i fresh) (attach_promise t.next q) t h))
  ]

  handle_ack-IsShut :
      (a : AckPayload) (t : Transport) → IsShut sent t → IsShut sent (handle_ack a t)
  unfolding handle_ack
  handle_ack-IsShut a t h = elim (Option-cases (get t.pending a.client_msg_id)) [
    | inl e ↦ rw (handle_ack, e) h
    | inr (q, e) ↦
        rw (handle_ack, e)
          (record { state = h.state; socket = h.socket; flag = h.flag; frames = h.frames })
  ]

  hand_on-IsShut :
      (env : ServerToClient) (t : Transport) → IsShut sent t → IsShut sent (hand_on env t)
  unfolding hand_on
  hand_on-IsShut env t h = record {
    state = h.state;
    socket = h.socket;
    flag = h.flag;
    frames = h.frames;
  }

  handle_frame-IsShut :
      (env : ServerToClient) (t : Transport) → IsShut sent t → IsShut sent (handle_frame env t)
  unfolding handle_frame
  handle_frame-IsShut (ServerToClient.hello user ts) t h =
      rw (flush_on_connect-none (record t { attempt = 0 }) h.socket)
        (record { state = h.state; socket = h.socket; flag = h.flag; frames = h.frames })
  handle_frame-IsShut (ServerToClient.ack a) t h = handle_ack-IsShut a t h
  handle_frame-IsShut ServerToClient.pong t h = h
  handle_frame-IsShut (ServerToClient.msg m) t h = hand_on-IsShut (ServerToClient.msg m) t h
  handle_frame-IsShut (ServerToClient.typ m) t h = hand_on-IsShut (ServerToClient.typ m) t h
  handle_frame-IsShut (ServerToClient.read m) t h = hand_on-IsShut (ServerToClient.read m) t h
  handle_frame-IsShut (ServerToClient.bfd m) t h = hand_on-IsShut (ServerToClient.bfd m) t h
  handle_frame-IsShut (ServerToClient.mls_welcome n) t h =
      hand_on-IsShut (ServerToClient.mls_welcome n) t h
  handle_frame-IsShut (ServerToClient.err c m) t h = hand_on-IsShut (ServerToClient.err c m) t h

  on_close-IsShut :
      (b : Bool) (j : ℤ) (i : ℕ) (t : Transport) → IsShut sent t → IsShut sent (on_close o b j i t)
  unfolding on_close clear_timers
  on_close-IsShut b j i t h = if_true (IsShut sent) _ _ _ h.flag (
      set_state-IsShut
        (record t {
          reconnect_timer = none;
          is_beating = false;
          sockets = set_ready_state i ended t.sockets;
          socket = none;
        })
        refl h.flag h.frames)

  subscribe-IsShut :
      (ids : List String) (t : Transport) → IsShut sent t → IsShut sent (subscribe ids t)
  unfolding subscribe is_same
  subscribe-IsShut ids t h = rw h.state (ground (arith))

  close-IsShut : (t : Transport) → t.sent ≡ sent → IsShut sent (close t)
  unfolding close clear_timers end_socket
  close-IsShut t h = set_state-IsShut _ refl (ground (arith)) (ground arith)

  step-IsShut :
      (e : Event) (t : Transport) → is_quiet e ≡ true → IsShut sent t → IsShut sent (step o e t)
  unfolding step is_quiet on_message send_typing send_read send_backfill beat
  step-IsShut (receives none) t q h = h
  step-IsShut (receives (some env)) t q h = handle_frame-IsShut env t h
  step-IsShut (drops b j i) t q h = on_close-IsShut b j i t h
  step-IsShut beats t q h = send_frame-IsShut ClientToServer.ping t h
  step-IsShut closes t q h = close-IsShut t h.frames
  step-IsShut (subscribes ids) t q h = subscribe-IsShut ids t h
  step-IsShut (sends i fresh now) t q h = send_message-IsShut i fresh now t h
  step-IsShut (types c b) t q h = send_frame-IsShut (ClientToServer.typ c b) t h
  step-IsShut (reads c u) t q h = send_frame-IsShut (ClientToServer.read c u) t h
  step-IsShut (pages zero v) t q h = h
  step-IsShut (pages (suc n) v) t q h = send_frame-IsShut (ClientToServer.bf v) t h
  step-IsShut connects t q h = absurd (false≢true q)
  step-IsShut (token_comes k x b j) t q h = absurd (false≢true q)
  step-IsShut timer_fires t q h = absurd (false≢true q)
  step-IsShut (opens i) t q h = absurd (false≢true q)

  run-IsShut :
      (es : List Event) (t : Transport)
      → All (λ e. is_quiet e ≡ true) es
      → IsShut sent t
      → IsShut sent (run o es t)
  unfolding run
  run-IsShut [] t q h = h
  run-IsShut (e ∷ es) t q h = run-IsShut es (step o e t) q.1 (step-IsShut e t q.0 h)

-- After `close`, as long as nobody calls `connect`, no token that was awaited comes in, no new socket
-- opens and no reconnect timer fires, whatever the old sockets still deliver and whatever else is
-- called, the state is `closed`, and no frame is written.
pub run-close :
    (o : Options) (es : List Event) (t : Transport)
    → All (λ e. is_quiet e ≡ true) es
    → ((run o es (close t)).state ≡ closed) × ((run o es (close t)).sent ≡ t.sent)
run-close o es t q =
    let h = run-IsShut o t.sent es (close t) q (close-IsShut o t.sent t refl) in (h.state, h.frames)
