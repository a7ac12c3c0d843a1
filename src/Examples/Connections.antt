-- ===== src/Examples/Connections.antt =====
-- A connection with one send that waits, and one that is closed while a socket is still open.
use mortstack.Js.Dict.{get, put}
use mortstack.Prelude.{◌≡◌, refl, ℕ, ◌++◌, map, ◌<◌, true, false, none, some, List, [], ◌∷◌, pos}
use mortstack.Envelope.{hello, sub, send}
use mortstack.Transport.{ConnectionState, closed, Options, SendInput, Transport}
use mortstack.Transport.Socket.{is_ready, ready_state}
use mortstack.Transport.Calls.{close, frame_of}
use mortstack.Transport.Events.{
  Event, connects, token_comes, opens, receives, drops, beats, sends, step, Reach, here, after,
  fresh_transport, handle_frame,
}
use mortstack.Transport.Waiting.{settlements, IsKept}
use mortstack.Transport.Promises.{Reach-IsKept}
use mortstack.Transport.Replay.{Holder, greeting, resend, handle_frame_replays}
use mortstack.Transport.Closing.{is_quiet, run, run-close}

abbrev options : Options
options = record { reconnect_base_ms = 500; reconnect_max_ms = 30000 }

abbrev hi : SendInput
hi = record { chat_id = "c"; ciphertext = 1 ∷ []; nonce = []; client_msg_id = some "m1" }

abbrev events : List Event
events = sends hi "" 7 ∷ connects ∷ token_comes (some "token") false true (pos 0) ∷ opens 0 ∷ []

abbrev before_hello : Transport
before_hello = run options events (fresh_transport ("c" ∷ []))

Reach-all : (o : Options) (s t : Transport) (es : List Event) → Reach o s t → Reach o s (run o es t)
unfolding run
Reach-all o s t [] r = r
Reach-all o s t (e ∷ es) r = Reach-all o s (step o e t) es (after r e)

before_hello-reached : Reach options (fresh_transport ("c" ∷ [])) before_hello
before_hello-reached = Reach-all options _ (fresh_transport ("c" ∷ [])) events here

Reach-IsKept_example : IsKept before_hello
Reach-IsKept_example = Reach-IsKept options ("c" ∷ []) before_hello before_hello-reached

handle_frame_replays_example :
    ((handle_frame (hello "u" 1) before_hello).sent
      ≡ before_hello.sent
        ++ map
            (λ env. (0, env))
            (greeting before_hello.subscriptions ++ map resend before_hello.pending))
    × ((k : ℕ)
        → k < before_hello.next
        → settlements k before_hello.settled ≡ 0
        → Holder k before_hello.pending)
unfolding run fresh_transport step ready_state is_ready get
handle_frame_replays_example =
    handle_frame_replays options ("c" ∷ []) before_hello "u" 1 0 before_hello-reached refl refl

-- the greeting writes the subscription and the send
replayed :
    (handle_frame (hello "u" 1) before_hello).sent
    ≡ (0, sub ("c" ∷ [])) ∷ (0, send (frame_of hi "m1")) ∷ []
unfolding run fresh_transport step handle_frame frame_of get put
replayed = refl

abbrev after_close : List Event
after_close = drops true (pos 0) 0 ∷ beats ∷ sends hi "" 9 ∷ receives (some (hello "u" 2)) ∷ []

run-close_example :
    ((run options after_close (close before_hello)).state ≡ closed)
    × ((run options after_close (close before_hello)).sent ≡ before_hello.sent)
unfolding is_quiet
run-close_example = run-close options after_close before_hello (refl, (refl, (refl, (refl, tt))))

abbrev stale : List Event
stale =
    connects
    ∷ token_comes (some "a") false true (pos 0)
    ∷ opens 0
    ∷ Event.closes
    ∷ connects
    ∷ token_comes (some "a") false true (pos 0)
    ∷ drops true (pos 0) 0
    ∷ opens 1
    ∷ []

-- A socket that was closed and reports it after the next `connect` takes the new socket away: the
-- connection is open and writes nothing.
stale_socket :
    ((run options stale (fresh_transport [])).state ≡ ConnectionState.opened)
    × ((run options stale (fresh_transport [])).socket ≡ none)
unfolding run fresh_transport step
stale_socket = (refl, refl)

abbrev late_token : List Event
late_token = connects ∷ Event.closes ∷ token_comes (some "a") false true (pos 0) ∷ opens 0 ∷ []

-- A `close` while `connect` waits for the token does not stop it.
closed_too_early : (run options late_token (fresh_transport [])).state ≡ ConnectionState.opened
unfolding run fresh_transport step
closed_too_early = refl
