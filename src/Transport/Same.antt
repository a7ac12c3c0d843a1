-- ===== src/Transport/Same.antt =====
-- What leaves the promises of `send` alone.
use mortstack.Prelude.{
  ℕ, ◌≡◌, String, refl, ◌∙◌, if◌then◌else◌, Bool, Option, none, some, List, [], ◌∷◌, map, arith, ℤ,
}
use mortstack.Envelope.{ClientToServer}
use mortstack.Transport.{Options, Transport, ConnectionState}
use mortstack.Transport.Socket.{
  set_state, schedule_reconnect, clear_timers, start_heartbeat, send_frame, send_frames,
  send_subscriptions, flush_on_connect, is_empty,
}
use mortstack.Transport.Calls.{connect, connect_with, end_socket, close, subscribe}
use mortstack.Transport.Events.{on_open, on_close}

-- Two states with the same promises.
abbrev pub SamePromises : Transport → Transport → Type 0
SamePromises t u = (u.pending ≡ t.pending) × (u.next ≡ t.next) × (u.settled ≡ t.settled)

pub set_state_same : (s : ConnectionState) (t : Transport) → SamePromises t (set_state s t)
unfolding set_state
set_state_same s t = ground arith

pub send_frame_same : (env : ClientToServer) (t : Transport) → SamePromises t (send_frame env t)
unfolding send_frame
send_frame_same env t = ground arith

same_trans : (t u v : Transport) → SamePromises t u → SamePromises u v → SamePromises t v
same_trans t u v (a, b, c) (d, e, f) = (d ∙ a, e ∙ b, f ∙ c)

send_frames_same :
    (envs : List ClientToServer) (t : Transport) → SamePromises t (send_frames envs t)
unfolding send_frames
send_frames_same [] t = (refl, refl, refl)
send_frames_same (env ∷ envs) t =
    same_trans t (send_frame env t) (send_frames envs (send_frame env t)) (send_frame_same env t)
      (send_frames_same envs (send_frame env t))

pub flush_on_connect_same : (t : Transport) → SamePromises t (flush_on_connect t)
unfolding flush_on_connect send_subscriptions
flush_on_connect_same t =
    let u = if is_empty t.subscriptions then t else send_subscriptions t in
    let envs = map (λ e. ClientToServer.send e.1.payload) t.pending in
    same_trans t u (send_frames envs u)
      (ground (arith, send_frame_same (ClientToServer.sub t.subscriptions) t))
      (send_frames_same envs u)

schedule_reconnect_same :
    (o : Options) (b : Bool) (j : ℤ) (t : Transport) → SamePromises t (schedule_reconnect o b j t)
unfolding schedule_reconnect
schedule_reconnect_same o b j t =
    ground (
      arith,
      set_state_same ConnectionState.reconnecting t,
      set_state_same ConnectionState.closed t,
    )

pub on_close_same :
    (o : Options) (b : Bool) (j : ℤ) (i : ℕ) (t : Transport) → SamePromises t (on_close o b j i t)
unfolding on_close clear_timers
on_close_same o b j i t =
    ground (arith, set_state_same ConnectionState.closed _, schedule_reconnect_same o b j _)

pub connect_same : (t : Transport) → SamePromises t (connect t).0
unfolding connect
connect_same t = ground (arith, set_state_same ConnectionState.connecting _)

pub connect_with_same :
    (o : Options) (k : Option String) (x b : Bool) (j : ℤ) (t : Transport)
    → SamePromises t (connect_with o k x b j t)
unfolding connect_with
connect_with_same o none x b j t = set_state_same ConnectionState.closed t
connect_with_same o (some k) x b j t =
    ground (arith, set_state_same ConnectionState.closed t, schedule_reconnect_same o b j t)

end_socket_same : (t : Transport) → SamePromises t (end_socket t)
unfolding end_socket
end_socket_same t = ground arith

pub close_same : (t : Transport) → SamePromises t (close t)
unfolding close clear_timers
close_same t = ground (
  arith,
  end_socket_same _,
  set_state_same ConnectionState.closing _,
  set_state_same ConnectionState.closed _,
)

pub on_open_same : (i : ℕ) (t : Transport) → SamePromises t (on_open i t)
unfolding on_open start_heartbeat
on_open_same i t = ground (arith, set_state_same ConnectionState.opened _)

pub subscribe_same : (ids : List String) (t : Transport) → SamePromises t (subscribe ids t)
unfolding subscribe send_subscriptions
subscribe_same ids t = ground (arith, send_frame_same (ClientToServer.sub _) _)
