-- ===== src/Transport/Socket.antt =====
-- packages/chat-transport/src/client.ts: the helpers of the connection.
use mortstack.Prelude.{
  ℕ, String, zero, suc, ◌+◌, ◌*◌, ◌≤◌, min, Bool, true, false, none, some, List, [], ◌∷◌, ◌++◌, map,
  ℤ, pos, negsuc, ◌+ℤ◌, arith, if◌then◌else◌,
}
use mortstack.Envelope.{ClientToServer, sub, send}
use mortstack.Transport.{
  ConnectionState, idle, connecting, opened, reconnecting, closing, closed, ReadyState, ready,
  ended, Options, Transport,
}

unfoldable pub is_same : ConnectionState → ConnectionState → Bool
is_same idle idle = true
is_same connecting connecting = true
is_same opened opened = true
is_same reconnecting reconnecting = true
is_same closing closing = true
is_same closed closed = true
is_same _ _ = false

unfoldable pub set_state : ConnectionState → Transport → Transport
unfolding is_same
set_state next t =
    if is_same t.state next then t else record t { state = next; states = t.states ++ next ∷ [] }

unfoldable pub clear_timers : Transport → Transport
clear_timers t = record t { reconnect_timer = none; is_beating = false }

-- `2 ** n`
unfoldable pub power : ℕ → ℕ
power zero = 1
power (suc n) = let p = power n in p + p

unfoldable pub exp_backoff : Options → ℕ → ℕ
unfolding power
exp_backoff o attempt = min (o.reconnect_base_ms * power attempt) o.reconnect_max_ms

at_least_0 : ℤ → ℕ
at_least_0 (pos n) = n
at_least_0 (negsuc n) = 0

-- `jitter` is `jitterMs`, rounded down, which `Math.random` decides.
unfoldable pub delay_of : Options → ℕ → ℤ → ℕ
unfolding exp_backoff at_least_0
delay_of o attempt jitter = at_least_0 (pos (exp_backoff o attempt) +ℤ jitter)

-- `is_online` is the answer of the platform, true where there is none to ask.
unfoldable pub schedule_reconnect : Options → Bool → ℤ → Transport → Transport
unfolding set_state delay_of
schedule_reconnect o is_online jitter t =
    if t.is_explicitly_closed
    then t
    else if is_online
    then (let t1 = set_state reconnecting t in
        record t1 {
          attempt = suc t1.attempt;
          reconnect_timer = some (delay_of o t1.attempt jitter);
        })
    else set_state closed t

unfoldable pub start_heartbeat : Transport → Transport
start_heartbeat t = record t { is_beating = true }

-- `ws.readyState`
unfoldable pub ready_state : List ReadyState → ℕ → ReadyState
ready_state [] i = ended
ready_state (r ∷ rs) zero = r
ready_state (r ∷ rs) (suc i) = ready_state rs i

unfoldable pub is_ready : ReadyState → Bool
is_ready ready = true
is_ready _ = false

unfoldable pub send_frame : ClientToServer → Transport → Transport
unfolding ready_state is_ready
send_frame env t = elim t.socket [
  | none ↦ t
  | some i ↦
      if is_ready (ready_state t.sockets i) then record t { sent = t.sent ++ (i, env) ∷ [] } else t
]

unfoldable pub send_frames : List ClientToServer → Transport → Transport
unfolding send_frame
send_frames [] t = t
send_frames (env ∷ envs) t = send_frames envs (send_frame env t)

unfoldable pub send_subscriptions : Transport → Transport
unfolding send_frame
send_subscriptions t = send_frame (sub t.subscriptions) t

unfoldable pub is_empty : List String → Bool
is_empty [] = true
is_empty (x ∷ xs) = false

unfoldable pub flush_on_connect : Transport → Transport
unfolding send_frames send_subscriptions is_empty
flush_on_connect t =
    send_frames (map (λ e. send e.1.payload) t.pending)
      (if is_empty t.subscriptions then t else send_subscriptions t)

-- The wait before the jitter is never more than the maximum, and never less than that of an attempt
-- before, up to it.
pub exp_backoff_bounds :
    (o : Options) (n : ℕ)
    → (exp_backoff o n ≤ o.reconnect_max_ms) × (exp_backoff o n ≤ exp_backoff o (suc n))
unfolding exp_backoff power
exp_backoff_bounds o n = (ground arith, grind arith)
