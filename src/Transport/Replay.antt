-- ===== src/Transport/Replay.antt =====
-- What is written when the server greets.
use mathlib.Core.List.{append_assoc, append-nil}
use mortstack.Prelude.{
  ℕ, ◌≤◌, ◌<◌, String, ◌≡◌, refl, true, some, List, [], ◌∷◌, ◌++◌, map, arith, sym, ap, inl, inr,
  Bool-cases, leb, ◌∙◌, if◌then◌else◌,
}
use mortstack.Js.Dict.{Dict}
use mortstack.Envelope.{ClientToServer, hello, send, sub}
use mortstack.Transport.{Options, PendingSend, Transport}
use mortstack.Transport.Socket.{
  is_ready, ready_state, send_frame, send_frames, is_empty, send_subscriptions, flush_on_connect,
}
use mortstack.Transport.Events.{handle_frame, Reach, fresh_transport}
use mortstack.Transport.Waiting.{count, waiting, settlements, IsKept}
use mortstack.Transport.Promises.{Reach-IsKept}

-- An entry that a promise waits in.
pub record Holder (k : ℕ) (m : Dict PendingSend) : Type 0 where
  pub before : Dict PendingSend
  pub id : String
  pub entry : PendingSend
  pub rest : Dict PendingSend
  pub split : m ≡ before ++ (id, entry) ∷ rest
  pub holds : 1 ≤ count k entry.promises

holder : (k : ℕ) (m : Dict PendingSend) → 1 ≤ waiting k m → Holder k m
unfolding waiting
holder k [] h = absurd (omega arith)
holder k ((id, p) ∷ m) h = elim (Bool-cases (leb 1 (count k p.promises))) [
  | inl e ↦ record { before = []; id = id; entry = p; rest = m; split = refl; holds = ground arith }
  | inr e ↦
      let g = holder k m (ground arith) in
      record {
        before = (id, p) ∷ g.before;
        id = g.id;
        entry = g.entry;
        rest = g.rest;
        split = ap (◌∷◌ (id, p)) g.split;
        holds = g.holds;
      }
]

send_frame_ready :
    (i : ℕ) (env : ClientToServer) (t : Transport)
    → t.socket ≡ some i
    → is_ready (ready_state t.sockets i) ≡ true
    → send_frame env t ≡ record t { sent = t.sent ++ (i, env) ∷ [] }
unfolding send_frame
send_frame_ready i env t h r = ground (arith, h, r)

sent-send_frames :
    (i : ℕ) (envs : List ClientToServer) (t : Transport)
    → t.socket ≡ some i
    → is_ready (ready_state t.sockets i) ≡ true
    → (send_frames envs t).sent ≡ t.sent ++ map (λ env. (i, env)) envs
unfolding send_frames
sent-send_frames i [] t h r = sym (append-nil t.sent)
sent-send_frames i (env ∷ envs) t h r =
    let u = record t { sent = t.sent ++ (i, env) ∷ [] } in
    ap (λ v. (send_frames envs v).sent) (send_frame_ready i env t h r)
    ∙ (sent-send_frames i envs u h r ∙ append_assoc t.sent ((i, env) ∷ []) (map (λ e. (i, e)) envs))

-- the subscriptions, in a frame, if there are any
unfoldable pub greeting : List String → List ClientToServer
unfolding is_empty
greeting ids = if is_empty ids then [] else sub ids ∷ []

unfoldable pub resend : String × PendingSend → ClientToServer
resend e = send e.1.payload

sent-flush_on_connect :
    (i : ℕ) (t : Transport)
    → t.socket ≡ some i
    → is_ready (ready_state t.sockets i) ≡ true
    → (flush_on_connect t).sent
      ≡ t.sent ++ map (λ env. (i, env)) (greeting t.subscriptions ++ map resend t.pending)
unfolding flush_on_connect greeting resend send_subscriptions
sent-flush_on_connect i t h r = elim (Bool-cases (is_empty t.subscriptions)) [
  | inl e ↦ rw e (sent-send_frames i (map (λ e. send e.1.payload) t.pending) t h r)
  | inr e ↦ rw e (
      ap (λ v. (send_frames (map (λ e. send e.1.payload) t.pending) v).sent)
        (send_frame_ready i (sub t.subscriptions) t h r)
      ∙ (sent-send_frames i (map (λ e. send e.1.payload) t.pending)
            (record t { sent = t.sent ++ (i, sub t.subscriptions) ∷ [] }) h r
          ∙ append_assoc t.sent ((i, sub t.subscriptions) ∷ []) _))
]

settles :
    (t : Transport) (k : ℕ)
    → k < t.next
    → settlements k t.settled ≡ 0
    → IsKept t
    → 1 ≤ waiting k t.pending
unfolding IsKept
settles t k lt e h = ground (arith, h k)

-- In a state that a connection can come to, with a socket that is open, the greeting of the server makes
-- the connection write, after what it wrote before, the subscriptions, if there are any, and every
-- frame that waits for its ack; and every call of `send` whose promise is not settled waits for one
-- of these.
pub handle_frame_replays :
    (o : Options) (ids : List String) (t : Transport) (user : String) (ts i : ℕ)
    → Reach o (fresh_transport ids) t
    → t.socket ≡ some i
    → is_ready (ready_state t.sockets i) ≡ true
    → ((handle_frame (hello user ts) t).sent
        ≡ t.sent ++ map (λ env. (i, env)) (greeting t.subscriptions ++ map resend t.pending))
      × ((k : ℕ) → k < t.next → settlements k t.settled ≡ 0 → Holder k t.pending)
unfolding handle_frame
handle_frame_replays o ids t user ts i reach h r = (
  sent-flush_on_connect i (record t { attempt = 0 }) h r,
  λ k lt e. holder k t.pending (settles t k lt e (Reach-IsKept o ids t reach)),
)
