-- ===== src/Transport/Promises.antt =====
-- Every call of `send` keeps its promise.
use mortstack.Prelude.{
  ℕ, zero, suc, String, none, some, List, [], ◌∷◌, arith, ◌+◌, ◌≡◌, nat_eq, if◌then◌else◌,
  Option-cases, inl, inr,
}
use mortstack.Js.Dict.{put, get, put}
use mortstack.Envelope.{AckPayload, ServerToClient, ClientToServer, send}
use mortstack.Transport.{PendingSend, Options, SendInput, Transport}
use mortstack.Transport.Socket.{flush_on_connect, send_frame}
use mortstack.Transport.Calls.{
  id_of, keep_pending, attach_promise, new_entry, send_message, send_typing, send_read,
  send_backfill,
}
use mortstack.Transport.Waiting.{
  count, waiting, settlements, IsKept, HasOneEach, count-append, settlements-append,
  settlements-promises, waiting-put_new, waiting-put_old, waiting-remove, HasOneEach-put,
  HasOneEach-remove,
}
use mortstack.Transport.Same.{
  SamePromises, send_frame_same, flush_on_connect_same, connect_same, connect_with_same,
  on_open_same, on_close_same, close_same, subscribe_same,
}
use mortstack.Transport.Events.{
  Event, settle, handle_ack, hand_on, handle_frame, on_message, beat, step, fresh_transport, Reach,
  here, after,
}

pub record IsFine (t : Transport) : Type 0 where
  pub is_kept : IsKept t
  pub has_one_each : HasOneEach t.pending

same-IsFine : (t u : Transport) → SamePromises t u → IsFine t → IsFine u
unfolding IsKept
same-IsFine t u (a, b, c) h = record {
  is_kept = λ k. ground (arith, h.is_kept k);
  has_one_each = rw a h.has_one_each;
}

handle_ack-IsFine : (a : AckPayload) (t : Transport) → IsFine t → IsFine (handle_ack a t)
unfolding handle_ack settle IsKept
handle_ack-IsFine a t h = elim (Option-cases (get t.pending a.client_msg_id)) [
  | inl e ↦ rw (handle_ack, e) h
  | inr (p, e) ↦
      rw (handle_ack, e)
        (record {
          is_kept = λ k. ground (
            arith,
            h.is_kept k,
            settlements-append k t.settled (settle a p),
            settlements-promises k (record { server_msg_id = a.server_msg_id; ts = a.ts })
                p.promises,
            waiting-remove k a.client_msg_id p t.pending h.has_one_each e,
          );
          has_one_each = HasOneEach-remove a.client_msg_id t.pending h.has_one_each;
        })
]

keep_pending-IsFine :
    (id : String) (p : PendingSend) (t : Transport)
    → ((k : ℕ)
        → waiting k (put id p t.pending) ≡ waiting k t.pending + (if nat_eq t.next k then 1 else 0))
    → IsFine t
    → IsFine (keep_pending id p t)
unfolding keep_pending IsKept
keep_pending-IsFine id p t e h = record {
  is_kept = λ k. ground (arith, h.is_kept k, e k);
  has_one_each = HasOneEach-put id p t.pending h.has_one_each;
}

send_message-IsFine :
    (i : SendInput) (fresh : String) (now : ℕ) (t : Transport)
    → IsFine t
    → IsFine (send_message i fresh now t)
unfolding send_message new_entry attach_promise count
send_message-IsFine i fresh now t h =
    let id = id_of i fresh in
    elim (Option-cases (get t.pending id)) [
      | inl e ↦
          let p = new_entry i id t.next now in
          let u = keep_pending id p t in
          rw (send_message, e)
            (same-IsFine u (send_frame (send p.payload) u) (send_frame_same (send p.payload) u) (
              keep_pending-IsFine id p t (λ k. ground (arith, waiting-put_new k id p t.pending e))
                h))
      | inr (q, e) ↦
          let p = attach_promise t.next q in
          let u = keep_pending id p t in
          rw (send_message, e)
            (same-IsFine u (send_frame (send p.payload) u) (send_frame_same (send q.payload) u) (
              keep_pending-IsFine id p t
                (λ k. ground (
                  arith,
                  count-append k q.promises (t.next ∷ []),
                  waiting-put_old k id p q t.pending e,
                ))
                h))
    ]

handle_frame-IsFine :
    (env : ServerToClient) (t : Transport) → IsFine t → IsFine (handle_frame env t)
unfolding handle_frame hand_on IsKept
handle_frame-IsFine (ServerToClient.hello user ts) t h =
    let u = record t { attempt = 0 } in
    same-IsFine u (flush_on_connect u) (flush_on_connect_same u)
      (record { is_kept = h.is_kept; has_one_each = h.has_one_each })
handle_frame-IsFine (ServerToClient.ack a) t h = handle_ack-IsFine a t h
handle_frame-IsFine ServerToClient.pong t h = h
handle_frame-IsFine (ServerToClient.msg m) t h = record {
  is_kept = h.is_kept;
  has_one_each = h.has_one_each;
}
handle_frame-IsFine (ServerToClient.typ m) t h = record {
  is_kept = h.is_kept;
  has_one_each = h.has_one_each;
}
handle_frame-IsFine (ServerToClient.read m) t h = record {
  is_kept = h.is_kept;
  has_one_each = h.has_one_each;
}
handle_frame-IsFine (ServerToClient.bfd m) t h = record {
  is_kept = h.is_kept;
  has_one_each = h.has_one_each;
}
handle_frame-IsFine (ServerToClient.mls_welcome n) t h = record {
  is_kept = h.is_kept;
  has_one_each = h.has_one_each;
}
handle_frame-IsFine (ServerToClient.err c m) t h = record {
  is_kept = h.is_kept;
  has_one_each = h.has_one_each;
}

step-IsFine : (o : Options) (e : Event) (t : Transport) → IsFine t → IsFine (step o e t)
unfolding step on_message send_typing send_read send_backfill beat
step-IsFine o Event.connects t h = same-IsFine t _ (connect_same t) h
step-IsFine o (Event.token_comes k x b j) t h = same-IsFine t _ (connect_with_same o k x b j t) h
step-IsFine o Event.timer_fires t h = same-IsFine t _ (connect_same t) h
step-IsFine o (Event.opens i) t h = same-IsFine t _ (on_open_same i t) h
step-IsFine o (Event.receives none) t h = h
step-IsFine o (Event.receives (some env)) t h = handle_frame-IsFine env t h
step-IsFine o (Event.drops b j i) t h = same-IsFine t _ (on_close_same o b j i t) h
step-IsFine o Event.beats t h = same-IsFine t _ (send_frame_same ClientToServer.ping t) h
step-IsFine o Event.closes t h = same-IsFine t _ (close_same t) h
step-IsFine o (Event.subscribes ids) t h = same-IsFine t _ (subscribe_same ids t) h
step-IsFine o (Event.sends i fresh now) t h = send_message-IsFine i fresh now t h
step-IsFine o (Event.types c b) t h = same-IsFine t _ (send_frame_same (ClientToServer.typ c b) t) h
step-IsFine o (Event.reads c u) t h =
    same-IsFine t _ (send_frame_same (ClientToServer.read c u) t) h
step-IsFine o (Event.pages zero v) t h = h
step-IsFine o (Event.pages (suc n) v) t h =
    same-IsFine t _ (send_frame_same (ClientToServer.bf v) t) h

pub Reach-IsFine :
    (o : Options) (ids : List String) {t : Transport} → Reach o (fresh_transport ids) t → IsFine t
unfolding fresh_transport IsKept waiting settlements HasOneEach
Reach-IsFine o ids here = record { is_kept = λ k. ground arith; has_one_each = tt }
Reach-IsFine o ids (after r e) = step-IsFine o e _ (Reach-IsFine o ids r)

-- In every state that a connection can come to, whatever its owner calls and whatever the platform and
-- the server do, each call of `send` so far has its promise settled once or waiting once, never both
-- and never twice, and no other promise is settled or waits.
pub Reach-IsKept :
    (o : Options) (ids : List String) (t : Transport) → Reach o (fresh_transport ids) t → IsKept t
Reach-IsKept o ids t r = (Reach-IsFine o ids r).is_kept
