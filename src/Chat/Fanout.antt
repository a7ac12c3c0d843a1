-- ===== src/Chat/Fanout.antt =====
-- Who gets what of a flushed batch (chat.ts, `flush`, from the fan-out on): one list of acks for
-- each sender and one list of messages for each other attached member.
use mortstack.Prelude.{ℕ, String, ◌==◌, List, [], ◌∷◌, ◌++◌, map, ℤ, if◌then◌else◌}
use mortstack.Js.BigInt.{print_int}
use mortstack.Js.Dict.{Dict, get_or, put}
use mortstack.Envelope.{MsgPayload, AckPayload}
use mortstack.Chat.{PendingSend, Effect, deliver_batch, ack_batch}

-- An entry with the serial and the time it was stored under.
pub record AssignedSend : Type 0 where
  pub entry : PendingSend
  pub server_serial : ℤ
  pub ts : ℕ

abbrev pub ack_of : AssignedSend → AckPayload
ack_of a = record {
  client_msg_id = a.entry.client_msg_id;
  server_msg_id = print_int a.server_serial;
  ts = a.ts;
}

abbrev pub msg_of : String → AssignedSend → MsgPayload
msg_of chat a = record {
  chat_id = chat;
  server_msg_id = print_int a.server_serial;
  sender_id = a.entry.sender_id;
  ciphertext = a.entry.ciphertext;
  nonce = a.entry.nonce;
  ts = a.ts;
  unencrypted = a.entry.unencrypted;
}

-- `let xs = m.get(k); if (!xs) m.set(k, xs = []); xs.push(x)`
unfoldable pub push_to {ℓ} : {A : Type ℓ} → String → A → Dict (List A) → Dict (List A)
push_to k x m = put k (get_or m k [] ++ x ∷ []) m

unfoldable pub push_msgs :
    String → AssignedSend → List String → Dict (List MsgPayload) → Dict (List MsgPayload)
push_msgs chat a [] m = m
push_msgs chat a (user ∷ users) m =
    push_msgs chat a users (if user == a.entry.sender_id then m else push_to user (msg_of chat a) m)

-- The maps `perSender` and `perRecipient`.
unfoldable pub per_sender : List AssignedSend → Dict (List AckPayload) → Dict (List AckPayload)
per_sender [] m = m
per_sender (a ∷ assigned) m = per_sender assigned (push_to a.entry.sender_id (ack_of a) m)

unfoldable pub per_recipient :
    String → List String → List AssignedSend → Dict (List MsgPayload) → Dict (List MsgPayload)
per_recipient chat attached [] m = m
per_recipient chat attached (a ∷ assigned) m =
    per_recipient chat attached assigned (push_msgs chat a attached m)

unfoldable pub fan_out : String → List String → List AssignedSend → List Effect
fan_out chat attached assigned =
    map (λ p. ack_batch p.0 p.1) (per_sender assigned [])
    ++ map (λ p. deliver_batch p.0 p.1) (per_recipient chat attached assigned [])

-- The users whose inboxes these are.
unfoldable pub called_users : String → List String → List AssignedSend → List String
called_users chat attached assigned =
    map (λ p. p.0) (per_sender assigned [])
    ++ map (λ p. p.0) (per_recipient chat attached assigned [])
