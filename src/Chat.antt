-- ===== src/Chat.antt =====
-- services/chat-ws/src/durable/chat.ts: the Durable Object of one chat. A handler is a function of
-- the object's state, its storage and what it sees of the outside; it runs to its end before the
-- next one starts. `none` is a handler that throws: what it did until then stands.
pub mod Signals
pub mod Fanout
pub mod Recipients
pub mod Batch
pub mod Delivery
pub mod Serials
pub mod Soundness
pub mod Buffer
pub mod Gate
pub mod Flush
use mortstack.Prelude.{
  ◌≢◌, All, refl, ℕ, ◌+◌, String, Bool, true, false, Option, none, some, List, [], ◌∷◌, ◌++◌, ℤ,
  any, if◌then◌else◌,
}
use mortstack.Js.Unique.{member}
use mortstack.Envelope.{ChatErrorCode, MsgPayload, AckPayload, TypPayload, ReadPayload}
use mortstack.Persist.{Database}

pub record PendingSend : Type 0 where
  pub sender_id : String
  pub client_msg_id : String
  pub ciphertext : List ℕ
  pub nonce : List ℕ
  pub enqueued_at : ℕ
  pub unencrypted : Bool

-- What becomes of a statement sent to the database.
pub data Fate : Type 0 where
  delivered lost_request lost_reply : Fate

-- The event of `publishChatDelivered`; the bytes are sent in base64.
pub record ChatDelivered : Type 0 where
  pub chat_id : String
  pub server_msg_id : String
  pub sender_id : String
  pub recipient_ids : List String
  pub attached_device_ids : List String
  pub ciphertext : List ℕ
  pub nonce : List ℕ
  pub ts : ℕ

-- A call of a user's inbox, a write to the cache or a published event.
pub data Effect : Type 0 where
  deliver_batch : String → List MsgPayload → Effect
  ack_batch : String → List AckPayload → Effect
  deliver_typing : String → TypPayload → Effect
  deliver_read : String → ReadPayload → Effect
  error : String → ChatErrorCode → String → Effect
  kv_put : String → String → Effect
  publish : ChatDelivered → Effect

pub record MemberCache : Type 0 where
  pub ids : List String
  pub at : ℕ

-- The fields of the object; `stored_…` are the keys of its storage; the rest is the outside: the
-- clock, the database, what becomes of its next statements and how long each takes (`delivered` at
-- once when the list is out), the users whose inbox rejects a call, and what was sent.
pub record Chat : Type 0 where
  pub chat_id : String
  pub buffer : List PendingSend
  pub buffer_loaded : Bool
  pub next_serial : Option ℤ
  pub flush_timer : Bool
  pub member_cache : Option MemberCache
  pub stored_attached : Option (List String)
  pub stored_buffer : Option (List PendingSend)
  pub stored_next_serial : Option String
  pub db : Database
  pub net : List (Fate × ℕ)
  pub clock : ℕ
  pub unreachable : List String
  pub has_max_cache : Bool
  pub sent : List Effect

abbrev pub Act {ℓ} : Type ℓ → Type ℓ
Act A = Chat → Option A × Chat

-- `await`, or `;`: a handler that throws does not go on.
abbrev pub carry_on {ℓ κ} :
    {A : Type ℓ} {B : Type κ} → Option A × Chat → (A → Act B) → Option B × Chat
carry_on (none, s) k = (none, s)
carry_on (some a, s) k = k a s

-- `await Promise.all` of calls that were made to the inboxes of these users.
abbrev pub settle_calls : List String → Chat → Option (Unit {0})
settle_calls users s = if any (member s.unreachable) users then none else some tt

infixl 5 ◌>>=◌ ◌>>◌
abbrev pub ◌>>=◌ {ℓ κ} : {A : Type ℓ} {B : Type κ} → Act A → (A → Act B) → Act B
◌>>=◌ m k s = carry_on (m s) k

abbrev pub ◌>>◌ {ℓ} : {B : Type ℓ} → Act (Unit {0}) → Act B → Act B
◌>>◌ m k s = carry_on (m s) (λ _. k)

abbrev pub pure {ℓ} : {A : Type ℓ} → A → Act A
pure a s = (some a, s)

abbrev pub modify : (Chat → Chat) → Act (Unit {0})
modify f s = (some tt, f s)

abbrev pub send : Effect → Act (Unit {0})
send e s = (some tt, record s { sent = s.sent ++ e ∷ [] })

answer : {A : Type 0} → Fate → ℕ → A × Database → Act A
answer delivered delay (a, db) s = (some a, record s { db = db; clock = s.clock + delay })
answer lost_request delay (a, db) s = (none, record s { clock = s.clock + delay })
answer lost_reply delay (a, db) s = (none, record s { db = db; clock = s.clock + delay })

run_on : {A : Type 0} → List (Fate × ℕ) → (ℕ → Database → A × Database) → Act A
unfolding answer
run_on [] f s = answer delivered 0 (f s.clock s.db) (record s { net = [] })
run_on ((fate, delay) ∷ net) f s = answer fate delay (f s.clock s.db) (record s { net = net })

-- One statement. It sees the time at which it is run.
unfoldable pub query : {A : Type 0} → (ℕ → Database → A × Database) → Act A
unfolding run_on
query f s = run_on s.net f s

-- No statement is run whose answer is lost.
abbrev pub IsHeard : List (Fate × ℕ) → Type 0
IsHeard = All (λ f. f.0 ≢ lost_reply)

module _ {A : Type 0} (f : ℕ → Database → A × Database) (s : Chat) (P : Option A × Chat → Type 0)
    (answered : (net : List (Fate × ℕ)) (clock : ℕ)
      → IsHeard net
      → P (some (f s.clock s.db).0, record s { db = (f s.clock s.db).1; net = net; clock = clock }))
    (lost : (net : List (Fate × ℕ)) (clock : ℕ)
      → IsHeard net
      → P (none, record s { net = net; clock = clock })) where
  run_on-cases : (net : List (Fate × ℕ)) → IsHeard net → P (run_on net f s)
  unfolding run_on answer
  run_on-cases [] h = answered [] (s.clock + 0) tt
  run_on-cases ((delivered, delay) ∷ net) h = answered net (s.clock + delay) h.1
  run_on-cases ((lost_request, delay) ∷ net) h = lost net (s.clock + delay) h.1
  run_on-cases ((lost_reply, delay) ∷ net) h = absurd (h.0 refl)

  -- A statement is answered, or it is lost before it is run.
  pub query-cases : IsHeard s.net → P (query f s)
  unfolding query
  query-cases h = run_on-cases s.net h
