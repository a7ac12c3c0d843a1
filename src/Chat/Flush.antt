-- ===== src/Chat/Flush.antt =====
-- Sends: the buffer, the timer, the serials and the batch (chat.ts: acceptSend, scheduleFlush,
-- flush, insertWithRetry, ensureBufferLoaded, ensureSerialRecovered, dispatchErr).
use Prim.Native.String.{◌++◌ as concat}
use mortstack.Prelude.{
  ℕ, zero, suc, String, Bool, true, false, not, ◌==◌, ◌&&◌, Option, none, some, List, [], ◌∷◌, ◌++◌,
  map, ℤ, pos, ◌+ℤ◌, ◌-ℤ◌, leb, length, keep_if, if◌then◌else◌,
}
use mortstack.Js.Unique.{of_array}
use mortstack.Js.BigInt.{big_int, print_int}
use mortstack.Envelope.{persist_failed}
use mortstack.Persist.{
  Inserted, stored, conflict, refused, PersistMessageInput, insert_message, max_serial, member_ids,
}
use mortstack.Chat.{
  Chat, PendingSend, Act, Effect, error, kv_put, publish, ◌>>=◌, ◌>>◌, pure, modify, send, query,
  settle_calls,
}
use mortstack.Chat.Signals.{load_attached}
use mortstack.Chat.Fanout.{AssignedSend, fan_out, called_users}

abbrev pub presence_hint_max : ℕ
presence_hint_max = 50

unfoldable pub ensure_buffer_loaded : Chat → Chat
ensure_buffer_loaded s = if s.buffer_loaded then s else record s {
  buffer = elim s.stored_buffer [ none ↦ [] | some entries ↦ entries ];
  buffer_loaded = true;
}

unfoldable pub schedule_flush : Chat → Chat
schedule_flush s = record s { flush_timer = true }

-- What an inbox passes on, without the time.
pub record SendInput : Type 0 where
  pub sender_id : String
  pub client_msg_id : String
  pub ciphertext : List ℕ
  pub nonce : List ℕ
  pub unencrypted : Bool

abbrev pub entry_of : SendInput → ℕ → PendingSend
entry_of input now = record {
  sender_id = input.sender_id;
  client_msg_id = input.client_msg_id;
  ciphertext = input.ciphertext;
  nonce = input.nonce;
  enqueued_at = now;
  unencrypted = input.unencrypted;
}

unfoldable pub push_entry : SendInput → Chat → Chat
push_entry input s =
    let buffer = s.buffer ++ entry_of input s.clock ∷ [] in
    record s { buffer = buffer; stored_buffer = some buffer }

unfoldable pub accept_send : SendInput → Act (Unit {0})
unfolding ensure_buffer_loaded push_entry schedule_flush
accept_send input s = (some tt, schedule_flush (push_entry input (ensure_buffer_loaded s)))

-- `this.nextSerial = (await db.maxSerial(chatId)) + 1n`
unfoldable pub recover_serial : Act (Unit {0})
recover_serial s =
    (query (λ at db. (max_serial s.chat_id db, db)) >>= λ max.
    modify (λ t. record t { next_serial = some (max +ℤ pos 1) }))
      s

-- `BigInt` throws on a counter that it does not read.
unfoldable pub recover_stored : Option String → Act (Unit {0})
unfolding recover_serial
recover_stored none s = recover_serial s
recover_stored (some text) s = elim (big_int text) [
  | none ↦ (none, s)
  | some n ↦ (some tt, record s { next_serial = some n })
]

unfoldable pub ensure_serial_recovered : Act (Unit {0})
unfolding recover_stored
ensure_serial_recovered s = elim s.next_serial [
  | some n ↦ (some tt, s)
  | none ↦ recover_stored s.stored_next_serial s
]

abbrev pub input_of : String → ℤ → PendingSend → PersistMessageInput
input_of chat serial entry = record {
  chat_id = chat;
  server_serial = serial;
  sender_id = entry.sender_id;
  client_msg_id = entry.client_msg_id;
  ciphertext = entry.ciphertext;
  nonce = entry.nonce;
}

-- What follows an attempt: `none` is an exception, from the network or a unique index.
unfoldable pub after_insert :
    PendingSend
    → ℤ
    → Act (Option AssignedSend)
    → Option Inserted × Chat
    → Option (Option AssignedSend) × Chat
unfolding recover_serial
after_insert entry serial retry (some stored, t) = (
  some (some (record { entry = entry; server_serial = serial; ts = t.clock })),
  record t { next_serial = some (serial +ℤ pos 1) },
)
after_insert entry serial retry (some conflict, t) = (recover_serial >> retry) t
after_insert entry serial retry (some refused, t) = retry t
after_insert entry serial retry (none, t) = retry t

unfoldable pub insert_at :
    PendingSend → Act (Option AssignedSend) → Option ℤ → Act (Option AssignedSend)
unfolding after_insert
insert_at entry retry none s = (none, s)
insert_at entry retry (some serial) s =
    after_insert entry serial retry (query (insert_message (input_of s.chat_id serial entry)) s)

-- The attempts that are left; `some none` is the answer `null`. Arithmetic on `null` throws.
unfoldable pub insert_with_retry : ℕ → PendingSend → Act (Option AssignedSend)
unfolding insert_at
insert_with_retry zero entry s = (some none, s)
insert_with_retry (suc left) entry s =
    insert_at entry (insert_with_retry left entry) s.next_serial s

abbrev pub dispatch_err : List String → String → Act (Unit {0})
dispatch_err senders text s = (
  settle_calls (of_array senders) s,
  record s { sent = s.sent ++ map (λ user. error user persist_failed text) (of_array senders) },
)

-- The loop over the batch; `some none` is the early return, after the error to the sender.
unfoldable pub persist_batch :
    List PendingSend → List AssignedSend → Act (Option (List AssignedSend))
unfolding insert_with_retry
persist_batch [] assigned s = (some (some assigned), s)
persist_batch (entry ∷ batch) assigned s =
    (insert_with_retry 2 entry >>= λ row. elim row [
      | none ↦ dispatch_err (entry.sender_id ∷ []) "could not persist after retry" >> pure none
      | some a ↦ persist_batch batch (assigned ++ a ∷ [])
    ])
      s

-- The transaction on the storage, then the buffer.
unfoldable pub commit : Act (Unit {0})
commit s = elim s.next_serial [
  | none ↦ (none, s)
  | some n ↦ (
    some tt,
    record s { stored_buffer = none; stored_next_serial = some (print_int n); buffer = [] },
  )
]

unfoldable pub cache_max : Act (Unit {0})
cache_max s = elim s.next_serial [
  | none ↦ (some tt, s)
  | some n ↦
      if s.has_max_cache
      then send (kv_put (concat "chatmax:" s.chat_id) (print_int (n -ℤ pos 1))) s
      else (some tt, s)
]

abbrev pub others : String → List String → List String
others sender = keep_if (λ user. not (user == sender))

-- `allMembers.filter((u) => u !== assigned[0]?.entry.senderId)`
unfoldable pub hint_users : List AssignedSend → List String → List String
hint_users [] members = members
hint_users (a ∷ assigned) members = others a.entry.sender_id members

-- `devices user` is the answer of the user's inbox, nothing if the call fails.
devices_of : (String → List String) → List String → List String
devices_of devices [] = []
devices_of devices (user ∷ users) = devices user ++ devices_of devices users

unfoldable pub presence_hint : (String → List String) → List String → List String
unfolding devices_of
presence_hint devices users =
    if leb 1 (length users) && leb (length users) presence_hint_max
    then of_array (devices_of devices users)
    else []

unfoldable pub published : String → List String → List String → List AssignedSend → List Effect
published chat members hint [] = []
published chat members hint (a ∷ assigned) =
    let recipients = others a.entry.sender_id members in
    let rest = published chat members hint assigned in
    if leb 1 (length recipients)
    then publish (record {
      chat_id = chat;
      server_msg_id = print_int a.server_serial;
      sender_id = a.entry.sender_id;
      recipient_ids = recipients;
      attached_device_ids = hint;
      ciphertext = a.entry.ciphertext;
      nonce = a.entry.nonce;
      ts = a.ts;
    })
      ∷ rest
    else rest

unfoldable pub push_out : (String → List String) → List AssignedSend → Act (Unit {0})
unfolding hint_users presence_hint published
push_out devices assigned s =
    (query (λ at db. (member_ids s.chat_id db, db)) >>= λ members. modify (λ t. record t {
      sent =
          t.sent
          ++ published t.chat_id members (presence_hint devices (hint_users assigned members))
              assigned;
    }))
      s

unfoldable pub deliver : List AssignedSend → Act (Unit {0})
deliver assigned s = (
  settle_calls (called_users s.chat_id (load_attached s) assigned) s,
  record s { sent = s.sent ++ fan_out s.chat_id (load_attached s) assigned },
)

abbrev pub finish : (String → List String) → Option (List AssignedSend) → Act (Unit {0})
finish devices none = pure tt
finish devices (some assigned) =
    commit >> cache_max >> deliver assigned >> push_out devices assigned

unfoldable pub flush_batch : (String → List String) → List PendingSend → Act (Unit {0})
unfolding ensure_serial_recovered persist_batch commit cache_max deliver push_out
flush_batch devices [] = pure tt
flush_batch devices (entry ∷ batch) =
    ensure_serial_recovered >> (persist_batch (entry ∷ batch) [] >>= finish devices)

unfoldable pub flush : (String → List String) → Act (Unit {0})
unfolding ensure_buffer_loaded flush_batch
flush devices s = let t = ensure_buffer_loaded s in flush_batch devices t.buffer t

-- The timer's callback.
unfoldable pub fire : (String → List String) → Act (Unit {0})
unfolding flush
fire devices s = elim s.flush_timer [
  | false ↦ (some tt, s)
  | true ↦ flush devices (record s { flush_timer = false })
]

-- The object leaves memory: its fields start anew, with the storage kept.
unfoldable pub evict : Chat → Chat
evict s = record s {
  buffer = [];
  buffer_loaded = false;
  next_serial = none;
  flush_timer = false;
  member_cache = none;
}
