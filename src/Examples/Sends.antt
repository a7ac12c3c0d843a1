-- ===== src/Examples/Sends.antt =====
-- A chat with two buffered sends, and what becomes of them.
use mortstack.Prelude.{
  ℕ, String, ◌≡◌, refl, true, false, not, none, some, List, [], ◌∷◌, ◌++◌, map, ℤ, pos, ◌+ℤ◌,
  length, keep_if, ◌==◌, ◌&&◌, eq_iff, if◌then◌else◌,
}
use mortstack.Js.Dict.{get_or, put}
use mortstack.Js.Unique.{member, of_array}
use mortstack.Js.BigInt.{big_int, print_int}
use mortstack.Persist.{
  insert_message, Database, MessageRow, MemberRow, update_last_read_serial, is_int64,
}
use mortstack.Persist.Watermark.{
  watermark, has_row, max_watermark, watermark-update_last_read_serial,
  update_last_read_serial_comm,
}
use mortstack.Chat.{query, Chat, PendingSend, Fate, delivered, lost_request, lost_reply}
use mortstack.Chat.Signals.{accept_typing, load_attached}
use mortstack.Chat.Flush.{SendInput, accept_send, entry_of, flush, evict}
use mortstack.Chat.Fanout.{
  AssignedSend, per_recipient, per_sender, called_users, push_to, push_msgs, ack_of, msg_of,
}
use mortstack.Chat.Recipients.{per_recipient_msgs, per_sender_acks, sent_by}
use mortstack.Chat.Batch.{assign, rows_of}
use mortstack.Chat.Delivery.{announced, outcome, flush_stores}
use mortstack.Chat.Serials.{IsSound}
use mortstack.Chat.Soundness.{flush-IsSound}
use mortstack.Chat.Buffer.{buffered, accept_send-evict}
use mortstack.Chat.Gate.{typing_frames, is_allowed, accept_typing_gate}

abbrev pending_send : String → String → PendingSend
pending_send sender client = record {
  sender_id = sender;
  client_msg_id = client;
  ciphertext = 1 ∷ 7 ∷ [];
  nonce = [];
  enqueued_at = 50;
  unencrypted = false;
}

abbrev member_row : String → MemberRow
member_row user = record { chat_id = "c"; user_id = user; last_read_serial = none }

abbrev chat_row : ℕ → String → ℕ → MessageRow
chat_row serial client at = record {
  input = record {
    chat_id = "c";
    server_serial = pos serial;
    sender_id = "ann";
    client_msg_id = client;
    ciphertext = [];
    nonce = [];
  };
  created_at = at;
}

abbrev database : List MessageRow → Database
database rows = record { messages = rows; members = member_row "ann" ∷ member_row "bob" ∷ [] }

-- The counter is at 1, Ann and Bob are attached, and each has a send in the buffer.
abbrev two_sends : List (Fate × ℕ) → Chat
two_sends net = record {
  chat_id = "c";
  buffer = pending_send "ann" "a" ∷ pending_send "bob" "b" ∷ [];
  buffer_loaded = true;
  next_serial = some (pos 1);
  flush_timer = false;
  member_cache = none;
  stored_attached = some ("ann" ∷ "bob" ∷ []);
  stored_buffer = some (pending_send "ann" "a" ∷ pending_send "bob" "b" ∷ []);
  stored_next_serial = none;
  db = database [];
  net = net;
  clock = 100;
  unreachable = [];
  has_max_cache = true;
  sent = [];
}

abbrev no_devices : String → List String
no_devices user = []

abbrev both_assigned : List AssignedSend
both_assigned =
    record { entry = pending_send "ann" "a"; server_serial = pos 1; ts = 100 }
    ∷ record { entry = pending_send "bob" "b"; server_serial = pos 2; ts = 100 }
    ∷ []

flush_stores_example : flush no_devices (two_sends []) ≡ (
  outcome (two_sends []) (assign (pos 1) 100 (two_sends []).buffer),
  record (two_sends []) {
    db = record (database []) {
      messages = [] ++ rows_of "c" (assign (pos 1) 100 (two_sends []).buffer);
    };
    next_serial = some (pos 1 +ℤ pos (length (two_sends []).buffer));
    buffer = [];
    stored_buffer = none;
    stored_next_serial = some (print_int (pos 1 +ℤ pos (length (two_sends []).buffer)));
    sent =
        []
        ++ announced no_devices
            (two_sends [])
            (pos 1 +ℤ pos (length (two_sends []).buffer))
            (assign (pos 1) 100 (two_sends []).buffer);
  },
)
flush_stores_example =
    flush_stores no_devices (two_sends []) (pos 1) refl refl tt
      ((refl, (refl, tt)), ((((λ e. cc ((eq_iff "a" "b").1 e)), tt), (tt, tt)))) refl (λ e. cc e)

-- The second insert's request is lost twice.
abbrev lossy : List (Fate × ℕ)
lossy = (delivered, 5) ∷ (lost_request, 5) ∷ (lost_request, 5) ∷ []

lossy_state : IsSound (two_sends lossy)
lossy_state = record {
  distinct = tt;
  counter = λ n e. tt;
  stored_counter = λ text n e. cc e;
  heard = ((λ e. cc e), ((λ e. cc e), ((λ e. cc e), tt)));
}

flush-IsSound_example : IsSound (flush no_devices (two_sends lossy)).1
flush-IsSound_example = flush-IsSound no_devices (two_sends lossy) lossy_state

per_recipient_msgs_example :
    get_or (per_recipient "c" ("ann" ∷ "bob" ∷ []) both_assigned []) "ann" [] ≡ (
      if member ("ann" ∷ "bob" ∷ []) "ann"
      then map (msg_of "c") (keep_if (λ a. not (sent_by "ann" a)) both_assigned)
      else [])
per_recipient_msgs_example =
    per_recipient_msgs "c" "ann" ("ann" ∷ "bob" ∷ []) both_assigned
      (((λ e. cc ((eq_iff "ann" "bob").1 e)), tt), (tt, tt))

per_sender_acks_example :
    get_or (per_sender both_assigned []) "bob" []
    ≡ map ack_of (keep_if (sent_by "bob") both_assigned)
per_sender_acks_example = per_sender_acks "bob" both_assigned

abbrev one_send : SendInput
one_send = record {
  sender_id = "bob";
  client_msg_id = "x";
  ciphertext = 2 ∷ 9 ∷ [];
  nonce = [];
  unencrypted = false;
}

accept_send-evict_example :
    (buffered (accept_send one_send (two_sends [])).1
      ≡ buffered (two_sends []) ++ entry_of one_send 100 ∷ [])
    × (buffered (evict (accept_send one_send (two_sends [])).1)
        ≡ buffered (two_sends []) ++ entry_of one_send 100 ∷ [])
    × ((accept_send one_send (two_sends [])).1.flush_timer ≡ true)
accept_send-evict_example = accept_send-evict one_send (two_sends [])

accept_typing_gate_example : (accept_typing "eve" true (two_sends [])).1.sent ≡ (
    if is_allowed "eve" (two_sends []) then [] ++ typing_frames "eve" true (two_sends []) else [])
accept_typing_gate_example = accept_typing_gate "eve" true (two_sends []) refl

-- An inbox that rejects keeps the events back; the sends are stored and answered all the same.
rejecting_inbox : (flush no_devices (record (two_sends []) { unreachable = "bob" ∷ [] })).0 ≡ none
unfolding flush query insert_message ◌+ℤ◌ member of_array called_users per_sender push_to put
    per_recipient push_msgs load_attached
rejecting_inbox = refl

abbrev two_rows : Database
two_rows = database (chat_row 4 "a" 10 ∷ chat_row 9 "b" 20 ∷ [])

watermark-update_last_read_serial_example :
    ((update_last_read_serial "c" "bob" (pos 4) two_rows).0 ≡ is_int64 (pos 4))
    × (watermark "c" "bob" (update_last_read_serial "c" "bob" (pos 4) two_rows).1.members ≡ (
        if is_int64 (pos 4)
          && (("c" == "c") && ("bob" == "bob") && has_row "c" "bob" two_rows.members)
        then some (max_watermark (watermark "c" "bob" two_rows.members) (pos 4))
        else watermark "c" "bob" two_rows.members))
watermark-update_last_read_serial_example =
    watermark-update_last_read_serial "c" "bob" "c" "bob" (pos 4) two_rows

update_last_read_serial_comm_example :
    (update_last_read_serial "c" "bob"
      (pos 4)
      (update_last_read_serial "c" "bob" (pos 9) two_rows).1).1
    ≡ (update_last_read_serial "c" "bob"
        (pos 9)
        (update_last_read_serial "c" "bob" (pos 4) two_rows).1).1
update_last_read_serial_comm_example =
    update_last_read_serial_comm "c" "bob" (pos 4) (pos 9) two_rows

-- The serials and client message ids of the rows that a flush leaves.
abbrev stored_keys : Chat → List (ℤ × String)
stored_keys s = map (λ r. (r.server_serial, r.client_msg_id)) (flush no_devices s).1.db.messages

-- A reply that is lost makes a send stored twice, under one serial.
lost_reply_test :
    stored_keys (two_sends ((lost_reply, 5) ∷ [])) ≡ (pos 1, "a") ∷ (pos 1, "a") ∷ (pos 2, "b") ∷ []
unfolding flush query insert_message ◌+ℤ◌ of_array called_users per_sender push_to put per_recipient
    push_msgs load_attached
lost_reply_test = refl

-- After a flush that gives up on its second entry, the next one stores the first again.
partial_failure_test :
    stored_keys (flush no_devices (two_sends lossy)).1
    ≡ (pos 1, "a") ∷ (pos 2, "a") ∷ (pos 3, "b") ∷ []
unfolding flush query insert_message ◌+ℤ◌ of_array called_users per_sender push_to put per_recipient
    push_msgs load_attached
partial_failure_test = refl

-- If the object leaves memory in between, the counter that the last full flush put in storage is read
-- again, and its serial is given a second time.
stale_counter_test :
    stored_keys
      (evict (flush no_devices (record (two_sends lossy) { stored_next_serial = some "1" })).1)
    ≡ (pos 1, "a") ∷ (pos 1, "a") ∷ (pos 2, "b") ∷ []
unfolding flush evict query insert_message ◌+ℤ◌ big_int of_array called_users per_sender push_to put
    per_recipient push_msgs load_attached
stale_counter_test = refl
