-- ===== src/Examples/Frames.antt =====
-- Frames from a client.
use mortstack.Prelude.{
  ◌≡◌, ◌≤◌, ◌↔◌, refl, true, false, not, ◌&&◌, ◌==◌, none, some, [], ◌∷◌, length, any, All,
}
use mortstack.Js.Value.{Value, bytes, text, object, array, field, end, cons, nil, undefined}
use mortstack.Js.Unique.{member}
use mortstack.Envelope.{SendFrame}
use mortstack.Validators.{
  valid, validate_send_frame, validate_backfill_frame, requests_of, max_backfill_chats,
}
use mortstack.Validators.Send.{IsSendable, validate_send_frame_iff}
use mortstack.Validators.Backfill.{IsReadable, validate_backfill_frame-IsReadable}
use mortstack.Inbox.{Inbox, Socket, attached_device_ids}
use mortstack.Inbox.Devices.{carries, member-attached_device_ids}
use mortstack.Inbox.Frames.{subscribed, handle_subscribe}
use mortstack.Inbox.Subscriptions.{replay, handle_subscribe_follows}

abbrev mls_frame : SendFrame
mls_frame = record {
  chat_id = "c";
  client_msg_id = "m";
  ciphertext = bytes (2 ∷ 9 ∷ []);
  nonce = bytes [];
  unencrypted = undefined;
}

validate_send_frame_iff_example : (validate_send_frame mls_frame ≡ valid) ↔ IsSendable mls_frame
validate_send_frame_iff_example = validate_send_frame_iff mls_frame

abbrev one_cursor : Value
one_cursor = array (cons (object (field "chatId" (text "c") (field "after" (text "12") end))) nil)

validate_backfill_frame-IsReadable_example :
    (1 ≤ length (requests_of one_cursor))
    × (length (requests_of one_cursor) ≤ max_backfill_chats)
    × All IsReadable (requests_of one_cursor)
unfolding validate_backfill_frame
validate_backfill_frame-IsReadable_example = validate_backfill_frame-IsReadable one_cursor refl

abbrev inbox : Inbox
inbox = record {
  subscriptions = some ("a" ∷ "b" ∷ []);
  sockets =
      record {
        id = 1;
        is_open = true;
        is_alive = true;
        attachment = some (record { user_id = "ann"; device_id = "phone"; conn_id = "x" });
      }
      ∷ [];
  answers = λ chat. true;
  db = record { messages = []; members = [] };
  max_cache = none;
  written = [];
  calls = mortstack.Inbox.attach_inbox "a" "ann" ∷ mortstack.Inbox.attach_inbox "b" "ann" ∷ [];
  closed = [];
}

handle_subscribe_follows_example :
    ((handle_subscribe "ann" ("b" ∷ "c" ∷ []) inbox).0 ≡ some tt)
    × (member (subscribed (handle_subscribe "ann" ("b" ∷ "c" ∷ []) inbox).1) "a"
        ≡ member ("b" ∷ "c" ∷ []) "a")
    × (replay (handle_subscribe "ann" ("b" ∷ "c" ∷ []) inbox).1.calls "a" false
        ≡ member ("b" ∷ "c" ∷ []) "a")
unfolding member
handle_subscribe_follows_example =
    handle_subscribe_follows "ann" "a" ("b" ∷ "c" ∷ []) inbox (λ c. refl) refl

member-attached_device_ids_example :
    member (attached_device_ids inbox) "phone"
    ≡ (not ("phone" == "") && any (carries "phone") inbox.sockets)
member-attached_device_ids_example = member-attached_device_ids inbox "phone"
