-- ===== src/Examples/Queue.antt =====
-- A waiting send that the transport rejects for the fifth time, and a cursor that is set.
use mortstack.Js.Dict.{Dict, get, put}
use mortstack.Cursors.{get_cursor, set_cursor, further, get_cursor-set_cursor}
use mortstack.Prelude.{
  ◌≡◌, refl, some, ◌==◌, if◌then◌else◌, ℕ, String, inl, false, none, List, [], ◌∷◌, All, arith,
}
use mortstack.Js.Value.{object, field, end, text}
use mortstack.Store.{Store, idle}
use mortstack.Outbox.{PendingOutboxRow}
use mortstack.Outbox.Worker.{Worker, Payload, Decoded, value, SendOutcome, rejected, dispatch_one}
use mortstack.Outbox.Attempts.{IsBounded, dispatch_one-IsBounded}

abbrev waiting : String → ℕ → PendingOutboxRow
waiting id attempts = record {
  id = id;
  chat_id = "c";
  payload = [];
  idempotency_key = id;
  attempts = attempts;
  next_attempt_at = 0;
  created_at = 0;
  last_error = none;
}

abbrev store : Store
store = record {
  chats = [];
  chat_order = [];
  messages = [];
  reactions = [];
  typing = [];
  read_receipts = [];
  bootstrap_status = idle;
  bootstrap_error = none;
  has_persist_api = false;
  persisted = [];
}

abbrev worker : Worker
worker = record {
  outbox = waiting "a" 4 ∷ waiting "b" 0 ∷ [];
  store = store;
  clock = 700;
  transient_failures = [];
  terminal_failures = [];
}

abbrev decode_hi : List ℕ → Decoded
decode_hi payload = value (object (field "text" (text "hi") end))

abbrev offline : PendingOutboxRow → ℕ → Payload → SendOutcome
offline row now payload = rejected "offline"

dispatch_one-IsBounded_example :
    All IsBounded (dispatch_one decode_hi offline (waiting "a" 4) worker).1.outbox
dispatch_one-IsBounded_example =
    dispatch_one-IsBounded decode_hi offline (waiting "a" 4) worker ((λ e. refl), ((λ e. cc e), tt))
      (inl (omega arith), (inl (omega arith), tt))

abbrev cursors : Dict String
cursors = ("c", "9") ∷ []

get_cursor-set_cursor_example :
    get_cursor "c" (set_cursor "c" "10" cursors)
    ≡ (if "c" == "c" then some (further (get_cursor "c" cursors) "10") else get_cursor "c" cursors)
get_cursor-set_cursor_example = get_cursor-set_cursor "c" "c" "10" cursors

cursor_test : get_cursor "c" (set_cursor "c" "10" cursors) ≡ some "10"
unfolding get_cursor set_cursor get put
cursor_test = refl
