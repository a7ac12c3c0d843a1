-- ===== src/Outbox/Worker.antt =====
-- packages/chat/src/outbox-worker.ts: one dispatch of a row of the outbox. The payload's decoder is a
-- package's and the transport's answer comes from outside, so both are parameters. The local
-- database does not fail.
use Prim.Native.String.{◌++◌ as concat}
use mortstack.Prelude.{
  ℕ, zero, suc, String, Bool, true, false, ◌==◌, ◌||◌, Option, none, some, List, [], ◌∷◌, ◌++◌, leb,
  if◌then◌else◌,
}
use mortstack.Js.Pattern.{mentions}
use mortstack.Js.Dict.{Dict}
use mortstack.Js.Value.{Value, object, text, null, undefined, property}
use mortstack.Store.{Store}
use mortstack.Store.Messages.{confirm_optimistic_message, fail_optimistic_message}
use mortstack.Store.Reactions.{confirm_reaction, fail_reaction}
use mortstack.Outbox.{
  PendingOutboxRow, mark_sent, mark_failed, mark_permanently_failed, due, requeue,
}
use mortstack.Chat.Fanout.{push_to}

abbrev pub max_attempts : ℕ
max_attempts = 5

abbrev pub tick_limit : ℕ
tick_limit = 20

-- `BACKOFFS_MS` at the index of `backoffFor`
unfoldable pub backoff_for : ℕ → ℕ
backoff_for zero = 5000
backoff_for (suc zero) = 5000
backoff_for (suc (suc zero)) = 30000
backoff_for (suc (suc (suc zero))) = 120000
backoff_for (suc (suc (suc (suc n)))) = 600000

-- `/group not found/i.test(reason)`
unfoldable pub is_terminal_send_reason : String → Bool
unfolding mentions
is_terminal_send_reason reason = mentions "group not found" reason

-- What `transport.send` comes to: its first result, no result, or an exception with its text.
pub data SendOutcome : Type 0 where
  acked : String → ℕ → SendOutcome
  no_results : SendOutcome
  rejected : String → SendOutcome

-- What the row asks the transport to send; `fault` is a payload that decodes to no object at all, so that
-- the first read of a property throws.
pub data Payload : Type 0 where
  message : String → Payload
  reaction : String → String → String → Payload
  bad_reaction bad_message : Payload
  corrupt : String → Payload
  fault : Payload

abbrev text_of : Value → Option String
text_of (text s) = some s
text_of _ = none

abbrev is_op : String → Bool
is_op op = (op == "add") || (op == "del")

read_reaction : Option String → Option String → Option String → Payload
read_reaction (some target) (some emoji) (some op) =
    if is_op op then reaction target emoji op else bad_reaction
read_reaction _ _ _ = bad_reaction

read_message : Option String → Payload
read_message (some t) = message t
read_message none = bad_message

-- A decoded payload: a reaction by its kind, else a message by its text.
unfoldable pub read_payload : Value → Payload
unfolding read_reaction read_message property
read_payload (object fs) = elim (text_of (property fs "kind")) [
  | none ↦ read_message (text_of (property fs "text"))
  | some kind ↦
      if kind == "rx"
      then read_reaction (text_of (property fs "target")) (text_of (property fs "emoji"))
          (text_of (property fs "op"))
      else read_message (text_of (property fs "text"))
]
read_payload null = fault
read_payload undefined = fault
read_payload _ = bad_message

pub record Worker : Type 0 where
  pub outbox : List PendingOutboxRow
  pub store : Store
  pub clock : ℕ
  pub transient_failures : List (String × String)
  pub terminal_failures : List (String × String)

unfoldable pub fail_forever :
    (String → String → Store → Store) → PendingOutboxRow → String → Worker → Worker
fail_forever fail row reason w = record w {
  outbox = mark_permanently_failed row.id reason w.outbox;
  store = fail row.chat_id row.id w.store;
  terminal_failures = w.terminal_failures ++ (row.id, reason) ∷ [];
}

-- The `catch` of a send.
unfoldable pub send_failed :
    (String → String → Store → Store) → PendingOutboxRow → String → Worker → Worker
unfolding fail_forever is_terminal_send_reason backoff_for
send_failed fail row reason w =
    if leb max_attempts (suc row.attempts) || is_terminal_send_reason reason
    then fail_forever fail row reason w
    else record w {
      outbox = mark_failed row.id reason (backoff_for (suc row.attempts)) w.clock w.outbox;
      transient_failures = w.transient_failures ++ (row.id, reason) ∷ [];
    }

unfoldable pub settle :
    (String → String → Store → Store)
    → (String → ℕ → Store → Store)
    → PendingOutboxRow
    → SendOutcome
    → Worker
    → Worker
unfolding send_failed
settle fail confirm row (acked serial ts) w = record w {
  outbox = mark_sent row.id w.outbox;
  store = confirm serial ts w.store;
}
settle fail confirm row no_results w = send_failed fail row "transport returned no results" w
settle fail confirm row (rejected reason) w = send_failed fail row reason w

-- Whether the dispatch came to its end, and the state that it leaves.
unfoldable pub dispatch_payload :
    (Payload → SendOutcome) → PendingOutboxRow → Payload → Worker → Bool × Worker
unfolding settle fail_forever
dispatch_payload transport row fault w = (false, w)
dispatch_payload transport row (corrupt reason) w =
    (true, fail_forever fail_optimistic_message row reason w)
dispatch_payload transport row bad_reaction w =
    (true, fail_forever fail_reaction row "reaction payload missing/invalid target|emoji|op" w)
dispatch_payload transport row bad_message w =
    (true, fail_forever fail_optimistic_message row "payload missing required `text` field" w)
dispatch_payload transport row (reaction target emoji op) w = (
  true,
  settle fail_reaction (λ serial ts. confirm_reaction row.chat_id row.id) row
      (transport (reaction target emoji op)) w,
)
dispatch_payload transport row (message t) w = (
  true,
  settle fail_optimistic_message (confirm_optimistic_message row.chat_id row.id) row
      (transport (message t)) w,
)

-- `decode` gives the error's text where it throws.
pub data Decoded : Type 0 where
  value : Value → Decoded
  threw : String → Decoded

abbrev pub payload_of : Decoded → Payload
payload_of (value v) = read_payload v
payload_of (threw error) = corrupt (concat "invalid msgpack payload: " error)

module _ (decode : List ℕ → Decoded)
    (transport : PendingOutboxRow → ℕ → Payload → SendOutcome) where
  unfoldable pub dispatch_one : PendingOutboxRow → Worker → Bool × Worker
  unfolding dispatch_payload read_payload
  dispatch_one row w =
      dispatch_payload (transport row w.clock) row (payload_of (decode row.payload)) w

  -- The rows of a chat, up to one whose dispatch throws.
  unfoldable pub process_chat : List PendingOutboxRow → Worker → Worker
  unfolding dispatch_one
  process_chat [] w = w
  process_chat (row ∷ rows) w =
      let (finished, v) = dispatch_one row w in
      elim finished [ true ↦ process_chat rows v | false ↦ v ]

  -- The rows by chat, in the order in which a chat comes first.
  by_chat : List PendingOutboxRow → Dict (List PendingOutboxRow) → Dict (List PendingOutboxRow)
  by_chat [] m = m
  by_chat (row ∷ rows) m = by_chat rows (push_to row.chat_id row m)

  process_chats : Dict (List PendingOutboxRow) → Worker → Worker
  unfolding process_chat
  process_chats [] w = w
  process_chats ((chat, rows) ∷ chats) w = process_chats chats (process_chat rows w)

  -- A tick of a worker that runs, with no other tick under way; one chat after the other.
  unfoldable pub tick : Worker → Worker
  unfolding by_chat process_chats
  tick w = process_chats (by_chat (due tick_limit w.clock w.outbox) []) w

unfoldable pub retry : String → Worker → Worker
retry id w = record w { outbox = requeue id w.clock w.outbox }
