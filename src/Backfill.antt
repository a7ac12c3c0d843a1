-- ===== src/Backfill.antt =====
-- services/chat-ws/src/durable/backfill.ts, and the client's loop over the pages
-- (packages/chat/src/provider.tsx). A read that rejects is `none`, as is an exception.
pub mod Page
pub mod Pending
pub mod CatchUp
pub mod Complete
pub mod Gate
use mathlib.Core.Option
use Prim.Native.String.{◌++◌ as concat}
use mortstack.Prelude.{
  ℕ, zero, suc, ◌+◌, String, Bool, true, false, not, ◌&&◌, Option, none, some, List, [], ◌∷◌, ◌++◌,
  map, ℤ, ltb, leb_ℤ, length, take, get_last?, if◌then◌else◌,
}
use mortstack.Js.BigInt.{big_int, print_int}
use mortstack.Envelope.{BackfilledMessage, BfdFrame}
use mortstack.Persist.{MessageRow, Database, messages_since}
use mortstack.Validators.{BackfillRequest}

abbrev pub backfill_page_size : ℕ
backfill_page_size = 200

-- What a read of the key-value cache comes to.
pub data KvAnswer : Type 0 where
  failed missing : KvAnswer
  found : String → KvAnswer

pub record BackfillDeps : Type 0 where
  pub kv_get : Option (String → KvAnswer)
  pub messages_since : String → String → ℤ → ℕ → Option (List MessageRow)

pub record BackfillPageResult : Type 0 where
  pub frame : BfdFrame
  pub skipped : Bool
  pub rows : ℕ

-- `kvMax !== null && BigInt(kvMax) <= after`; an exception leaves `skipped` false.
kv_covers : KvAnswer → ℤ → Bool
kv_covers failed after = false
kv_covers missing after = false
kv_covers (found kv_max) after = elim (big_int kv_max) [ none ↦ false | some m ↦ leb_ℤ m after ]

unfoldable pub skips : BackfillDeps → BackfillRequest → ℤ → Bool
unfolding kv_covers
skips deps c after = if c.force then false else elim deps.kv_get [
  | none ↦ false
  | some get ↦ kv_covers (get (concat "chatmax:" c.chat_id)) after
]

-- The wire shape of a row.
abbrev pub backfilled : MessageRow → BackfilledMessage
backfilled r = record {
  server_msg_id = print_int r.server_serial;
  sender_id = r.sender_id;
  ciphertext = r.ciphertext;
  nonce = r.nonce;
  ts = r.created_at;
}

unfoldable pub page_of : BackfillRequest → List MessageRow → BackfillPageResult
page_of c rows =
    let more = ltb backfill_page_size (length rows) in
    let served = if more then take backfill_page_size rows else rows in
    record {
      frame = record {
        chat_id = c.chat_id;
        messages = map backfilled served;
        up_to = elim (get_last? served) [ none ↦ c.after | some r ↦ print_int r.server_serial ];
        more = more;
      };
      skipped = false;
      rows = length served;
    }

unfoldable pub skipped_page : BackfillRequest → BackfillPageResult
skipped_page c = record {
  frame = record { chat_id = c.chat_id; messages = []; up_to = c.after; more = false };
  skipped = true;
  rows = 0;
}

unfoldable pub resolve_backfill_page :
    BackfillDeps → String → BackfillRequest → Option BackfillPageResult
unfolding skips page_of skipped_page
resolve_backfill_page deps user_id c = elim (big_int c.after) [
  | none ↦ none
  | some after ↦
      if skips deps c after
      then some (skipped_page c)
      else Option.map (page_of c)
          (deps.messages_since c.chat_id user_id after (backfill_page_size + 1))
]

-- `backfillChat` of durable/user-inbox.ts: the cache, if it is bound, and the query on the tables.
unfoldable pub neon_deps : Option (String → KvAnswer) → Database → BackfillDeps
neon_deps cache db = record {
  kv_get = cache;
  messages_since = λ chat user after limit. some (messages_since chat user after limit db);
}

-- The client's loop: each page is ingested, and while `more` is set the next page is requested from
-- `upTo`, with no `force`. The result is what was ingested; `none` means that a page failed or
-- that the fuel ran out.
unfoldable pub catch_up :
    ℕ → BackfillDeps → String → BackfillRequest → Option (List BackfilledMessage)
catch_up zero deps user_id c = none
catch_up (suc fuel) deps user_id c = elim (resolve_backfill_page deps user_id c) [
  | none ↦ none
  | some page ↦ elim page.frame.more [
    | false ↦ some page.frame.messages
    | true ↦
        Option.map (λ later. page.frame.messages ++ later)
          (catch_up fuel deps user_id
            (record { chat_id = page.frame.chat_id; after = page.frame.up_to; force = false }))
  ]
]
