-- ===== src/Sealed/Pages.antt =====
-- packages/chat/src/encrypted-transport.ts: a page of the backfill.
use mortstack.Prelude.{
  ℕ, suc, String, Bool, false, Option, none, some, List, [], ◌∷◌, ◌++◌, ℤ, pos, ◌-ℤ◌, ltb_ℤ,
  if◌then◌else◌,
}
use mortstack.Js.BigInt.{big_int, print_int}
use mortstack.Envelope.{BackfilledMessage, BfdFrame, MsgPayload}
use mortstack.Pipe.{ChatFrame, msg, rx, Packages}
use mortstack.Sealed.{
  TransportOptions, DecryptOutcome, ok, failed, is_recoverable_decrypt_reason, decrypt_one,
}

-- One decrypted row, a message or a reaction.
pub record DecryptedRow : Type 0 where
  pub chat_id : String
  pub server_msg_id : String
  pub sender_id : String
  pub frame : ChatFrame
  pub is_version_2 : Bool
  pub ts : ℕ

pub record DecryptedBackfill : Type 0 where
  pub chat_id : String
  pub messages : List DecryptedRow
  pub reactions : List DecryptedRow
  pub up_to : String
  pub more : Bool

-- The variables of the loop.
pub record Loop : Type 0 where
  pub messages : List DecryptedRow
  pub reactions : List DecryptedRow
  pub dropped : ℕ
  pub blocked_at : Option String

unfoldable pub as_msg : String → BackfilledMessage → MsgPayload
as_msg chat_id row = record {
  chat_id = chat_id;
  server_msg_id = row.server_msg_id;
  sender_id = row.sender_id;
  ciphertext = row.ciphertext;
  nonce = row.nonce;
  ts = row.ts;
  unencrypted = false;
}

unfoldable pub decrypted_row : String → BackfilledMessage → ChatFrame → Bool → DecryptedRow
decrypted_row chat_id row frame is_version_2 = record {
  chat_id = chat_id;
  server_msg_id = row.server_msg_id;
  sender_id = row.sender_id;
  frame = frame;
  is_version_2 = is_version_2;
  ts = row.ts;
}

unfoldable pub block : Option String → String → String → Option String
block (some serial) id reason = some serial
block none id reason = if is_recoverable_decrypt_reason reason then some id else none

-- the rest of the loop's body, once the row is decrypted
unfoldable pub add_row : String → BackfilledMessage → DecryptOutcome → Loop → Loop
unfolding decrypted_row block
add_row chat_id row (failed reason) l = record l {
  dropped = suc l.dropped;
  blocked_at = block l.blocked_at row.server_msg_id reason;
}
add_row chat_id row (ok (msg v ts t s) two) l = record l {
  messages = l.messages ++ decrypted_row chat_id row (msg v ts t s) two ∷ [];
}
add_row chat_id row (ok (rx v ts t em op) two) l = record l {
  reactions = l.reactions ++ decrypted_row chat_id row (rx v ts t em op) two ∷ [];
}

lower : String → Option ℤ → Option ℤ → String → Option String
lower capped (some low) (some high) up_to = some (if ltb_ℤ low high then capped else up_to)
lower capped _ _ up_to = none

cap_at : Option ℤ → String → Option String
unfolding lower
cap_at none up_to = none
cap_at (some at) up_to =
    let capped = print_int (at -ℤ pos 1) in lower capped (big_int capped) (big_int up_to) up_to

-- `upTo`, capped below the row that blocks; `none` where `BigInt` throws
unfoldable pub cap : Option String → String → Option String
unfolding cap_at
cap none up_to = some up_to
cap (some id) up_to = cap_at (big_int id) up_to

unfoldable pub is_more : Option String → Bool → Bool
is_more none more = more
is_more (some id) more = false

unfoldable pub built : BfdFrame → Loop → String → DecryptedBackfill
unfolding is_more
built bfd l up_to = record {
  chat_id = bfd.chat_id;
  messages = l.messages;
  reactions = l.reactions;
  up_to = up_to;
  more = is_more l.blocked_at bfd.more;
}

unfoldable pub page_of : BfdFrame → Loop → Option String → Option DecryptedBackfill
unfolding built
page_of bfd l none = none
page_of bfd l (some up_to) = some (built bfd l up_to)

module _ {E : Type 0} (c : Packages E) (o : TransportOptions) where
  unfoldable pub decrypt_rows : String → List BackfilledMessage → E → Loop → E × Loop
  unfolding add_row as_msg
  decrypt_rows chat_id [] e l = (e, l)
  decrypt_rows chat_id (row ∷ rows) e l =
      let (e', outcome) = decrypt_one c o e (as_msg chat_id row) in
      decrypt_rows chat_id rows e' (add_row chat_id row outcome l)

  -- With the engine after it; `none` is an exception.
  unfoldable pub decrypt_backfill : BfdFrame → E → E × Option DecryptedBackfill
  unfolding decrypt_rows page_of cap
  decrypt_backfill bfd e =
      let (e', l) =
        decrypt_rows bfd.chat_id bfd.messages e
          (record { messages = []; reactions = []; dropped = 0; blocked_at = none }) in
      (e', page_of bfd l (cap l.blocked_at bfd.up_to))
