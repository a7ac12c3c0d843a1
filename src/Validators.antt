-- ===== src/Validators.antt =====
-- services/chat-ws/src/validators.ts: the checks of inbound `send` and `bf` frames.
pub mod Send
pub mod Backfill
use Prim.Native.String.{◌++◌}
use mortstack.Prelude.{
  ℕ, suc, String, Bool, true, false, not, ◌&&◌, ◌==◌, Option, none, some, List, [], ◌∷◌, length,
  map, all, ltb, nat_eq, if◌then◌else◌,
}
use mortstack.Js.Text.{codes, is_digit, print_nat, print_byte_hex}
use mortstack.Js.Value.{
  Value, undefined, boolean, text, bytes, array, object, Fields, end, elements, property,
}
use mortstack.Envelope.{SendFrame}

abbrev pub nonce_bytes : ℕ
nonce_bytes = 24

abbrev pub box_mac_bytes : ℕ
box_mac_bytes = 16

abbrev pub min_ciphertext_bytes : ℕ
min_ciphertext_bytes = suc box_mac_bytes

abbrev pub frame_version_v1 : ℕ
frame_version_v1 = 0x01

abbrev pub frame_version_v2 : ℕ
frame_version_v2 = 0x02

abbrev pub min_mls_ciphertext_bytes : ℕ
min_mls_ciphertext_bytes = 2

pub data ValidateResult : Type 0 where
  valid : ValidateResult
  invalid : String → ValidateResult

-- `v instanceof Uint8Array`
abbrev pub is_bytes : Value → Bool
is_bytes (bytes b) = true
is_bytes _ = false

abbrev pub as_bytes : Value → List ℕ
as_bytes (bytes b) = b
as_bytes _ = []

-- `v === true`
abbrev pub is_true : Value → Bool
is_true (boolean b) = b
is_true _ = false

-- The checks by version byte, from the empty ciphertext on.
validate_versioned : List ℕ → List ℕ → ValidateResult
unfolding print_nat print_byte_hex
validate_versioned [] nonce = invalid "ciphertext empty (no version byte)"
validate_versioned (version ∷ rest) nonce =
    let size = suc (length rest) in
    if nat_eq version frame_version_v2
    then (if not (nat_eq (length nonce) 0)
        then invalid ("v=2 nonce must be 0 bytes, got " ++ print_nat (length nonce))
        else if ltb size min_mls_ciphertext_bytes
        then invalid ("v=2 ciphertext must be at least 2 bytes, got " ++ print_nat size)
        else valid)
    else if nat_eq version frame_version_v1
    then (if not (nat_eq (length nonce) nonce_bytes)
        then invalid ("v=1 nonce must be 24 bytes, got " ++ print_nat (length nonce))
        else if ltb size min_ciphertext_bytes
        then invalid ("v=1 ciphertext must be at least 17 bytes (MAC + 1), got " ++ print_nat size)
        else valid)
    else invalid ("unknown frame version byte: 0x" ++ print_byte_hex version)

unfoldable pub validate_send_frame : SendFrame → ValidateResult
unfolding validate_versioned
validate_send_frame frame =
    if is_true frame.unencrypted
    then (if not (is_bytes frame.ciphertext)
        then invalid "ciphertext must be Uint8Array"
        else if not (is_bytes frame.nonce)
        then invalid "nonce must be Uint8Array"
        else valid)
    else if not (is_bytes frame.nonce)
    then invalid "nonce must be Uint8Array"
    else if not (is_bytes frame.ciphertext)
    then invalid "ciphertext must be Uint8Array"
    else validate_versioned (as_bytes frame.ciphertext) (as_bytes frame.nonce)

abbrev pub max_backfill_chats : ℕ
max_backfill_chats = 500

-- `/^\d+$/`
abbrev pub serial_cursor : String → Bool
serial_cursor s = not (s == "") && all is_digit (codes s)

-- The properties that a read of `entry` can see; `none` where `typeof` is not "object" or it is null.
abbrev entry_fields : Value → Option Fields
entry_fields (object fs) = some fs
entry_fields (array vs) = some end
entry_fields (bytes b) = some end
entry_fields _ = none

abbrev is_filled_text : Value → Bool
is_filled_text (text s) = not (s == "")
is_filled_text _ = false

abbrev is_cursor : Value → Bool
is_cursor (text s) = serial_cursor s
is_cursor _ = false

abbrev is_optional_boolean : Value → Bool
is_optional_boolean undefined = true
is_optional_boolean (boolean b) = true
is_optional_boolean _ = false

-- One round of the loop over the entries; `valid` goes on to the next.
validate_entry : Value → ValidateResult
unfolding property
validate_entry entry = elim (entry_fields entry) [
  | none ↦ invalid "chat entry must be an object"
  | some c ↦
      if not (is_filled_text (property c "chatId"))
      then invalid "chatId must be a non-empty string"
      else if not (is_cursor (property c "after"))
      then invalid "after must be a decimal cursor string"
      else if not (is_optional_boolean (property c "force"))
      then invalid "force must be a boolean when present"
      else valid
]

validate_entries : List Value → ValidateResult
unfolding validate_entry
validate_entries [] = valid
validate_entries (entry ∷ rest) =
    let later = validate_entries rest in
    elim (validate_entry entry) [ valid ↦ later | invalid reason ↦ invalid reason ]

unfoldable pub validate_backfill_frame : Value → ValidateResult
unfolding validate_entries print_nat
validate_backfill_frame (array items) =
    let chats = elements items in
    if nat_eq (length chats) 0
    then invalid "chats empty"
    else if ltb max_backfill_chats (length chats)
    then invalid ("chats exceeds max 500, got " ++ print_nat (length chats))
    else validate_entries chats
validate_backfill_frame _ = invalid "chats must be an array"

-- One chat's cursor of a `bf` frame.
pub record BackfillRequest : Type 0 where
  pub chat_id : String
  pub after : String
  pub force : Bool

abbrev as_text : Value → String
as_text (text s) = s
as_text _ = ""

abbrev request_of : Fields → BackfillRequest
request_of c = record {
  chat_id = as_text (property c "chatId");
  after = as_text (property c "after");
  force = is_true (property c "force");
}

abbrev as_fields : Value → Fields
as_fields (object fs) = fs
as_fields _ = end

-- How the code reads `env.chats` once the frame is validated.
unfoldable pub requests_of : Value → List BackfillRequest
unfolding property
requests_of (array items) = map (λ v. request_of (as_fields v)) (elements items)
requests_of _ = []
