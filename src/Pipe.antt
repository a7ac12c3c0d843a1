-- ===== src/Pipe.antt =====
-- packages/chat/src/crypto-pipe.ts: the frames inside a message. The codec, the box and the MLS engine
-- are packages, so they are a parameter.
pub mod Seal
pub mod Open
pub mod RoundTrip
use Prim.Native.String.{◌++◌ as concat}
use mortstack.Prelude.{
  ℕ, String, Bool, true, false, ◌==◌, Option, none, some, List, not, ◌&&◌, ◌||◌, ℤ, pos, int_eq,
  if◌then◌else◌,
}
use mortstack.Js.Text.{print_nat}
use mortstack.Js.Try.{Try, gave, threw}
use mortstack.Js.Value.{
  Value, Fields, undefined, number, text, object, end, field, property, has_property,
}

abbrev pub frame_version_v1 : ℕ
frame_version_v1 = 1

abbrev pub frame_version_v2 : ℕ
frame_version_v2 = 2

pub data Op : Type 0 where
  add del : Op

-- The fields `v` and `ts` come first.
pub data ChatFrame : Type 0 where
  msg : ℕ → ℤ → String → Option String → ChatFrame
  rx : ℕ → ℤ → String → String → Op → ChatFrame

pub data ChatFrameBody : Type 0 where
  msg : String → Option String → ChatFrameBody
  rx : String → String → Op → ChatFrameBody

pub data Processed : Type 0 where
  application : List ℕ → Processed
  commit_applied proposal_queued : Processed

-- `E` is what the MLS engine keeps. `box` is given the number of boxes made before, which stands for
-- the nonce that it draws; `show` is `String(x)` of a value.
pub record Packages (E : Type 0) : Type 0 where
  pub encode : Value → List ℕ
  pub decode : List ℕ → Try Value
  pub show : Value → String
  pub box : ℕ → List ℕ → List ℕ → List ℕ → List ℕ × List ℕ
  pub box_open : List ℕ → List ℕ → List ℕ → List ℕ → Try (List ℕ)
  pub encrypt_app : E → List ℕ → List ℕ → E × Try (List ℕ)
  pub process_message : E → List ℕ → List ℕ → E × Try Processed

-- `String(new DecryptError(message))`
unfoldable pub decrypt_error : {A : Type 0} → String → Try A
decrypt_error message = threw (concat "DecryptError: " message)

unfoldable pub build_frame : ℕ → ℤ → ChatFrameBody → ChatFrame
build_frame v ts (rx target emoji op) = rx v ts target emoji op
build_frame v ts (msg t sender) = msg v ts t sender

unfoldable pub op_text : Op → String
op_text add = "add"
op_text del = "del"

-- The object that `encode` gets: a message has no `kind`, and no `sender` that is undefined.
unfoldable pub value_of : ChatFrame → Value
unfolding op_text
value_of (msg v ts t none) =
    object (field "v" (number (pos v)) (field "ts" (number ts) (field "text" (text t) end)))
value_of (msg v ts t (some sender)) = object (
    field "v" (number (pos v))
      (field "ts" (number ts) (field "text" (text t) (field "sender" (text sender) end))))
value_of (rx v ts target emoji op) = object (
    field "v" (number (pos v)) (
      field "ts" (number ts) (
        field "kind" (text "rx") (
          field "target" (text target)
            (field "emoji" (text emoji) (field "op" (text (op_text op)) end))))))

is_version : ℕ → Value → Bool
is_version v (number n) = int_eq n (pos v)
is_version v _ = false

is_reaction : Value → Bool
is_reaction (text k) = k == "rx"
is_reaction _ = false

read_op : String → Try Op
read_op op =
    if op == "add"
    then gave add
    else if op == "del"
    then gave del
    else decrypt_error "reaction frame missing/invalid target|emoji|op"

with_op : ℕ → ℤ → String → String → Try Op → Try ChatFrame
with_op v ts target emoji (gave op) = gave (rx v ts target emoji op)
with_op v ts target emoji (threw e) = threw e

read_rx : ℕ → ℤ → Value → Value → Value → Try ChatFrame
unfolding read_op with_op decrypt_error
read_rx v ts (text target) (text emoji) (text op) = with_op v ts target emoji (read_op op)
read_rx v ts _ _ _ = decrypt_error "reaction frame missing/invalid target|emoji|op"

read_msg : ℕ → ℤ → Value → Value → Try ChatFrame
unfolding decrypt_error
read_msg v ts (text t) undefined = gave (msg v ts t none)
read_msg v ts (text t) (text sender) = gave (msg v ts t (some sender))
read_msg v ts (text t) _ = decrypt_error "frame.sender, when present, must be a string"
read_msg v ts _ _ = decrypt_error "frame field types mismatch"

read_body : ℕ → Value → Fields → Try ChatFrame
unfolding decrypt_error read_rx read_msg is_reaction
read_body v (number ts) f =
    if is_reaction (property f "kind")
    then read_rx v ts (property f "target") (property f "emoji") (property f "op")
    else read_msg v ts (property f "text") (property f "sender")
read_body v _ f = decrypt_error "frame field types mismatch"

-- The checks of `parseFrame` after the decoding; `show` is `String(f.v)`.
unfoldable pub parse_value : (Value → String) → ℕ → Value → Try ChatFrame
unfolding decrypt_error read_body is_version
parse_value show v (object f) =
    if not (has_property f "v" && has_property f "ts")
    then decrypt_error "decrypted payload missing required frame fields"
    else if not (is_version v (property f "v"))
    then decrypt_error (
        concat "plaintext frame.v="
          (concat (show (property f "v")) (concat " disagrees with wire version=" (print_nat v))))
    else read_body v (property f "ts") f
parse_value show v _ = decrypt_error "decrypted payload missing required frame fields"

parse_decoded : (Value → String) → ℕ → Try Value → Try ChatFrame
unfolding parse_value decrypt_error
parse_decoded show v (gave d) = parse_value show v d
parse_decoded show v (threw e) =
    decrypt_error (concat "msgpack decode failed after successful crypto open: " e)

unfoldable pub parse_frame : {E : Type 0} → Packages E → List ℕ → ℕ → Try ChatFrame
unfolding parse_decoded
parse_frame c plaintext v = parse_decoded c.show v (c.decode plaintext)
