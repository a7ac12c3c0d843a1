-- ===== src/Sealed/Sends.antt =====
-- packages/chat/src/encrypted-transport.ts: what a send hands to the transport. The names of the
-- packages' and options' answers are those of the parents.
use Prim.Native.String.{◌++◌ as concat}
use mortstack.Prelude.{
  ℕ, String, Bool, true, false, ◌==◌, Option, none, some, List, [], ◌∷◌, map, ℤ, if◌then◌else◌,
}
use mortstack.Js.Try.{Try, gave, threw}
use mortstack.Transport.{SendInput}
use mortstack.Pipe.{ChatFrameBody, Op, Packages}
use mortstack.Pipe.Seal.{FanoutTarget, OutboundEnvelope, encrypt_outbound, encrypt_outbound_mls}
use mortstack.Sealed.{TransportOptions}

pub data Content : Type 0 where
  text : String → Content
  reaction : String → String → Op → Content

pub record EncryptedSendInput : Type 0 where
  pub chat_id : String
  pub targets : List FanoutTarget
  pub client_msg_id : Option String
  pub content : Content

named : String → Option String → ChatFrameBody
named t none = ChatFrameBody.msg t none
named t (some sender) =
    if sender == "" then ChatFrameBody.msg t none else ChatFrameBody.msg t (some sender)

-- `name` is the answer of `getMyDisplayName`, `none` where it has none or fails.
unfoldable pub frame_body : Content → Bool → Option String → ChatFrameBody
unfolding named
frame_body (reaction target emoji op) with_sender name = ChatFrameBody.rx target emoji op
frame_body (text t) true name = named t name
frame_body (text t) false name = ChatFrameBody.msg t none

-- an id that is not given, or empty, is left out
given_id : Option String → Option String
given_id none = none
given_id (some id) = if id == "" then none else some id

device_id_of : Option String → String → Option String
unfolding given_id
device_id_of id device = elim (given_id id) [
  | none ↦ none
  | some base ↦ some (concat base (concat ":" device))
]

unfoldable pub device_send : EncryptedSendInput → OutboundEnvelope → SendInput
unfolding device_id_of
device_send input env = record {
  chat_id = input.chat_id;
  ciphertext = env.ciphertext;
  nonce = env.nonce;
  client_msg_id = device_id_of input.client_msg_id env.recipient_device_id;
}

unfoldable pub group_send : EncryptedSendInput → List ℕ → SendInput
unfolding given_id
group_send input wire = record {
  chat_id = input.chat_id;
  ciphertext = wire;
  nonce = [];
  client_msg_id = given_id input.client_msg_id;
}

module _ {E : Type 0} (c : Packages E) (o : TransportOptions) where
  unfoldable pub boxes : EncryptedSendInput → ℤ → ℕ → Try (List ℕ) → Try (List SendInput)
  unfolding device_send frame_body encrypt_outbound
  boxes input now n (gave seed) = gave (
      map (device_send input)
        (encrypt_outbound c (frame_body input.content false none) input.targets seed now n))
  boxes input now n (threw e) = threw e

  unfoldable pub one : EncryptedSendInput → Try (List ℕ) → Try (List SendInput)
  unfolding group_send
  one input (gave wire) = gave (group_send input wire ∷ [])
  one input (threw e) = threw e

  unfoldable pub to_group :
      EncryptedSendInput
      → Option String
      → ℤ
      → ℕ
      → E
      → Try (Option (List ℕ))
      → E × Try (List SendInput)
  unfolding boxes one frame_body encrypt_outbound_mls
  to_group input name now n e (threw err) = (e, threw err)
  to_group input name now n e (gave none) = (e, boxes input now n o.seed)
  to_group input name now n e (gave (some group_id)) =
      let (e', wire) = encrypt_outbound_mls c e (frame_body input.content true name) group_id now in
      (e', one input wire)

  unfoldable pub route :
      EncryptedSendInput
      → Option String
      → ℤ
      → ℕ
      → E
      → Bool
      → Option (String → Try (Option (List ℕ)))
      → E × Try (List SendInput)
  unfolding to_group boxes
  route input name now n e true (some resolve) = to_group input name now n e (resolve input.chat_id)
  route input name now n e _ _ = (e, boxes input now n o.seed)

  -- The sends that the transport is given, in order; the results are what it answers.
  unfoldable pub send : EncryptedSendInput → Option String → ℤ → ℕ → E → E × Try (List SendInput)
  unfolding route
  send input name now n e = route input name now n e o.has_mls o.resolve_chat_group_id
