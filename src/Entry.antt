-- ===== src/Entry.antt =====
-- services/chat-ws/src/index.ts: the requests that the Worker takes. The checks of tokens and the
-- objects of users are parameters, as is the decoding of base64.
pub mod Internal
pub mod Secret
use mortstack.Prelude.{
  ℕ, String, Bool, true, false, ◌==◌, Option, none, some, List, [], ◌∷◌, length, nat_eq, not,
  if◌then◌else◌,
}
use mortstack.Js.Bits.{bit_or, bit_xor}
use mortstack.Js.Dict.{Dict, get}
use mortstack.Js.Try.{Try, gave, threw}
use mortstack.Js.Value.{Value}

-- Texts that are compared by units are lists of UTF-16 units.
pub record Request : Type 0 where
  pub method : String
  pub pathname : String
  pub is_upgrade : Bool
  pub secret : Option (List ℕ)
  pub protocols : List String
  pub did : Option String
  pub json : Try Value

pub record Reply : Type 0 where
  pub status : ℕ
  pub body : String

-- `acc |= got.charCodeAt(i) ^ expected.charCodeAt(i)`, for texts of one length
unfoldable pub differences : ℕ → List ℕ → List ℕ → ℕ
unfolding bit_or bit_xor
differences acc (g ∷ gs) (x ∷ xs) = differences (bit_or acc (bit_xor g x)) gs xs
differences acc _ _ = acc

unfoldable pub same_units : List ℕ → List ℕ → Bool
unfolding differences
same_units [] expected = false
same_units got expected =
    if not (nat_eq (length got) (length expected))
    then false
    else nat_eq (differences 0 got expected) 0

unfoldable pub verify_internal_auth : List ℕ → Request → Bool
unfolding same_units
verify_internal_auth expected r = elim r.secret [
  | none ↦ false
  | some got ↦ same_units got expected
]

-- What the Worker does with a request from a client: a reply of its own, or the request handed to the
-- object of a user, with a device.
pub data Outcome : Type 0 where
  replied : Reply → Outcome
  forwarded : String → Option String → Outcome
  crashed : String → Outcome

encoded_token : List String → String
encoded_token (scheme ∷ token ∷ rest) = if scheme == "bearer" then token else ""
encoded_token _ = ""

given_device : Option String → Option String
given_device none = none
given_device (some id) = if id == "" then none else some id

admit : Option String → Try (Option String) → Outcome
unfolding given_device
admit did (gave (some user)) = forwarded user (given_device did)
admit did (gave none) = replied (record { status = 401; body = "unauthorized" })
admit did (threw e) = crashed e

check_token : (String → Try (Option String)) → Option String → Try String → Outcome
unfolding admit
check_token verify did (threw e) = replied (record { status = 401; body = "bad token encoding" })
check_token verify did (gave token) = admit did (verify token)

-- `fetch` of a path outside `/internal/`; `protocols` is the subprotocol header, split at commas and
-- trimmed.
unfoldable pub fetch_upgrade :
    (String → Try String) → (String → Try (Option String)) → Request → Outcome
unfolding encoded_token check_token
fetch_upgrade decode verify r =
    let encoded = encoded_token r.protocols in
    if not r.is_upgrade
    then replied (record { status = 426; body = "chat-ws expects WebSocket upgrade" })
    else if encoded == ""
    then replied (record { status = 401; body = "missing token subprotocol" })
    else check_token verify r.did (decode encoded)
