-- ===== src/Push.antt =====
-- The push service, services/chat-push/src: handler and dispatch of lambda.ts, and what apns.ts and
-- fcm.ts make of an answer. The requests, the login of each service and JSON are parameters. The
-- records of an event are taken one after another.
pub mod Deletion
pub mod Targets
use mortstack.Prelude.{
  ℕ, String, Bool, true, false, not, ◌==◌, ◌&&◌, ◌||◌, Option, none, some, List, [], ◌∷◌, ◌++◌, map,
  nat_eq, keep_if, if◌then◌else◌,
}
use mortstack.Js.Pattern.{includes}
use mortstack.Js.Unique.{member, of_array}
use mortstack.Js.Value.{Value, object, text, property}
use mortstack.Js.Try.{Try, gave, threw}
use mortstack.Chat.{ChatDelivered}

pub data PushPlatform : Type 0 where
  apns : PushPlatform
  fcm : PushPlatform

-- A row of PushToken with its device and the device's account.
pub record PushToken : Type 0 where
  pub id : String
  pub platform : PushPlatform
  pub token : String
  pub app_bundle_id : String
  pub is_disabled : Bool
  pub device_id : String
  pub auth_user_id : String

abbrev pub is_apns : PushToken → Bool
is_apns t = elim t.platform [ apns ↦ true | fcm ↦ false ]

abbrev pub is_fcm : PushToken → Bool
is_fcm t = elim t.platform [ apns ↦ false | fcm ↦ true ]

-- `none` is a request that fails, and else there are the status and the body of an answer.
unfoldable pub is_dead_apns : Option (ℕ × String) → Bool
is_dead_apns none = false
is_dead_apns (some (status, body)) =
    nat_eq status 410 || (nat_eq status 400 && includes body "BadDeviceToken")

unfoldable pub is_dead_fcm : Option (ℕ × String) → Bool
is_dead_fcm none = false
is_dead_fcm (some (status, body)) =
    nat_eq status 404
    || (nat_eq status 400
        && (includes body "UNREGISTERED"
            || (includes body "INVALID_ARGUMENT"
                || includes body "registration-token-not-registered")))

abbrev pub is_selected : ChatDelivered → PushToken → Bool
is_selected ev t = not t.is_disabled && member ev.recipient_ids t.auth_user_id

abbrev pub is_detached : ChatDelivered → PushToken → Bool
is_detached ev t = not (member (of_array ev.attached_device_ids) t.device_id)

-- What the services do: the login of each, and the answer to a request for a token.
pub record Services : Type 0 where
  pub apns_jwt : Try String
  pub fcm_access : Try String
  pub ask_apns : ChatDelivered → PushToken → Option (ℕ × String)
  pub ask_fcm : ChatDelivered → PushToken → Option (ℕ × String)

unfoldable pub delete_tokens : List String → List PushToken → List PushToken
delete_tokens dead tokens = keep_if (λ t. not (member dead t.id)) tokens

-- Both services are asked also where one of them throws.
unfoldable pub cleaned_up :
    List PushToken
    → List PushToken × Option (List String)
    → List PushToken × Option (List String)
    → List PushToken × Option (List PushToken)
unfolding delete_tokens
cleaned_up tokens (a, some dead) (f, some dead') =
    (a ++ f, some (delete_tokens (dead ++ dead') tokens))
cleaned_up tokens (a, none) (f, d) = (a ++ f, none)
cleaned_up tokens (a, some dead) (f, none) = (a ++ f, none)

module _ (services : Services) where
  -- The tokens that are asked for, and the ids of the dead ones; `none` is an exception.
  unfoldable pub send_apns : List PushToken → ChatDelivered → List PushToken × Option (List String)
  unfolding is_dead_apns
  send_apns [] ev = ([], some [])
  send_apns (t ∷ ts) ev = elim services.apns_jwt [
    | gave jwt ↦ (
      t ∷ ts,
      some (map (λ r. r.id) (keep_if (λ r. is_dead_apns (services.ask_apns ev r)) (t ∷ ts))),
    )
    | threw err ↦ ([], none)
  ]

  unfoldable pub send_fcm : List PushToken → ChatDelivered → List PushToken × Option (List String)
  unfolding is_dead_fcm
  send_fcm [] ev = ([], some [])
  send_fcm (t ∷ ts) ev = elim services.fcm_access [
    | gave access ↦ if access == "" then ([], some []) else (
      t ∷ ts,
      some (map (λ r. r.id) (keep_if (λ r. is_dead_fcm (services.ask_fcm ev r)) (t ∷ ts))),
    )
    | threw err ↦ ([], none)
  ]

  -- The tokens that are asked for and the table afterwards; `none` is an exception, which leaves the
  -- table as it was.
  unfoldable pub dispatch :
      ChatDelivered → List PushToken → List PushToken × Option (List PushToken)
  unfolding send_apns send_fcm cleaned_up
  dispatch ev tokens =
      let targets = keep_if (is_detached ev) (keep_if (is_selected ev) tokens) in
      cleaned_up tokens (send_apns (keep_if is_apns targets) ev)
        (send_fcm (keep_if is_fcm targets) ev)

module _ (json : String → Option Value) (event : String → Option ChatDelivered) where
  unfoldable pub parse_envelope : Value → Option ChatDelivered
  parse_envelope (object o) = elim (property o "Type") [
    | text kind ↦ elim (property o "Message") [
      | text message ↦ if kind == "Notification" then event message else none
      | _ ↦ none
    ]
    | _ ↦ none
  ]
  parse_envelope _ = none

  unfoldable pub parse_record : String → Option ChatDelivered
  unfolding parse_envelope
  parse_record body = elim (json body) [ none ↦ none | some v ↦ parse_envelope v ]

module _ (services : Services) (json : String → Option Value)
    (event : String → Option ChatDelivered) where
  -- The ids of the records that failed, and the table; a record is its message id and its body.
  unfoldable pub handler : List (String × String) → List PushToken → List String × List PushToken
  unfolding parse_record dispatch
  handler [] tokens = ([], tokens)
  handler ((id, body) ∷ records) tokens = elim (parse_record json event body) [
    | none ↦ handler records tokens
    | some ev ↦ elim (dispatch services ev tokens).1 [
      | some left ↦ handler records left
      | none ↦ let (failures, left) = handler records tokens in (id ∷ failures, left)
    ]
  ]
