-- ===== src/Examples/Pushes.antt =====
-- A delivery that is pushed to two phones, one of which is gone.
use mortstack.Prelude.{
  ℕ, String, ◌≡◌, refl, true, false, not, ◌&&◌, ◌==◌, Option, none, some, List, [], ◌∷◌, ◌++◌,
  keep_if, if◌then◌else◌,
}
use mortstack.Js.Pattern.{includes}
use mortstack.Js.Try.{gave, threw}
use mortstack.Js.Unique.{member, of_array}
use mortstack.Js.Value.{Value, object, field, end, text, property}
use mortstack.Chat.{ChatDelivered}
use mortstack.Push.{PushToken, apns, fcm, Services, is_apns, is_fcm, is_dead_fcm, dispatch, handler}
use mortstack.Push.Targets.{
  is_wanted, is_dead, is_asked, is_thrown, has_apns, has_fcm, dispatch_follows,
}

abbrev ask_apns : ChatDelivered → PushToken → Option (ℕ × String)
ask_apns ev t = if t.id == "gone" then some (410, "") else some (200, "")

abbrev ask_fcm : ChatDelivered → PushToken → Option (ℕ × String)
ask_fcm ev t = none

abbrev services : Services
services = record {
  apns_jwt = gave "jwt";
  fcm_access = gave "access";
  ask_apns = ask_apns;
  ask_fcm = ask_fcm;
}

abbrev delivered : ChatDelivered
delivered = record {
  chat_id = "chat";
  server_msg_id = "7";
  sender_id = "ann";
  recipient_ids = "bob" ∷ "cy" ∷ [];
  attached_device_ids = "laptop" ∷ [];
  ciphertext = 1 ∷ [];
  nonce = 2 ∷ [];
  ts = 9;
}

abbrev gone : PushToken
gone = record {
  id = "gone";
  platform = apns;
  token = "t1";
  app_bundle_id = "app";
  is_disabled = false;
  device_id = "old";
  auth_user_id = "bob";
}

abbrev connected : PushToken
connected = record gone { id = "connected"; device_id = "laptop" }

abbrev android : PushToken
android = record gone { id = "android"; platform = fcm; device_id = "phone"; auth_user_id = "cy" }

abbrev tokens : List PushToken
tokens = android ∷ gone ∷ connected ∷ []

dispatch_follows_example : dispatch services delivered tokens ≡ (
  keep_if (λ t. (is_wanted delivered t && is_apns t) && has_apns services.apns_jwt) tokens
      ++ keep_if (λ t. (is_wanted delivered t && is_fcm t) && has_fcm services.fcm_access) tokens,
  if is_thrown services delivered tokens
      then none
      else some (
          keep_if
            (λ t. not (is_asked services delivered t && is_dead services delivered t))
            tokens),
)
dispatch_follows_example =
    dispatch_follows services delivered tokens ((refl, (refl, tt)), ((refl, tt), (tt, tt)))

abbrev json : String → Option Value
json body =
    if body == "bad"
    then none
    else some (object (field "Type" (text "Notification") (field "Message" (text body) end)))

abbrev event : String → Option ChatDelivered
event message = some delivered

-- a record that cannot be read is not given back
handler_run :
    handler services json event (("m1", "bad") ∷ ("m2", "good") ∷ []) tokens
    ≡ ([], android ∷ connected ∷ [])
unfolding handler dispatch property member of_array
handler_run = refl

-- a login that throws gives the record back, and the table stays
handler_fails :
    handler
      (record services { fcm_access = threw "no account" })
      json
      event
      (("m1", "good") ∷ [])
      tokens
    ≡ ("m1" ∷ [], tokens)
unfolding handler dispatch property member of_array
handler_fails = refl

-- a message that FCM cannot read makes its token a dead one
unreadable_message : is_dead_fcm (some (400, "INVALID_ARGUMENT")) ≡ true
unfolding is_dead_fcm includes
unreadable_message = refl

-- where the login of FCM throws, APNs has been asked already
asked_before :
    (dispatch (record services { fcm_access = threw "no account" }) delivered tokens).0 ≡ gone ∷ []
unfolding dispatch member of_array
asked_before = refl
